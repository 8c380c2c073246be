-- ===== src/Session/Modes/Churn.antt =====
-- internal/session/modes.go: the modes that make sessions anew, for every request or at intervals.
-- `Acquire` of the churn mode is `acquire_begin` and, where that must create a session,
-- `acquire_finish`. An interval that is not positive is zero.
pub mod Rotation
use mcpdrill.Prelude.{
  ℕ, ◌+◌, List, [], ◌∷◌, Bool, true, false, not, ◌&&◌, ◌||◌, Option, none, some, ltb, leb,
  if◌then◌else◌, Str, Dict, lookup, insert, erase, update_at,
}
use mcpdrill.Session.Types.{SessionState, active, idle, closed, is_expired, is_closed}
use mcpdrill.Session.Modes.Heap.{Heap, set_state, allocate, take_up, close_connection}

pub record PerRequestMode : Type 0 where
  pub heap : Heap
  pub is_shut : Bool
  pub total_created : ℕ
  pub closings : List ℕ

-- `id` is none if the handshake fails.
unfoldable pub acquire_new : PerRequestMode → Str → Option Str → ℕ → PerRequestMode × Option ℕ
acquire_new m vu none now = (m, none)
acquire_new m vu (some id) now = if m.is_shut then (m, none) else (
  record m { heap = allocate id vu 0 0 now m.heap; total_created = m.total_created + 1 },
  some m.heap.next,
)

-- `Release`, and `Invalidate`.
unfoldable pub release_new : PerRequestMode → ℕ → PerRequestMode
release_new m r = record m {
  heap = set_state r closed m.heap;
  closings = close_connection m.heap r m.closings;
}

unfoldable pub close_new : PerRequestMode → PerRequestMode
close_new m = record m { is_shut = true }

pub record ChurnSession : Type 0 where
  pub session : ℕ
  pub created_at : ℕ
  pub op_count : ℕ

pub record ChurnMode : Type 0 where
  pub ttl_ms : ℕ
  pub max_idle_ms : ℕ
  pub churn_interval : ℕ
  pub churn_interval_ops : ℕ
  pub use_ops_based : Bool
  pub heap : Heap
  pub sessions : Dict ChurnSession
  pub session_to_vu : Dict Str
  pub is_shut : Bool
  pub total_created : ℕ
  pub total_evicted : ℕ
  pub closings : List ℕ

-- The numbers are the intervals of the configuration, in milliseconds and in operations.
unfoldable pub new_churn_mode : ℕ → ℕ → ℕ → ℕ → Heap → ChurnMode
new_churn_mode ttl_ms max_idle_ms interval_ms interval_ops heap =
    let by_ops = ltb 0 interval_ops in
    let by_time = not by_ops && ltb 0 interval_ms in
    record {
      ttl_ms = ttl_ms;
      max_idle_ms = max_idle_ms;
      churn_interval = if by_time then interval_ms else 0;
      churn_interval_ops = if by_ops then interval_ops else if by_time then 0 else 1;
      use_ops_based = not by_time;
      heap = heap;
      sessions = [];
      session_to_vu = [];
      is_shut = false;
      total_created = 0;
      total_evicted = 0;
      closings = [];
    }

abbrev pub forget_session : ChurnMode → Str → Option Str → ChurnMode
forget_session m id none = m
forget_session m id (some vu) = record m {
  sessions = erase vu m.sessions;
  session_to_vu = erase id m.session_to_vu;
}

unfoldable pub invalidate : ChurnMode → ℕ → ChurnMode
invalidate m r =
    let id = (m.heap.at r).id in
    record (forget_session m id (lookup id m.session_to_vu)) {
      heap = set_state r closed m.heap;
      closings = close_connection m.heap r m.closings;
      total_evicted = m.total_evicted + 1;
    }

pub data Found : Type 0 where
  refused_closed : Found
  has : ℕ → Found
  must_create : Found

abbrev pub should_churn : ChurnMode → ChurnSession → ℕ → Bool
should_churn m cs now =
    if m.use_ops_based
    then leb m.churn_interval_ops cs.op_count
    else leb (cs.created_at + m.churn_interval) now

abbrev pub gives_up : ChurnMode → ChurnSession → ℕ → Bool
gives_up m cs now =
    should_churn m cs now
    || is_expired now (m.heap.at cs.session)
    || is_closed (m.heap.at cs.session).state

unfoldable pub resume : ChurnMode → Option ChurnSession → ℕ → ChurnMode × Found
unfolding invalidate
resume m none now = (m, must_create)
resume m (some cs) now =
    if gives_up m cs now
    then (invalidate m cs.session, must_create)
    else (record m { heap = take_up cs.session m.max_idle_ms now m.heap }, has cs.session)

unfoldable pub acquire_begin : ChurnMode → Str → ℕ → ChurnMode × Found
unfolding resume
acquire_begin m vu now =
    if m.is_shut then (m, refused_closed) else resume m (lookup vu m.sessions) now

unfoldable pub create : ChurnMode → Str → Str → ℕ → ChurnMode
create m vu id now = record m { heap = allocate id vu m.ttl_ms m.max_idle_ms now m.heap }

unfoldable pub acquire_finish : ChurnMode → Str → ℕ → ℕ → ChurnMode
acquire_finish m vu r now =
    let cs : ChurnSession = record { session = r; created_at = now; op_count = 0 } in
    record m {
      sessions = insert vu cs m.sessions;
      session_to_vu = insert (m.heap.at r).id vu m.session_to_vu;
      total_created = m.total_created + 1;
    }

abbrev pub count_op : ChurnSession → ChurnSession
count_op cs = record cs { op_count = cs.op_count + 1 }

abbrev pub count_for : Option Str → Dict ChurnSession → Dict ChurnSession
count_for none m = m
count_for (some vu) m = update_at vu count_op m

unfoldable pub release : ChurnMode → ℕ → ChurnMode
release m r =
    let idles = record m { heap = set_state r idle m.heap } in
    if m.is_shut
    then m
    else if m.use_ops_based
    then record idles { sessions = count_for (lookup (m.heap.at r).id m.session_to_vu) m.sessions }
    else idles

unfoldable pub close_all : Dict ChurnSession → ChurnMode → ChurnMode
close_all [] m = m
close_all ((vu, cs) ∷ rest) m = close_all rest (record m {
  heap = set_state cs.session closed m.heap;
  closings = close_connection m.heap cs.session m.closings;
})

unfoldable pub close : ChurnMode → ChurnMode
unfolding close_all
close m =
    if m.is_shut
    then m
    else record (close_all m.sessions m) { is_shut = true; sessions = []; session_to_vu = [] }
