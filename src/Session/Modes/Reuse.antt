-- ===== src/Session/Modes/Reuse.antt =====
-- internal/session/modes.go: the mode that keeps a session for each virtual user, with its evictor and
-- timers (eviction.go). What a method does in one hold of a lock is one function. `Acquire` is
-- `acquire_begin`; for a session that it found two reads of it, from which `is_given_up` decides, and
-- then `invalidate`, or `activate` and `touch_session`; and where it must create one `create`,
-- `acquire_finish` and then `track`, or `discard` of the new session with `activate` and
-- `touch_session` of the other. `evictSession` is `expire_due`, then `untrack` or `count_eviction`
-- and the callback `on_eviction`. A timer fires when the environment says so; one that is dropped
-- from the map is stopped for good. The map of the evictor holds the sessions by their ids.
pub mod Owned
pub mod Histories
use mcpdrill.Prelude.{
  ℕ, suc, ◌+◌, List, [], ◌∷◌, Bool, true, false, not, ◌&&◌, ◌||◌, Option, none, some, ltb, ◌==◌,
  if◌then◌else◌, Str, Dict, lookup, insert, erase,
}
use mcpdrill.Session.Types.{
  SessionInfo, SessionState, active, idle, expired, closed, touch, is_expired, is_over, is_past,
  new_session_info,
}
use mcpdrill.Session.Pool.{EvictionReason, by_ttl, by_idleness, is_due}
use mcpdrill.Session.Modes.Heap.{Heap, write, set_state, allocate, take_up, close_connection}

pub record SessionTimer : Type 0 where
  pub session : ℕ
  pub has_ttl : Bool
  pub has_idle : Bool
  pub stopped : Bool

pub record ReuseMode : Type 0 where
  pub ttl_ms : ℕ
  pub max_idle_ms : ℕ
  pub heap : Heap
  pub sessions : Dict ℕ
  pub session_to_vu : Dict Str
  pub timers : Dict SessionTimer
  pub tracked : Dict ℕ
  pub is_shut : Bool
  pub total_created : ℕ
  pub total_evicted : ℕ
  pub ttl_evictions : ℕ
  pub idle_evictions : ℕ
  pub reconnects : ℕ
  pub closings : List ℕ

unfoldable pub new_reuse_mode : ℕ → ℕ → Heap → ReuseMode
new_reuse_mode ttl_ms max_idle_ms heap = record {
  ttl_ms = ttl_ms;
  max_idle_ms = max_idle_ms;
  heap = heap;
  sessions = [];
  session_to_vu = [];
  timers = [];
  tracked = [];
  is_shut = false;
  total_created = 0;
  total_evicted = 0;
  ttl_evictions = 0;
  idle_evictions = 0;
  reconnects = 0;
  closings = [];
}

-- Both maps forget the user of a session, whose timer is stopped.
abbrev pub forget_user : ReuseMode → Str → Option Str → ReuseMode
forget_user m id none = m
forget_user m id (some vu) = record m {
  sessions = erase vu m.sessions;
  session_to_vu = erase id m.session_to_vu;
  timers = erase vu m.timers;
}

unfoldable pub forget : ReuseMode → ℕ → ReuseMode
forget m r = forget_user m (m.heap.at r).id (lookup (m.heap.at r).id m.session_to_vu)

unfoldable pub invalidate : ReuseMode → ℕ → ReuseMode
unfolding forget
invalidate m r =
    let f = forget m r in
    record f {
      tracked = erase (m.heap.at r).id m.tracked;
      heap = set_state r closed m.heap;
      closings = close_connection m.heap r m.closings;
      reconnects = m.reconnects + 1;
    }

pub data Begun : Type 0 where
  refused_closed : Begun
  has : ℕ → Begun
  must_create : Begun

abbrev begun_of : Option ℕ → Begun
begun_of none = must_create
begun_of (some r) = has r

-- What `Acquire` finds in the map, to create or to test.
unfoldable pub acquire_begin : ReuseMode → Str → Begun
acquire_begin m vu = if m.is_shut then refused_closed else begun_of (lookup vu m.sessions)

-- Whether `Acquire` gives up a session that it found, by its reads: whether it is past its time, and
-- then its state.
unfoldable pub is_given_up : Bool → SessionState → Bool
is_given_up past_time st = past_time || is_over st

unfoldable pub activate : ReuseMode → ℕ → ReuseMode
activate m r = record m { heap = set_state r active m.heap }

unfoldable pub touch_session : ReuseMode → ℕ → ℕ → ReuseMode
touch_session m r now = record m { heap = write r (touch m.max_idle_ms now (m.heap.at r)) m.heap }

-- The session that `createSession` makes has the reference that was next.
unfoldable pub create : ReuseMode → Str → Str → ℕ → ReuseMode
create m vu id now = record m { heap = allocate id vu m.ttl_ms m.max_idle_ms now m.heap }

abbrev new_session_timer : ReuseMode → ℕ → SessionTimer
new_session_timer m r = record {
  session = r;
  has_ttl = ltb 0 m.ttl_ms;
  has_idle = ltb 0 m.max_idle_ms;
  stopped = false;
}

-- Puts the new session in the maps, unless another call did so meanwhile: then that one is taken.
unfoldable pub acquire_finish : ReuseMode → Str → ℕ → ReuseMode × ℕ
acquire_finish m vu r = elim (lookup vu m.sessions) [
  | some existing ↦ (m, existing)
  | none ↦ (
    record m {
      sessions = insert vu r m.sessions;
      session_to_vu = insert (m.heap.at r).id vu m.session_to_vu;
      timers = insert vu (new_session_timer m r) m.timers;
    },
    r,
  )
]

-- The new session, where another one is taken, is closed.
unfoldable pub discard : ReuseMode → ℕ → ReuseMode
discard m r = record m {
  heap = set_state r closed m.heap;
  closings = close_connection m.heap r m.closings;
}

unfoldable pub track : ReuseMode → ℕ → ReuseMode
track m r = record m {
  tracked = if m.is_shut then m.tracked else insert (m.heap.at r).id r m.tracked;
  total_created = m.total_created + 1;
}

unfoldable pub release : ReuseMode → ℕ → ReuseMode
release m r = if m.is_shut then m else record m { heap = set_state r idle m.heap }

-- The sessions of the map are closed in turn.
unfoldable pub close_all : Dict ℕ → ReuseMode → ReuseMode
close_all [] m = m
close_all ((vu, r) ∷ rest) m =
    close_all rest (record m {
      heap = set_state r closed m.heap;
      closings = close_connection m.heap r m.closings;
    })

unfoldable pub close : ReuseMode → ReuseMode
unfolding close_all
close m = if m.is_shut then m else record (close_all m.sessions m) {
  is_shut = true;
  timers = [];
  sessions = [];
  session_to_vu = [];
}

unfoldable pub on_eviction : ReuseMode → ℕ → ReuseMode
unfolding forget
on_eviction m r =
    let f = forget m r in
    record f {
      closings = close_connection m.heap r m.closings;
      total_evicted = m.total_evicted + 1;
    }

-- What `evictSession` finds under the lock of the session.
pub data Verdict : Type 0 where
  gone : Verdict
  kept : Verdict
  evicted : Verdict

unfoldable pub expire_due : ReuseMode → ℕ → EvictionReason → ℕ → ReuseMode × Verdict
expire_due m r reason now =
    if is_over (m.heap.at r).state
    then (m, gone)
    else if is_due reason now (m.heap.at r)
    then (record m { heap = set_state r expired m.heap }, evicted)
    else (m, kept)

unfoldable pub untrack : ReuseMode → ℕ → ReuseMode
untrack m r = record m { tracked = erase (m.heap.at r).id m.tracked }

unfoldable pub count_eviction : ReuseMode → ℕ → EvictionReason → ReuseMode
unfolding untrack
count_eviction m r reason = record (untrack m r) {
  ttl_evictions = m.ttl_evictions + elim reason [ by_ttl ↦ 1 | by_idleness ↦ 0 ];
  idle_evictions = m.idle_evictions + elim reason [ by_ttl ↦ 0 | by_idleness ↦ 1 ];
}

abbrev pub is_active_state : SessionState → Bool
is_active_state active = true
is_active_state _ = false

abbrev pub is_idle_state : SessionState → Bool
is_idle_state idle = true
is_idle_state _ = false

abbrev stop_timer : ReuseMode → Str → SessionTimer → ReuseMode
stop_timer m vu t = record m { timers = insert vu (record t { stopped = true }) m.timers }

-- The timer for the term of a session fires: under its lock, whether it goes on and for which
-- session.
abbrev pub fire_ttl : ReuseMode → Str → Option SessionTimer → ReuseMode × Option ℕ
fire_ttl m vu none = (m, none)
fire_ttl m vu (some t) =
    if t.stopped || not t.has_ttl then (m, none) else (stop_timer m vu t, some t.session)

unfoldable pub on_ttl_expired : ReuseMode → Str → ReuseMode × Option ℕ
on_ttl_expired m vu = fire_ttl m vu (lookup vu m.timers)

-- And then, under the lock of the session; whether the callback follows.
unfoldable pub expire_by_ttl : ReuseMode → ℕ → ReuseMode × Bool
expire_by_ttl m r =
    if is_over (m.heap.at r).state
    then (m, false)
    else (record m { heap = set_state r expired m.heap }, not (is_active_state (m.heap.at r).state))

-- The timer for its idleness, which stops itself only after the session was expired.
abbrev pub fire_idle : Option SessionTimer → Option ℕ
fire_idle none = none
fire_idle (some t) = if t.stopped || not t.has_idle then none else some t.session

unfoldable pub on_idle_expired : ReuseMode → Str → Option ℕ
on_idle_expired m vu = fire_idle (lookup vu m.timers)

unfoldable pub expire_by_idleness : ReuseMode → ℕ → ReuseMode × Bool
expire_by_idleness m r =
    if is_idle_state (m.heap.at r).state
    then (record m { heap = set_state r expired m.heap }, true)
    else (m, false)

abbrev pub stop_own : ReuseMode → Str → ℕ → Option SessionTimer → ReuseMode
stop_own m vu r none = m
stop_own m vu r (some t) = if t.session == r then stop_timer m vu t else m

unfoldable pub stop_idle : ReuseMode → Str → ℕ → ReuseMode
stop_idle m vu r = stop_own m vu r (lookup vu m.timers)
