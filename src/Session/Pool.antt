-- ===== src/Session/Pool.antt =====
-- internal/session/pool.go, with `evictSession` of eviction.go. A session is in one place at a time,
-- so it is a value; the evictor's map is the ids that it tracks, and `closings` are the ids of the
-- connections that were closed, latest first. A caller that sleeps on the condition variable takes
-- its next step, `wake`, when it is woken. `max_size` is not negative: a negative one admits no more
-- than zero.
pub mod Capacity
pub mod Holders
use mcpdrill.Prelude.{
  ℕ, suc, ◌+◌, ◌-◌, ◌++◌, List, [], ◌∷◌, Bool, true, false, not, ◌||◌, Option, none, some, ltb,
  ◌==◌, if◌then◌else◌, length, map, Str, str_eq, Dict, lookup, erase, insert, values,
}
use mcpdrill.Session.Types.{
  SessionInfo, SessionState, active, idle, expired, closed, touch, is_expired, is_closed, is_over,
  is_past,
}

pub record SessionPool : Type 0 where
  pub max_size : ℕ
  pub ttl_ms : ℕ
  pub max_idle_ms : ℕ
  pub sessions : List SessionInfo
  pub in_use : Dict SessionInfo
  pub pending_creates : ℕ
  pub is_shut : Bool
  pub total_created : ℕ
  pub pool_waits : ℕ
  pub pool_timeouts : ℕ
  pub tracked : List Str
  pub closings : List Str

unfoldable pub new_session_pool : ℕ → ℕ → ℕ → SessionPool
new_session_pool max_size ttl_ms max_idle_ms = record {
  max_size = max_size;
  ttl_ms = ttl_ms;
  max_idle_ms = max_idle_ms;
  sessions = [];
  in_use = [];
  pending_creates = 0;
  is_shut = false;
  total_created = 0;
  pool_waits = 0;
  pool_timeouts = 0;
  tracked = [];
  closings = [];
}

abbrev pub set_state : SessionState → SessionInfo → SessionInfo
set_state st s = record s { state = st }

-- `closeWithLog`, if there is a connection.
abbrev pub close_connection : SessionInfo → List Str → List Str
close_connection s log = if s.has_connection then s.id ∷ log else log

abbrev pub close_connections : List SessionInfo → List Str → List Str
close_connections [] log = log
close_connections (s ∷ ss) log = close_connections ss (close_connection s log)

abbrev pub untrack : Str → List Str → List Str
untrack id [] = []
untrack id (j ∷ js) = if str_eq j id then untrack id js else j ∷ untrack id js

-- What an attempt to acquire finds.
pub data Acquired : Type 0 where
  got : SessionInfo → Acquired
  creates : Acquired
  waits : Acquired
  refused_closed : Acquired
  refused_timeout : Acquired

-- The attempt once the idle sessions were tried.
unfoldable pub reserve : SessionPool → SessionPool × Acquired
reserve p =
    if ltb (length p.sessions + length p.in_use + p.pending_creates) p.max_size
    then (record p { pending_creates = p.pending_creates + 1 }, creates)
    else (p, waits)

-- The scan of the idle sessions from the front, which drops those that are over, and what follows.
unfoldable pub attempt_from : SessionPool → ℕ → List SessionInfo → SessionPool × Acquired
unfolding reserve touch
attempt_from p now [] = reserve (record p { sessions = [] })
attempt_from p now (s ∷ ss) =
    let dropped =
      attempt_from
        (record p { tracked = untrack s.id p.tracked; closings = close_connection s p.closings })
        now ss in
    let s' = touch p.max_idle_ms now (set_state active s) in
    if is_expired now s || is_closed s.state
    then dropped
    else (record p { sessions = ss; in_use = insert s.id s' p.in_use }, got s')

unfoldable pub attempt : SessionPool → ℕ → SessionPool × Acquired
unfolding attempt_from
attempt p now = attempt_from p now p.sessions

abbrev count_wait : SessionPool × Acquired → SessionPool × Acquired
count_wait (p, waits) = (record p { pool_waits = p.pool_waits + 1 }, waits)
count_wait r = r

-- Before a caller sleeps it looks whether its context is done.
abbrev pub or_times_out : Bool → SessionPool × Acquired → SessionPool × Acquired
or_times_out true (p, waits) = (record p { pool_timeouts = p.pool_timeouts + 1 }, refused_timeout)
or_times_out is_done r = r

-- `Acquire` until it returns or first sleeps.
unfoldable pub acquire : SessionPool → Bool → ℕ → SessionPool × Acquired
unfolding attempt
acquire p is_done now =
    if p.is_shut then (p, refused_closed) else or_times_out is_done (count_wait (attempt p now))

-- `Acquire` when it is woken, until it returns or sleeps again. It does not look at the flag.
unfoldable pub wake : SessionPool → Bool → ℕ → SessionPool × Acquired
unfolding attempt
wake p is_done now = or_times_out is_done (attempt p now)

unfoldable pub add : SessionPool → SessionInfo → SessionPool
add p s = if p.is_shut then record p { closings = close_connection s p.closings } else record p {
  pending_creates = p.pending_creates - 1;
  in_use = insert s.id s p.in_use;
  total_created = p.total_created + 1;
  tracked = s.id ∷ untrack s.id p.tracked;
}

unfoldable pub cancel_reservation : SessionPool → SessionPool
cancel_reservation p = record p { pending_creates = p.pending_creates - 1 }

unfoldable pub release : SessionPool → SessionInfo → ℕ → SessionPool
unfolding touch
release p s now =
    let taken = record p { in_use = erase s.id p.in_use } in
    if p.is_shut
    then record p { closings = close_connection s p.closings }
    else if is_expired now s || is_over s.state
    then record taken { tracked = untrack s.id p.tracked; closings = close_connection s p.closings }
    else record taken { sessions = p.sessions ++ touch p.max_idle_ms now (set_state idle s) ∷ [] }

-- The idle sessions without the first of an id.
unfoldable pub without : Str → List SessionInfo → List SessionInfo
without id [] = []
without id (s ∷ ss) = if str_eq s.id id then ss else s ∷ without id ss

unfoldable pub remove : SessionPool → SessionInfo → SessionPool
unfolding without
remove p s = record p {
  in_use = erase s.id p.in_use;
  tracked = untrack s.id p.tracked;
  sessions = without s.id p.sessions;
  closings = close_connection s p.closings;
}

-- The callback of the evictor.
unfoldable pub remove_session : SessionPool → SessionInfo → SessionPool
unfolding without
remove_session p s = elim (lookup s.id p.in_use) [
  | some holder ↦ p
  | none ↦ record p { sessions = without s.id p.sessions; closings = close_connection s p.closings }
]

pub data EvictionReason : Type 0 where
  by_ttl : EvictionReason
  by_idleness : EvictionReason

abbrev is_idle : SessionState → Bool
is_idle idle = true
is_idle _ = false

abbrev is_active : SessionState → Bool
is_active active = true
is_active _ = false

-- Whether `evictSession`, when it looks again, still finds the reason.
abbrev pub is_due : EvictionReason → ℕ → SessionInfo → Bool
is_due by_idleness now s = if is_idle s.state then is_past now s.idle_expires_at else false
is_due by_ttl now s = if is_active s.state then false else is_past now s.expires_at

unfoldable pub evict_session : SessionPool → SessionInfo → EvictionReason → ℕ → SessionPool
unfolding remove_session
evict_session p s reason now =
    let untracked = record p { tracked = untrack s.id p.tracked } in
    if is_over s.state
    then untracked
    else if is_due reason now s
    then remove_session untracked (set_state expired s)
    else p

unfoldable pub close : SessionPool → SessionPool
close p = if p.is_shut then p else record p {
  is_shut = true;
  sessions = [];
  in_use = [];
  closings = close_connections (values p.in_use) (close_connections p.sessions p.closings);
}

unfoldable pub size : SessionPool → ℕ
size p = length p.sessions + length p.in_use

unfoldable pub available : SessionPool → ℕ
available p = length p.sessions
