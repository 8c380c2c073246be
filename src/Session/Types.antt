-- ===== src/Session/Types.antt =====
-- internal/session/types.go: a session and its expiry. Times are milliseconds; Go's zero time is
-- none, and a term that is not positive is zero.
use mcpdrill.Prelude.{
  ℕ, ◌+◌, Bool, true, false, ◌||◌, Option, none, some, [], ltb, ◌==◌, if◌then◌else◌, Str,
}

pub data SessionState : Type 0 where
  creating : SessionState
  active : SessionState
  idle : SessionState
  expired : SessionState
  closed : SessionState

pub record SessionInfo : Type 0 where
  pub id : Str
  pub vu_id : Str
  pub state : SessionState
  pub created_at : ℕ
  pub last_used_at : ℕ
  pub expires_at : Option ℕ
  pub idle_expires_at : Option ℕ
  pub operation_count : ℕ
  pub has_connection : Bool

abbrev deadline : ℕ → ℕ → Option ℕ
deadline term now = if term == 0 then none else some (now + term)

unfoldable pub new_session_info : Str → Bool → ℕ → ℕ → ℕ → SessionInfo
new_session_info id has_connection ttl_ms max_idle_ms now = record {
  id = id;
  vu_id = [];
  state = active;
  created_at = now;
  last_used_at = now;
  expires_at = deadline ttl_ms now;
  idle_expires_at = deadline max_idle_ms now;
  operation_count = 0;
  has_connection = has_connection;
}

unfoldable pub touch : ℕ → ℕ → SessionInfo → SessionInfo
touch max_idle_ms now s = record s {
  last_used_at = now;
  operation_count = s.operation_count + 1;
  idle_expires_at = if max_idle_ms == 0 then s.idle_expires_at else some (now + max_idle_ms);
}

abbrev pub is_past : ℕ → Option ℕ → Bool
is_past now none = false
is_past now (some t) = ltb t now

abbrev pub is_expired : ℕ → SessionInfo → Bool
is_expired now s = is_past now s.expires_at || is_past now s.idle_expires_at

abbrev pub is_closed : SessionState → Bool
is_closed closed = true
is_closed _ = false

abbrev pub is_over : SessionState → Bool
is_over closed = true
is_over expired = true
is_over _ = false
