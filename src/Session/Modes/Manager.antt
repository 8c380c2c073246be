-- ===== src/Session/Modes/Manager.antt =====
-- internal/session/manager.go, and the pool mode of modes.go. Whether the configuration has an adapter
-- and a transport is a flag each.
use mcpdrill.Prelude.{
  ℕ, Bool, true, false, not, Option, none, some, if◌then◌else◌, List, Str, str_eq, codes,
}
use mcpdrill.Prelude.Int.{ℤ, is_nonpos, pos_part}
use mcpdrill.Session.Types.{SessionInfo, new_session_info}
use mcpdrill.Session.Pool.{
  SessionPool, new_session_pool, Acquired, acquire, add, cancel_reservation, release, close,
  close_connection,
}
use mcpdrill.Session.Modes.Heap.{Heap}
use mcpdrill.Session.Modes.Reuse.{ReuseMode, new_reuse_mode}
use mcpdrill.Session.Modes.Churn.{PerRequestMode, ChurnMode, new_churn_mode}

pub record PoolMode : Type 0 where
  pub pool : SessionPool
  pub is_shut : Bool

-- `Acquire` until the pool answers; it sleeps if the pool tells it to wait.
unfoldable pub pool_acquire : PoolMode → Bool → ℕ → PoolMode × Acquired
pool_acquire m is_done now =
    if m.is_shut
    then (m, Acquired.refused_closed)
    else let r = acquire m.pool is_done now in (record m { pool = r.0 }, r.1)

-- What a caller does that was told to create a session; the id is none if the handshake fails.
unfoldable pub pool_create : PoolMode → Option Str → ℕ → PoolMode × Option SessionInfo
pool_create m none now = (record m { pool = cancel_reservation m.pool }, none)
pool_create m (some id) now =
    let s = new_session_info id true m.pool.ttl_ms m.pool.max_idle_ms now in
    (record m { pool = add m.pool s }, some s)

unfoldable pub pool_release : PoolMode → SessionInfo → ℕ → PoolMode
pool_release m s now = record m {
  pool =
      if m.is_shut
      then record m.pool { closings = close_connection s m.pool.closings }
      else release m.pool s now;
}

unfoldable pub pool_close : PoolMode → PoolMode
pool_close m = if m.is_shut then m else record { pool = close m.pool; is_shut = true }

pub record SessionConfig : Type 0 where
  pub mode : Str
  pub pool_size : ℤ
  pub ttl_ms : ℕ
  pub max_idle_ms : ℕ
  pub churn_interval_ms : ℕ
  pub churn_interval_ops : ℕ
  pub has_transport_config : Bool
  pub has_adapter : Bool

pub data Handler : Type 0 where
  reuses : ReuseMode → Handler
  per_request : PerRequestMode → Handler
  pools : PoolMode → Handler
  churns : ChurnMode → Handler

pub data ManagerError : Type 0 where
  invalid_config : ManagerError
  adapter_required : ManagerError
  transport_config_required : ManagerError
  pool_size_not_positive : ManagerError
  unknown_session_mode : ManagerError

pub data Created : Type 0 where
  manager : Handler → Created
  failed : ManagerError → Created

abbrev pub handler_for : Heap → SessionConfig → Created
handler_for heap c =
    if str_eq c.mode (codes "reuse")
    then manager (reuses (new_reuse_mode c.ttl_ms c.max_idle_ms heap))
    else if str_eq c.mode (codes "per_request")
    then manager (
        per_request
          (record { heap = heap; is_shut = false; total_created = 0; closings = List.[] }))
    else if str_eq c.mode (codes "pool")
    then (if is_nonpos c.pool_size
        then failed pool_size_not_positive
        else manager (
            pools (record {
              pool = new_session_pool (pos_part c.pool_size) c.ttl_ms c.max_idle_ms;
              is_shut = false;
            })))
    else if str_eq c.mode (codes "churn")
    then manager (
        churns
          (new_churn_mode c.ttl_ms c.max_idle_ms c.churn_interval_ms c.churn_interval_ops heap))
    else failed unknown_session_mode

-- The configuration is none for a nil pointer.
unfoldable pub new_manager : Heap → Option SessionConfig → Created
new_manager heap none = failed invalid_config
new_manager heap (some c) =
    if not c.has_adapter
    then failed adapter_required
    else if not c.has_transport_config
    then failed transport_config_required
    else handler_for heap c
