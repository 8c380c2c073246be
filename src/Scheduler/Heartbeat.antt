-- ===== src/Scheduler/Heartbeat.antt =====
-- internal/controlplane/scheduler/heartbeat_detector.go and heartbeat_monitor.go: one round of the
-- monitor, which drops the workers that have gone silent. The goroutine and its ticker are left out:
-- a round is one call of `check_workers`. It takes the locks of the registry and of the lease manager
-- anew for each step, so other calls may come between the steps: these are its pauses. Readings of the clock are `clock 0`, `clock 1`, …, one for
-- each call of `NowMs` in the round.
pub mod Detection
pub mod Revoked
pub mod Round
pub mod Checks
use mcpdrill.Prelude.{
  ℕ, suc, ◌+◌, ◌/◌, ◌++◌, List, [], ◌∷◌, Bool, true, false, Option, none, some, if◌then◌else◌, Str,
  Dict, values,
}
use mcpdrill.Prelude.Int.{ℤ, pos, is_nonpos, pos_part, sub_ℕ, ltb_ℤ}
use mcpdrill.Scheduler.Types.{WorkerInfo}
use mcpdrill.Scheduler.Registry.{Registry, list_workers, remove_worker}
use mcpdrill.Scheduler.Registry as Registry
use mcpdrill.Scheduler.Leases as Leases
use mcpdrill.Scheduler.Leases.{
  LeaseManager, list_worker_run_ids, revoke_worker_leases, expire_leases,
}

-- `age > timeoutMs`, where the age may be negative.
abbrev pub is_lost : ℤ → ℕ → WorkerInfo → Bool
is_lost timeout_ms now w = ltb_ℤ timeout_ms (sub_ℕ now w.last_heartbeat)

unfoldable pub lost_ids : ℤ → ℕ → List WorkerInfo → List Str
lost_ids timeout_ms now [] = []
lost_ids timeout_ms now (w ∷ ws) =
    if is_lost timeout_ms now w
    then w.worker_id ∷ lost_ids timeout_ms now ws
    else lost_ids timeout_ms now ws

-- `none` is the error for a detector with no registry.
unfoldable pub detect_lost_workers : Option Registry → ℤ → ℕ → Option (List Str)
unfolding lost_ids
detect_lost_workers none timeout_ms now = none
detect_lost_workers (some r) timeout_ms now = some (lost_ids timeout_ms now (list_workers r))

-- The monitor with what it works on. `calls` are the calls of `onWorkerLost` so far, latest last.
pub record Monitor : Type 0 where
  pub registry : Registry
  pub lease_manager : LeaseManager
  pub timeout_ns : ℕ
  pub interval_ns : ℕ
  pub has_callback : Bool
  pub calls : List (Str × List Str)

abbrev pub default_heartbeat_timeout : ℕ
default_heartbeat_timeout = 30000000000

abbrev pub default_monitor_interval : ℕ
default_monitor_interval = 10000000000

unfoldable pub new_heartbeat_monitor : Registry → LeaseManager → ℤ → ℤ → Monitor
new_heartbeat_monitor r lm timeout interval = record {
  registry = r;
  lease_manager = lm;
  timeout_ns = if is_nonpos timeout then default_heartbeat_timeout else pos_part timeout;
  interval_ns = if is_nonpos interval then default_monitor_interval else pos_part interval;
  has_callback = false;
  calls = [];
}

unfoldable pub set_on_worker_lost : Monitor → Monitor
set_on_worker_lost m = record m { has_callback = true }

-- What follows on the removal from the registry: the callback, unless the removal failed.
notify : Monitor → Str → List Str → Registry.Result (Unit {0}) → Monitor
notify m id affected (Registry.err e) = m
notify m id affected (Registry.ok _) =
    if m.has_callback then record m { calls = m.calls ++ (id, affected) ∷ [] } else m

-- What others do between two steps of the round: calls of the registry, and of the lease manager.
pub record Pause : Type 0 where
  pub on_registry : List Registry.Call
  pub on_leases : List Leases.Call

unfoldable pub pass : Pause → Monitor → Monitor
pass others m = record m {
  registry = Registry.run m.registry others.on_registry;
  lease_manager = Leases.run m.lease_manager others.on_leases;
}

-- The pauses of the turn of a dead worker: before its runs are listed, before its leases are revoked
-- and before it is removed. What the callback of the turn itself does, such as issuing leases, and
-- what others do during it, stands in the first pause of the next turn or in that before the expiry.
pub record Pauses : Type 0 where
  pub before_list : Pause
  pub before_revoke : Pause
  pub before_remove : Pause

unfoldable pub handle_dead_worker : Monitor → Pauses → Str → ℕ → Monitor
unfolding notify pass
handle_dead_worker m others id now =
    let m1 = pass others.before_list m in
    let affected = list_worker_run_ids m1.lease_manager id in
    let m2 = pass others.before_revoke m1 in
    let (lm, _) = revoke_worker_leases m2.lease_manager id now in
    let m3 = pass others.before_remove (record m2 { lease_manager = lm }) in
    let (r, removed) = remove_worker m3.registry id in
    notify (record m3 { registry = r }) id affected removed

unfoldable pub handle_all : (ℕ → ℕ) → (ℕ → Pauses) → Monitor → List Str → Monitor
handle_all clock others m [] = m
handle_all clock others m (id ∷ ids) =
    handle_all (λ i. clock (suc i)) (λ i. others (suc i))
      (handle_dead_worker m (others 0) id (clock 0)) ids

expire_stale : Monitor → ℕ → Monitor
expire_stale m now = record m { lease_manager = (expire_leases m.lease_manager now).0 }

unfoldable pub check_workers : Monitor → (ℕ → ℕ) → (ℕ → Pauses) → Pause → ℕ → Monitor
unfolding handle_all expire_stale pass
check_workers m clock others before_expiry expire_at =
    elim (detect_lost_workers (some m.registry) (pos (m.timeout_ns / 1000000)) (clock 0)) [
      | none ↦ m
      | some dead ↦
          expire_stale (pass before_expiry (handle_all (λ i. clock (suc i)) others m dead))
            expire_at
    ]
