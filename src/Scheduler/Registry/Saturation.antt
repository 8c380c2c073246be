-- ===== src/Scheduler/Registry/Saturation.antt =====
-- The effective capacity of a worker, and the hysteresis of saturation.
use mcpdrill.Prelude.{
  ℕ, ◌+◌, ◌≤◌, ◌<◌, ◌≡◌, ◌⊎◌, List, [], ◌∷◌, true, false, Option, none, some, arith, Str, Dict,
  update_at, values, All, All-erase, if◌then◌else◌,
}
use mcpdrill.Scheduler.Types.{WorkerHealth, WorkerInfo}
use mcpdrill.Scheduler.Registry.{
  Registry, Call, registers, heartbeats, removes, closes, step, run, new_registry, register_worker,
  heartbeat, beat, update_effective_capacity, remove_worker, close, percent, no_capacity,
  generate_worker_id,
}

-- A saturated worker takes nothing, any other its whole capacity.
abbrev pub IsConsistent : WorkerInfo → Type 0
IsConsistent w = w.effective_capacity ≡ (if w.saturated then no_capacity else w.capacity)

-- A heartbeat moves its time, keeps who the worker is and what it registered with, and leaves the
-- effective capacity in line with the flag. With a report, a worker that is not saturated becomes so
-- exactly if its processor is above 90 % or it runs as many virtual users as it can; a saturated
-- one ceases to be exactly if the processor is below 80 % and it runs fewer. In between nothing
-- changes.
pub beat_lem :
    (h : WorkerHealth) (now : ℕ) (w : WorkerInfo)
    → let w' = beat (some h) now w in
      IsConsistent w'
      × (w'.last_heartbeat ≡ now)
      × (w'.worker_id ≡ w.worker_id)
      × (w'.capacity ≡ w.capacity)
      × (w'.health ≡ some h)
      × (w.saturated ≡ false
          → w'.saturated ≡ true
          → (percent 90 < h.cpu_percent) ⊎ (w.capacity.max_vus ≤ h.active_vus))
      × (w.saturated ≡ false
          → w'.saturated ≡ false
          → (h.cpu_percent ≤ percent 90) × (h.active_vus < w.capacity.max_vus))
      × (w.saturated ≡ true
          → w'.saturated ≡ false
          → (h.cpu_percent < percent 80) × (h.active_vus < w.capacity.max_vus))
      × (w.saturated ≡ true
          → w'.saturated ≡ true
          → (percent 80 ≤ h.cpu_percent) ⊎ (w.capacity.max_vus ≤ h.active_vus))
unfolding beat
beat_lem h now w = (
  ground arith,
  ground arith,
  ground arith,
  ground arith,
  ground arith,
  ground arith,
  ground arith,
  ground arith,
  ground arith,
)

beat-IsConsistent :
    (h : Option WorkerHealth) (now : ℕ) (w : WorkerInfo) → IsConsistent (beat h now w)
unfolding beat update_effective_capacity
beat-IsConsistent none now w = ground arith
beat-IsConsistent (some h) now w = ground arith

abbrev pub IsConsistentRegistry : Registry → Type 0
IsConsistentRegistry r = All IsConsistent (values r.workers)

beat_at-IsConsistent :
    (id : Str) (h : Option WorkerHealth) (now : ℕ) (m : Dict WorkerInfo)
    → All IsConsistent (values m)
    → All IsConsistent (values (update_at id (beat h now) m))
beat_at-IsConsistent id h now [] a = tt
beat_at-IsConsistent id h now ((k, w) ∷ m) a =
    (ground (arith, beat-IsConsistent h now w), beat_at-IsConsistent id h now m a.1)

step-IsConsistent :
    (r : Registry) (c : Call) → IsConsistentRegistry r → IsConsistentRegistry (step r c)
unfolding step register_worker heartbeat remove_worker close
step-IsConsistent r (registers host_info capacity now ts) a =
    ground (arith, All-erase IsConsistent (generate_worker_id ts (r.counter + 1)) r.workers a)
step-IsConsistent r (heartbeats id h now) a =
    ground (arith, beat_at-IsConsistent id h now r.workers a)
step-IsConsistent r (removes id) a = ground (arith, All-erase IsConsistent id r.workers a)
step-IsConsistent r closes a = ground arith

run-IsConsistent :
    (r : Registry) (cs : List Call) → IsConsistentRegistry r → IsConsistentRegistry (run r cs)
unfolding run
run-IsConsistent r [] a = a
run-IsConsistent r (c ∷ cs) a = run-IsConsistent (step r c) cs (step-IsConsistent r c a)

-- After any history of a new registry, each of its workers offers its whole registered capacity if
-- it is not saturated, and none at all if it is.
pub run_new-IsConsistent : (cs : List Call) → IsConsistentRegistry (run new_registry cs)
unfolding new_registry
run_new-IsConsistent cs = run-IsConsistent new_registry cs tt
