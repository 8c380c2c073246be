-- ===== src/Scheduler/Registry.antt =====
-- internal/controlplane/scheduler/registry.go: the workers, and how much each can take at present.
pub mod Saturation
pub mod Membership
use mcpdrill.Prelude.{
  ℕ, ◌+◌, ◌++◌, ◌*◌, List, [], Bool, true, false, ◌&&◌, ◌||◌, Option, none, some, ltb, leb,
  if◌then◌else◌, Str, codes, Dict, lookup, erase, insert, values, update_at, length, ◌∷◌,
}
use mcpdrill.Prelude.Hex.{to_hex}
use mcpdrill.Scheduler.Types.{HostInfo, WorkerCapacity, WorkerHealth, WorkerInfo}

pub data RegistryError : Type 0 where
  worker_not_found registry_closed : RegistryError

pub data Result {ℓ} (A : Type ℓ) : Type ℓ where
  ok : A → Result A
  err : RegistryError → Result A

pub record Registry : Type 0 where
  pub workers : Dict WorkerInfo
  pub counter : ℕ
  pub closed : Bool

unfoldable pub new_registry : Registry
new_registry = record { workers = []; counter = 0; closed = false }

unfoldable pub generate_worker_id : ℕ → ℕ → Str
generate_worker_id ts counter = codes "wkr_" ++ (to_hex ts ++ to_hex counter)

-- `ts` is the clock's reading for the id, `now` the one for the record.
unfoldable pub register_worker :
    Registry → HostInfo → WorkerCapacity → ℕ → ℕ → Registry × Result Str
register_worker r host_info capacity now ts =
    if r.closed
    then (r, err registry_closed)
    else (record r { workers = insert id worker r.workers; counter = r.counter + 1 }, ok id)
  where
    id : Str
    id = generate_worker_id ts (r.counter + 1)

    worker : WorkerInfo
    worker = record {
      worker_id = id;
      host_info = host_info;
      capacity = capacity;
      effective_capacity = capacity;
      saturated = false;
      registered_at = now;
      last_heartbeat = now;
      health = none;
    }

-- A share of the processor, in millionths of a percent.
abbrev pub percent : ℕ → ℕ
percent n = n * 1000000

abbrev pub no_capacity : WorkerCapacity
no_capacity = record { max_vus = 0; max_concurrent_ops = 0; max_rps = 0 }

unfoldable pub update_effective_capacity : WorkerInfo → WorkerInfo
update_effective_capacity worker = elim worker.health [
  | none ↦ record worker { saturated = false; effective_capacity = worker.capacity }
  | some h ↦
      if worker.saturated
      then (if ltb h.cpu_percent (percent 80) && ltb h.active_vus worker.capacity.max_vus
          then record worker { saturated = false; effective_capacity = worker.capacity }
          else record worker { effective_capacity = no_capacity })
      else (if ltb (percent 90) h.cpu_percent || leb worker.capacity.max_vus h.active_vus
          then record worker { saturated = true; effective_capacity = no_capacity }
          else record worker { effective_capacity = worker.capacity })
]

-- What a heartbeat does to the worker's record. A `nil` report keeps the last one.
unfoldable pub beat : Option WorkerHealth → ℕ → WorkerInfo → WorkerInfo
unfolding update_effective_capacity
beat none now w = update_effective_capacity (record w { last_heartbeat = now })
beat (some h) now w = update_effective_capacity (record w { last_heartbeat = now; health = some h })

unfoldable pub heartbeat : Registry → Str → Option WorkerHealth → ℕ → Registry × Result (Unit {0})
heartbeat r id health now =
    if r.closed then (r, err registry_closed) else elim (lookup id r.workers) [
      | none ↦ (r, err worker_not_found)
      | some w ↦ (record r { workers = update_at id (beat health now) r.workers }, ok tt)
    ]

unfoldable pub get_worker : Registry → Str → Result WorkerInfo
get_worker r id =
    if r.closed
    then err registry_closed
    else elim (lookup id r.workers) [ none ↦ err worker_not_found | some w ↦ ok w ]

unfoldable pub list_workers : Registry → List WorkerInfo
list_workers r = values r.workers

unfoldable pub remove_worker : Registry → Str → Registry × Result (Unit {0})
remove_worker r id = if r.closed then (r, err registry_closed) else elim (lookup id r.workers) [
  | none ↦ (r, err worker_not_found)
  | some w ↦ (record r { workers = erase id r.workers }, ok tt)
]

unfoldable pub worker_count : Registry → ℕ
worker_count r = length r.workers

unfoldable pub close : Registry → Registry
close r = if r.closed then r else record r { workers = []; closed = true }

-- A call of the registry, with the clock's readings.
pub data Call : Type 0 where
  registers : HostInfo → WorkerCapacity → ℕ → ℕ → Call
  heartbeats : Str → Option WorkerHealth → ℕ → Call
  removes : Str → Call
  closes : Call

unfoldable pub step : Registry → Call → Registry
step r (registers host_info capacity now ts) = (register_worker r host_info capacity now ts).0
step r (heartbeats id health now) = (heartbeat r id health now).0
step r (removes id) = (remove_worker r id).0
step r closes = close r

unfoldable pub run : Registry → List Call → Registry
run r [] = r
run r (c ∷ cs) = run (step r c) cs
