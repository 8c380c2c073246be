-- ===== src/Scheduler/Types.antt =====
-- internal/controlplane/scheduler/types.go and internal/types/worker.go. Times are milliseconds
-- since the epoch and do not come near the end of an int64. A share of the processor is a number of
-- millionths of a percent in place of a float64, which is enough to compare it with 80 and 90.
use mcpdrill.Prelude.{ℕ, Bool, Option, Str, ◌&&◌, ltb, leb, ◌||◌, ◌≤◌, ◌<◌, if◌then◌else◌, false}

pub data LeaseState : Type 0 where
  active revoked expired : LeaseState

-- Virtual users start, start + 1, …, end - 1; ids count from 0.
pub record VuidRange : Type 0 where
  pub start : ℕ
  pub end : ℕ

abbrev pub Covers : VuidRange → ℕ → Type 0
Covers r vu = (r.start ≤ vu) × (vu < r.end)

unfoldable pub overlaps : VuidRange → VuidRange → Bool
overlaps r other =
    if leb r.end r.start || leb other.end other.start
    then false
    else ltb r.start other.end && ltb other.start r.end

pub record Assignment : Type 0 where
  pub run_id : Str
  pub stage_id : Str
  pub vu_id_range : VuidRange

pub record Lease : Type 0 where
  pub lease_id : Str
  pub worker_id : Str
  pub assignment : Assignment
  pub state : LeaseState
  pub issued_at : ℕ
  pub expires_at : ℕ
  pub revoked_at : Option ℕ

pub record HostInfo : Type 0 where
  pub hostname : Str
  pub ip_addr : Str
  pub platform : Str

-- `max_rps` is carried along and never read by the scheduler.
pub record WorkerCapacity : Type 0 where
  pub max_vus : ℕ
  pub max_concurrent_ops : ℕ
  pub max_rps : ℕ

pub record WorkerHealth : Type 0 where
  pub cpu_percent : ℕ
  pub mem_bytes : ℕ
  pub active_vus : ℕ
  pub active_sessions : ℕ
  pub in_flight_ops : ℕ
  pub queue_depth : ℕ

pub record WorkerInfo : Type 0 where
  pub worker_id : Str
  pub host_info : HostInfo
  pub capacity : WorkerCapacity
  pub effective_capacity : WorkerCapacity
  pub saturated : Bool
  pub registered_at : ℕ
  pub last_heartbeat : ℕ
  pub health : Option WorkerHealth
