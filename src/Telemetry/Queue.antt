-- ===== src/Telemetry/Queue.antt =====
-- internal/telemetry/queue.go. Each method holds the lock while it runs. A record is its tier and
-- whatever else it carries; the tier is any number, as in the source, where 0, 1 and 2 have names.
-- The counters are int64 and do not come near their end; the size of a batch is not negative.
pub mod Tiers
pub mod Counts
pub mod Histories
pub mod Lossless
pub mod Outcomes
use mcpdrill.Prelude.{
  ℕ, ◌+◌, ◌++◌, List, [], ◌∷◌, Bool, true, false, Option, none, some, ltb, leb, ◌==◌, if◌then◌else◌,
  length, take, drop, min,
}
use mcpdrill.Prelude.Int.{ℤ, is_nonpos, pos_part}

abbrev pub tier0_lifecycle : ℕ
tier0_lifecycle = 0

abbrev pub tier1_operation : ℕ
tier1_operation = 1

abbrev pub tier2_verbose : ℕ
tier2_verbose = 2

pub record TelemetryRecord {ℓ} (A : Type ℓ) : Type ℓ where
  pub tier : ℕ
  pub body : A

pub record BoundedQueue {ℓ} (A : Type ℓ) : Type ℓ where
  pub capacity : ℕ
  pub records : List (TelemetryRecord A)
  pub total_enqueued : ℕ
  pub total_dequeued : ℕ
  pub dropped_tier2 : ℕ
  pub dropped_tier1 : ℕ
  pub closed : Bool

pub record QueueStats : Type 0 where
  pub depth : ℕ
  pub capacity : ℕ
  pub total_enqueued : ℕ
  pub total_dequeued : ℕ
  pub dropped_tier2 : ℕ
  pub dropped_tier1 : ℕ

-- config.DefaultEventBufferSize
abbrev pub default_event_buffer_size : ℕ
default_event_buffer_size = 10000

module _ {ℓ} {A : Type ℓ} where
  unfoldable pub new_bounded_queue : ℤ → BoundedQueue A
  new_bounded_queue capacity = record {
    capacity = if is_nonpos capacity then default_event_buffer_size else pos_part capacity;
    records = [];
    total_enqueued = 0;
    total_dequeued = 0;
    dropped_tier2 = 0;
    dropped_tier1 = 0;
    closed = false;
  }

  -- The records without the first of a tier; `none` if there is no such record.
  unfoldable pub without_first : ℕ → List (TelemetryRecord A) → Option (List (TelemetryRecord A))
  without_first t [] = none
  without_first t (r ∷ rs) =
      if r.tier == t
      then some rs
      else elim (without_first t rs) [ none ↦ none | some rest ↦ some (r ∷ rest) ]

  unfoldable pub shed_tier2_locked : BoundedQueue A → BoundedQueue A × Bool
  shed_tier2_locked q = elim (without_first tier2_verbose q.records) [
    | none ↦ (q, false)
    | some rest ↦ (record q { records = rest; dropped_tier2 = q.dropped_tier2 + 1 }, true)
  ]

  unfoldable pub shed_tier1_locked : BoundedQueue A → BoundedQueue A × Bool
  shed_tier1_locked q = elim (without_first tier1_operation q.records) [
    | none ↦ (q, false)
    | some rest ↦ (record q { records = rest; dropped_tier1 = q.dropped_tier1 + 1 }, true)
  ]

  -- The append that each successful branch of `Enqueue` ends with.
  unfoldable pub push : BoundedQueue A → TelemetryRecord A → BoundedQueue A
  push q r = record q { records = q.records ++ r ∷ []; total_enqueued = q.total_enqueued + 1 }

  -- A full queue, after the attempt to shed a record of tier 1 for one of tier 1.
  unfoldable pub enqueue_for_tier1 :
      BoundedQueue A × Bool → TelemetryRecord A → BoundedQueue A × Bool
  unfolding push
  enqueue_for_tier1 (q, true) r = (push q r, true)
  enqueue_for_tier1 (q, false) r = (record q { dropped_tier1 = q.dropped_tier1 + 1 }, false)

  -- A full queue, after the attempt to shed a record of tier 2.
  unfoldable pub enqueue_full : BoundedQueue A × Bool → TelemetryRecord A → BoundedQueue A × Bool
  unfolding enqueue_for_tier1 shed_tier1_locked push
  enqueue_full (q, true) r = (push q r, true)
  enqueue_full (q, false) r =
      if r.tier == tier2_verbose
      then (record q { dropped_tier2 = q.dropped_tier2 + 1 }, false)
      else if r.tier == tier1_operation
      then enqueue_for_tier1 (shed_tier1_locked q) r
      else (push q r, true)

  unfoldable pub enqueue : BoundedQueue A → TelemetryRecord A → BoundedQueue A × Bool
  unfolding enqueue_full shed_tier2_locked push
  enqueue q r =
      if q.closed
      then (q, false)
      else if r.tier == tier0_lifecycle
      then (push q r, true)
      else if leb q.capacity (length q.records)
      then enqueue_full (shed_tier2_locked q) r
      else (push q r, true)

  unfoldable pub pop_front :
      BoundedQueue A → List (TelemetryRecord A) → BoundedQueue A × Option (TelemetryRecord A)
  pop_front q [] = (q, none)
  pop_front q (r ∷ rs) = (record q { records = rs; total_dequeued = q.total_dequeued + 1 }, some r)

  unfoldable pub try_dequeue : BoundedQueue A → BoundedQueue A × Option (TelemetryRecord A)
  unfolding pop_front
  try_dequeue q = pop_front q q.records

  unfoldable pub try_dequeue_batch : BoundedQueue A → ℕ → BoundedQueue A × List (TelemetryRecord A)
  try_dequeue_batch q n =
      let count = if ltb (length q.records) n then length q.records else n in
      if length q.records == 0 then (q, []) else (
        record q { records = drop count q.records; total_dequeued = q.total_dequeued + count },
        take count q.records,
      )

  -- Would the caller of `Dequeue` or `DequeueBatch` go to sleep? Once it would not, the call does
  -- what its `Try` counterpart does.
  unfoldable pub waits : BoundedQueue A → Bool
  waits q = if length q.records == 0 then (if q.closed then false else true) else false

  -- `none` is a caller that still sleeps.
  unfoldable pub dequeue : BoundedQueue A → Option (BoundedQueue A × Option (TelemetryRecord A))
  unfolding waits try_dequeue
  dequeue q = if waits q then none else some (try_dequeue q)

  unfoldable pub dequeue_batch :
      BoundedQueue A → ℕ → Option (BoundedQueue A × List (TelemetryRecord A))
  unfolding waits try_dequeue_batch
  dequeue_batch q n = if waits q then none else some (try_dequeue_batch q n)

  unfoldable pub len : BoundedQueue A → ℕ
  len q = length q.records

  unfoldable pub stats : BoundedQueue A → QueueStats
  stats q = record {
    depth = length q.records;
    capacity = q.capacity;
    total_enqueued = q.total_enqueued;
    total_dequeued = q.total_dequeued;
    dropped_tier2 = q.dropped_tier2;
    dropped_tier1 = q.dropped_tier1;
  }

  unfoldable pub close : BoundedQueue A → BoundedQueue A
  close q = record q { closed = true }

  unfoldable pub reset_drop_counts : BoundedQueue A → BoundedQueue A × (ℕ × ℕ)
  reset_drop_counts q =
      (record q { dropped_tier2 = 0; dropped_tier1 = 0 }, (q.dropped_tier2, q.dropped_tier1))

-- A call of the queue. A consumer that would sleep makes no call until it would not.
pub data Call {ℓ} (A : Type ℓ) : Type ℓ where
  enqueues : TelemetryRecord A → Call A
  dequeues : Call A
  dequeues_batch : ℕ → Call A
  resets : Call A
  closes : Call A

-- The queue after a history of calls, and what consumers were given, oldest first.
module _ {ℓ} {A : Type ℓ} where
  abbrev pub given : Option (TelemetryRecord A) → List (TelemetryRecord A)
  given none = []
  given (some r) = r ∷ []

  unfoldable pub step : BoundedQueue A → Call A → BoundedQueue A × List (TelemetryRecord A)
  step q (enqueues r) = ((enqueue q r).0, [])
  step q dequeues = ((try_dequeue q).0, given (try_dequeue q).1)
  step q (dequeues_batch n) = try_dequeue_batch q n
  step q resets = ((reset_drop_counts q).0, [])
  step q closes = (close q, [])

  unfoldable pub run : BoundedQueue A → List (Call A) → BoundedQueue A × List (TelemetryRecord A)
  run q [] = (q, [])
  run q (c ∷ cs) = let (q', out) = step q c in let (q'', rest) = run q' cs in (q'', out ++ rest)
