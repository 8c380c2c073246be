-- ===== src/Telemetry/Queue/Outcomes.antt =====
-- The six ways in which `Enqueue` ends.
use mcpdrill.Prelude.{
  ◌+◌, ◌<◌, ◌≤◌, ◌≡◌, ◌≢◌, ◌⊎◌, List, true, false, Bool, none, some, ◌==◌, leb, length, arith,
  Option-cases, Bool-cases, inl, inr,
}
use mcpdrill.Telemetry.Queue.{
  BoundedQueue, TelemetryRecord, without_first, shed_tier1_locked, push, enqueue_for_tier1, enqueue,
  tier0_lifecycle, tier1_operation, tier2_verbose,
}

pub data Enqueued {ℓ} {A : Type ℓ} (q : BoundedQueue A) (r : TelemetryRecord A)
    (q' : BoundedQueue A) (done : Bool) : Type ℓ where
  refused : q.closed ≡ true → q' ≡ q → done ≡ false → Enqueued q r q' done
  stored :
      q.closed ≡ false
      → (length q.records < q.capacity) ⊎ (r.tier ≢ tier1_operation) × (r.tier ≢ tier2_verbose)
      → q' ≡ push q r
      → done ≡ true
      → Enqueued q r q' done
  shed_tier2 :
      (rest : List (TelemetryRecord A))
      → q.closed ≡ false
      → q.capacity ≤ length q.records
      → r.tier ≢ tier0_lifecycle
      → without_first tier2_verbose q.records ≡ some rest
      → q' ≡ push (record q { records = rest; dropped_tier2 = q.dropped_tier2 + 1 }) r
      → done ≡ true
      → Enqueued q r q' done
  dropped_tier2 :
      q.closed ≡ false
      → q.capacity ≤ length q.records
      → r.tier ≡ tier2_verbose
      → without_first tier2_verbose q.records ≡ none
      → q' ≡ record q { dropped_tier2 = q.dropped_tier2 + 1 }
      → done ≡ false
      → Enqueued q r q' done
  shed_tier1 :
      (rest : List (TelemetryRecord A))
      → q.closed ≡ false
      → q.capacity ≤ length q.records
      → r.tier ≡ tier1_operation
      → without_first tier2_verbose q.records ≡ none
      → without_first tier1_operation q.records ≡ some rest
      → q' ≡ push (record q { records = rest; dropped_tier1 = q.dropped_tier1 + 1 }) r
      → done ≡ true
      → Enqueued q r q' done
  dropped_tier1 :
      q.closed ≡ false
      → q.capacity ≤ length q.records
      → r.tier ≡ tier1_operation
      → without_first tier2_verbose q.records ≡ none
      → without_first tier1_operation q.records ≡ none
      → q' ≡ record q { dropped_tier1 = q.dropped_tier1 + 1 }
      → done ≡ false
      → Enqueued q r q' done

module _ {ℓ} {A : Type ℓ} (q : BoundedQueue A) (r : TelemetryRecord A) where
  no_tier2 :
      q.closed ≡ false
      → r.tier ≢ tier0_lifecycle
      → q.capacity ≤ length q.records
      → without_first tier2_verbose q.records ≡ none
      → Enqueued q r (enqueue q r).0 (enqueue q r).1
  unfolding enqueue enqueue_for_tier1 shed_tier1_locked
  no_tier2 live z full e2 = elim (Bool-cases (r.tier == tier2_verbose)) [
    | inl verbose ↦ dropped_tier2 live full (ground arith) e2 (ground arith) (ground arith)
    | inr not2 ↦ elim (Bool-cases (r.tier == tier1_operation)) [
      | inl operation ↦ elim (Option-cases (without_first tier1_operation q.records)) [
        | inl e1 ↦ dropped_tier1 live full (ground arith) e2 e1 (ground arith) (ground arith)
        | inr (rest, e1) ↦
            shed_tier1 rest live full (ground arith) e2 e1 (ground arith) (ground arith)
      ]
      | inr not1 ↦ stored live (inr (ground arith, ground arith)) (ground arith) (ground arith)
    ]
  ]

  pub enqueue-Enqueued : Enqueued q r (enqueue q r).0 (enqueue q r).1
  unfolding enqueue
  enqueue-Enqueued = elim (Bool-cases q.closed) [
    | inl shut ↦ refused shut (ground arith) (ground arith)
    | inr live ↦ elim (Bool-cases (r.tier == tier0_lifecycle)) [
      | inl zeroth ↦ stored live (inr (ground arith, ground arith)) (ground arith) (ground arith)
      | inr other ↦ elim (Bool-cases (leb q.capacity (length q.records))) [
        | inr room ↦ stored live (inl (ground arith)) (ground arith) (ground arith)
        | inl full ↦ elim (Option-cases (without_first tier2_verbose q.records)) [
          | inl e2 ↦ no_tier2 live (ground arith) (ground arith) e2
          | inr (rest, e2) ↦
              shed_tier2 rest live (ground arith) (ground arith) e2 (ground arith) (ground arith)
        ]
      ]
    ]
  ]
