-- ===== src/Telemetry/Queue/Counts.antt =====
-- The counters of the queue, and how many records it holds.
use mcpdrill.Prelude.{
  ℕ, ◌+◌, ◌≤◌, ◌<◌, ◌≡◌, subst, ◌++◌, List, [], ◌∷◌, Bool, true, false, none, some, ◌==◌, length,
  count_if, count_if-append, arith,
}
use mcpdrill.Telemetry.Queue.{BoundedQueue, TelemetryRecord, push, enqueue, without_first}
use mcpdrill.Telemetry.Queue.Tiers.{has_tier, without_first-Without, Without}
use mcpdrill.Telemetry.Queue.Outcomes.{
  Enqueued, refused, stored, shed_tier2, dropped_tier2, shed_tier1, dropped_tier1, enqueue-Enqueued,
}

abbrev pub one_if : Bool → ℕ
one_if true = 1
one_if false = 0

module _ {ℓ} {A : Type ℓ} where
  abbrev pub in_tier : ℕ → List (TelemetryRecord A) → ℕ
  in_tier t = count_if (has_tier t)

  shed_counts :
      (t u : ℕ) (rs rest : List (TelemetryRecord A))
      → without_first t rs ≡ some rest
      → in_tier u rs ≡ in_tier u rest + one_if (t == u)
  shed_counts t u rs rest e =
      let (_, counts, _) = subst (Without t rs) e (without_first-Without t rs) in
      ground (arith, counts u)

  none_left : (t : ℕ) (rs : List (TelemetryRecord A)) → without_first t rs ≡ none → in_tier t rs ≡ 0
  none_left t rs e = (subst (Without t rs) e (without_first-Without t rs)).0

  -- Where the records of each tier are after a call of `Enqueue` on an open queue.
  abbrev pub Accounts : BoundedQueue A → TelemetryRecord A → BoundedQueue A → Type 0
  Accounts q r q' =
      (in_tier 0 q'.records ≡ in_tier 0 q.records + one_if (r.tier == 0))
      × (in_tier 1 q'.records + q'.dropped_tier1
          ≡ in_tier 1 q.records + q.dropped_tier1 + one_if (r.tier == 1))
      × (in_tier 2 q'.records + q'.dropped_tier2
          ≡ in_tier 2 q.records + q.dropped_tier2 + one_if (r.tier == 2))

  pub push_counts :
      (rs : List (TelemetryRecord A)) (r : TelemetryRecord A) (u : ℕ)
      → in_tier u (rs ++ r ∷ []) ≡ in_tier u rs + one_if (r.tier == u)
  push_counts rs r u = ground (arith, count_if-append (has_tier u) rs (r ∷ []))

  pub moved_counts :
      (t u : ℕ) (rs rest : List (TelemetryRecord A)) (r : TelemetryRecord A)
      → without_first t rs ≡ some rest
      → in_tier u (rest ++ r ∷ []) + one_if (t == u) ≡ in_tier u rs + one_if (r.tier == u)
  moved_counts t u rs rest r e = omega (arith, push_counts rest r u, shed_counts t u rs rest e)

  Enqueued-Accounts :
      (q : BoundedQueue A) (r : TelemetryRecord A) {q' : BoundedQueue A} {done : Bool}
      → q.closed ≡ false
      → Enqueued q r q' done
      → Accounts q r q'
  unfolding push
  Enqueued-Accounts q r live (refused shut e d) = ground arith
  Enqueued-Accounts q r live (stored _ _ e d) =
      let at0 = push_counts q.records r 0 in
      let at1 = push_counts q.records r 1 in
      let at2 = push_counts q.records r 2 in
      rw e (omega (arith, at0), omega (arith, at1), omega (arith, at2))
  Enqueued-Accounts q r live (shed_tier2 rest _ full z s e d) =
      let at0 = moved_counts 2 0 q.records rest r s in
      let at1 = moved_counts 2 1 q.records rest r s in
      let at2 = moved_counts 2 2 q.records rest r s in
      rw e (omega (arith, at0), omega (arith, at1), omega (arith, at2))
  Enqueued-Accounts q r live (dropped_tier2 _ full t s e d) = ground arith
  Enqueued-Accounts q r live (shed_tier1 rest _ full t s2 s e d) =
      let at0 = moved_counts 1 0 q.records rest r s in
      let at1 = moved_counts 1 1 q.records rest r s in
      let at2 = moved_counts 1 2 q.records rest r s in
      rw e (omega (arith, at0), omega (arith, at1), omega (arith, at2))
  Enqueued-Accounts q r live (dropped_tier1 _ full t s2 s1 e d) = ground arith

  -- An open queue loses sight of no record: after `Enqueue` each record of tier 1 or 2 that was in
  -- the queue or is offered is in the queue or newly counted as dropped from its own tier, and each
  -- record of tier 0 is in the queue.
  pub enqueue-Accounts :
      (q : BoundedQueue A) (r : TelemetryRecord A) → q.closed ≡ false → Accounts q r (enqueue q r).0
  enqueue-Accounts q r live = Enqueued-Accounts q r live (enqueue-Enqueued q r)

  priority :
      (q : BoundedQueue A) (r : TelemetryRecord A) {q' : BoundedQueue A} {done : Bool}
      → Enqueued q r q' done
      → q.dropped_tier1 < q'.dropped_tier1
      → (in_tier 2 q.records ≡ 0) × (r.tier ≡ 1) × (q.capacity ≤ length q.records)
  unfolding push
  priority q r (refused _ e _) h = ground arith
  priority q r (stored _ _ e _) h = ground arith
  priority q r (shed_tier2 _ _ _ _ _ e _) h = ground arith
  priority q r (dropped_tier2 _ _ _ _ e _) h = ground arith
  priority q r (shed_tier1 _ _ full t s2 _ e _) h = (none_left 2 q.records s2, t, full)
  priority q r (dropped_tier1 _ full t s2 _ e _) h = (none_left 2 q.records s2, t, full)

  -- `Enqueue` drops a record of tier 1 only from a full queue that holds no record of tier 2, and
  -- only for a record of tier 1.
  pub enqueue-priority :
      (q : BoundedQueue A) (r : TelemetryRecord A)
      → q.dropped_tier1 < (enqueue q r).0.dropped_tier1
      → (in_tier 2 q.records ≡ 0) × (r.tier ≡ 1) × (q.capacity ≤ length q.records)
  enqueue-priority q r h = priority q r (enqueue-Enqueued q r) h
