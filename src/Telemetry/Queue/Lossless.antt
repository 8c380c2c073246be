-- ===== src/Telemetry/Queue/Lossless.antt =====
-- The records of tier 0, which mark the life cycle of a run: what comes out, and in which order.
use mathlib.Core.List.{append_assoc, append-nil}
use mcpdrill.Prelude.{
  ℕ, ◌≡◌, ◌≢◌, ltb, refl, sym, subst, ◌++◌, List, [], ◌∷◌, Bool, true, false, some, ◌==◌, length,
  take-append-drop, arith, Bool-cases, inl, inr, if◌then◌else◌,
}
use mcpdrill.Telemetry.Queue.{
  BoundedQueue, TelemetryRecord, Call, enqueues, dequeues, dequeues_batch, resets, closes, push,
  pop_front, try_dequeue, try_dequeue_batch, close, reset_drop_counts, given, step, run,
  tier0_lifecycle, tier1_operation, tier2_verbose, without_first,
}
use mcpdrill.Telemetry.Queue.Tiers.{
  lifecycle, keep-append, has_tier, without_first-Without, Without,
}
use mcpdrill.Telemetry.Queue.Outcomes.{
  Enqueued, refused, stored, shed_tier2, dropped_tier2, shed_tier1, dropped_tier1, enqueue-Enqueued,
}

module _ {ℓ} {A : Type ℓ} where
  -- What a call offers to a queue that is closed or not.
  abbrev pub offer : Bool → Call A → List (TelemetryRecord A)
  offer false (enqueues r) = r ∷ []
  offer _ _ = []

  abbrev pub closed_after : Bool → Call A → Bool
  closed_after _ closes = true
  closed_after shut _ = shut

  -- The records that a history offers before the queue is closed.
  abbrev pub offers : Bool → List (Call A) → List (TelemetryRecord A)
  offers shut [] = []
  offers shut (c ∷ cs) = offer shut c ++ offers (closed_after shut c) cs

  shed_keeps :
      (t : ℕ) (rs rest : List (TelemetryRecord A))
      → t ≢ tier0_lifecycle
      → without_first t rs ≡ some rest
      → lifecycle rest ≡ lifecycle rs
  shed_keeps t rs rest z e =
      let (_, _, kept) = subst (Without t rs) e (without_first-Without t rs) in kept z

  append_keeps :
      (q : BoundedQueue A) (r : TelemetryRecord A) (rest : List (TelemetryRecord A))
      → q.closed ≡ false
      → lifecycle rest ≡ lifecycle q.records
      → lifecycle (rest ++ r ∷ []) ≡ lifecycle q.records ++ lifecycle (offer q.closed (enqueues r))
  append_keeps q r rest live e = rw (live, keep-append (has_tier tier0_lifecycle) rest (r ∷ []), e)

  enqueue_keeps :
      (q : BoundedQueue A) (r : TelemetryRecord A) {q' : BoundedQueue A} {done : Bool}
      → Enqueued q r q' done
      → lifecycle q'.records ≡ lifecycle q.records ++ lifecycle (offer q.closed (enqueues r))
  unfolding push
  enqueue_keeps q r (refused shut e d) = rw (shut, e, append-nil (lifecycle q.records))
  enqueue_keeps q r (stored live _ e d) = rw (e, append_keeps q r q.records live refl)
  enqueue_keeps q r (shed_tier2 rest live full z s e d) =
      rw (e, append_keeps q r rest live (shed_keeps tier2_verbose q.records rest (ground arith) s))
  enqueue_keeps q r (dropped_tier2 live full t s e d) =
      rw (e, live) (ground (arith, append-nil (lifecycle q.records)))
  enqueue_keeps q r (shed_tier1 rest live full t s2 s1 e d) =
      rw (
        e,
        append_keeps q r rest live (shed_keeps tier1_operation q.records rest (ground arith) s1),
      )
  enqueue_keeps q r (dropped_tier1 live full t s2 s1 e d) =
      rw (e, live) (ground (arith, append-nil (lifecycle q.records)))

  enqueue_closed :
      (q : BoundedQueue A) (r : TelemetryRecord A) {q' : BoundedQueue A} {done : Bool}
      → Enqueued q r q' done
      → q'.closed ≡ q.closed
  unfolding push
  enqueue_closed q r (refused _ e _) = ground arith
  enqueue_closed q r (stored _ _ e _) = ground arith
  enqueue_closed q r (shed_tier2 _ _ _ _ _ e _) = ground arith
  enqueue_closed q r (dropped_tier2 _ _ _ _ e _) = ground arith
  enqueue_closed q r (shed_tier1 _ _ _ _ _ _ e _) = ground arith
  enqueue_closed q r (dropped_tier1 _ _ _ _ _ e _) = ground arith

  -- What a call takes out and what it leaves.
  abbrev pub Flow : BoundedQueue A → Call A → BoundedQueue A × List (TelemetryRecord A) → Type ℓ
  Flow q c (q', out) =
      (lifecycle (out ++ q'.records) ≡ lifecycle q.records ++ lifecycle (offer q.closed c))
      × (q'.closed ≡ closed_after q.closed c)

  -- A call that offers nothing splits the records into those it gives and those it leaves.
  pop_splits :
      (q : BoundedQueue A) (rs : List (TelemetryRecord A))
      → q.records ≡ rs
      → (given (pop_front q rs).1 ++ (pop_front q rs).0.records ≡ rs)
        × ((pop_front q rs).0.closed ≡ q.closed)
  unfolding pop_front
  pop_splits q [] e = (e, refl)
  pop_splits q (r ∷ rs) e = (refl, refl)

  batch_splits :
      (q : BoundedQueue A) (n : ℕ)
      → ((try_dequeue_batch q n).1 ++ (try_dequeue_batch q n).0.records ≡ q.records)
        × ((try_dequeue_batch q n).0.closed ≡ q.closed)
  unfolding try_dequeue_batch
  batch_splits q n = elim (Bool-cases (length q.records == 0)) [
    | inl none_left ↦ rw (none_left, try_dequeue_batch) (refl, refl)
    | inr some_left ↦
        rw (some_left, try_dequeue_batch)
          (
            take-append-drop (if ltb (length q.records) n then length q.records else n) q.records,
            refl,
          )
  ]

  idle :
      (q : BoundedQueue A) (c : Call A) (rs : List (TelemetryRecord A))
      → offer q.closed c ≡ []
      → rs ≡ q.records
      → lifecycle rs ≡ lifecycle q.records ++ lifecycle (offer q.closed c)
  idle q c rs nothing same = rw (nothing, same, append-nil (lifecycle q.records))

  offer_nothing :
      (shut : Bool)
      → (offer shut dequeues ≡ [])
        × ((n : ℕ) → offer shut (dequeues_batch n) ≡ [])
        × (offer shut resets ≡ [])
        × (offer shut closes ≡ [])
  offer_nothing true = (refl, (λ n. refl), refl, refl)
  offer_nothing false = (refl, (λ n. refl), refl, refl)

  -- Two stretches of a history, one after the other.
  follows :
      (out left rest before off offs : List (TelemetryRecord A))
      → lifecycle (out ++ left) ≡ lifecycle before ++ lifecycle off
      → lifecycle rest ≡ lifecycle left ++ lifecycle offs
      → lifecycle (out ++ rest) ≡ lifecycle before ++ lifecycle (off ++ offs)
  follows out left rest before off offs h k =
      rw
        (
          keep-append (has_tier tier0_lifecycle) out rest,
          keep-append (has_tier tier0_lifecycle) off offs,
          k,
          sym (append_assoc (lifecycle out) (lifecycle left) (lifecycle offs)),
          sym (keep-append (has_tier tier0_lifecycle) out left),
          h,
          append_assoc (lifecycle before) (lifecycle off) (lifecycle offs),
        )
        refl

  pub step-Flow : (q : BoundedQueue A) (c : Call A) → Flow q c (step q c)
  unfolding step try_dequeue reset_drop_counts close
  step-Flow q (enqueues r) =
      (enqueue_keeps q r (enqueue-Enqueued q r), enqueue_closed q r (enqueue-Enqueued q r))
  step-Flow q dequeues =
      let (splits, same) = pop_splits q q.records refl in
      let (nothing, _, _, _) = offer_nothing q.closed in (idle q dequeues _ nothing splits, same)
  step-Flow q (dequeues_batch n) =
      let (splits, same) = batch_splits q n in
      let (_, nothing, _, _) = offer_nothing q.closed in
      (idle q (dequeues_batch n) _ (nothing n) splits, same)
  step-Flow q resets =
      let (_, _, nothing, _) = offer_nothing q.closed in
      (idle q resets q.records nothing refl, refl)
  step-Flow q closes =
      let (_, _, _, nothing) = offer_nothing q.closed in
      (idle q closes q.records nothing refl, refl)

  -- The records of tier 0 that consumers are given, and then those still in the queue, are those
  -- that were in the queue and then those offered before it was closed, in that order: none is lost,
  -- however full the queue is, none is repeated, and none overtakes another.
  pub run-lifecycle :
      (q : BoundedQueue A) (cs : List (Call A))
      → lifecycle ((run q cs).1 ++ (run q cs).0.records)
        ≡ lifecycle q.records ++ lifecycle (offers q.closed cs)
  unfolding run
  run-lifecycle q [] = sym (append-nil (lifecycle q.records))
  run-lifecycle q (c ∷ cs) =
      let (flows, shuts) = step-Flow q c in
      let q' = (step q c).0 in
      let rest = (run q' cs).1 in
      let end = (run q' cs).0 in
      rw (append_assoc (step q c).1 rest end.records) (
        follows (step q c).1 q'.records (rest ++ end.records) q.records (offer q.closed c)
          (offers (closed_after q.closed c) cs) flows
          (subst
            (λ shut.
              lifecycle (rest ++ end.records) ≡ lifecycle q'.records ++ lifecycle (offers shut cs))
            shuts (run-lifecycle q' cs)))
