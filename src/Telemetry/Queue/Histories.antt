-- ===== src/Telemetry/Queue/Histories.antt =====
-- What every history of calls of the queue keeps: the bound on tiers 1 and 2, and the sum of the
-- counters.
use mcpdrill.Prelude.{
  ap, ◌⊎◌, zero, ℕ, suc, ◌+◌, ◌≤◌, ◌≡◌, ◌≢◌, refl, subst, ◌++◌, List, [], ◌∷◌, Bool, true, false,
  some, ltb, length, length-append, length-drop, drop, arith, inl, inr, if◌then◌else◌,
}
use mcpdrill.Prelude.Int.{ℤ}
use mcpdrill.Telemetry.Queue.{
  BoundedQueue, TelemetryRecord, Call, enqueues, dequeues, dequeues_batch, resets, closes, push,
  pop_front, try_dequeue, try_dequeue_batch, close, reset_drop_counts, step, run, without_first,
  new_bounded_queue,
}
use mcpdrill.Telemetry.Queue.Tiers.{without_first-Without, Without}
use mcpdrill.Telemetry.Queue.Outcomes.{
  Enqueued, refused, stored, shed_tier2, dropped_tier2, shed_tier1, dropped_tier1, enqueue-Enqueued,
}
use mcpdrill.Telemetry.Queue.Lossless.{offer, offers, closed_after, step-Flow}
use mcpdrill.Telemetry.Queue.Counts.{in_tier, push_counts, moved_counts}

module _ {ℓ} {A : Type ℓ} where
  -- How many records of tiers 1 and 2 there are.
  abbrev pub sheddable : List (TelemetryRecord A) → ℕ
  sheddable rs = in_tier 1 rs + in_tier 2 rs

  abbrev pub IsBounded : BoundedQueue A → Type 0
  IsBounded q = sheddable q.records ≤ q.capacity

  shed_one :
      (t : ℕ) (rs rest : List (TelemetryRecord A))
      → without_first t rs ≡ some rest
      → length rs ≡ suc (length rest)
  shed_one t rs rest e = (subst (Without t rs) e (without_first-Without t rs)).0

  sheddable-length : (rs : List (TelemetryRecord A)) → sheddable rs ≤ length rs
  sheddable-length [] = omega arith
  sheddable-length (r ∷ rs) = ground (arith, sheddable-length rs)

  push_at_most :
      (rs : List (TelemetryRecord A)) (r : TelemetryRecord A)
      → sheddable (rs ++ r ∷ []) ≤ suc (sheddable rs)
  push_at_most rs r = ground (arith, push_counts rs r 1, push_counts rs r 2)

  moved_at_most :
      (t : ℕ) (rs rest : List (TelemetryRecord A)) (r : TelemetryRecord A)
      → (t ≡ 1) ⊎ (t ≡ 2)
      → without_first t rs ≡ some rest
      → sheddable (rest ++ r ∷ []) ≤ sheddable rs
  moved_at_most t rs rest r h e =
      ground (arith, moved_counts t 1 rs rest r e, moved_counts t 2 rs rest r e)

  Enqueued-IsBounded :
      (q : BoundedQueue A) (r : TelemetryRecord A) {q' : BoundedQueue A} {done : Bool}
      → IsBounded q
      → Enqueued q r q' done
      → IsBounded q'
  unfolding push
  Enqueued-IsBounded q r b (refused _ e _) = ground arith
  Enqueued-IsBounded q r b (stored _ (inl room) e _) =
      rw e (omega (arith, push_at_most q.records r, sheddable-length q.records))
  Enqueued-IsBounded q r b (stored _ (inr other) e _) =
      rw e (ground (arith, push_counts q.records r 1, push_counts q.records r 2))
  Enqueued-IsBounded q r b (shed_tier2 rest _ full z s e d) =
      rw e (omega (arith, moved_at_most 2 q.records rest r (inr refl) s))
  Enqueued-IsBounded q r b (dropped_tier2 _ _ _ _ e _) = ground arith
  Enqueued-IsBounded q r b (shed_tier1 rest _ full t s2 s e d) =
      rw e (omega (arith, moved_at_most 1 q.records rest r (inl refl) s))
  Enqueued-IsBounded q r b (dropped_tier1 _ _ _ _ _ e _) = ground arith

  drop_fewer : (n u : ℕ) (rs : List (TelemetryRecord A)) → in_tier u (drop n rs) ≤ in_tier u rs
  drop_fewer zero u rs = omega arith
  drop_fewer (suc n) u [] = omega arith
  drop_fewer (suc n) u (r ∷ rs) = ground (arith, drop_fewer n u rs)

  pop-IsBounded :
      (q : BoundedQueue A) (rs : List (TelemetryRecord A))
      → q.records ≡ rs
      → IsBounded q
      → IsBounded (pop_front q rs).0
  unfolding pop_front
  pop-IsBounded q [] e b = b
  pop-IsBounded q (r ∷ rs) e b = ground (arith, ap sheddable e)

  step-IsBounded : (q : BoundedQueue A) (c : Call A) → IsBounded q → IsBounded (step q c).0
  unfolding step try_dequeue try_dequeue_batch reset_drop_counts close
  step-IsBounded q (enqueues r) b = Enqueued-IsBounded q r b (enqueue-Enqueued q r)
  step-IsBounded q dequeues b = pop-IsBounded q q.records refl b
  step-IsBounded q (dequeues_batch n) b =
      let count = if ltb (length q.records) n then length q.records else n in
      ground (arith, drop_fewer count 1 q.records, drop_fewer count 2 q.records)
  step-IsBounded q resets b = b
  step-IsBounded q closes b = b

  run-IsBounded : (q : BoundedQueue A) (cs : List (Call A)) → IsBounded q → IsBounded (run q cs).0
  unfolding run
  run-IsBounded q [] b = b
  run-IsBounded q (c ∷ cs) b = run-IsBounded (step q c).0 cs (step-IsBounded q c b)

  -- In a queue that began empty, there are never more records of tiers 1 and 2 than its capacity.
  pub run_new-IsBounded :
      (capacity : ℤ) (cs : List (Call A)) → IsBounded (run (new_bounded_queue capacity) cs).0
  unfolding new_bounded_queue
  run_new-IsBounded capacity cs = run-IsBounded (new_bounded_queue capacity) cs (omega arith)

  -- The records that were offered before the queue was closed, as its counters see them.
  abbrev pub seen : BoundedQueue A → ℕ
  seen q = q.total_dequeued + length q.records + q.dropped_tier2 + q.dropped_tier1

  -- The drops that calls of `ResetDropCounts` returned.
  abbrev pub reported : BoundedQueue A → Call A → ℕ
  reported q resets = (reset_drop_counts q).1.0 + (reset_drop_counts q).1.1
  reported q _ = 0

  unfoldable pub reports : BoundedQueue A → List (Call A) → ℕ
  reports q [] = 0
  reports q (c ∷ cs) = reported q c + reports (step q c).0 cs

  Enqueued-seen :
      (q : BoundedQueue A) (r : TelemetryRecord A) {q' : BoundedQueue A} {done : Bool}
      → Enqueued q r q' done
      → seen q' ≡ seen q + length (offer q.closed (enqueues r))
  unfolding push
  Enqueued-seen q r (refused shut e _) = rw (e, shut) (omega arith)
  Enqueued-seen q r (stored live _ e _) =
      rw (e, live) (omega (arith, length-append q.records (r ∷ [])))
  Enqueued-seen q r (shed_tier2 rest live _ _ s e _) =
      rw (e, live) (omega (arith, length-append rest (r ∷ []), shed_one 2 q.records rest s))
  Enqueued-seen q r (dropped_tier2 live _ _ _ e _) = rw (e, live) (omega arith)
  Enqueued-seen q r (shed_tier1 rest live _ _ _ s e _) =
      rw (e, live) (omega (arith, length-append rest (r ∷ []), shed_one 1 q.records rest s))
  Enqueued-seen q r (dropped_tier1 live _ _ _ _ e _) = rw (e, live) (omega arith)

  pop_sees :
      (q : BoundedQueue A) (rs : List (TelemetryRecord A))
      → q.records ≡ rs
      → seen (pop_front q rs).0 ≡ seen q
  unfolding pop_front
  pop_sees q [] e = refl
  pop_sees q (r ∷ rs) e = omega (arith, ap length e)

  batch_sees : (q : BoundedQueue A) (n : ℕ) → seen (try_dequeue_batch q n).0 ≡ seen q
  unfolding try_dequeue_batch
  batch_sees q n =
      let count = if ltb (length q.records) n then length q.records else n in
      ground (arith, length-drop count q.records)

  no_offer :
      (shut : Bool) (c : Call A)
      → ((r : TelemetryRecord A) → c ≢ enqueues r)
      → length (offer shut c) ≡ 0
  no_offer true c h = refl
  no_offer false (enqueues r) h = elim (h r refl) [ ]
  no_offer false dequeues h = refl
  no_offer false (dequeues_batch n) h = refl
  no_offer false resets h = refl
  no_offer false closes h = refl

  step_sees :
      (q : BoundedQueue A) (c : Call A)
      → seen (step q c).0 + reported q c ≡ seen q + length (offer q.closed c)
  unfolding step try_dequeue reset_drop_counts close
  step_sees q (enqueues r) = omega (arith, Enqueued-seen q r (enqueue-Enqueued q r))
  step_sees q dequeues =
      omega (arith, pop_sees q q.records refl, no_offer q.closed dequeues (λ r h. cc))
  step_sees q (dequeues_batch n) =
      omega (arith, batch_sees q n, no_offer q.closed (dequeues_batch n) (λ r h. cc))
  step_sees q resets = omega (arith, no_offer q.closed resets (λ r h. cc))
  step_sees q closes = omega (arith, no_offer q.closed closes (λ r h. cc))

  run_sees :
      (q : BoundedQueue A) (cs : List (Call A))
      → seen (run q cs).0 + reports q cs ≡ seen q + length (offers q.closed cs)
  unfolding run reports
  run_sees q [] = omega arith
  run_sees q (c ∷ cs) =
      let later =
        subst
          (λ shut.
            seen (run (step q c).0 cs).0 + reports (step q c).0 cs
            ≡ seen (step q c).0 + length (offers shut cs))
          (step-Flow q c).1 (run_sees (step q c).0 cs) in
      omega (
        arith,
        step_sees q c,
        later,
        length-append (offer q.closed c) (offers (closed_after q.closed c) cs),
      )

  -- Each record that a history offers a new queue before it is closed is dequeued, or still in the
  -- queue, or counted as dropped, by a counter that stands or by one that was read and reset.
  pub run_new-seen :
      (capacity : ℤ) (cs : List (Call A))
      → let q = new_bounded_queue {A = A} capacity in
        let q' = (run q cs).0 in
        length (offers false cs)
        ≡ q'.total_dequeued + length q'.records + q'.dropped_tier2 + q'.dropped_tier1 + reports q cs
  unfolding new_bounded_queue
  run_new-seen capacity cs = omega (arith, run_sees (new_bounded_queue capacity) cs)
