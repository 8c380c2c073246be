-- ===== src/Worker/Shipper/Steps.antt =====
-- Each step of the shipper keeps what it took.
use mcpdrill.Prelude.{
  ◌+◌, ◌≡◌, refl, sym, ◌∙◌, ◌++◌, List, [], ◌∷◌, Bool, true, false, ◌||◌, leb, if_cases, length,
  append_nil, arith, Str, lookup, erase, insert, erase-IsKeyed, insert-IsKeyed,
}
use mcpdrill.Worker.Shipper.{
  TelemetryItem, Answers, TelemetryShipper, begin_close, finish_close, ship_batch, flush, or_nil,
  add_item, receive_from, receive, tick, cancel, Step, ships, begins_close, finishes_close,
  receives, ticks, cancels, step,
}
use mcpdrill.Worker.Shipper.Kept.{records_of, receive_from-records_of, flush-records_of}
use mcpdrill.Worker.Shipper.Ships.{
  taken_of, refusal, IsSound, ship-records_of, ship-refused, ship-IsSound,
}

module _ (accepts : Answers) (s : TelemetryShipper) (h : IsSound s) where
  add_item-IsSound : (i : TelemetryItem) → s.stopped ≡ false → IsSound (add_item accepts i s)
  unfolding add_item
  add_item-IsSound i runs =
      let k = i.run_id in
      let os = or_nil (lookup k s.batches) ++ (i.outcome ∷ []) in
      if_cases IsSound (leb s.batch_size (length os))
        (record s { batches = erase k s.batches; outbox = ship_batch accepts k os s.outbox })
        (record s { batches = insert k os s.batches })
        (λ full. record {
          keyed = erase-IsKeyed k s.batches h.keyed;
          shuts = h.shuts;
          calm = h.calm;
          flushed = λ e. cc (e, runs);
          emptied = λ e d. cc (e, runs);
        })
        (λ room. record {
          keyed = insert-IsKeyed k os s.batches h.keyed;
          shuts = h.shuts;
          calm = h.calm;
          flushed = λ e. cc (e, runs);
          emptied = λ e d. cc (e, runs);
        })

  flush-IsSound : IsSound (flush accepts s)
  unfolding flush
  flush-IsSound = record {
    keyed = tt;
    shuts = h.shuts;
    calm = h.calm;
    flushed = λ e. refl;
    emptied = h.emptied;
  }

closed_or_drains : (b d : Bool) → (b || d) ≡ true → d ≡ false → b ≡ true
closed_or_drains b d e f = ground arith

receive_from-IsSound :
    (accepts : Answers) (is : List TelemetryItem) (s : TelemetryShipper)
    → IsSound s
    → s.buffer ≡ is
    → s.stopped ≡ false
    → IsSound (receive_from accepts is s)
unfolding receive_from flush
receive_from-IsSound accepts [] s h e runs =
    if_cases IsSound (s.buffer_closed || s.draining) (record (flush accepts s) { stopped = true }) s
      (λ ends. record {
        keyed = tt;
        shuts = h.shuts;
        calm = h.calm;
        flushed = λ e'. refl;
        emptied = λ e' d. (h.shuts (closed_or_drains s.buffer_closed s.draining ends d), e);
      })
      (λ waits. h)
receive_from-IsSound accepts (i ∷ is) s h e runs =
    add_item-IsSound accepts (record s { buffer = is })
      (record {
        keyed = h.keyed;
        shuts = h.shuts;
        calm = h.calm;
        flushed = λ e'. cc (e', runs);
        emptied = λ e' d. cc (e', runs);
      })
      i runs

module _ (accepts : Answers) (s : TelemetryShipper) (h : IsSound s) where
  pub step-IsSound : (t : Step) → IsSound (step accepts t s)
  unfolding step begin_close finish_close receive tick cancel
  step-IsSound (ships i) = ship-IsSound i s h
  step-IsSound begins_close = record {
    keyed = h.keyed;
    shuts = λ e. refl;
    calm = h.calm;
    flushed = h.flushed;
    emptied = λ e d. (refl, (h.emptied e d).1);
  }
  step-IsSound finishes_close =
      if_cases IsSound s.closed (record s { buffer_closed = true }) s
        (λ shut. record {
          keyed = h.keyed;
          shuts = λ e. shut;
          calm = h.calm;
          flushed = h.flushed;
          emptied = h.emptied;
        })
        (λ still_open. h)
  step-IsSound receives =
      if_cases IsSound s.stopped s (receive_from accepts s.buffer s) (λ ended. h)
        (λ runs. receive_from-IsSound accepts s.buffer s h refl runs)
  step-IsSound ticks =
      if_cases IsSound (s.stopped || s.draining) s (flush accepts s) (λ ended. h)
        (λ runs. flush-IsSound accepts s h)
  step-IsSound cancels = record {
    keyed = h.keyed;
    shuts = h.shuts;
    calm = h.calm;
    flushed = h.flushed;
    emptied = λ e d. cc d;
  }

  pub step-records_of :
      (r : Str) (t : Step) → records_of r (step accepts t s) ≡ records_of r s ++ taken_of r t s
  unfolding step begin_close finish_close receive tick cancel
  step-records_of r (ships i) = ship-records_of i s h r
  step-records_of r begins_close = sym (append_nil (records_of r s))
  step-records_of r finishes_close =
      if_cases (λ s'. records_of r s' ≡ records_of r s ++ []) s.closed
        (record s { buffer_closed = true }) s (λ shut. sym (append_nil (records_of r s)))
        (λ still_open. sym (append_nil (records_of r s)))
  step-records_of r receives =
      if_cases (λ s'. records_of r s' ≡ records_of r s ++ []) s.stopped s
        (receive_from accepts s.buffer s) (λ ended. sym (append_nil (records_of r s)))
        (λ runs.
          receive_from-records_of accepts r s.buffer s refl h.keyed
          ∙ sym (append_nil (records_of r s)))
  step-records_of r ticks =
      if_cases (λ s'. records_of r s' ≡ records_of r s ++ []) (s.stopped || s.draining) s
        (flush accepts s) (λ ended. sym (append_nil (records_of r s)))
        (λ runs. flush-records_of accepts r s h.keyed ∙ sym (append_nil (records_of r s)))
  step-records_of r cancels = sym (append_nil (records_of r s))

-- Only `Ship` counts what it refuses.
module _ (accepts : Answers) where
  add_item-dropped_count :
      (i : TelemetryItem) (s : TelemetryShipper)
      → (add_item accepts i s).dropped_count ≡ s.dropped_count
  unfolding add_item
  add_item-dropped_count i s =
      let os = or_nil (lookup i.run_id s.batches) ++ (i.outcome ∷ []) in
      if_cases (λ s'. s'.dropped_count ≡ s.dropped_count) (leb s.batch_size (length os))
        (record s {
          batches = erase i.run_id s.batches;
          outbox = ship_batch accepts i.run_id os s.outbox;
        })
        (record s { batches = insert i.run_id os s.batches }) (λ full. refl) (λ room. refl)

  receive_from-dropped_count :
      (is : List TelemetryItem) (s : TelemetryShipper)
      → (receive_from accepts is s).dropped_count ≡ s.dropped_count
  unfolding receive_from flush
  receive_from-dropped_count [] s =
      if_cases (λ s'. s'.dropped_count ≡ s.dropped_count) (s.buffer_closed || s.draining)
        (record (flush accepts s) { stopped = true }) s (λ ends. refl) (λ waits. refl)
  receive_from-dropped_count (i ∷ is) s = add_item-dropped_count i (record s { buffer = is })

  pub step-refusal :
      (t : Step) (s : TelemetryShipper)
      → IsSound s
      → (step accepts t s).dropped_count ≡ s.dropped_count + refusal t s
  unfolding step begin_close finish_close receive tick cancel flush
  step-refusal (ships i) s h = ship-refused i s h
  step-refusal begins_close s h = omega arith
  step-refusal finishes_close s h =
      if_cases (λ s'. s'.dropped_count ≡ s.dropped_count + 0) s.closed
        (record s { buffer_closed = true }) s (λ shut. omega arith) (λ still_open. omega arith)
  step-refusal receives s h =
      if_cases (λ s'. s'.dropped_count ≡ s.dropped_count + 0) s.stopped s
        (receive_from accepts s.buffer s) (λ ended. omega arith)
        (λ runs. receive_from-dropped_count s.buffer s ∙ omega arith)
  step-refusal ticks s h =
      if_cases (λ s'. s'.dropped_count ≡ s.dropped_count + 0) (s.stopped || s.draining) s
        (flush accepts s) (λ ended. omega arith) (λ runs. omega arith)
  step-refusal cancels s h = omega arith
