-- ===== src/Worker/Shipper/Closing.antt =====
-- What `Close` leaves.
use mcpdrill.Prelude.{
  ℕ, zero, suc, ◌≡◌, refl, sym, ap, subst, ◌∙◌, ◌++◌, List, [], ◌∷◌, true, false, ◌||◌, if_cases,
  if_true, length, leb, append_nil, All, Str, lookup, erase, insert,
}
use mcpdrill.Worker.Shipper.{
  TelemetryItem, Answers, TelemetryShipper, begin_close, finish_close, ship_batch, flush, or_nil,
  add_item, receive_from, receive, tick, Step, ships, begins_close, finishes_close, receives, ticks,
  cancels, step, run_steps, new_telemetry_shipper,
}
use mcpdrill.Worker.Shipper.Kept.{posted_of, pending_of, buffered_of, records_of}
use mcpdrill.Worker.Shipper.Ships.{IsSound, accepted_of, ship_cases}
use mcpdrill.Worker.Shipper.Steps.{step-IsSound}
use mcpdrill.Worker.Shipper.Histories.{run_steps-Accounts, new_telemetry_shipper-IsSound}

-- The goroutine turns to the buffer `n` times.
abbrev pub receive_times : ℕ → List Step
receive_times zero = []
receive_times (suc n) = receives ∷ receive_times n

abbrev pub close_and_receive : ℕ → List Step
close_and_receive n = begins_close ∷ finishes_close ∷ receive_times n

-- No step ends the context.
abbrev pub NoCancel : Step → Type 0
NoCancel (ships i) = Unit
NoCancel begins_close = Unit
NoCancel finishes_close = Unit
NoCancel receives = Unit
NoCancel ticks = Unit
NoCancel cancels = ⊥

-- What turning to the buffer leaves as it is.
record Alike (s s' : TelemetryShipper) : Type 0 where
  buffer : s'.buffer ≡ s.buffer
  buffer_closed : s'.buffer_closed ≡ s.buffer_closed
  draining : s'.draining ≡ s.draining

add_item-Alike :
    (accepts : Answers) (i : TelemetryItem) (s : TelemetryShipper) → Alike s (add_item accepts i s)
unfolding add_item
add_item-Alike accepts i s =
    let os = or_nil (lookup i.run_id s.batches) ++ (i.outcome ∷ []) in
    if_cases (Alike s) (leb s.batch_size (length os))
      (record s {
        batches = erase i.run_id s.batches;
        outbox = ship_batch accepts i.run_id os s.outbox;
      })
      (record s { batches = insert i.run_id os s.batches })
      (λ full. record { buffer = refl; buffer_closed = refl; draining = refl })
      (λ room. record { buffer = refl; buffer_closed = refl; draining = refl })

module _ (accepts : Answers) where
  receive_from-draining :
      (is : List TelemetryItem) (s : TelemetryShipper)
      → (receive_from accepts is s).draining ≡ s.draining
  unfolding receive_from flush
  receive_from-draining [] s =
      if_cases (λ s'. s'.draining ≡ s.draining) (s.buffer_closed || s.draining)
        (record (flush accepts s) { stopped = true }) s (λ ends. refl) (λ waits. refl)
  receive_from-draining (i ∷ is) s = (add_item-Alike accepts i (record s { buffer = is })).draining

  step-draining :
      (t : Step) (s : TelemetryShipper)
      → NoCancel t
      → IsSound s
      → (step accepts t s).draining ≡ s.draining
  unfolding step begin_close finish_close receive tick flush
  step-draining (ships i) s no_cancel h =
      ship_cases i s h (λ s'. s'.draining ≡ s.draining) (λ refuses. refl)
        (λ accepts_it still_open. refl)
  step-draining begins_close s no_cancel h = refl
  step-draining finishes_close s no_cancel h =
      if_cases (λ s'. s'.draining ≡ s.draining) s.closed (record s { buffer_closed = true }) s
        (λ shut. refl) (λ still_open. refl)
  step-draining receives s no_cancel h =
      if_cases (λ s'. s'.draining ≡ s.draining) s.stopped s (receive_from accepts s.buffer s)
        (λ ended. refl) (λ runs. receive_from-draining s.buffer s)
  step-draining ticks s no_cancel h =
      if_cases (λ s'. s'.draining ≡ s.draining) (s.stopped || s.draining) s (flush accepts s)
        (λ ended. refl) (λ runs. refl)
  step-draining cancels s no_cancel h = absurd no_cancel

  run_steps-draining :
      (ts : List Step) (s : TelemetryShipper)
      → All NoCancel ts
      → IsSound s
      → (run_steps accepts ts s).draining ≡ s.draining
  unfolding run_steps
  run_steps-draining [] s no_cancel h = refl
  run_steps-draining (t ∷ ts) s no_cancel h =
      run_steps-draining ts (step accepts t s) no_cancel.1 (step-IsSound accepts s h t)
      ∙ step-draining t s no_cancel.0 h

  stays_stopped :
      (n : ℕ) (s : TelemetryShipper)
      → s.stopped ≡ true
      → (run_steps accepts (receive_times n) s).stopped ≡ true
  unfolding run_steps step receive
  stays_stopped zero s e = e
  stays_stopped (suc n) s e =
      subst (λ s'. (run_steps accepts (receive_times n) s').stopped ≡ true)
        (sym (if_true s.stopped s (receive_from accepts s.buffer s) e)) (stays_stopped n s e)

  -- A closed buffer is empty after as many turns as it has entries, and the next turn is the last.
  empties :
      (is : List TelemetryItem) (s : TelemetryShipper)
      → s.buffer ≡ is
      → s.buffer_closed ≡ true
      → (run_steps accepts (receive_times (suc (length is))) s).stopped ≡ true
  unfolding run_steps step receive receive_from
  empties [] s e shut =
      if_cases (λ s'. s'.stopped ≡ true) s.stopped s (receive_from accepts s.buffer s)
        (λ ended. ended)
        (λ runs.
          subst (λ b. (receive_from accepts b s).stopped ≡ true) (sym e)
            (if_cases (λ s'. s'.stopped ≡ true) (s.buffer_closed || s.draining)
              (record (flush accepts s) { stopped = true }) s (λ ends. refl)
              (λ waits. cc (ap (λ b. b || s.draining) shut, waits))))
  empties (i ∷ is) s e shut =
      let s' = record s { buffer = is } in
      let same = add_item-Alike accepts i s' in
      if_cases (λ s''. (run_steps accepts (receive_times (suc (length is))) s'').stopped ≡ true)
        s.stopped s (receive_from accepts s.buffer s)
        (λ ended. stays_stopped (suc (length is)) s ended)
        (λ runs.
          subst
            (λ b.
              (run_steps accepts (receive_times (suc (length is)))
                (receive_from accepts b s)).stopped
              ≡ true)
            (sym e) (empties is (add_item accepts i s') same.buffer (same.buffer_closed ∙ shut)))

  accepted_of-receive_times :
      (r : Str) (n : ℕ) (s : TelemetryShipper) → accepted_of accepts r (receive_times n) s ≡ []
  accepted_of-receive_times r zero s = refl
  accepted_of-receive_times r (suc n) s = accepted_of-receive_times r n (step accepts receives s)

receive_times-NoCancel : (n : ℕ) → All NoCancel (receive_times n)
receive_times-NoCancel zero = tt
receive_times-NoCancel (suc n) = (tt, receive_times-NoCancel n)

-- A goroutine that ended by itself has posted all.
all_posted :
    (r : Str) (s : TelemetryShipper)
    → IsSound s
    → s.stopped ≡ true
    → s.draining ≡ false
    → posted_of r s.outbox.posted ≡ records_of r s
all_posted r s h ended no_cancel = sym (
    ap (λ b. posted_of r s.outbox.posted ++ (pending_of r s.batches ++ buffered_of r b))
      (h.emptied ended no_cancel).1
    ∙ ap (λ m. posted_of r s.outbox.posted ++ (pending_of r m ++ [])) (h.flushed ended)
    ∙ append_nil (posted_of r s.outbox.posted))

abbrev pub closed_up : Answers → TelemetryShipper → TelemetryShipper
closed_up accepts s = run_steps accepts (close_and_receive (suc (length s.buffer))) s

-- In a history of a new shipper whose context does not end, once `Close` is called and the goroutine has
-- turned to the buffer once more than the buffer has entries, the goroutine has returned, and the posts
-- have the records of each run that the shipper took, each once and in the order of the calls. What the
-- control plane answers does not matter: a post that it refuses is not made again.
pub run_steps-closed :
    (accepts : Answers) (ts : List Step) (r : Str)
    → All NoCancel ts
    → ((closed_up accepts (run_steps accepts ts new_telemetry_shipper)).stopped ≡ true)
      × (posted_of r (closed_up accepts (run_steps accepts ts new_telemetry_shipper)).outbox.posted
          ≡ accepted_of accepts r ts new_telemetry_shipper)
unfolding run_steps step begin_close finish_close
run_steps-closed accepts ts r no_cancel =
    let s = run_steps accepts ts new_telemetry_shipper in
    let n = suc (length s.buffer) in
    let first = run_steps-Accounts accepts ts new_telemetry_shipper new_telemetry_shipper-IsSound in
    let after = run_steps-Accounts accepts (close_and_receive n) s first.sound in
    let shut = record s { closed = true; buffer_closed = true } in
    let ended = empties accepts s.buffer shut refl refl in
    let open_context =
      run_steps-draining accepts (close_and_receive n) s (tt, (tt, receive_times-NoCancel n))
        first.sound
      ∙ run_steps-draining accepts ts new_telemetry_shipper no_cancel
          new_telemetry_shipper-IsSound in
    (
      ended,
      all_posted r (run_steps accepts (close_and_receive n) s) after.sound ended open_context
          ∙ after.records r
          ∙ ap (λ os. records_of r s ++ os) (accepted_of-receive_times accepts r n shut)
          ∙ append_nil (records_of r s)
          ∙ first.records r,
    )
