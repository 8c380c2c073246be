-- ===== src/Telemetry/Examples.antt =====
-- Runs of the queue at concrete inputs.
use mcpdrill.Prelude.{ℕ, List, [], ◌∷◌, ◌++◌, false, ◌≡◌, refl, length, ◌+◌}
use mcpdrill.Prelude.Int.{pos}
use mcpdrill.Telemetry.Queue.{
  TelemetryRecord, BoundedQueue, Call, enqueues, dequeues, resets, closes, run, step, enqueue,
  new_bounded_queue, enqueue_full, enqueue_for_tier1, shed_tier1_locked, shed_tier2_locked,
  without_first, push, try_dequeue, pop_front, close, reset_drop_counts,
}
use mcpdrill.Telemetry.Queue.Tiers.{lifecycle}
use mcpdrill.Telemetry.Queue.Lossless.{run-lifecycle}
use mcpdrill.Telemetry.Queue.Histories.{IsBounded, run_new-IsBounded, run_new-seen, reports}

abbrev rec : ℕ → ℕ → TelemetryRecord ℕ
rec tier body = record { tier = tier; body = body }

-- A queue for one record, which each tier overfills.
abbrev busy : List (Call ℕ)
busy =
    enqueues (rec 2 10)
    ∷ enqueues (rec 0 11)
    ∷ enqueues (rec 1 12)
    ∷ enqueues (rec 1 13)
    ∷ dequeues
    ∷ enqueues (rec 0 14)
    ∷ resets
    ∷ closes
    ∷ enqueues (rec 0 15)
    ∷ []

abbrev narrow : BoundedQueue ℕ
narrow = record {
  capacity = 1;
  records = [];
  total_enqueued = 0;
  total_dequeued = 0;
  dropped_tier2 = 0;
  dropped_tier1 = 0;
  closed = false;
}

run-lifecycle_example :
    lifecycle ((run narrow busy).1 ++ (run narrow busy).0.records) ≡ rec 0 11 ∷ rec 0 14 ∷ []
run-lifecycle_example = run-lifecycle narrow busy

run_new-IsBounded_example : IsBounded (run (new_bounded_queue (pos 1)) busy).0
run_new-IsBounded_example = run_new-IsBounded (pos 1) busy

busy_end : (run narrow busy).0.records ≡ rec 1 13 ∷ rec 0 14 ∷ []
unfolding run step enqueue enqueue_full enqueue_for_tier1 shed_tier1_locked shed_tier2_locked
    without_first push try_dequeue pop_front close reset_drop_counts
busy_end = refl

run_new-seen_example :
    5
    ≡ (run narrow busy).0.total_dequeued
      + length (run narrow busy).0.records
      + (run narrow busy).0.dropped_tier2
      + (run narrow busy).0.dropped_tier1
      + reports narrow busy
unfolding new_bounded_queue
run_new-seen_example = run_new-seen (pos 1) busy

-- A full queue with a record of tier 1 and none of tier 2.
abbrev full : BoundedQueue ℕ
full = record {
  capacity = 2;
  records = rec 1 20 ∷ rec 0 21 ∷ [];
  total_enqueued = 2;
  total_dequeued = 0;
  dropped_tier2 = 0;
  dropped_tier1 = 0;
  closed = false;
}
