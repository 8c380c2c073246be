-- ===== src/Worker/Shipper/Examples.antt =====
-- The shipper at concrete inputs.
use mcpdrill.Prelude.{ℕ, ◌≡◌, refl, List, [], ◌∷◌, true, false, none, Str, Str-discrete, codes}
use mcpdrill.Api.Store.Records.{OperationOutcome}
use mcpdrill.Worker.Shipper.{
  TelemetryItem, Answers, new_telemetry_shipper, Step, ships, begins_close, receives, ticks,
  run_steps, step, ship, receive, receive_from, add_item, tick, flush, flush_all, ship_batch,
  begin_close,
}
use mcpdrill.Worker.Shipper.Kept.{posted_of, records_of}
use mcpdrill.Worker.Shipper.Ships.{accepted_of, refused}
use mcpdrill.Worker.Shipper.Histories.{run_steps-kept}
use mcpdrill.Worker.Shipper.Closing.{closed_up, run_steps-closed}

abbrev ping : ℕ → OperationOutcome
ping t = record {
  op_id = [];
  operation = codes "ping";
  tool_name = [];
  latency_ms = 5;
  ok = true;
  error_type = [];
  error_code = [];
  http_status = 200;
  timestamp_ms = t;
  stream = none;
  worker_id = [];
  execution_id = [];
  stage = [];
  stage_id = [];
  vu_id = [];
  session_id = [];
  token_index = none;
}

abbrev item : Str → ℕ → TelemetryItem
item id t = record { run_id = id; outcome = ping t }

-- The control plane takes the first post only.
abbrev first_only : Answers
first_only [] q = true
first_only (p ∷ ps) q = false

-- Two runs share the shipper, a tick posts what is in the batches, and the last record comes too late.
abbrev some_steps : List Step
some_steps =
    ships (item (codes "a") 1)
    ∷ ships (item (codes "b") 2)
    ∷ receives
    ∷ ticks
    ∷ ships (item (codes "a") 3)
    ∷ begins_close
    ∷ ships (item (codes "a") 4)
    ∷ []

run_steps-kept_example :
    (records_of (codes "a") (run_steps first_only some_steps new_telemetry_shipper)
      ≡ accepted_of first_only (codes "a") some_steps new_telemetry_shipper)
    × ((run_steps first_only some_steps new_telemetry_shipper).dropped_count
        ≡ refused first_only some_steps new_telemetry_shipper)
    × ((run_steps first_only some_steps new_telemetry_shipper).panicked ≡ false)
run_steps-kept_example = run_steps-kept first_only some_steps (codes "a")

run_steps-closed_example :
    ((closed_up first_only (run_steps first_only some_steps new_telemetry_shipper)).stopped ≡ true)
    × (posted_of
          (codes "a")
          (closed_up first_only
            (run_steps first_only some_steps new_telemetry_shipper)).outbox.posted
        ≡ accepted_of first_only (codes "a") some_steps new_telemetry_shipper)
run_steps-closed_example =
    run_steps-closed first_only some_steps (codes "a") (tt, (tt, (tt, (tt, (tt, (tt, (tt, tt)))))))

took_two :
    accepted_of first_only (codes "a") some_steps new_telemetry_shipper ≡ ping 1 ∷ ping 3 ∷ []
unfolding Str-discrete step ship receive receive_from add_item tick flush flush_all ship_batch
    begin_close
took_two = refl

refused_one : refused first_only some_steps new_telemetry_shipper ≡ 1
unfolding Str-discrete step ship receive receive_from add_item tick flush flush_all ship_batch
    begin_close
refused_one = refl
