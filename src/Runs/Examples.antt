-- ===== src/Runs/Examples.antt =====
-- Runs of the manager, of its logs and of the ramp at concrete inputs.
use mcpdrill.Prelude.{
  take, drop, ◌&&◌, ℕ, values, List, [], ◌∷◌, ◌++◌, true, false, none, some, ◌≡◌, refl, lookup,
  codes, arith, Str-discrete,
}
use mcpdrill.Prelude.Int.{pos}
use mcpdrill.Scheduler.Leases.{LeaseManager, new_lease_manager, issue_lease, mem, any_blocks}
use mcpdrill.Runs.Queries.{list_stopping_runs_for_worker}
use mcpdrill.Runs.Queries.StopNotices.{holds_lease, is_told, is_told_after, request_stop-mem}
use mcpdrill.Runs.States.{RunState, created, ramp_running, stopping, completed, failed, drain}
use mcpdrill.Runs.EventLog.{RunEvent, EventLog, page, tail}
use mcpdrill.Runs.EventLog.Pages.{page-page, Tailed}
use mcpdrill.Runs.Manager.{RunManager, RunRecord, start_stop_condition_evaluator}
use mcpdrill.Runs.Stop.{emergency_stop, finalize_run, request_stop_with_reason}
use mcpdrill.Runs.Stop.Outcomes.{StopResult, started_in, request_stop-StopResult}
use mcpdrill.Runs.Endings.{conclude, emergency_stop-finalize_run}
use mcpdrill.Runs.History.{
  Call, starts, enters_baseline, enters_ramp, requests_stop, stops_at_once, finalizes,
  completes_analysis, run, IsNotRemade,
}
use mcpdrill.Runs.History.Terminal.{
  Journey, run-Journey, run-terminal, is_past_stop, run-is_past_stop,
}
use mcpdrill.Runs.Ramp.{LoadConfig, RampPlan, plan, auto_ramp}
use mcpdrill.Runs.Ramp.Steps.{Covers, IsRamp, plan-IsRamp}

abbrev run_in : RunState → RunRecord
run_in s = record {
  run_id = codes "run_1";
  execution_id = codes "exe_1";
  state = s;
  config_hash = codes "hash";
  scenario_id = codes "s";
  created_at_ms = 10;
  updated_at_ms = 10;
  active_stage = none;
  stop_reason = none;
  actor = codes "user";
  config = codes "{}";
  progressing = true;
  ramping = false;
  watching = false;
  draining = false;
  immediate_stop = false;
}

abbrev manager_of : RunState → RunManager
manager_of s = record {
  runs = (codes "run_1", run_in s) ∷ [];
  event_logs = [];
  has_telemetry_store = true;
  has_artifact_store = true;
  run_id_counter = 1;
  exe_id_counter = 1;
  event_id_counter = 1;
}

-- A run that is started, and stopped twice while it advances.
abbrev eventful : List Call
eventful =
    starts (codes "run_1") (codes "user") 11
    ∷ enters_baseline (codes "run_1") (codes "autoramp") 12
    ∷ requests_stop (codes "run_1") drain (codes "user") (codes "stop_requested") [] 13
    ∷ enters_ramp (codes "run_1") 14
    ∷ stops_at_once (codes "run_1") (codes "user") 15
    ∷ finalizes (codes "run_1") (codes "user") 16
    ∷ completes_analysis (codes "run_1") 17
    ∷ []

eventful-IsNotRemade : (s : RunState) → IsNotRemade (codes "run_1") (manager_of s) eventful
eventful-IsNotRemade s =
    ((λ e. cc), ((λ e. cc), ((λ e. cc), ((λ e. cc), ((λ e. cc), ((λ e. cc), ((λ e. cc), tt)))))))

run-Journey_example :
    (r : RunRecord) × (lookup (codes "run_1") (run (manager_of created) eventful).runs ≡ some r)
    × Journey created r.state
unfolding Str-discrete
run-Journey_example =
    run-Journey (manager_of created) eventful (codes "run_1") (run_in created) refl
      (eventful-IsNotRemade created)

run-terminal_example :
    (r : RunRecord) × (lookup (codes "run_1") (run (manager_of completed) eventful).runs ≡ some r)
    × (r.state ≡ completed)
unfolding Str-discrete
run-terminal_example =
    run-terminal (manager_of completed) eventful (codes "run_1") (run_in completed) refl refl
      (eventful-IsNotRemade completed)

run-is_past_stop_example :
    (r : RunRecord) × (lookup (codes "run_1") (run (manager_of stopping) eventful).runs ≡ some r)
    × (is_past_stop r.state ≡ true)
unfolding Str-discrete
run-is_past_stop_example =
    run-is_past_stop (manager_of stopping) eventful (codes "run_1") (run_in stopping) refl refl
      (eventful-IsNotRemade stopping)

request_stop-StopResult_example :
    StopResult
      (run_in ramp_running)
      (record { mode = drain; reason = codes "stop_requested"; actor = codes "user"; at_ms = 20 })
      (codes "run_1")
      (request_stop_with_reason
        (manager_of ramp_running)
        (codes "run_1")
        drain
        (codes "user")
        (codes "stop_requested")
        []
        20)
    × ((after : RunManager)
        → lookup (codes "run_1") (start_stop_condition_evaluator after (codes "run_1") true).runs
          ≡ started_in after.has_telemetry_store (lookup (codes "run_1") after.runs))
unfolding Str-discrete
request_stop-StopResult_example =
    request_stop-StopResult (manager_of ramp_running) (codes "run_1") drain (codes "user")
      (codes "stop_requested") [] 20 (run_in ramp_running) refl

emergency_stop-finalize_run_example :
    (r : RunRecord) × (lookup
        (codes "run_1")
        (conclude
          (some (codes "timeout", []))
          (finalize_run
            (emergency_stop (manager_of ramp_running) (codes "run_1") (codes "user") 20).0
            (codes "run_1")
            (codes "user")
            21)
          (codes "run_1")
          22).runs
      ≡ some r)
    × (r.state ≡ failed)
unfolding Str-discrete emergency_stop
emergency_stop-finalize_run_example =
    emergency_stop-finalize_run (some (codes "timeout", [])) (manager_of ramp_running)
      (codes "run_1") (codes "user") (codes "user") 20 21 22 (run_in ramp_running) refl refl

abbrev event : ℕ → RunEvent ℕ
event n = record {
  schema_version = codes "event/v1";
  event_id = codes "evt_1";
  timestamp_ms = n;
  run_id = codes "run_1";
  execution_id = codes "exe_1";
  type = codes "DECISION";
  actor = codes "user";
  payload = some n;
  evidence = some [];
}

abbrev log_of_three : EventLog ℕ
log_of_three = record {
  events = event 1 ∷ event 2 ∷ event 3 ∷ [];
  max_events = 3;
  truncated = false;
  run_id = codes "run_1";
}

page-page_example :
    Tailed log_of_three (pos 1) (pos 2) (tail log_of_three (pos 1) (pos 2))
    × (page log_of_three 0 2 ++ page log_of_three 2 5 ≡ take 7 (drop 0 log_of_three.events))
page-page_example = page-page log_of_three 0 2 5 (pos 1) (pos 2)

-- A ramp from 1 to 100 in five steps stops at 96.
abbrev uneven : LoadConfig
uneven = record {
  target_vus = pos 100;
  start_vus = pos 1;
  ramp_steps = pos 5;
  step_hold_ms = pos 1000;
  duration_ms = pos 0;
  max_vus = pos 0;
}

abbrev uneven_plan : RampPlan
uneven_plan = record {
  start_vus = 1;
  target_vus = 100;
  ramp_steps = 5;
  step_hold_ms = 1000;
  vu_increment = 19;
}

uneven_falls_short : Covers 0 (auto_ramp uneven_plan) 96
unfolding auto_ramp
uneven_falls_short = ground arith

plan-IsRamp_example : IsRamp uneven uneven_plan
unfolding plan
plan-IsRamp_example = plan-IsRamp uneven uneven_plan refl

-- A worker with a lease in a run that is ramped up is told to stop it.
abbrev leases : LeaseManager
leases =
    (issue_lease (new_lease_manager (pos 0)) (codes "wkr_1")
      (record {
        run_id = codes "run_1";
        stage_id = codes "stg_1";
        vu_id_range = record { start = 0; end = 5 };
      })
      10 10).0

request_stop-mem_example :
    (mem
        (codes "run_1")
        (list_stopping_runs_for_worker (manager_of ramp_running) (some leases) (codes "wkr_1"))
      ≡ (holds_lease (codes "wkr_1") (codes "run_1") (values leases.leases)
          && is_told ramp_running))
    × (mem (codes "run_1") (
          list_stopping_runs_for_worker
            (request_stop_with_reason
              (manager_of ramp_running)
              (codes "run_1")
              drain
              (codes "user")
              (codes "stop_requested")
              []
              20).0
            (some leases)
            (codes "wkr_1"))
        ≡ (holds_lease (codes "wkr_1") (codes "run_1") (values leases.leases)
            && is_told_after ramp_running))
unfolding Str-discrete
request_stop-mem_example =
    request_stop-mem (manager_of ramp_running) leases (codes "run_1") (codes "wkr_1") drain
      (codes "user") (codes "stop_requested") [] 20 (run_in ramp_running) refl

lease_held : holds_lease (codes "wkr_1") (codes "run_1") (values leases.leases) ≡ true
unfolding issue_lease new_lease_manager any_blocks Str-discrete
lease_held = refl
