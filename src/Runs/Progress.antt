-- ===== src/Runs/Progress.antt =====
-- internal/controlplane/runmanager: the way of a run through its stages: manager.go (`CreateRun`,
-- `StartRun`), stages.go (`TransitionToBaseline` and so on) and analysis.go (`completeAnalysis`,
-- `failAnalysis`). A method that takes the lock several times is several functions. The decoding of
-- a run's configuration is a parameter of those that need it.
use mcpdrill.Prelude.{
  ℕ, ◌+◌, List, [], ◌∷◌, Bool, true, false, not, ◌&&◌, ◌||◌, Option, none, some, if◌then◌else◌, Str,
  str_eq, codes, lookup, insert, ◌⊎◌, inl, inr,
}
use mcpdrill.Runs.States.{
  RunState, created, preflight_running, preflight_passed, baseline_running, ramp_running,
  soak_running, analyzing, completed, failed, aborted, can_transition, same_state, StopMode, drain,
  immediate, StopReason, StageName, preflight, baseline, ramp, soak, spike, custom,
}
use mcpdrill.Runs.EventLog.{new_event_log}
use mcpdrill.Runs.Manager.{
  RunManager, RunRecord, RunError, validation_failed, not_found, invalid_state, invalid_transition,
  state_changed, fields, event_of, log_event, edit_run, enter, log_transition, log_transition_with,
  generate_run_id, generate_execution_id,
}

-- The record of a new run.
unfoldable pub new_run : Str → Str → Str → Str → Str → Str → ℕ → RunRecord
new_run run_id execution_id config config_hash scenario_id actor now = record {
  run_id = run_id;
  execution_id = execution_id;
  state = created;
  config_hash = config_hash;
  scenario_id = scenario_id;
  created_at_ms = now;
  updated_at_ms = now;
  active_stage = none;
  stop_reason = none;
  actor = actor;
  config = config;
  progressing = false;
  ramping = false;
  watching = false;
  draining = false;
  immediate_stop = false;
}

-- `CreateRun`, given the verdict of the validator, the hash and the scenario id of the
-- configuration, and the clock in nanoseconds and in milliseconds.
unfoldable pub create_run :
    RunManager → Bool → Str → Str → Str → Str → ℕ → ℕ → RunManager × (RunError ⊎ Str)
unfolding new_run log_event event_of generate_run_id generate_execution_id new_event_log
create_run rm ok config config_hash scenario_id actor ns now =
    let id = generate_run_id ns (rm.run_id_counter + 1) in
    let r =
      new_run id (generate_execution_id ns (rm.exe_id_counter + 1)) config config_hash scenario_id
        actor now in
    let added : RunManager = record rm {
      runs = insert id r rm.runs;
      event_logs = insert id new_event_log rm.event_logs;
      run_id_counter = rm.run_id_counter + 1;
      exe_id_counter = rm.exe_id_counter + 1;
    } in
    let event =
      event_of r (codes "RUN_CREATED") actor
        (fields (
          (codes "config_hash", config_hash)
          ∷ (codes "scenario_id", scenario_id)
          ∷ (codes "actor", actor)
          ∷ []))
        [] in
    if ok then (log_event added id event now, inr id) else (rm, inl validation_failed)

-- `StartRun` before the allocation of workers.
unfoldable pub start_run_error : RunManager → Str → Option RunError
start_run_error rm id = elim (lookup id rm.runs) [
  | none ↦ some not_found
  | some r ↦
      if not (same_state r.state created)
      then some (invalid_state r.state)
      else if not (can_transition r.state preflight_running)
      then some (invalid_transition r.state preflight_running)
      else none
]

-- `StartRun` after the allocation.
unfoldable pub enter_preflight : RunManager → Str → Str → ℕ → RunManager × Option RunError
unfolding edit_run log_transition enter
enter_preflight rm id actor now = elim (lookup id rm.runs) [
  | none ↦ (rm, some not_found)
  | some r ↦ if not (same_state r.state created) then (rm, some (state_changed r.state)) else (
    log_transition (edit_run rm id (enter preflight_running now)) id r preflight_running
        (codes "start_run") actor now,
    none,
  )
]

unfoldable pub transition_to_failed_from_created : RunManager → Str → Str → Str → ℕ → RunManager
unfolding edit_run log_transition_with enter
transition_to_failed_from_created rm id actor reason now = elim (lookup id rm.runs) [
  | none ↦ rm
  | some r ↦
      if not (same_state r.state created)
      then rm
      else log_transition_with (edit_run rm id (enter failed now)) id r failed reason actor []
          (record { kind = codes "reason"; ref = reason; note = none } ∷ []) now
]

-- The part under the lock of `TransitionToBaseline`, which enters two states.
unfoldable pub enter_baseline : RunManager → Str → Str → ℕ → RunManager × Option RunError
unfolding edit_run log_transition enter
enter_baseline rm id actor now = elim (lookup id rm.runs) [
  | none ↦ (rm, some not_found)
  | some r ↦
      let passed =
        log_transition (edit_run rm id (enter preflight_passed now)) id r preflight_passed
          (codes "preflight_completed") actor now in
      if not (same_state r.state preflight_running)
      then (rm, some (invalid_state r.state))
      else if not (can_transition r.state preflight_passed)
      then (rm, some (invalid_transition r.state preflight_passed))
      else if not (can_transition preflight_passed baseline_running)
      then (passed, some (invalid_transition preflight_passed baseline_running))
      else (edit_run passed id (enter baseline_running now), none)
]

-- The part under the lock of `TransitionToRamp` and of `TransitionToSoak`.
unfoldable pub enter_stage :
    RunManager → Str → RunState → RunState → ℕ → RunManager × Option RunError
unfolding edit_run enter
enter_stage rm id from to now = elim (lookup id rm.runs) [
  | none ↦ (rm, some not_found)
  | some r ↦
      if not (same_state r.state from)
      then (rm, some (invalid_state r.state))
      else if not (can_transition r.state to)
      then (rm, some (invalid_transition r.state to))
      else (edit_run rm id (enter to now), none)
]

unfoldable pub enter_ramp : RunManager → Str → ℕ → RunManager × Option RunError
unfolding enter_stage
enter_ramp rm id now = enter_stage rm id baseline_running ramp_running now

unfoldable pub enter_soak : RunManager → Str → ℕ → RunManager × Option RunError
unfolding enter_stage
enter_soak rm id now = enter_stage rm id ramp_running soak_running now

pub record ParsedStage : Type 0 where
  pub stage_id : Str
  pub stage : Str
  pub enabled : Bool

abbrev pub stage_text : StageName → Str
stage_text preflight = codes "preflight"
stage_text baseline = codes "baseline"
stage_text ramp = codes "ramp"
stage_text soak = codes "soak"
stage_text spike = codes "spike"
stage_text custom = codes "custom"

unfoldable pub find_stage_by_name : List ParsedStage → StageName → Option ParsedStage
find_stage_by_name [] name = none
find_stage_by_name (s ∷ stages) name =
    if str_eq s.stage (stage_text name) && s.enabled then some s else find_stage_by_name stages name

-- What the three transitions do after the lock: the active stage, and the event, which may come
-- late.
unfoldable pub note_stage :
    RunManager
    → Str
    → List ParsedStage
    → StageName
    → RunState
    → RunState
    → Str
    → Str
    → ℕ
    → RunManager
unfolding edit_run log_transition find_stage_by_name
note_stage rm id stages name from to trigger actor now = elim (lookup id rm.runs) [
  | none ↦ rm
  | some r ↦ elim (find_stage_by_name stages name) [
    | none ↦ rm
    | some s ↦
        log_transition
          (edit_run rm id (λ r. record r {
            active_stage = some (record { stage = name; stage_id = s.stage_id });
          }))
          id (record r { state = from }) to trigger actor now
  ]
]

abbrev pub is_immediate : StopMode → Bool
is_immediate drain = false
is_immediate immediate = true

-- Whether a run that was stopped for this reason is aborted by the end of its analysis.
unfoldable pub is_emergency : Option StopReason → Bool
is_emergency none = false
is_emergency (some why) =
    str_eq why.reason (codes "emergency_stop")
    || (is_immediate why.mode && str_eq why.actor (codes "emergency"))

unfoldable pub complete_analysis : RunManager → Str → ℕ → RunManager
unfolding edit_run log_event event_of log_transition enter is_emergency
complete_analysis rm id now = elim (lookup id rm.runs) [
  | none ↦ rm
  | some r ↦
      let final_state = if is_emergency r.stop_reason then aborted else completed in
      let trigger =
        if is_emergency r.stop_reason then codes "emergency_stop" else codes "analysis_completed" in
      let event =
        event_of r (codes "ANALYSIS_COMPLETED") (codes "analysis")
          (fields ((codes "run_id", id) ∷ [])) [] in
      if not (same_state r.state analyzing)
      then rm
      else log_transition (log_event (edit_run rm id (enter final_state now)) id event now) id r
          final_state trigger (codes "analysis") now
]

unfoldable pub fail_analysis : RunManager → Str → Str → Str → ℕ → RunManager
unfolding edit_run log_event event_of log_transition_with enter
fail_analysis rm id reason details now = elim (lookup id rm.runs) [
  | none ↦ rm
  | some r ↦
      let event =
        event_of r (codes "DECISION") (codes "analysis")
          (fields
            ((codes "run_id", id) ∷ (codes "reason", reason) ∷ (codes "details", details) ∷ []))
          [] in
      if not (same_state r.state analyzing)
      then rm
      else log_transition_with (log_event (edit_run rm id (enter failed now)) id event now) id r
          failed (codes "analysis_failed") (codes "analysis") ((codes "reason", reason) ∷ []) [] now
]
