-- ===== src/Runs/Stop.antt =====
-- internal/controlplane/runmanager/manager.go: `RequestStop`, `EmergencyStop` and `finalizeRun`.
-- The drain that `finalizeRun` waits for, and the channel that it may open for it, are over when its
-- step is taken.
pub mod Outcomes
use mcpdrill.Prelude.{
  ℕ, ◌++◌, List, [], ◌∷◌, Bool, true, false, not, ◌&&◌, Option, none, some, if◌then◌else◌, Str,
  codes, lookup,
}
use mcpdrill.Runs.States.{
  RunState, stopping, analyzing, completed, can_transition, is_terminal, same_state, StopMode,
  drain, immediate, StopReason,
}
use mcpdrill.Runs.EventLog.{Evidence}
use mcpdrill.Runs.Manager.{
  RunManager, RunRecord, RunError, not_found, invalid_state, terminal_state, invalid_transition,
  fields, event_of, log_event, edit_run, enter, log_transition, cancel_stage_progression,
  stop_evaluator,
}

abbrev mode_text : StopMode → Str
mode_text drain = codes "drain"
mode_text immediate = codes "immediate"

abbrev pub is_stopping : RunState → Bool
is_stopping s = same_state s stopping

-- The record of a run that is asked to stop, with the drain channel open.
unfoldable pub enter_stopping : StopReason → Bool → RunRecord → RunRecord
unfolding enter
enter_stopping why draining r =
    let r' = enter stopping why.at_ms r in
    record r' { stop_reason = some why; draining = if draining then true else r.draining }

unfoldable pub request_stop_with_reason :
    RunManager → Str → StopMode → Str → Str → List Evidence → ℕ → RunManager × Option RunError
unfolding edit_run log_event event_of cancel_stage_progression stop_evaluator enter_stopping
    log_transition
request_stop_with_reason rm id mode actor reason evidence now = elim (lookup id rm.runs) [
  | none ↦ (rm, some not_found)
  | some r ↦
      let cancelled = edit_run rm id (λ r. stop_evaluator (cancel_stage_progression r)) in
      let ignored =
        event_of r (codes "DECISION") actor
          (fields (
            (codes "decision_type", codes "stop_trigger_ignored")
            ∷ (codes "reason", codes "already_stopping")
            ∷ (codes "actor", actor)
            ∷ []))
          [] in
      let why : StopReason = record { mode = mode; reason = reason; actor = actor; at_ms = now } in
      let stopped = edit_run cancelled id (enter_stopping why true) in
      let requested =
        event_of r (codes "STOP_REQUESTED") actor
          (fields (
            (codes "mode", mode_text mode)
            ∷ (codes "actor", actor)
            ∷ (codes "reason", reason)
            ∷ []))
          evidence in
      if is_terminal r.state
      then (rm, some (terminal_state r.state))
      else if is_stopping r.state
      then (log_event cancelled id ignored now, none)
      else if not (can_transition r.state stopping)
      then (cancelled, some (invalid_transition r.state stopping))
      else (
        log_transition (log_event stopped id requested now) id r stopping (codes "stop_requested")
            actor now,
        none,
      )
]

unfoldable pub request_stop : RunManager → Str → StopMode → Str → ℕ → RunManager × Option RunError
unfolding request_stop_with_reason
request_stop rm id mode actor now =
    request_stop_with_reason rm id mode actor (codes "stop_requested") [] now

-- An emergency stop of a run that stops already: the open drain channel is closed.
unfoldable pub escalate : StopReason → RunRecord → RunRecord
escalate why r = record r {
  stop_reason = some why;
  updated_at_ms = why.at_ms;
  immediate_stop = true;
  draining = false;
}

unfoldable pub emergency_stop : RunManager → Str → Str → ℕ → RunManager × Option RunError
unfolding edit_run log_event event_of cancel_stage_progression enter_stopping log_transition
    escalate
emergency_stop rm id actor now = elim (lookup id rm.runs) [
  | none ↦ (rm, some not_found)
  | some r ↦
      let cancelled = edit_run rm id cancel_stage_progression in
      let escalation =
        event_of r (codes "DECISION") actor
          (fields (
            (codes "decision_type", codes "stop_trigger_resolution")
            ∷ (codes "details.escalated", codes "true")
            ∷ (codes "actor", actor)
            ∷ []))
          [] in
      let why : StopReason = record {
        mode = immediate;
        reason = codes "emergency_stop";
        actor = actor;
        at_ms = now;
      } in
      let stopped = edit_run cancelled id (enter_stopping why false) in
      let requested =
        event_of r (codes "EMERGENCY_STOP") actor
          (fields ((codes "actor", actor) ∷ (codes "reason", codes "emergency_stop") ∷ [])) [] in
      if is_terminal r.state
      then (rm, some (terminal_state r.state))
      else if is_stopping r.state
      then (edit_run (log_event cancelled id escalation now) id (escalate why), none)
      else if not (can_transition r.state stopping)
      then (cancelled, some (invalid_transition r.state stopping))
      else (
        log_transition (log_event stopped id requested now) id r stopping (codes "emergency_stop")
            actor now,
        none,
      )
]

unfoldable pub transition_to_completed : RunManager → Str → Str → Str → ℕ → RunManager
unfolding edit_run log_transition enter
transition_to_completed rm id actor reason now = elim (lookup id rm.runs) [
  | none ↦ rm
  | some r ↦
      if is_stopping r.state
      then log_transition (edit_run rm id (enter completed now)) id r completed reason actor now
      else rm
]

-- The part of `TransitionToAnalyzing` before the analysis.
unfoldable pub transition_to_analyzing : RunManager → Str → Str → ℕ → RunManager × Option RunError
unfolding edit_run log_event event_of log_transition enter
transition_to_analyzing rm id actor now = elim (lookup id rm.runs) [
  | none ↦ (rm, some not_found)
  | some r ↦
      let entered = edit_run rm id (enter analyzing now) in
      let started =
        event_of r (codes "ANALYSIS_STARTED") (codes "analysis")
          (fields ((codes "run_id", id) ∷ [])) [] in
      if not (is_stopping r.state)
      then (rm, some (invalid_state r.state))
      else if not (can_transition r.state analyzing)
      then (rm, some (invalid_transition r.state analyzing))
      else (
        log_event (log_transition entered id r analyzing (codes "workers_drained") actor now) id
            started now,
        none,
      )
]

-- `finalizeRun` after the drain.
unfoldable pub finalize_run : RunManager → Str → Str → ℕ → RunManager
unfolding transition_to_completed transition_to_analyzing
finalize_run rm id actor now = elim (lookup id rm.runs) [
  | none ↦ rm
  | some r ↦
      if not (is_stopping r.state)
      then rm
      else if not (rm.has_telemetry_store && rm.has_artifact_store)
      then transition_to_completed rm id actor (codes "no_telemetry") now
      else (transition_to_analyzing rm id actor now).0
]
