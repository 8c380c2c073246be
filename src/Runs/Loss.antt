-- ===== src/Runs/Loss.antt =====
-- internal/controlplane/runmanager/worker_failure.go. Whether the work of the lost worker could be
-- given to others, with the workers and leases that took over or the reason why not, is what the
-- reallocation reports.
pub mod Outcomes
use mcpdrill.Prelude.{
  ℕ, ◌++◌, List, [], ◌∷◌, Bool, true, false, not, Option, none, some, if◌then◌else◌, Str, str_eq,
  codes, lookup, ◌⊎◌, inl, inr,
}
use mcpdrill.Runs.States.{
  RunState, stopping, preflight_running, is_running_state, same_state, immediate, StopReason,
}
use mcpdrill.Runs.EventLog.{Evidence, RunEvent}
use mcpdrill.Runs.Manager.{
  RunManager, RunRecord, RunError, Payload, not_found, fields, event_of, log_event, edit_run,
  log_transition_with, cancel_stage_progression, stop_evaluator,
}
use mcpdrill.Runs.Stop.{is_stopping, enter_stopping}

pub data WorkerFailurePolicy : Type 0 where
  fail_fast : WorkerFailurePolicy
  replace_if_possible : WorkerFailurePolicy
  best_effort : WorkerFailurePolicy
  unknown : Str → WorkerFailurePolicy

-- From the text in the configuration; none is a configuration that does not parse.
unfoldable pub worker_failure_policy : Option Str → WorkerFailurePolicy
worker_failure_policy none = fail_fast
worker_failure_policy (some []) = fail_fast
worker_failure_policy (some s) =
    if str_eq s (codes "fail_fast")
    then fail_fast
    else if str_eq s (codes "replace_if_possible")
    then replace_if_possible
    else if str_eq s (codes "best_effort")
    then best_effort
    else unknown s

unfoldable pub is_valid_worker_failure_policy : Str → Bool
unfolding worker_failure_policy
is_valid_worker_failure_policy s =
    if str_eq s (codes "fail_fast")
    then true
    else if str_eq s (codes "replace_if_possible")
    then true
    else str_eq s (codes "best_effort")

abbrev pub worker_evidence : Str → Str → List Evidence
worker_evidence worker_id note =
    record { kind = codes "worker"; ref = worker_id; note = some note } ∷ []

unfoldable pub handle_fail_fast : RunManager → Str → RunRecord → Str → ℕ → RunManager
unfolding edit_run log_event event_of log_transition_with cancel_stage_progression stop_evaluator
    enter_stopping
handle_fail_fast rm id r worker_id now =
    let why : StopReason = record {
      mode = immediate;
      reason = codes "worker_failure: worker " ++ (worker_id ++ codes " lost");
      actor = codes "system";
      at_ms = now;
    } in
    let stopped =
      edit_run rm id (λ r. enter_stopping why true (stop_evaluator (cancel_stage_progression r))) in
    let requested =
      event_of r (codes "STOP_REQUESTED") (codes "system")
        (fields (
          (codes "mode", codes "immediate")
          ∷ (codes "actor", codes "system")
          ∷ (codes "reason", codes "worker_failure")
          ∷ (codes "worker_id", worker_id)
          ∷ (codes "policy", codes "fail_fast")
          ∷ []))
        (worker_evidence worker_id (codes "worker heartbeat timeout")) in
    log_transition_with (log_event stopped id requested now) id r stopping (codes "worker_failure")
      (codes "system") ((codes "worker_id", worker_id) ∷ (codes "policy", codes "fail_fast") ∷ [])
      [] now

unfoldable pub assigned_event : RunRecord → Str → Str → RunEvent Payload
unfolding event_of
assigned_event r worker_id lease_id =
    event_of r (codes "WORKER_ASSIGNED") (codes "scheduler")
      (fields ((codes "worker_id", worker_id) ∷ (codes "lease_id", lease_id) ∷ [])) []

-- One event for each worker and lease that took over.
unfoldable pub log_assigned : RunManager → Str → RunRecord → List (Str × Str) → ℕ → RunManager
unfolding log_event assigned_event
log_assigned rm id r [] now = rm
log_assigned rm id r ((worker_id, lease_id) ∷ taken) now =
    log_assigned (log_event rm id (assigned_event r worker_id lease_id) now) id r taken now

-- `emitReallocationFailedDecision`
unfoldable pub reallocation_failed : RunRecord → Str → Str → RunEvent Payload
unfolding event_of
reallocation_failed r worker_id reason =
    event_of r (codes "DECISION") (codes "system")
      (fields (
        (codes "decision_type", codes "reallocation_failed")
        ∷ (codes "policy", codes "replace_if_possible")
        ∷ (codes "fallback", codes "fail_fast")
        ∷ (codes "reason", reason)
        ∷ (codes "worker_id", worker_id)
        ∷ []))
      (worker_evidence worker_id (codes "worker heartbeat timeout"))

unfoldable pub handle_replace_if_possible :
    RunManager → Str → RunRecord → Str → Str ⊎ List (Str × Str) → ℕ → RunManager
unfolding log_event event_of handle_fail_fast log_assigned reallocation_failed
handle_replace_if_possible rm id r worker_id (inl reason) now =
    handle_fail_fast (log_event rm id (reallocation_failed r worker_id reason) now) id r worker_id
      now
handle_replace_if_possible rm id r worker_id (inr taken) now =
    let replaced =
      event_of r (codes "WORKER_REPLACED") (codes "system")
        (fields
          ((codes "lost_worker", worker_id) ∷ (codes "policy", codes "replace_if_possible") ∷ []))
        (worker_evidence worker_id (codes "worker replaced via reallocation")) in
    let decision =
      event_of r (codes "DECISION") (codes "system")
        (fields (
          (codes "decision_type", codes "reallocation_success")
          ∷ (codes "policy", codes "replace_if_possible")
          ∷ (codes "lost_worker", worker_id)
          ∷ []))
        [] in
    log_event (log_event (log_assigned rm id r taken now) id replaced now) id decision now

unfoldable pub handle_best_effort : RunManager → Str → RunRecord → Str → ℕ → RunManager
unfolding log_event event_of
handle_best_effort rm id r worker_id now =
    let lost =
      event_of r (codes "WORKER_CAPACITY_LOST") (codes "system")
        (fields (
          (codes "worker_id", worker_id)
          ∷ (codes "policy", codes "best_effort")
          ∷ (codes "action", codes "continue")
          ∷ (codes "reason", codes "worker_heartbeat_timeout")
          ∷ []))
        (worker_evidence worker_id
          (codes "worker heartbeat timeout, continuing with reduced capacity")) in
    let warning =
      event_of r (codes "SYSTEM_WARNING") (codes "system")
        (fields (
          (codes "warning", codes "worker_capacity_reduced")
          ∷ (codes "worker_id", worker_id)
          ∷ (codes "policy", codes "best_effort")
          ∷ (
            codes "message",
            codes "Worker " ++ (worker_id ++ codes " lost, run continuing with reduced capacity"),
          )
          ∷ []))
        [] in
    log_event (log_event rm id lost now) id warning now

-- The `switch` on the policy.
unfoldable pub apply_policy :
    WorkerFailurePolicy
    → RunManager
    → Str
    → RunRecord
    → Str
    → Str ⊎ List (Str × Str)
    → ℕ
    → RunManager
unfolding handle_fail_fast handle_replace_if_possible handle_best_effort
apply_policy fail_fast rm id r w outcome now = handle_fail_fast rm id r w now
apply_policy replace_if_possible rm id r w outcome now =
    handle_replace_if_possible rm id r w outcome now
apply_policy best_effort rm id r w outcome now = handle_best_effort rm id r w now
apply_policy (unknown s) rm id r w outcome now = handle_fail_fast rm id r w now

unfoldable pub handle_worker_capacity_lost :
    RunManager
    → Str
    → Str
    → WorkerFailurePolicy
    → Str ⊎ List (Str × Str)
    → ℕ
    → RunManager × Option RunError
unfolding edit_run handle_fail_fast apply_policy
handle_worker_capacity_lost rm id worker_id policy outcome now = elim (lookup id rm.runs) [
  | none ↦ (rm, some not_found)
  | some r ↦
      if is_stopping r.state
      then (edit_run rm id (λ r. record r { draining = false }), none)
      else if not (is_running_state r.state)
      then (rm, none)
      else if same_state r.state preflight_running
      then (handle_fail_fast rm id r worker_id now, none)
      else (apply_policy policy rm id r worker_id outcome now, none)
]
