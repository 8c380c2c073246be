-- ===== src/Runs/History/Losses.antt =====
-- The loss of workers and the states of a run.
use mcpdrill.Prelude.{
  ℕ, List, [], ◌∷◌, true, false, some, Str, lookup, ◌⊎◌, inl, inr, ◌≡◌, refl, arith, Bool-cases,
  Option-cases,
}
use mcpdrill.Runs.States.{
  RunState, created, preflight_running, preflight_passed, preflight_failed, baseline_running,
  ramp_running, soak_running, stopping, analyzing, completed, failed, aborted, can_transition,
  same_state, is_running_state,
}
use mcpdrill.Runs.Manager.{
  RunManager, RunRecord, log_event, edit_run, enter, log_transition, log_transition_with,
  cancel_stage_progression, stop_evaluator,
}
use mcpdrill.Runs.Stop.{enter_stopping, is_stopping}
use mcpdrill.Runs.Loss.{
  reallocation_failed, assigned_event, WorkerFailurePolicy, handle_worker_capacity_lost,
  handle_fail_fast, handle_replace_if_possible, handle_best_effort, log_assigned, apply_policy,
  fail_fast, replace_if_possible, best_effort, unknown,
}
use mcpdrill.Runs.History.Table.{stays, moves, Holds, same-Holds, edit-Holds}

running_stops : (s : RunState) → is_running_state s ≡ true → can_transition s stopping ≡ true
running_stops created e = e
running_stops preflight_running e = refl
running_stops preflight_passed e = refl
running_stops preflight_failed e = refl
running_stops baseline_running e = refl
running_stops ramp_running e = refl
running_stops soak_running e = refl
running_stops stopping e = refl
running_stops analyzing e = e
running_stops completed e = e
running_stops failed e = e
running_stops aborted e = e

log_assigned-runs :
    (rm : RunManager) (id : Str) (r : RunRecord) (taken : List (Str × Str)) (now : ℕ)
    → (log_assigned rm id r taken now).runs ≡ rm.runs
unfolding log_assigned log_event
log_assigned-runs rm id r [] now = refl
log_assigned-runs rm id r ((w, l) ∷ taken) now =
    log_assigned-runs (log_event rm id (assigned_event r w l) now) id r taken now

module _ (id : Str) (r : RunRecord) (worker_id : Str) (now : ℕ) where
  fail_fast-Holds :
      (rm : RunManager)
      → lookup id rm.runs ≡ some r
      → is_running_state r.state ≡ true
      → Holds rm.runs (handle_fail_fast rm id r worker_id now).runs
  unfolding handle_fail_fast edit_run log_transition log_transition_with log_event enter_stopping
      enter cancel_stage_progression stop_evaluator
  fail_fast-Holds rm found live =
      edit-Holds rm.runs id _ found refl (moves (running_stops r.state live))

  replace-Holds :
      (rm : RunManager) (outcome : Str ⊎ List (Str × Str))
      → lookup id rm.runs ≡ some r
      → is_running_state r.state ≡ true
      → Holds rm.runs (handle_replace_if_possible rm id r worker_id outcome now).runs
  unfolding handle_replace_if_possible log_event
  replace-Holds rm (inl reason) found live =
      fail_fast-Holds (log_event rm id (reallocation_failed r worker_id reason) now) found live
  replace-Holds rm (inr taken) found live = same-Holds (log_assigned-runs rm id r taken now)

  policy-Holds :
      (rm : RunManager) (policy : WorkerFailurePolicy) (outcome : Str ⊎ List (Str × Str))
      → lookup id rm.runs ≡ some r
      → is_running_state r.state ≡ true
      → Holds rm.runs (apply_policy policy rm id r worker_id outcome now).runs
  unfolding apply_policy handle_best_effort log_event
  policy-Holds rm fail_fast outcome found live = fail_fast-Holds rm found live
  policy-Holds rm replace_if_possible outcome found live = replace-Holds rm outcome found live
  policy-Holds rm best_effort outcome found live = same-Holds refl
  policy-Holds rm (unknown s) outcome found live = fail_fast-Holds rm found live

pub loss-Holds :
    (rm : RunManager) (id worker_id : Str) (policy : WorkerFailurePolicy)
    (outcome : Str ⊎ List (Str × Str)) (now : ℕ)
    → Holds rm.runs (handle_worker_capacity_lost rm id worker_id policy outcome now).0.runs
unfolding handle_worker_capacity_lost edit_run
loss-Holds rm id w policy outcome now = elim (Option-cases (lookup id rm.runs)) [
  | inl missing ↦ same-Holds (ground arith)
  | inr (r, found) ↦ elim (Bool-cases (is_stopping r.state)) [
    | inl draining ↦
        edit-Holds rm.runs id (λ r. record r { draining = false }) found
          (rw (found, draining, handle_worker_capacity_lost) refl) (stays refl)
    | inr other ↦ elim (Bool-cases (is_running_state r.state)) [
      | inr idle ↦ same-Holds (ground arith)
      | inl live ↦ elim (Bool-cases (same_state r.state preflight_running)) [
        | inl early ↦
            rw (found, other, live, early, handle_worker_capacity_lost)
              (fail_fast-Holds id r w now rm found live)
        | inr later ↦
            rw (found, other, live, later, handle_worker_capacity_lost)
              (policy-Holds id r w now rm policy outcome found live)
      ]
    ]
  ]
]
