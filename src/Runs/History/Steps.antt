-- ===== src/Runs/History/Steps.antt =====
-- The stages of a run, its analysis and the loss of workers, and its states.
use mcpdrill.Prelude.{
  ℕ, List, Bool, true, false, some, Str, lookup, inl, inr, ◌≡◌, refl, arith, Bool-cases,
  Option-cases, if◌then◌else◌,
}
use mcpdrill.Runs.States.{
  RunState, created, preflight_running, preflight_passed, baseline_running, analyzing, completed,
  failed, aborted, can_transition, same_state, same_state_sound, StageName,
}
use mcpdrill.Runs.Manager.{
  RunManager, log_event, edit_run, enter, log_transition, log_transition_with,
}
use mcpdrill.Runs.Progress.{
  enter_preflight, transition_to_failed_from_created, enter_baseline, enter_stage, note_stage,
  find_stage_by_name, complete_analysis, fail_analysis, ParsedStage, is_emergency,
}
use mcpdrill.Runs.History.Table.{
  stays, moves, passes, Holds, same-Holds, edit-Holds, update_twice, enter-Holds,
}

module _ (rm : RunManager) (id : Str) where
  pub enter_preflight-Holds :
      (actor : Str) (now : ℕ) → Holds rm.runs (enter_preflight rm id actor now).0.runs
  unfolding enter_preflight edit_run log_transition log_transition_with log_event
  enter_preflight-Holds actor now = elim (Option-cases (lookup id rm.runs)) [
    | inl missing ↦ same-Holds (ground arith)
    | inr (r, found) ↦ elim (Bool-cases (same_state r.state created)) [
      | inr other ↦ same-Holds (ground arith)
      | inl start ↦
          enter-Holds rm.runs id created preflight_running now found start
            (rw (found, start, enter_preflight) refl) refl
    ]
  ]

  pub transition_to_failed_from_created-Holds :
      (actor reason : Str) (now : ℕ)
      → Holds rm.runs (transition_to_failed_from_created rm id actor reason now).runs
  unfolding transition_to_failed_from_created edit_run log_transition log_transition_with log_event
  transition_to_failed_from_created-Holds actor reason now =
      elim (Option-cases (lookup id rm.runs)) [
        | inl missing ↦ same-Holds (ground arith)
        | inr (r, found) ↦ elim (Bool-cases (same_state r.state created)) [
          | inr other ↦ same-Holds (ground arith)
          | inl here ↦
              enter-Holds rm.runs id created failed now found here
                (rw (found, here, transition_to_failed_from_created) refl) refl
        ]
      ]

  pub enter_baseline-Holds :
      (actor : Str) (now : ℕ) → Holds rm.runs (enter_baseline rm id actor now).0.runs
  unfolding enter_baseline edit_run log_transition log_transition_with log_event enter
  enter_baseline-Holds actor now = elim (Option-cases (lookup id rm.runs)) [
    | inl missing ↦ same-Holds (ground arith)
    | inr (r, found) ↦ elim (Bool-cases (same_state r.state preflight_running)) [
      | inr other ↦ same-Holds (ground arith)
      | inl here ↦ elim (Bool-cases (can_transition r.state preflight_passed)) [
        | inr refused ↦ same-Holds (ground arith)
        | inl allowed ↦
            edit-Holds rm.runs id (λ r. enter baseline_running now (enter preflight_passed now r))
              found
              (rw (found, here, allowed, enter_baseline)
                (update_twice id (enter preflight_passed now) (enter baseline_running now) rm.runs))
              (passes (same_state_sound r.state preflight_running here) refl)
      ]
    ]
  ]

  pub enter_stage-Holds :
      (from to : RunState) (now : ℕ) → Holds rm.runs (enter_stage rm id from to now).0.runs
  unfolding enter_stage edit_run enter
  enter_stage-Holds from to now = elim (Option-cases (lookup id rm.runs)) [
    | inl missing ↦ same-Holds (ground arith)
    | inr (r, found) ↦ elim (Bool-cases (same_state r.state from)) [
      | inr other ↦ same-Holds (ground arith)
      | inl here ↦ elim (Bool-cases (can_transition r.state to)) [
        | inr refused ↦ same-Holds (ground arith)
        | inl allowed ↦
            edit-Holds rm.runs id (enter to now) found (rw (found, here, allowed, enter_stage) refl)
              (moves allowed)
      ]
    ]
  ]

  pub note_stage-Holds :
      (stages : List ParsedStage) (name : StageName) (from to : RunState) (trigger actor : Str)
      (now : ℕ)
      → Holds rm.runs (note_stage rm id stages name from to trigger actor now).runs
  unfolding note_stage edit_run log_transition log_transition_with log_event
  note_stage-Holds stages name from to trigger actor now = elim (Option-cases (lookup id rm.runs)) [
    | inl missing ↦ same-Holds (ground arith)
    | inr (r, found) ↦ elim (Option-cases (find_stage_by_name stages name)) [
      | inl unlisted ↦ same-Holds (ground arith)
      | inr (s, listed) ↦
          edit-Holds rm.runs id
            (λ r. record r { active_stage = some (record { stage = name; stage_id = s.stage_id }) })
            found (rw (found, listed, note_stage) refl) (stays refl)
    ]
  ]

  pub fail_analysis-Holds :
      (reason details : Str) (now : ℕ) → Holds rm.runs (fail_analysis rm id reason details now).runs
  unfolding fail_analysis edit_run log_transition log_transition_with log_event
  fail_analysis-Holds reason details now = elim (Option-cases (lookup id rm.runs)) [
    | inl missing ↦ same-Holds (ground arith)
    | inr (r, found) ↦ elim (Bool-cases (same_state r.state analyzing)) [
      | inr other ↦ same-Holds (ground arith)
      | inl here ↦
          enter-Holds rm.runs id analyzing failed now found here
            (rw (found, here, fail_analysis) refl) refl
    ]
  ]

  ends_analysis : (b : Bool) → can_transition analyzing (if b then aborted else completed) ≡ true
  ends_analysis true = refl
  ends_analysis false = refl

  pub complete_analysis-Holds : (now : ℕ) → Holds rm.runs (complete_analysis rm id now).runs
  unfolding complete_analysis edit_run log_transition log_transition_with log_event
  complete_analysis-Holds now = elim (Option-cases (lookup id rm.runs)) [
    | inl missing ↦ same-Holds (ground arith)
    | inr (r, found) ↦ elim (Bool-cases (same_state r.state analyzing)) [
      | inr other ↦ same-Holds (ground arith)
      | inl here ↦
          enter-Holds rm.runs id analyzing
            (if is_emergency r.stop_reason then aborted else completed) now found here
            (rw (found, here, complete_analysis) refl) (ends_analysis (is_emergency r.stop_reason))
    ]
  ]
