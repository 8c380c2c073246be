-- ===== src/Runs/History/Stops.antt =====
-- The stops of a run and its states.
use mcpdrill.Prelude.{
  ℕ, List, true, false, Str, lookup, inl, inr, refl, codes, arith, Bool-cases, Option-cases, ◌&&◌,
}
use mcpdrill.Runs.States.{
  stopping, analyzing, completed, can_transition, is_terminal, same_state_sound, StopMode,
  immediate, StopReason,
}
use mcpdrill.Runs.EventLog.{Evidence}
use mcpdrill.Runs.Manager.{
  RunManager, RunRecord, log_event, edit_run, enter, log_transition, log_transition_with,
  cancel_stage_progression, stop_evaluator,
}
use mcpdrill.Runs.Stop.{
  request_stop_with_reason, emergency_stop, finalize_run, transition_to_completed,
  transition_to_analyzing, enter_stopping, escalate, is_stopping,
}
use mcpdrill.Runs.History.Table.{
  stays, moves, skips, Holds, same-Holds, edit-Holds, update_twice, enter-Holds,
}

module _ (rm : RunManager) (id : Str) where
  pub request_stop-Holds :
      (mode : StopMode) (actor reason : Str) (evidence : List Evidence) (now : ℕ)
      → Holds rm.runs (request_stop_with_reason rm id mode actor reason evidence now).0.runs
  unfolding request_stop_with_reason edit_run log_transition log_transition_with log_event enter
      enter_stopping cancel_stage_progression stop_evaluator
  request_stop-Holds mode actor reason evidence now =
      let quiet : RunRecord → RunRecord = λ r. stop_evaluator (cancel_stage_progression r) in
      let why : StopReason = record { mode = mode; reason = reason; actor = actor; at_ms = now } in
      elim (Option-cases (lookup id rm.runs)) [
        | inl missing ↦ same-Holds (ground arith)
        | inr (r, found) ↦ elim (Bool-cases (is_terminal r.state)) [
          | inl over ↦ same-Holds (ground arith)
          | inr live ↦ elim (Bool-cases (is_stopping r.state)) [
            | inl again ↦
                edit-Holds rm.runs id quiet found
                  (rw (found, live, again, request_stop_with_reason) refl) (stays refl)
            | inr first ↦ elim (Bool-cases (can_transition r.state stopping)) [
              | inr refused ↦
                  edit-Holds rm.runs id quiet found
                    (rw (found, live, first, refused, request_stop_with_reason) refl) (stays refl)
              | inl allowed ↦
                  edit-Holds rm.runs id (λ r. enter_stopping why true (quiet r)) found
                    (rw (found, live, first, allowed, request_stop_with_reason)
                      (update_twice id quiet (enter_stopping why true) rm.runs))
                    (moves allowed)
            ]
          ]
        ]
      ]

  pub emergency_stop-Holds :
      (actor : Str) (now : ℕ) → Holds rm.runs (emergency_stop rm id actor now).0.runs
  unfolding emergency_stop edit_run log_transition log_transition_with log_event enter
      enter_stopping cancel_stage_progression escalate
  emergency_stop-Holds actor now =
      let quiet : RunRecord → RunRecord = λ r. cancel_stage_progression r in
      let why : StopReason = record {
        mode = immediate;
        reason = codes "emergency_stop";
        actor = actor;
        at_ms = now;
      } in
      elim (Option-cases (lookup id rm.runs)) [
        | inl missing ↦ same-Holds (ground arith)
        | inr (r, found) ↦ elim (Bool-cases (is_terminal r.state)) [
          | inl over ↦ same-Holds (ground arith)
          | inr live ↦ elim (Bool-cases (is_stopping r.state)) [
            | inl again ↦
                edit-Holds rm.runs id (λ r. escalate why (quiet r)) found
                  (rw (found, live, again, emergency_stop)
                    (update_twice id quiet (escalate why) rm.runs))
                  (stays refl)
            | inr first ↦ elim (Bool-cases (can_transition r.state stopping)) [
              | inr refused ↦
                  edit-Holds rm.runs id quiet found
                    (rw (found, live, first, refused, emergency_stop) refl) (stays refl)
              | inl allowed ↦
                  edit-Holds rm.runs id (λ r. enter_stopping why false (quiet r)) found
                    (rw (found, live, first, allowed, emergency_stop)
                      (update_twice id quiet (enter_stopping why false) rm.runs))
                    (moves allowed)
            ]
          ]
        ]
      ]

  pub transition_to_completed-Holds :
      (actor reason : Str) (now : ℕ)
      → Holds rm.runs (transition_to_completed rm id actor reason now).runs
  unfolding transition_to_completed edit_run log_transition log_transition_with log_event enter
  transition_to_completed-Holds actor reason now = elim (Option-cases (lookup id rm.runs)) [
    | inl missing ↦ same-Holds (ground arith)
    | inr (r, found) ↦ elim (Bool-cases (is_stopping r.state)) [
      | inr other ↦ same-Holds (ground arith)
      | inl here ↦
          edit-Holds rm.runs id (enter completed now) found
            (rw (found, here, transition_to_completed) refl)
            (skips (same_state_sound r.state stopping here) refl)
    ]
  ]

  pub transition_to_analyzing-Holds :
      (actor : Str) (now : ℕ) → Holds rm.runs (transition_to_analyzing rm id actor now).0.runs
  unfolding transition_to_analyzing edit_run log_transition log_transition_with log_event
  transition_to_analyzing-Holds actor now = elim (Option-cases (lookup id rm.runs)) [
    | inl missing ↦ same-Holds (ground arith)
    | inr (r, found) ↦ elim (Bool-cases (is_stopping r.state)) [
      | inr other ↦ same-Holds (ground arith)
      | inl here ↦ elim (Bool-cases (can_transition r.state analyzing)) [
        | inr refused ↦ same-Holds (ground arith)
        | inl allowed ↦
            enter-Holds rm.runs id stopping analyzing now found here
              (rw (found, here, allowed, transition_to_analyzing) refl) refl
      ]
    ]
  ]

  pub finalize_run-Holds :
      (actor : Str) (now : ℕ) → Holds rm.runs (finalize_run rm id actor now).runs
  unfolding finalize_run
  finalize_run-Holds actor now = elim (Option-cases (lookup id rm.runs)) [
    | inl missing ↦ same-Holds (ground arith)
    | inr (r, found) ↦ elim (Bool-cases (is_stopping r.state)) [
      | inr other ↦ same-Holds (ground arith)
      | inl here ↦ elim (Bool-cases (rm.has_telemetry_store && rm.has_artifact_store)) [
        | inr none_to_analyze ↦
            rw (found, here, none_to_analyze, finalize_run)
              (transition_to_completed-Holds actor (codes "no_telemetry") now)
        | inl stores ↦
            rw (found, here, stores, finalize_run) (transition_to_analyzing-Holds actor now)
      ]
    ]
  ]
