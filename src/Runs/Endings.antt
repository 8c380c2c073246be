-- ===== src/Runs/Endings.antt =====
-- internal/controlplane/runmanager: how a run ends that was stopped in an emergency.
use mcpdrill.Prelude.{
  ℕ, Bool, true, false, ◌&&◌, Option, none, some, Str, codes, lookup, ◌≡◌, refl, Bool-cases, inl,
  inr, if◌then◌else◌, Str-discrete, update_at,
}
use mcpdrill.Runs.States.{
  RunState, stopping, analyzing, completed, failed, aborted, can_transition, is_terminal,
  same_state, same_state_sound, immediate, StopReason,
}
use mcpdrill.Runs.Manager.{
  RunManager, RunRecord, edit_run, enter, log_event, log_transition, log_transition_with,
  lookup_edit, cancel_stage_progression,
}
use mcpdrill.Runs.Stop.{
  emergency_stop, finalize_run, transition_to_completed, transition_to_analyzing, is_stopping,
  enter_stopping, escalate,
}
use mcpdrill.Runs.Progress.{complete_analysis, fail_analysis, is_emergency}

-- The run `id` is stopping because of an emergency.
abbrev IsEmergency : RunManager → Str → Type 0
IsEmergency rm id =
    (r : RunRecord) × (lookup id rm.runs ≡ some r)
    × (r.state ≡ stopping)
    × (is_emergency r.stop_reason ≡ true)

-- The stores of a manager.
abbrev HasSameStores : RunManager → RunManager → Type 0
HasSameStores rm after =
    (after.has_telemetry_store ≡ rm.has_telemetry_store)
    × (after.has_artifact_store ≡ rm.has_artifact_store)

module _ (rm : RunManager) (id : Str) (r : RunRecord) (found : lookup id rm.runs ≡ some r) where
  accepted :
      (actor : Str) (now : ℕ)
      → (emergency_stop rm id actor now).1 ≡ none
      → IsEmergency (emergency_stop rm id actor now).0 id
        × HasSameStores rm (emergency_stop rm id actor now).0
  unfolding emergency_stop edit_run log_transition log_transition_with log_event enter
      enter_stopping cancel_stage_progression escalate is_emergency Str-discrete
  accepted actor now =
      let quiet : RunRecord → RunRecord = λ r. cancel_stage_progression r in
      let why : StopReason = record {
        mode = immediate;
        reason = codes "emergency_stop";
        actor = actor;
        at_ms = now;
      } in
      let at_rest = lookup_edit id quiet rm.runs found in
      elim (Bool-cases (is_terminal r.state)) [
        | inl over ↦ rw (found, over, emergency_stop) (λ e. cc)
        | inr live ↦ elim (Bool-cases (is_stopping r.state)) [
          | inl again ↦
              rw (found, live, again, emergency_stop)
                (λ e. (
                  (
                    escalate why (quiet r),
                    lookup_edit id (escalate why) (update_at id quiet rm.runs) at_rest,
                    same_state_sound r.state stopping again,
                    refl,
                  ),
                  (refl, refl),
                ))
          | inr first ↦ elim (Bool-cases (can_transition r.state stopping)) [
            | inr refused ↦ rw (found, live, first, refused, emergency_stop) (λ e. cc)
            | inl allowed ↦
                rw (found, live, first, allowed, emergency_stop)
                  (λ e. (
                    (
                      enter_stopping why false (quiet r),
                      lookup_edit id (enter_stopping why false) (update_at id quiet rm.runs)
                          at_rest,
                      refl,
                      refl,
                    ),
                    (refl, refl),
                  ))
          ]
        ]
      ]

-- The end of an analysis, for a run in either state that `finalizeRun` leaves.
analyzed :
    (rm : RunManager) (id : Str) (r : RunRecord) (now : ℕ)
    → lookup id rm.runs ≡ some r
    → r.state ≡ analyzing
    → is_emergency r.stop_reason ≡ true
    → (r' : RunRecord) × (lookup id (complete_analysis rm id now).runs ≡ some r')
      × (r'.state ≡ aborted)
unfolding complete_analysis edit_run log_transition log_transition_with log_event enter
analyzed rm id r now found here urgent =
    let test : same_state r.state analyzing ≡ true = rw here refl in
    rw (found, test, urgent, complete_analysis)
      (enter aborted now r, lookup_edit id (enter aborted now) rm.runs found, refl)

-- The end of an analysis: it succeeds, or it fails for a reason, of which a time that ran out is one.
abbrev pub conclude : Option (Str × Str) → RunManager → Str → ℕ → RunManager
conclude none rm id now = complete_analysis rm id now
conclude (some (reason, details)) rm id now = fail_analysis rm id reason details now

not_analyzed :
    (outcome : Option (Str × Str)) (rm : RunManager) (id : Str) (r : RunRecord) (now : ℕ)
    → lookup id rm.runs ≡ some r
    → r.state ≡ completed
    → (r' : RunRecord) × (lookup id (conclude outcome rm id now).runs ≡ some r')
      × (r'.state ≡ completed)
unfolding complete_analysis fail_analysis
not_analyzed none rm id r now found here =
    let test : same_state r.state analyzing ≡ false = rw here refl in
    rw (found, test, complete_analysis) (r, found, here)
not_analyzed (some (reason, details)) rm id r now found here =
    let test : same_state r.state analyzing ≡ false = rw here refl in
    rw (found, test, fail_analysis) (r, found, here)

-- The state that an analysis of a run stopped in an emergency leaves.
abbrev pub concluded : Option (Str × Str) → RunState
concluded none = aborted
concluded (some why) = failed

concludes :
    (outcome : Option (Str × Str)) (rm : RunManager) (id : Str) (r : RunRecord) (now : ℕ)
    → lookup id rm.runs ≡ some r
    → r.state ≡ analyzing
    → is_emergency r.stop_reason ≡ true
    → (r' : RunRecord) × (lookup id (conclude outcome rm id now).runs ≡ some r')
      × (r'.state ≡ concluded outcome)
unfolding fail_analysis edit_run log_transition log_transition_with log_event enter
concludes none rm id r now found here urgent = analyzed rm id r now found here urgent
concludes (some (reason, details)) rm id r now found here urgent =
    let test : same_state r.state analyzing ≡ true = rw here refl in
    rw (found, test, fail_analysis)
      (enter failed now r, lookup_edit id (enter failed now) rm.runs found, refl)

-- A manager that can analyze a run.
abbrev pub can_analyze : RunManager → Bool
can_analyze rm = rm.has_telemetry_store && rm.has_artifact_store

module _ (rm : RunManager) (id actor : Str) (now : ℕ) (r : RunRecord) where
  leaves_analyzing :
      lookup id rm.runs ≡ some r
      → r.state ≡ stopping
      → lookup id (transition_to_analyzing rm id actor now).0.runs ≡ some (enter analyzing now r)
  unfolding transition_to_analyzing edit_run log_transition log_transition_with log_event
  leaves_analyzing found here =
      let test : is_stopping r.state ≡ true = rw here refl in
      let allowed : can_transition r.state analyzing ≡ true = rw here refl in
      rw (found, test, allowed, transition_to_analyzing)
        (lookup_edit id (enter analyzing now) rm.runs found)

  leaves_completed :
      (reason : Str)
      → lookup id rm.runs ≡ some r
      → r.state ≡ stopping
      → lookup id (transition_to_completed rm id actor reason now).runs
        ≡ some (enter completed now r)
  unfolding transition_to_completed edit_run log_transition log_transition_with log_event
  leaves_completed reason found here =
      let test : is_stopping r.state ≡ true = rw here refl in
      rw (found, test, transition_to_completed) (lookup_edit id (enter completed now) rm.runs found)

  leaves_final :
      lookup id rm.runs ≡ some r
      → r.state ≡ stopping
      → lookup id (finalize_run rm id actor now).runs
        ≡ some (enter (if can_analyze rm then analyzing else completed) now r)
  unfolding finalize_run
  leaves_final found here =
      let test : is_stopping r.state ≡ true = rw here refl in
      elim (Bool-cases (can_analyze rm)) [
        | inl stores ↦ rw (found, test, stores, finalize_run) (leaves_analyzing found here)
        | inr none_to_analyze ↦
            rw (found, test, none_to_analyze, finalize_run)
              (leaves_completed (codes "no_telemetry") found here)
      ]

finalized :
    (outcome : Option (Str × Str)) (rm : RunManager) (id actor : Str) (now later : ℕ)
    → IsEmergency rm id
    → (r' : RunRecord) × (lookup id (conclude outcome (finalize_run rm id actor now) id later).runs
        ≡ some r')
      × (r'.state ≡ (if can_analyze rm then concluded outcome else completed))
unfolding enter
finalized outcome rm id actor now later (r, found, here, urgent) =
    let final = leaves_final rm id actor now r found here in
    let rm' = finalize_run rm id actor now in
    elim (Bool-cases (can_analyze rm)) [
      | inl stores ↦
          rw stores (
            concludes outcome rm' id (enter analyzing now r) later (rw stores at final) refl urgent)
      | inr none_to_analyze ↦ rw none_to_analyze (
          not_analyzed outcome rm' id (enter completed now r) later (rw none_to_analyze at final)
            refl)
    ]

-- An emergency stop that is accepted, then the end of the drain, then the end of the analysis: if the
-- manager has the stores that an analysis needs, the run is aborted if the analysis succeeded, and failed
-- if it did not; and if the manager lacks one, the run is completed.
pub emergency_stop-finalize_run :
    (outcome : Option (Str × Str)) (rm : RunManager) (id actor actor' : Str) (now later latest : ℕ)
    (r : RunRecord)
    → lookup id rm.runs ≡ some r
    → (emergency_stop rm id actor now).1 ≡ none
    → (r' : RunRecord) × (lookup id
          (conclude outcome
            (finalize_run (emergency_stop rm id actor now).0 id actor' later)
            id
            latest).runs
        ≡ some r')
      × (r'.state ≡ (if can_analyze rm then concluded outcome else completed))
emergency_stop-finalize_run outcome rm id actor actor' now later latest r found e =
    let (urgent, (t, a)) = accepted rm id r found actor now e in
    let rm' = (emergency_stop rm id actor now).0 in
    let stores : can_analyze rm' ≡ can_analyze rm = rw (t, a) refl in
    let ending = finalized outcome rm' id actor' later latest urgent in rw stores at ending
