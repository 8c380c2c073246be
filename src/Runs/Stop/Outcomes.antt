-- ===== src/Runs/Stop/Outcomes.antt =====
-- What a stop request answers, and how an emergency stop ends.
use mcpdrill.Prelude.{
  ℕ, List, Bool, true, false, not, ◌||◌, Option, none, some, Str, lookup, ◌≡◌, refl, arith,
  Bool-cases, inl, inr, if◌then◌else◌, update_at,
}
use mcpdrill.Runs.States.{
  RunState, created, preflight_running, preflight_passed, preflight_failed, baseline_running,
  ramp_running, soak_running, stopping, analyzing, completed, failed, aborted, can_transition,
  is_terminal, same_state_sound, StopMode, StopReason,
}
use mcpdrill.Runs.EventLog.{Evidence}
use mcpdrill.Runs.Manager.{
  RunManager, RunRecord, RunError, terminal_state, invalid_transition, edit_run, enter, log_event,
  log_transition, log_transition_with, lookup_edit, cancel_stage_progression, stop_evaluator,
  start_evaluator, start_stop_condition_evaluator,
}
use mcpdrill.Runs.Stop.{request_stop_with_reason, is_stopping, enter_stopping}

-- The answer that the state of the run calls for.
abbrev pub stop_answer : RunState → Option RunError
stop_answer created = some (invalid_transition created stopping)
stop_answer analyzing = some (invalid_transition analyzing stopping)
stop_answer completed = some (terminal_state completed)
stop_answer failed = some (terminal_state failed)
stop_answer aborted = some (terminal_state aborted)
stop_answer _ = none

-- The state and the reason after a stop request: a run that stops already keeps its reason.
abbrev pub Stopped : RunRecord → StopReason → RunRecord → Option RunError → Type 0
Stopped r why r' (some e) = (r'.state ≡ r.state) × (r'.stop_reason ≡ r.stop_reason)
Stopped r why r' none =
    (r'.state ≡ stopping)
    × (r'.stop_reason ≡ (if is_stopping r.state then r.stop_reason else some why))
    × (r'.progressing ≡ false)
    × (r'.ramping ≡ false)
    × (r'.watching ≡ false)

-- The answer of the tests that the code makes.
abbrev answer_of : RunState → Option RunError
answer_of s =
    if is_terminal s
    then some (terminal_state s)
    else if is_stopping s
    then none
    else if not (can_transition s stopping)
    then some (invalid_transition s stopping)
    else none

answer_of_tests : (s : RunState) → answer_of s ≡ stop_answer s
answer_of_tests created = refl
answer_of_tests preflight_running = refl
answer_of_tests preflight_passed = refl
answer_of_tests preflight_failed = refl
answer_of_tests baseline_running = refl
answer_of_tests ramp_running = refl
answer_of_tests soak_running = refl
answer_of_tests stopping = refl
answer_of_tests analyzing = refl
answer_of_tests completed = refl
answer_of_tests failed = refl
answer_of_tests aborted = refl

-- The run after a stop request, and the answer.
abbrev pub StopResult : RunRecord → StopReason → Str → RunManager × Option RunError → Type 0
StopResult r why id (after, answer) =
    (answer ≡ stop_answer r.state)
    × ((r' : RunRecord) × (lookup id after.runs ≡ some r') × Stopped r why r' answer)

stop_request :
    (rm : RunManager) (id : Str) (mode : StopMode) (actor reason : Str) (evidence : List Evidence)
    (now : ℕ) (r : RunRecord)
    → lookup id rm.runs ≡ some r
    → StopResult r
        (record { mode = mode; reason = reason; actor = actor; at_ms = now })
        id
        (request_stop_with_reason rm id mode actor reason evidence now)
unfolding request_stop_with_reason edit_run log_transition log_transition_with log_event enter
    enter_stopping cancel_stage_progression stop_evaluator
stop_request rm id mode actor reason evidence now r found =
    let quiet : RunRecord → RunRecord = λ r. stop_evaluator (cancel_stage_progression r) in
    let why : StopReason = record { mode = mode; reason = reason; actor = actor; at_ms = now } in
    let at_rest = lookup_edit id quiet rm.runs found in
    let answers = answer_of_tests r.state in
    elim (Bool-cases (is_terminal r.state)) [
      | inl over ↦
          rw (found, over, request_stop_with_reason) (rw over at answers, (r, found, (refl, refl)))
      | inr live ↦ elim (Bool-cases (is_stopping r.state)) [
        | inl again ↦
            rw (found, live, again, request_stop_with_reason)
              (
                rw (live, again) at answers,
                (
                  quiet r,
                  at_rest,
                  (same_state_sound r.state stopping again, ground arith, refl, refl, refl),
                ),
              )
        | inr first ↦ elim (Bool-cases (can_transition r.state stopping)) [
          | inr refused ↦
              rw (found, live, first, refused, request_stop_with_reason)
                (rw (live, first, refused) at answers, (quiet r, at_rest, (refl, refl)))
          | inl allowed ↦
              rw (found, live, first, allowed, request_stop_with_reason)
                (
                  rw (live, first, allowed) at answers,
                  (
                    enter_stopping why true (quiet r),
                    lookup_edit id (enter_stopping why true) (update_at id quiet rm.runs) at_rest,
                    (refl, ground arith, refl, refl, refl),
                  ),
                )
        ]
      ]
    ]

-- A run whose evaluator was started, if there is a telemetry store.
abbrev pub started_in : Bool → Option RunRecord → Option RunRecord
started_in stores none = none
started_in stores (some r) = some (record r { watching = stores || r.watching })

starts_late :
    (rm : RunManager) (id : Str) (found : Option RunRecord)
    → lookup id rm.runs ≡ found
    → lookup id (start_stop_condition_evaluator rm id true).runs
      ≡ started_in rm.has_telemetry_store found
unfolding start_stop_condition_evaluator edit_run start_evaluator
starts_late rm id none e = rw (e, start_stop_condition_evaluator) e
starts_late rm id (some r) e = elim (Bool-cases rm.has_telemetry_store) [
  | inl there ↦
      rw (e, there, start_stop_condition_evaluator) (lookup_edit id start_evaluator rm.runs e)
  | inr missing ↦ rw (e, missing, start_stop_condition_evaluator) e
]

-- A stop request of a known run answers by its state: a run that is over or analyzing or not started
-- refuses and keeps its state and reason; one that stops already keeps its reason; any other begins
-- to stop for the new reason. When an accepted request returns, the progression of the stages, their
-- ramp and their evaluator are cancelled. But a stage that was entered before the request starts its
-- evaluator after it, whatever the state of the run is then, if there is a telemetry store.
pub request_stop-StopResult :
    (rm : RunManager) (id : Str) (mode : StopMode) (actor reason : Str) (evidence : List Evidence)
    (now : ℕ) (r : RunRecord)
    → lookup id rm.runs ≡ some r
    → StopResult r
        (record { mode = mode; reason = reason; actor = actor; at_ms = now })
        id
        (request_stop_with_reason rm id mode actor reason evidence now)
      × ((after : RunManager)
          → lookup id (start_stop_condition_evaluator after id true).runs
            ≡ started_in after.has_telemetry_store (lookup id after.runs))
request_stop-StopResult rm id mode actor reason evidence now r found = (
  stop_request rm id mode actor reason evidence now r found,
  λ after. starts_late after id (lookup id after.runs) refl,
)
