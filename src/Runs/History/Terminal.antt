-- ===== src/Runs/History/Terminal.antt =====
-- Where the history of a run can lead.
use mcpdrill.Prelude.{
  ℕ, List, [], ◌∷◌, Bool, true, false, some, Str, lookup, lookup-insert, ◌≢◌, ◌≡◌, ◌+◌, refl, sym,
  subst, ◌∙◌, arith,
}
use mcpdrill.Runs.States.{
  RunState, created, preflight_running, preflight_passed, preflight_failed, baseline_running,
  ramp_running, soak_running, stopping, analyzing, completed, failed, aborted, can_transition,
  is_terminal,
}
use mcpdrill.Runs.Manager.{RunManager, RunRecord, log_event, generate_run_id, generate_execution_id}
use mcpdrill.Runs.Progress.{create_run, enter_ramp, enter_soak, new_run}
use mcpdrill.Runs.History.{Call, step, run, new_id, IsNotRemade}
use mcpdrill.Runs.History.Table.{Moves, stays, moves, passes, skips}
use mcpdrill.Runs.History.Stops.{
  request_stop-Holds, emergency_stop-Holds, transition_to_completed-Holds,
  transition_to_analyzing-Holds, finalize_run-Holds,
}
use mcpdrill.Runs.History.{
  creates, starts, fails_to_start, enters_baseline, enters_ramp, enters_soak, notes_stage,
  requests_stop, stops_at_once, finalizes, completes, analyzes, completes_analysis, fails_analysis,
  loses_worker,
}
use mcpdrill.Runs.History.Steps.{
  enter_preflight-Holds, transition_to_failed_from_created-Holds, enter_baseline-Holds,
  enter_stage-Holds, note_stage-Holds, fail_analysis-Holds, complete_analysis-Holds,
}
use mcpdrill.Runs.History.Losses.{loss-Holds}

-- The run `id` after a step, if the step does not make it again.
abbrev Continues : RunManager → RunManager → Str → Type 0
Continues rm after id =
    (r : RunRecord)
    → lookup id rm.runs ≡ some r
    → (r' : RunRecord) × (lookup id after.runs ≡ some r') × Moves r.state r'.state

create-Continues :
    (rm : RunManager) (ok : Bool) (config config_hash scenario_id actor : Str) (ns now : ℕ)
    (id : Str)
    → some (generate_run_id ns (rm.run_id_counter + 1)) ≢ some id
    → Continues rm (create_run rm ok config config_hash scenario_id actor ns now).0 id
unfolding create_run log_event new_run
create-Continues rm true config config_hash scenario_id actor ns now id other r found =
    let new = generate_run_id ns (rm.run_id_counter + 1) in
    let exe = generate_execution_id ns (rm.exe_id_counter + 1) in
    let made = new_run new exe config config_hash scenario_id actor now in
    let there = lookup-insert new id made rm.runs in (r, ground (arith, there), stays refl)
create-Continues rm false config config_hash scenario_id actor ns now id other r found =
    (r, found, stays refl)

step-Continues :
    (rm : RunManager) (c : Call) (id : Str) → new_id rm c ≢ some id → Continues rm (step rm c) id
unfolding step enter_ramp enter_soak
step-Continues rm (creates ok config config_hash scenario_id actor ns now) id other =
    create-Continues rm ok config config_hash scenario_id actor ns now id other
step-Continues rm (starts i actor now) id _ = enter_preflight-Holds rm i actor now id
step-Continues rm (fails_to_start i actor reason now) id _ =
    transition_to_failed_from_created-Holds rm i actor reason now id
step-Continues rm (enters_baseline i actor now) id _ = enter_baseline-Holds rm i actor now id
step-Continues rm (enters_ramp i now) id _ =
    enter_stage-Holds rm i baseline_running ramp_running now id
step-Continues rm (enters_soak i now) id _ = enter_stage-Holds rm i ramp_running soak_running now id
step-Continues rm (notes_stage i stages name from to trigger actor now) id _ =
    note_stage-Holds rm i stages name from to trigger actor now id
step-Continues rm (requests_stop i mode actor reason evidence now) id _ =
    request_stop-Holds rm i mode actor reason evidence now id
step-Continues rm (stops_at_once i actor now) id _ = emergency_stop-Holds rm i actor now id
step-Continues rm (finalizes i actor now) id _ = finalize_run-Holds rm i actor now id
step-Continues rm (completes i actor reason now) id _ =
    transition_to_completed-Holds rm i actor reason now id
step-Continues rm (analyzes i actor now) id _ = transition_to_analyzing-Holds rm i actor now id
step-Continues rm (completes_analysis i now) id _ = complete_analysis-Holds rm i now id
step-Continues rm (fails_analysis i reason details now) id _ =
    fail_analysis-Holds rm i reason details now id
step-Continues rm (loses_worker i w policy outcome now) id _ =
    loss-Holds rm i w policy outcome now id

-- The moves of a history, one after the other, through the states of a list.
abbrev pub Along : RunState → List RunState → RunState → Type 0
Along s [] t = t ≡ s
Along s (u ∷ us) t = Moves s u × Along u us t

abbrev pub Journey : RunState → RunState → Type 0
Journey s t = (us : List RunState) × Along s us t

-- Through every interleaving of calls that does not make its id again, a run stays, and its state
-- goes along the table of transitions, or from the preflight to the baseline in one step, or from
-- stopping to completed.
pub run-Journey :
    (rm : RunManager) (cs : List Call) (id : Str) (r : RunRecord)
    → lookup id rm.runs ≡ some r
    → IsNotRemade id rm cs
    → (r' : RunRecord) × (lookup id (run rm cs).runs ≡ some r') × Journey r.state r'.state
unfolding run
run-Journey rm [] id r found h = (r, found, ([], refl))
run-Journey rm (c ∷ cs) id r found (other, h) =
    let (r', there, m) = step-Continues rm c id other r found in
    let (r'', at_end, (us, j)) = run-Journey (step rm c) cs id r' there h in
    (r'', at_end, (r'.state ∷ us, (m, j)))

terminal_stuck : (s t : RunState) → is_terminal s ≡ true → can_transition s t ≡ true → t ≡ s
terminal_stuck created t h e = cc
terminal_stuck preflight_running t h e = cc
terminal_stuck preflight_passed t h e = cc
terminal_stuck preflight_failed t h e = cc
terminal_stuck baseline_running t h e = cc
terminal_stuck ramp_running t h e = cc
terminal_stuck soak_running t h e = cc
terminal_stuck stopping t h e = cc
terminal_stuck analyzing t h e = cc
terminal_stuck completed t h e = cc
terminal_stuck failed t h e = cc
terminal_stuck aborted t h e = cc

terminal_stays : (s t : RunState) → Moves s t → is_terminal s ≡ true → t ≡ s
terminal_stays s t (stays e) h = e
terminal_stays s t (moves e) h = terminal_stuck s t h e
terminal_stays s t (passes e _) h = cc
terminal_stays s t (skips e _) h = cc

journey_over : (s t : RunState) (us : List RunState) → Along s us t → is_terminal s ≡ true → t ≡ s
journey_over s t [] e h = e
journey_over s t (u ∷ us) (m, j) h =
    let same = terminal_stays s u m h in
    journey_over u t us j (subst (λ x. is_terminal x ≡ true) (sym same) h) ∙ same

-- A run that is completed, failed or aborted keeps that state, whatever calls follow that do not make
-- its id again.
pub run-terminal :
    (rm : RunManager) (cs : List Call) (id : Str) (r : RunRecord)
    → lookup id rm.runs ≡ some r
    → is_terminal r.state ≡ true
    → IsNotRemade id rm cs
    → (r' : RunRecord) × (lookup id (run rm cs).runs ≡ some r') × (r'.state ≡ r.state)
run-terminal rm cs id r found over h =
    let (r', there, (us, j)) = run-Journey rm cs id r found h in
    (r', there, journey_over r.state r'.state us j over)

abbrev pub is_past_stop : RunState → Bool
is_past_stop stopping = true
is_past_stop analyzing = true
is_past_stop s = is_terminal s

stopped_next :
    (s t : RunState) → is_past_stop s ≡ true → can_transition s t ≡ true → is_past_stop t ≡ true
stopped_next created t h e = cc
stopped_next preflight_running t h e = cc
stopped_next preflight_passed t h e = cc
stopped_next preflight_failed t h e = cc
stopped_next baseline_running t h e = cc
stopped_next ramp_running t h e = cc
stopped_next soak_running t h e = cc
stopped_next stopping created h e = cc
stopped_next stopping preflight_running h e = cc
stopped_next stopping preflight_passed h e = cc
stopped_next stopping preflight_failed h e = cc
stopped_next stopping baseline_running h e = cc
stopped_next stopping ramp_running h e = cc
stopped_next stopping soak_running h e = cc
stopped_next stopping stopping h e = refl
stopped_next stopping analyzing h e = refl
stopped_next stopping completed h e = refl
stopped_next stopping failed h e = refl
stopped_next stopping aborted h e = refl
stopped_next analyzing created h e = cc
stopped_next analyzing preflight_running h e = cc
stopped_next analyzing preflight_passed h e = cc
stopped_next analyzing preflight_failed h e = cc
stopped_next analyzing baseline_running h e = cc
stopped_next analyzing ramp_running h e = cc
stopped_next analyzing soak_running h e = cc
stopped_next analyzing stopping h e = refl
stopped_next analyzing analyzing h e = refl
stopped_next analyzing completed h e = refl
stopped_next analyzing failed h e = refl
stopped_next analyzing aborted h e = refl
stopped_next completed t h e = cc
stopped_next failed t h e = cc
stopped_next aborted t h e = cc

stopped_stays : (s t : RunState) → Moves s t → is_past_stop s ≡ true → is_past_stop t ≡ true
stopped_stays s t (stays e) h = subst (λ x. is_past_stop x ≡ true) (sym e) h
stopped_stays s t (moves e) h = stopped_next s t h e
stopped_stays s t (passes e _) h = cc
stopped_stays s t (skips _ e) h = subst (λ x. is_past_stop x ≡ true) (sym e) refl

journey_stopped :
    (s t : RunState) (us : List RunState)
    → Along s us t
    → is_past_stop s ≡ true
    → is_past_stop t ≡ true
journey_stopped s t [] e h = subst (λ x. is_past_stop x ≡ true) (sym e) h
journey_stopped s t (u ∷ us) (m, j) h = journey_stopped u t us j (stopped_stays s u m h)

-- A run that began to stop is never in a stage again, whatever calls follow that do not make its id
-- again: it is stopping, analyzed or over.
pub run-is_past_stop :
    (rm : RunManager) (cs : List Call) (id : Str) (r : RunRecord)
    → lookup id rm.runs ≡ some r
    → is_past_stop r.state ≡ true
    → IsNotRemade id rm cs
    → (r' : RunRecord) × (lookup id (run rm cs).runs ≡ some r') × (is_past_stop r'.state ≡ true)
run-is_past_stop rm cs id r found stopped h =
    let (r', there, (us, j)) = run-Journey rm cs id r found h in
    (r', there, journey_stopped r.state r'.state us j stopped)
