-- ===== src/Runs/History.antt =====
-- internal/controlplane/runmanager: histories of calls. A call is what one hold of the lock does, so
-- a history is any interleaving of API requests, stage progression, drains, analyses and losses of
-- workers. `finalizes` reads the state and acts on it; `completes` and `analyzes` are the same two
-- acts when something came between. A call that drives a stage, such as a stage's time running out,
-- is the stop request that it makes.
pub mod Table
pub mod Stops
pub mod Steps
pub mod Losses
pub mod Terminal
use mcpdrill.Prelude.{ℕ, List, [], ◌∷◌, Bool, Option, none, some, Str, lookup, ◌⊎◌, ◌≢◌, ◌+◌}
use mcpdrill.Runs.States.{RunState, StopMode, StageName}
use mcpdrill.Runs.EventLog.{Evidence}
use mcpdrill.Runs.Manager.{RunManager, RunRecord, generate_run_id}
use mcpdrill.Runs.Stop.{
  request_stop_with_reason, emergency_stop, finalize_run, transition_to_completed,
  transition_to_analyzing,
}
use mcpdrill.Runs.Progress.{
  create_run, enter_preflight, transition_to_failed_from_created, enter_baseline, enter_ramp,
  enter_soak, note_stage, ParsedStage, complete_analysis, fail_analysis,
}
use mcpdrill.Runs.Loss.{WorkerFailurePolicy, handle_worker_capacity_lost}

pub data Call : Type 0 where
  creates : (ok : Bool) (config config_hash scenario_id actor : Str) (ns now : ℕ) → Call
  starts : (id actor : Str) (now : ℕ) → Call
  fails_to_start : (id actor reason : Str) (now : ℕ) → Call
  enters_baseline : (id actor : Str) (now : ℕ) → Call
  enters_ramp : (id : Str) (now : ℕ) → Call
  enters_soak : (id : Str) (now : ℕ) → Call
  notes_stage :
      (id : Str) (stages : List ParsedStage) (name : StageName) (from to : RunState)
      (trigger actor : Str) (now : ℕ)
      → Call
  requests_stop :
      (id : Str) (mode : StopMode) (actor reason : Str) (evidence : List Evidence) (now : ℕ) → Call
  stops_at_once : (id actor : Str) (now : ℕ) → Call
  finalizes : (id actor : Str) (now : ℕ) → Call
  completes : (id actor reason : Str) (now : ℕ) → Call
  analyzes : (id actor : Str) (now : ℕ) → Call
  completes_analysis : (id : Str) (now : ℕ) → Call
  fails_analysis : (id reason details : Str) (now : ℕ) → Call
  loses_worker :
      (id worker_id : Str) (policy : WorkerFailurePolicy) (outcome : Str ⊎ List (Str × Str))
      (now : ℕ)
      → Call

unfoldable pub step : RunManager → Call → RunManager
unfolding create_run enter_preflight transition_to_failed_from_created enter_baseline enter_ramp
    enter_soak note_stage request_stop_with_reason emergency_stop finalize_run
    transition_to_completed transition_to_analyzing complete_analysis fail_analysis
    handle_worker_capacity_lost
step rm (creates ok config config_hash scenario_id actor ns now) =
    (create_run rm ok config config_hash scenario_id actor ns now).0
step rm (starts id actor now) = (enter_preflight rm id actor now).0
step rm (fails_to_start id actor reason now) =
    transition_to_failed_from_created rm id actor reason now
step rm (enters_baseline id actor now) = (enter_baseline rm id actor now).0
step rm (enters_ramp id now) = (enter_ramp rm id now).0
step rm (enters_soak id now) = (enter_soak rm id now).0
step rm (notes_stage id stages name from to trigger actor now) =
    note_stage rm id stages name from to trigger actor now
step rm (requests_stop id mode actor reason evidence now) =
    (request_stop_with_reason rm id mode actor reason evidence now).0
step rm (stops_at_once id actor now) = (emergency_stop rm id actor now).0
step rm (finalizes id actor now) = finalize_run rm id actor now
step rm (completes id actor reason now) = transition_to_completed rm id actor reason now
step rm (analyzes id actor now) = (transition_to_analyzing rm id actor now).0
step rm (completes_analysis id now) = complete_analysis rm id now
step rm (fails_analysis id reason details now) = fail_analysis rm id reason details now
step rm (loses_worker id worker_id policy outcome now) =
    (handle_worker_capacity_lost rm id worker_id policy outcome now).0

unfoldable pub run : RunManager → List Call → RunManager
run rm [] = rm
run rm (c ∷ cs) = run (step rm c) cs

abbrev state_in : Option RunRecord → Option RunState
state_in none = none
state_in (some r) = some r.state

unfoldable pub state_of : RunManager → Str → Option RunState
state_of rm id = state_in (lookup id rm.runs)

-- The id that a call makes.
abbrev pub new_id : RunManager → Call → Option Str
new_id rm (creates ok config config_hash scenario_id actor ns now) =
    some (generate_run_id ns (rm.run_id_counter + 1))
new_id rm _ = none

-- No call of the history makes the id again. Ids are made from the clock in nanoseconds and the last
-- 16 bits of a counter.
abbrev pub IsNotRemade : Str → RunManager → List Call → Type 0
IsNotRemade id rm [] = Unit
IsNotRemade id rm (c ∷ cs) = (new_id rm c ≢ some id) × IsNotRemade id (step rm c) cs
