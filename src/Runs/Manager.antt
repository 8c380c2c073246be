-- ===== src/Runs/Manager.antt =====
-- internal/controlplane/runmanager/manager.go: the manager, its runs and their creation. What is
-- done under one hold of the lock is one function. The stores, the scheduler and the context of a
-- background task are what the lifecycle asks of them: whether they are there. JSON is a value.
use mcpdrill.Prelude.{
  ℕ, zero, suc, ◌+◌, ◌-◌, ◌%◌, ◌^◌, ◌++◌, List, [], ◌∷◌, Bool, true, false, Option, none, some,
  if◌then◌else◌, length, Str, codes, Dict, lookup, update_at, lookup-update_at, ◌≡◌, refl,
  Str-discrete, arith,
}
use mcpdrill.Prelude.Hex.{to_hex}
use mcpdrill.Runs.States.{RunState, StopReason, ActiveStageInfo}
use mcpdrill.Runs.EventLog.{Evidence, RunEvent, EventLog, append}

-- The payload of an event: a transition with its other fields, or any fields. A field that holds a
-- number is left out.
pub data Payload : Type 0 where
  transition : RunState → RunState → List (Str × Str) → Payload
  fields : List (Str × Str) → Payload

pub record RunRecord : Type 0 where
  pub run_id : Str
  pub execution_id : Str
  pub state : RunState
  pub config_hash : Str
  pub scenario_id : Str
  pub created_at_ms : ℕ
  pub updated_at_ms : ℕ
  pub active_stage : Option ActiveStageInfo
  pub stop_reason : Option StopReason
  pub actor : Str
  pub config : Str
  -- `progressionCancel`, `rampCancel`, `stopConditionsCancel`, and an open `drainCancel`.
  pub progressing : Bool
  pub ramping : Bool
  pub watching : Bool
  pub draining : Bool
  pub immediate_stop : Bool

pub record RunManager : Type 0 where
  pub runs : Dict RunRecord
  pub event_logs : Dict (EventLog Payload)
  pub has_telemetry_store : Bool
  pub has_artifact_store : Bool
  pub run_id_counter : ℕ
  pub exe_id_counter : ℕ
  pub event_id_counter : ℕ

unfoldable pub new_run_manager : RunManager
new_run_manager = record {
  runs = [];
  event_logs = [];
  has_telemetry_store = false;
  has_artifact_store = false;
  run_id_counter = 0;
  exe_id_counter = 0;
  event_id_counter = 0;
}

pub data RunError : Type 0 where
  validation_failed : RunError
  not_found : RunError
  invalid_state : RunState → RunError
  terminal_state : RunState → RunError
  invalid_transition : RunState → RunState → RunError
  state_changed : RunState → RunError

-- `%0wx`
zeros : ℕ → Str
zeros zero = []
zeros (suc n) = 48 ∷ zeros n

hex_padded : ℕ → ℕ → Str
unfolding zeros
hex_padded w n = zeros (w - length (to_hex n)) ++ to_hex n

unfoldable pub generate_run_id : ℕ → ℕ → Str
unfolding hex_padded
generate_run_id ts_ns counter =
    codes "run_" ++ (hex_padded 16 ts_ns ++ hex_padded 4 (counter % 2 ^ 16))

unfoldable pub generate_execution_id : ℕ → ℕ → Str
unfolding hex_padded
generate_execution_id ts_ns counter =
    codes "exe_" ++ (hex_padded 12 (ts_ns % 2 ^ 48) ++ hex_padded 4 (counter % 2 ^ 16))

unfoldable pub event_of : RunRecord → Str → Str → Payload → List Evidence → RunEvent Payload
event_of r type actor payload evidence = record {
  schema_version = [];
  event_id = [];
  timestamp_ms = 0;
  run_id = r.run_id;
  execution_id = r.execution_id;
  type = type;
  actor = actor;
  payload = some payload;
  evidence = some evidence;
}

-- `appendEventWithLog` on the log of a run.
unfoldable pub log_event : RunManager → Str → RunEvent Payload → ℕ → RunManager
unfolding append
log_event rm id e now = record rm {
  event_logs = update_at id (λ el. (append el e now (rm.event_id_counter + 1)).0) rm.event_logs;
  event_id_counter = rm.event_id_counter + 1;
}

unfoldable pub edit_run : RunManager → Str → (RunRecord → RunRecord) → RunManager
edit_run rm id f = record rm { runs = update_at id f rm.runs }

-- `record.State = to` and `record.UpdatedAtMs = now`.
unfoldable pub enter : RunState → ℕ → RunRecord → RunRecord
enter to now r = record r { state = to; updated_at_ms = now }

unfoldable pub transition_event :
    RunRecord → RunState → Str → Str → List (Str × Str) → List Evidence → RunEvent Payload
unfolding event_of
transition_event r to trigger actor more evidence =
    event_of r (codes "STATE_TRANSITION") actor
      (transition r.state to ((codes "trigger", trigger) ∷ (codes "actor", actor) ∷ more)) evidence

-- The event of type STATE_TRANSITION of the record `r`, read before it changed.
unfoldable pub log_transition : RunManager → Str → RunRecord → RunState → Str → Str → ℕ → RunManager
unfolding log_event transition_event
log_transition rm id r to trigger actor now =
    log_event rm id (transition_event r to trigger actor [] []) now

-- The same with more fields and evidence.
unfoldable pub log_transition_with :
    RunManager
    → Str
    → RunRecord
    → RunState
    → Str
    → Str
    → List (Str × Str)
    → List Evidence
    → ℕ
    → RunManager
unfolding log_event transition_event
log_transition_with rm id r to trigger actor more evidence now =
    log_event rm id (transition_event r to trigger actor more evidence) now

unfoldable pub cancel_stage_progression : RunRecord → RunRecord
cancel_stage_progression r = record r { progressing = false; ramping = false }

unfoldable pub stop_evaluator : RunRecord → RunRecord
stop_evaluator r = record r { watching = false }

unfoldable pub start_evaluator : RunRecord → RunRecord
start_evaluator r = record r { watching = true }

-- `startStopConditionEvaluator`, for a stage with conditions or without: it looks at no state.
unfoldable pub start_stop_condition_evaluator : RunManager → Str → Bool → RunManager
unfolding edit_run start_evaluator
start_stop_condition_evaluator rm id false = rm
start_stop_condition_evaluator rm id true = elim (lookup id rm.runs) [
  | none ↦ rm
  | some r ↦ if rm.has_telemetry_store then edit_run rm id start_evaluator else rm
]

-- The run that an edit leaves.
pub lookup_edit :
    (id : Str) (f : RunRecord → RunRecord) (m : Dict RunRecord) {r : RunRecord}
    → lookup id m ≡ some r
    → lookup id (update_at id f m) ≡ some (f r)
lookup_edit id f m {r} found = elim (Str-discrete id id) [
  | yes same ↦ ground (arith, lookup-update_at id id f m {v = r} found)
  | no other ↦ elim (other refl) [ ]
]
