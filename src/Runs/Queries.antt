-- ===== src/Runs/Queries.antt =====
-- internal/controlplane/runmanager/queries.go: what the API and the workers ask of the run manager. The
-- key of the server's telemetry is read from JSON and left out.
pub mod StopNotices
use mcpdrill.Prelude.{
  ℕ, ◌++◌, List, [], ◌∷◌, Bool, true, false, ◌||◌, Option, none, some, if◌then◌else◌, Str, str_eq,
  codes, Dict, lookup, ◌⊎◌, inl, inr,
}
use mcpdrill.Prelude.Int.{ℤ}
use mcpdrill.Scheduler.Leases.{LeaseManager, list_worker_run_ids}
use mcpdrill.Runs.States.{
  RunState, StopReason, ActiveStageInfo, stopping, completed, failed, aborted, same_state,
}
use mcpdrill.Runs.EventLog.{RunEvent, EventLog, EventLogError, get_all, tail, len, find_event_index}
use mcpdrill.Runs.Manager.{RunManager, RunRecord, RunError, not_found, Payload}

pub record RunView : Type 0 where
  pub run_id : Str
  pub execution_id : Str
  pub state : RunState
  pub scenario_id : Str
  pub config_hash : Str
  pub created_at_ms : ℕ
  pub updated_at_ms : ℕ
  pub active_stage : Option ActiveStageInfo
  pub stop_reason : Option StopReason
  pub last_decision_event_id : Option Str

-- The id of the last event of type DECISION: the loop goes from the end.
unfoldable pub last_decision : List (RunEvent Payload) → Option Str
last_decision [] = none
last_decision (e ∷ es) = elim (last_decision es) [
  | some id ↦ some id
  | none ↦ if str_eq e.type (codes "DECISION") then some e.event_id else none
]

unfoldable pub last_decision_of : RunManager → Str → Option Str
unfolding last_decision get_all
last_decision_of rm run_id = elim (lookup run_id rm.event_logs) [
  | none ↦ none
  | some el ↦ last_decision (get_all el)
]

unfoldable pub view_of : RunManager → RunRecord → Str → RunView
unfolding last_decision_of
view_of rm r log_id = record {
  run_id = r.run_id;
  execution_id = r.execution_id;
  state = r.state;
  scenario_id = r.scenario_id;
  config_hash = r.config_hash;
  created_at_ms = r.created_at_ms;
  updated_at_ms = r.updated_at_ms;
  active_stage = r.active_stage;
  stop_reason = r.stop_reason;
  last_decision_event_id = last_decision_of rm log_id;
}

unfoldable pub views : RunManager → Dict RunRecord → List RunView
unfolding view_of
views rm [] = []
views rm ((id, r) ∷ rs) = view_of rm r r.run_id ∷ views rm rs

unfoldable pub list_runs : RunManager → List RunView
unfolding views
list_runs rm = views rm rm.runs

unfoldable pub get_run : RunManager → Str → RunError ⊎ RunView
unfolding view_of
get_run rm id = elim (lookup id rm.runs) [ none ↦ inl not_found | some r ↦ inr (view_of rm r id) ]

abbrev pub is_ending : RunState → Bool
is_ending s =
    same_state s stopping || same_state s completed || same_state s failed || same_state s aborted

abbrev pub ending_run : Option RunRecord → Bool
ending_run none = false
ending_run (some r) = is_ending r.state

abbrev pub immediate_run : Option RunRecord → Bool
immediate_run none = false
immediate_run (some r) = r.immediate_stop

-- The loop over the runs of the worker.
unfoldable pub runs_that : (Option RunRecord → Bool) → RunManager → List Str → List Str
runs_that p rm [] = []
runs_that p rm (id ∷ ids) =
    if p (lookup id rm.runs) then id ∷ runs_that p rm ids else runs_that p rm ids

-- The lease manager is none if it was not set.
unfoldable pub list_stopping_runs_for_worker : RunManager → Option LeaseManager → Str → List Str
unfolding runs_that list_worker_run_ids
list_stopping_runs_for_worker rm none worker_id = []
list_stopping_runs_for_worker rm (some lm) worker_id =
    runs_that ending_run rm (list_worker_run_ids lm worker_id)

unfoldable pub list_immediate_stop_runs_for_worker :
    RunManager → Option LeaseManager → Str → List Str
unfolding runs_that list_worker_run_ids
list_immediate_stop_runs_for_worker rm none worker_id = []
list_immediate_stop_runs_for_worker rm (some lm) worker_id =
    runs_that immediate_run rm (list_worker_run_ids lm worker_id)

-- A run is made with a configuration, so that there always is one.
unfoldable pub get_run_config : RunManager → Str → RunError ⊎ Str
get_run_config rm id = elim (lookup id rm.runs) [ none ↦ inl not_found | some r ↦ inr r.config ]

unfoldable pub tail_events :
    RunManager → Str → ℤ → ℤ → RunError ⊎ (EventLogError ⊎ List (RunEvent Payload))
unfolding tail
tail_events rm id cursor limit = elim (lookup id rm.event_logs) [
  | none ↦ inl not_found
  | some el ↦ inr (tail el cursor limit)
]

unfoldable pub get_event_count : RunManager → Str → ℕ
unfolding len
get_event_count rm id = elim (lookup id rm.event_logs) [ none ↦ 0 | some el ↦ len el ]

-- The index of -1 is none.
unfoldable pub find_event : RunManager → Str → Str → Option ℕ
unfolding find_event_index
find_event rm id event_id = elim (lookup id rm.event_logs) [
  | none ↦ none
  | some el ↦ find_event_index el event_id
]
