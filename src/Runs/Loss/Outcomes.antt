-- ===== src/Runs/Loss/Outcomes.antt =====
-- What the loss of a worker does to a run, by the state of the run and its policy.
use mcpdrill.Prelude.{
  List, Bool, true, false, not, ◌&&◌, ◌||◌, some, Str, lookup, ◌≡◌, inl, inr, ◌⊎◌, if◌then◌else◌,
}
use mcpdrill.Runs.States.{RunState, preflight_running, stopping, same_state, is_running_state}
use mcpdrill.Runs.Manager.{RunManager, RunRecord}
use mcpdrill.Runs.Loss.{WorkerFailurePolicy, fail_fast, replace_if_possible, best_effort, unknown}

-- Whether a policy lets a run go on without the worker.
abbrev pub tolerates : WorkerFailurePolicy → Str ⊎ List (Str × Str) → Bool
tolerates best_effort outcome = true
tolerates replace_if_possible (inr taken) = true
tolerates replace_if_possible (inl reason) = false
tolerates fail_fast outcome = false
tolerates (unknown s) outcome = false

-- Whether the loss stops the run: it stops in the preflight under every policy.
abbrev pub loss_stops : RunState → WorkerFailurePolicy → Str ⊎ List (Str × Str) → Bool
loss_stops s policy outcome =
    is_running_state s && (same_state s preflight_running || not (tolerates policy outcome))

-- The run after the loss.
abbrev pub LossResult : RunRecord → Bool → Bool → Str → RunManager → Type 0
LossResult r stops stops_already id after =
    (r' : RunRecord) × (lookup id after.runs ≡ some r')
    × (r'.state ≡ (if stops then stopping else r.state))
    × (r'.progressing ≡ (if stops then false else r.progressing))
    × (stops_already ≡ true → r'.draining ≡ false)
