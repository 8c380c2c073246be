-- ===== src/StopConditions/Examples.antt =====
-- The evaluator at concrete inputs.
use mcpdrill.Prelude.{
  ℕ, List, [], ◌∷◌, ◌≡◌, refl, true, false, Option, none, some, codes, Str, Str-discrete, arith,
}
use mcpdrill.Prelude.Int.{pos}
use mcpdrill.StopConditions.Conditions.{Condition, Operation, Trigger, new_evaluator, condition_key}
use mcpdrill.StopConditions.Evaluator.{
  evaluate_streaming_conditions, take_in, check_conditions, run_polls, evaluate,
}
use mcpdrill.StopConditions.Evaluator.Spec.{Arrival, polls_of, no_streaks, first_trigger}
use mcpdrill.StopConditions.Evaluator.Counters.{HaveOwnKeys}
use mcpdrill.StopConditions.Evaluator.Refines.{run_polls-first_trigger}

-- Half of the operations of a second fail, in two polls in a row.
abbrev errors : Condition
errors = record {
  id = codes "errors";
  metric = codes "error_rate";
  comparator = codes ">=";
  threshold = record { num = pos 1; den = 2 };
  window_ms = 1000;
  sustain_windows = 2;
}

abbrev slow : Condition
slow = record {
  id = codes "slow";
  metric = codes "latency_p99_ms";
  comparator = codes ">";
  threshold = record { num = pos 900; den = 1 };
  window_ms = 500;
  sustain_windows = 1;
}

abbrev op : ℕ → Operation
op latency_ms = record { ok = false; latency_ms = latency_ms }

abbrev arrivals : List Arrival
arrivals =
    record { now = 1000; metrics = none; arrived = some (op 20 ∷ []) }
    ∷ record { now = 1400; metrics = none; arrived = none }
    ∷ record { now = 3000; metrics = none; arrived = some [] }
    ∷ record { now = 4000; metrics = none; arrived = some (op 30 ∷ []) }
    ∷ record { now = 4500; metrics = none; arrived = some (op 40 ∷ []) }
    ∷ []

own_keys : HaveOwnKeys 0 (errors ∷ slow ∷ [])
unfolding condition_key Str-discrete
own_keys = ((refl, tt), (tt, tt))

run_polls-first_trigger_example :
    run_polls (new_evaluator (errors ∷ slow ∷ []) true false none) (polls_of [] arrivals)
    ≡ first_trigger
        (new_evaluator (errors ∷ slow ∷ []) true false none)
        []
        (no_streaks (errors ∷ slow ∷ []))
        arrivals
run_polls-first_trigger_example =
    run_polls-first_trigger (errors ∷ slow ∷ []) false none arrivals own_keys (omega arith)

time_of : Option Trigger → Option (ℕ × Str)
time_of none = none
time_of (some t) = some (t.timestamp_ms, t.condition.id)

fires :
    time_of (run_polls (new_evaluator (errors ∷ slow ∷ []) true false none) (polls_of [] arrivals))
    ≡ some (4500, codes "errors")
unfolding time_of run_polls new_evaluator polls_of evaluate evaluate_streaming_conditions take_in
    check_conditions condition_key Str-discrete
fires = refl
