-- ===== src/StopConditions/Evaluator.antt =====
-- internal/controlplane/stopconditions/evaluator.go. Thresholds and what is observed are fractions,
-- without the rounding of floats; latencies are not negative, and a window or a count that is not
-- positive is zero. What the providers answer is an argument.
pub mod Spec
pub mod Windows
pub mod Counters
pub mod Steps
pub mod Refines
use mcpdrill.Prelude.{
  ℕ, zero, suc, ◌+◌, ◌-◌, ◌*◌, ◌++◌, List, [], ◌∷◌, Bool, true, false, not, ◌&&◌, ◌||◌, Option,
  none, some, ltb, leb, ◌==◌, if◌then◌else◌, length, drop, map, Str, str_eq, codes, Dict, lookup,
  insert,
}
use mcpdrill.Prelude.Int.{ℤ, pos, negsuc}
use mcpdrill.StopConditions.Numbers.{Ratio, ratio_lt, is_positive, breaches, percentile, to_decimal}
use mcpdrill.StopConditions.Conditions.{
  Condition, StreamingConfig, StreamingMetrics, Operation, TimedOperation, Trigger, Evaluator,
  max_window_from, new_evaluator, is_empty_text, condition_key, within, count_failed, latencies_of,
  evaluate_metric, observe, is_breached, sustain_of, trigger_of, or_zero, count_of,
}

-- The loop over the conditions, from an index on.
unfoldable pub check_from :
    ℕ → List TimedOperation → ℕ → List Condition → Dict ℕ → Option Trigger × Dict ℕ
unfolding within is_breached trigger_of condition_key
check_from now buffer i [] counts = (none, counts)
check_from now buffer i (c ∷ cs) counts =
    let os = within now c.window_ms buffer in
    let key = condition_key c i in
    let count = if is_breached c os then count_of key counts + 1 else 0 in
    let counts' = insert key count counts in
    let rest = check_from now buffer (suc i) cs counts' in
    if is_breached c os && leb (sustain_of c) count
    then (some (trigger_of now c os), counts')
    else rest

unfoldable pub stamp : ℕ → List Operation → List TimedOperation
stamp now [] = []
stamp now (o ∷ os) = record { op = o; observed_ms = now } ∷ stamp now os

-- The loop that drops the operations before the longest window, from the front.
unfoldable pub trim : ℕ → ℕ → List TimedOperation → List TimedOperation
trim now window [] = []
trim now window (t ∷ ts) = if ltb (t.observed_ms + window) now then trim now window ts else t ∷ ts

-- What `Evaluate` does with the operations that the provider returns before it looks at the conditions.
unfoldable pub take_in : Evaluator → ℕ → List Operation → Evaluator
unfolding stamp trim
take_in e now operations =
    let e1 =
      if ltb (length operations) e.last_seen
      then record e { last_seen = 0; buffer = []; sustain_counts = [] }
      else e in
    let e2 =
      if ltb e1.last_seen (length operations)
      then record e1 {
        buffer =
            if ltb 0 e1.max_window_ms
            then e1.buffer ++ stamp now (drop e1.last_seen operations)
            else e1.buffer;
        last_seen = length operations;
      }
      else e1 in
    record e2 {
      buffer = if ltb 0 e2.max_window_ms then trim now e2.max_window_ms e2.buffer else e2.buffer;
    }

abbrev plain_condition : Str → Str → Ratio → Condition
plain_condition name comparator threshold = record {
  id = name;
  metric = name;
  comparator = comparator;
  threshold = threshold;
  window_ms = 0;
  sustain_windows = 0;
}

abbrev plain_trigger : ℕ → Condition → Ratio → Trigger
plain_trigger now c observed = record {
  condition = c;
  observed = observed;
  window_ms = 0;
  total_ops = 0;
  failed_ops = 0;
  latency_p99 = 0;
  timestamp_ms = now;
}

unfoldable pub evaluate_stream_stall : ℕ → StreamingConfig → StreamingMetrics → Option Trigger
evaluate_stream_stall now g m =
    let stall = g.stream_stall_seconds in
    let c : Condition = record {
      id = codes "stream_stall";
      metric = codes "stream_stall_seconds";
      comparator = codes ">";
      threshold = record { num = pos stall; den = 1 };
      window_ms = 0;
      sustain_windows = 0;
    } in
    if stall == 0 || m.last_event_time_ms == 0
    then none
    else if ltb (m.last_event_time_ms + stall * 1000) now
    then some (plain_trigger now c (record { num = pos (now - m.last_event_time_ms); den = 1000 }))
    else none

unfoldable pub evaluate_min_events_per_second :
    ℕ → StreamingConfig → StreamingMetrics → Option Trigger
unfolding ratio_lt
evaluate_min_events_per_second now g m =
    let rate : Ratio = record {
      num = pos (m.events_received * 1000);
      den = now - m.stream_start_time_ms;
    } in
    if not (is_positive g.min_events_per_second.num)
      || m.stream_start_time_ms == 0
      || m.events_received == 0
      || leb now m.stream_start_time_ms
    then none
    else if ratio_lt rate g.min_events_per_second
    then some (
        plain_trigger now
          (plain_condition (codes "min_events_per_second") (codes "<") g.min_events_per_second)
          rate)
    else none

-- The provider's metrics are none if it fails or has none.
unfoldable pub evaluate_streaming_conditions :
    Evaluator → ℕ → Option StreamingMetrics → Option Trigger
unfolding evaluate_stream_stall evaluate_min_events_per_second
evaluate_streaming_conditions e now none = none
evaluate_streaming_conditions e now (some m) = elim (e.streaming_config) [
  | none ↦ none
  | some g ↦ if not e.has_streaming then none else elim (evaluate_stream_stall now g m) [
    | some t ↦ some t
    | none ↦ evaluate_min_events_per_second now g m
  ]
]

pub data Evaluation : Type 0 where
  quiet : Evaluation
  fired : Trigger → Evaluation
  not_configured : Evaluation
  provider_failed : Evaluation

abbrev pub answer_of : Option Trigger → Evaluation
answer_of none = quiet
answer_of (some t) = fired t

-- What `Evaluate` does after that.
unfoldable pub check_conditions : ℕ → Evaluator → Evaluator × Evaluation
unfolding check_from
check_conditions now e =
    let r = check_from now e.buffer 0 e.conditions e.sustain_counts in
    (record e { sustain_counts = r.1 }, answer_of r.0)

-- `operations` is none if the provider fails.
unfoldable pub evaluate :
    Evaluator → ℕ → Option StreamingMetrics → Option (List Operation) → Evaluator × Evaluation
evaluate e now metrics operations = elim (evaluate_streaming_conditions e now metrics) [
  | some t ↦ (e, fired t)
  | none ↦ if not e.has_telemetry then (e, not_configured) else elim operations [
    | none ↦ (e, provider_failed)
    | some os ↦ check_conditions now (take_in e now os)
  ]
]

-- A tick of `Run`: its time, and what the providers answer then.
pub record Poll : Type 0 where
  pub now : ℕ
  pub metrics : Option StreamingMetrics
  pub operations : Option (List Operation)

-- A trigger with no metric is not passed on.
abbrev pub pass_on : Evaluation → Option Trigger → Option Trigger
pass_on (fired t) rest = if is_empty_text t.condition.metric then rest else some t
pass_on quiet rest = rest
pass_on not_configured rest = rest
pass_on provider_failed rest = rest

-- `Run` over the ticks that come before its context is done: the trigger that it passes on.
unfoldable pub run_polls : Evaluator → List Poll → Option Trigger
unfolding evaluate
run_polls e [] = none
run_polls e (p ∷ ps) =
    let r = evaluate e p.now p.metrics p.operations in pass_on r.1 (run_polls r.0 ps)
