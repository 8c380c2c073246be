-- ===== src/StopConditions/Conditions.antt =====
-- The records of internal/controlplane/stopconditions/evaluator.go, and what a condition observes in its
-- window.
use mcpdrill.Prelude.{
  ℕ, suc, ◌+◌, ◌++◌, List, [], ◌∷◌, Bool, true, false, not, ◌&&◌, Option, none, some, ltb, ◌==◌,
  if◌then◌else◌, length, Str, str_eq, codes, Dict, lookup,
}
use mcpdrill.Prelude.Int.{pos, negsuc}
use mcpdrill.StopConditions.Numbers.{Ratio, breaches, percentile, to_decimal}

pub record Condition : Type 0 where
  pub id : Str
  pub metric : Str
  pub comparator : Str
  pub threshold : Ratio
  pub window_ms : ℕ
  pub sustain_windows : ℕ

pub record StreamingConfig : Type 0 where
  pub stream_stall_seconds : ℕ
  pub min_events_per_second : Ratio

pub record StreamingMetrics : Type 0 where
  pub last_event_time_ms : ℕ
  pub stream_start_time_ms : ℕ
  pub events_received : ℕ

pub record Operation : Type 0 where
  pub ok : Bool
  pub latency_ms : ℕ

pub record TimedOperation : Type 0 where
  pub op : Operation
  pub observed_ms : ℕ

pub record Trigger : Type 0 where
  pub condition : Condition
  pub observed : Ratio
  pub window_ms : ℕ
  pub total_ops : ℕ
  pub failed_ops : ℕ
  pub latency_p99 : ℕ
  pub timestamp_ms : ℕ

pub record Evaluator : Type 0 where
  pub conditions : List Condition
  pub has_telemetry : Bool
  pub has_streaming : Bool
  pub streaming_config : Option StreamingConfig
  pub last_seen : ℕ
  pub buffer : List TimedOperation
  pub sustain_counts : Dict ℕ
  pub max_window_ms : ℕ

-- The longest window, from the longest before.
unfoldable pub max_window_from : ℕ → List Condition → ℕ
max_window_from w [] = w
max_window_from w (c ∷ cs) = max_window_from (if ltb w c.window_ms then c.window_ms else w) cs

-- A new evaluator, with the fields that its user sets afterwards.
unfoldable pub new_evaluator : List Condition → Bool → Bool → Option StreamingConfig → Evaluator
unfolding max_window_from
new_evaluator conditions has_telemetry has_streaming streaming_config = record {
  conditions = conditions;
  has_telemetry = has_telemetry;
  has_streaming = has_streaming;
  streaming_config = streaming_config;
  last_seen = 0;
  buffer = [];
  sustain_counts = [];
  max_window_ms = max_window_from 0 conditions;
}

abbrev pub is_empty_text : Str → Bool
is_empty_text [] = true
is_empty_text (c ∷ s) = false

unfoldable pub condition_key : Condition → ℕ → Str
unfolding to_decimal
condition_key c index =
    if is_empty_text c.id then c.metric ++ codes "-" ++ to_decimal index else c.id

-- The operations of the buffer within a window.
unfoldable pub within : ℕ → ℕ → List TimedOperation → List Operation
within now window [] = []
within now window (t ∷ ts) =
    if ltb (t.observed_ms + window) now then within now window ts else t.op ∷ within now window ts

unfoldable pub count_failed : List Operation → ℕ
count_failed [] = 0
count_failed (o ∷ os) = if o.ok then count_failed os else suc (count_failed os)

unfoldable pub latencies_of : List Operation → List ℕ
latencies_of [] = []
latencies_of (o ∷ os) = o.latency_ms ∷ latencies_of os

unfoldable pub evaluate_metric : Str → ℕ → ℕ → List ℕ → Ratio × ℕ
unfolding percentile
evaluate_metric metric total failed latencies =
    let of_percentile : ℕ → Ratio × ℕ =
      λ p. (record { num = pos (percentile latencies p); den = 1 }, percentile latencies p) in
    if str_eq metric (codes "error_rate")
    then (if total == 0
        then (record { num = pos 0; den = 1 }, 0)
        else (record { num = pos failed; den = total }, 0))
    else if str_eq metric (codes "latency_p50_ms")
    then of_percentile 50
    else if str_eq metric (codes "latency_p95_ms")
    then of_percentile 95
    else if str_eq metric (codes "latency_p99_ms")
    then of_percentile 99
    else (record { num = negsuc 0; den = 1 }, 0)

-- What a condition observes of the operations in its window, and whether that breaches it.
unfoldable pub observe : Condition → List Operation → Ratio × ℕ
unfolding evaluate_metric count_failed latencies_of
observe c os = evaluate_metric c.metric (length os) (count_failed os) (latencies_of os)

unfoldable pub is_breached : Condition → List Operation → Bool
unfolding observe breaches
is_breached c os =
    not (c.window_ms == 0)
    && not (length os == 0)
    && breaches (observe c os).0 c.comparator c.threshold

abbrev pub sustain_of : Condition → ℕ
sustain_of c = if c.sustain_windows == 0 then 1 else c.sustain_windows

unfoldable pub trigger_of : ℕ → Condition → List Operation → Trigger
unfolding observe count_failed
trigger_of now c os = record {
  condition = c;
  observed = (observe c os).0;
  window_ms = c.window_ms;
  total_ops = length os;
  failed_ops = count_failed os;
  latency_p99 = (observe c os).1;
  timestamp_ms = now;
}

abbrev pub or_zero : Option ℕ → ℕ
or_zero none = 0
or_zero (some n) = n

abbrev pub count_of : Str → Dict ℕ → ℕ
count_of k m = or_zero (lookup k m)
