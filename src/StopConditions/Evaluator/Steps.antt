-- ===== src/StopConditions/Evaluator/Steps.antt =====
-- Steps of the evaluator by what the providers answer, and that triggers name a metric.
use mcpdrill.Prelude.{
  ℕ, ◌+◌, ◌==◌, ◌&&◌, ◌≤◌, ◌≡◌, refl, ap, ◌∙◌, inl, inr, ◌++◌, List, [], ◌∷◌, true, false, not,
  Option, none, some, arith, ltb, leb, if◌then◌else◌, length, All, Dict, Bool-cases, Option-cases,
  Str-discrete, if_cases,
}
use mcpdrill.StopConditions.Numbers.{breaches}
use mcpdrill.StopConditions.Conditions.{
  Condition, Operation, TimedOperation, StreamingConfig, StreamingMetrics, Trigger, Evaluator,
  max_window_from, within, observe, evaluate_metric, is_breached, sustain_of, trigger_of,
  is_empty_text,
}
use mcpdrill.StopConditions.Evaluator.{
  fired, not_configured, provider_failed, stamp, evaluate_streaming_conditions,
  evaluate_stream_stall, evaluate_min_events_per_second, evaluate, check_conditions,
}
use mcpdrill.StopConditions.Evaluator.Spec.{Arrival, first_due}
use mcpdrill.StopConditions.Evaluator.Windows.{
  Holds, within-Holds, next_buffer, with_state, take_in_lem,
}
use mcpdrill.StopConditions.Evaluator.Counters.{Alike}

-- A trigger, if there is one, names a metric.
abbrev pub IsNamed : Option Trigger → Type 0
IsNamed none = Unit
IsNamed (some t) = is_empty_text t.condition.metric ≡ false

is_breached-named :
    (c : Condition) (os : List Operation) → is_breached c os ≡ true → is_empty_text c.metric ≡ false
unfolding is_breached observe evaluate_metric breaches Str-discrete
is_breached-named c os h =
    elim (c.metric)
        as (λ m. is_breached (record c { metric = m }) os ≡ true → is_empty_text m ≡ false) [
          | [] ↦ λ e. ground arith
          | x ∷ xs ↦ λ e. refl
        ]
      h

IsNamed-of :
    (o : Option Trigger)
    → ((t : Trigger) → o ≡ some t → is_empty_text t.condition.metric ≡ false)
    → IsNamed o
IsNamed-of none h = tt
IsNamed-of (some t) h = h t refl

module _ (now : ℕ) (g : StreamingConfig) (m : StreamingMetrics) where
  stall-IsNamed : IsNamed (evaluate_stream_stall now g m)
  unfolding evaluate_stream_stall
  stall-IsNamed = IsNamed-of (evaluate_stream_stall now g m) (λ t e. ground arith)

  rate-IsNamed : IsNamed (evaluate_min_events_per_second now g m)
  unfolding evaluate_min_events_per_second
  rate-IsNamed = IsNamed-of (evaluate_min_events_per_second now g m) (λ t e. ground arith)

first_of-IsNamed :
    (o p : Option Trigger) → IsNamed o → IsNamed p → IsNamed (elim o [ some t ↦ some t | none ↦ p ])
first_of-IsNamed none p h k = k
first_of-IsNamed (some t) p h k = h

pub streaming-IsNamed :
    (e : Evaluator) (now : ℕ) (m : Option StreamingMetrics)
    → IsNamed (evaluate_streaming_conditions e now m)
unfolding evaluate_streaming_conditions
streaming-IsNamed e now none = tt
streaming-IsNamed e now (some m) = elim (Option-cases e.streaming_config) [
  | inl off ↦ rw off tt
  | inr (g, on) ↦ rw on (
      if_cases IsNamed (not e.has_streaming) none _ (λ h. tt)
        (λ h.
          first_of-IsNamed (evaluate_stream_stall now g m) (evaluate_min_events_per_second now g m)
            (stall-IsNamed now g m) (rate-IsNamed now g m)))
]

pub due-IsNamed :
    (now : ℕ) (log : List TimedOperation) (cs : List Condition) (ss : List ℕ)
    → IsNamed (first_due now log cs ss)
unfolding first_due trigger_of
due-IsNamed now log [] ss = tt
due-IsNamed now log (c ∷ cs) [] = tt
due-IsNamed now log (c ∷ cs) (s ∷ ss) =
    let os = within now c.window_ms log in
    if_cases IsNamed (is_breached c os && leb (sustain_of c) (s + 1)) (some (trigger_of now c os))
      (first_due now log cs ss) (λ h. is_breached-named c os (ground (arith, h)))
      (λ h. due-IsNamed now log cs ss)

-- The windows fit into the longest.
abbrev pub Fit : ℕ → List Condition → Type 0
Fit max cs = All (λ (c : Condition). c.window_ms ≤ max) cs

pub max_window-Fit :
    (w : ℕ) (cs : List Condition) → (w ≤ max_window_from w cs) × Fit (max_window_from w cs) cs
unfolding max_window_from
max_window-Fit w [] = (omega arith, tt)
max_window-Fit w (c ∷ cs) =
    let w' : ℕ = if ltb w c.window_ms then c.window_ms else w in
    let r = max_window-Fit w' cs in
    let longer : w ≤ w' = ground arith in
    let fits : c.window_ms ≤ w' = ground arith in
    (omega (arith, r.0, longer), (omega (arith, r.0, fits), r.1))

pub Alike-All :
    (max last now : ℕ) (log buffer : List TimedOperation) (os : List Operation)
    (cs : List Condition)
    → last ≤ now
    → Holds max last log buffer
    → Fit max cs
    → All (Alike now (next_buffer max now buffer os) (log ++ stamp now os)) cs
Alike-All max last now log buffer os [] o h f = tt
Alike-All max last now log buffer os (c ∷ cs) o h f = (
  elim (Bool-cases (c.window_ms == 0)) [
    | inl z ↦ inl (ground arith)
    | inr p ↦ inr (within-Holds max last now c.window_ms log buffer os o (ground arith) f.0 h)
  ],
  Alike-All max last now log buffer os cs o h f.1,
)

abbrev pub AreOrdered : ℕ → List Arrival → Type 0
AreOrdered last [] = Unit
AreOrdered last (a ∷ later) = (last ≤ a.now) × AreOrdered a.now later

streaming-with_state :
    (e : Evaluator) (n now : ℕ) (buffer : List TimedOperation) (counts : Dict ℕ)
    (m : Option StreamingMetrics)
    → evaluate_streaming_conditions (with_state e n buffer counts) now m
      ≡ evaluate_streaming_conditions e now m
unfolding evaluate_streaming_conditions
streaming-with_state e n now buffer counts none = refl
streaming-with_state e n now buffer counts (some m) = refl

-- A step of the evaluator, by what the providers answer.
module _ (e : Evaluator) (n now : ℕ) (buffer : List TimedOperation) (counts : Dict ℕ)
    (m : Option StreamingMetrics) where
  pub evaluate-streaming :
      {t : Trigger} (os : Option (List Operation))
      → evaluate_streaming_conditions e now m ≡ some t
      → evaluate (with_state e n buffer counts) now m os ≡ (with_state e n buffer counts, fired t)
  unfolding evaluate
  evaluate-streaming os h = rw (streaming-with_state e n now buffer counts m ∙ h, evaluate) refl

  module _ (calm : evaluate_streaming_conditions e now m ≡ none) where
    pub evaluate-off :
        (os : Option (List Operation))
        → e.has_telemetry ≡ false
        → evaluate (with_state e n buffer counts) now m os
          ≡ (with_state e n buffer counts, not_configured)
    unfolding evaluate
    evaluate-off os h =
        rw (streaming-with_state e n now buffer counts m ∙ calm, evaluate) (rw h refl)

    pub evaluate-failed :
        e.has_telemetry ≡ true
        → evaluate (with_state e n buffer counts) now m none
          ≡ (with_state e n buffer counts, provider_failed)
    unfolding evaluate
    evaluate-failed h =
        rw (streaming-with_state e n now buffer counts m ∙ calm, evaluate) (rw h refl)

    pub evaluate-seen :
        (seen os : List Operation)
        → n ≡ length seen
        → e.has_telemetry ≡ true
        → evaluate (with_state e n buffer counts) now m (some (seen ++ os))
          ≡ check_conditions now (
              with_state e (length (seen ++ os)) (next_buffer e.max_window_ms now buffer os) counts)
    unfolding evaluate
    evaluate-seen seen os size h =
        rw (streaming-with_state e n now buffer counts m ∙ calm, evaluate) (rw (h, size) refl)
        ∙ ap (check_conditions now) (take_in_lem e now seen os buffer counts)
