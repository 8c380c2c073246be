-- ===== src/StopConditions/Evaluator/Spec.antt =====
-- What an evaluator promises, without its buffer and its counters: it looks at the whole log of the
-- operations, each at the time of the first poll that met it, and a condition fires once it has been
-- breached in as many polls in a row as it wants.
use mcpdrill.Prelude.{ℕ, ◌+◌, ◌++◌, List, [], ◌∷◌, ◌&&◌, Option, none, some, leb, if◌then◌else◌}
use mcpdrill.StopConditions.Conditions.{
  Condition, Operation, TimedOperation, StreamingMetrics, Trigger, Evaluator, within, is_breached,
  sustain_of, trigger_of,
}
use mcpdrill.StopConditions.Evaluator.{Poll, stamp, evaluate_streaming_conditions}

-- A tick, with the operations that are new then, or none if the provider fails.
pub record Arrival : Type 0 where
  pub now : ℕ
  pub metrics : Option StreamingMetrics
  pub arrived : Option (List Operation)

abbrev pub all_of : List Operation → Option (List Operation) → Option (List Operation)
all_of seen none = none
all_of seen (some os) = some (seen ++ os)

abbrev pub grown : List Operation → Option (List Operation) → List Operation
grown seen none = seen
grown seen (some os) = seen ++ os

-- The polls of a provider that returns all operations so far.
unfoldable pub polls_of : List Operation → List Arrival → List Poll
polls_of seen [] = []
polls_of seen (a ∷ later) =
    record { now = a.now; metrics = a.metrics; operations = all_of seen a.arrived }
    ∷ polls_of (grown seen a.arrived) later

-- In how many polls in a row each condition was breached, one poll later.
unfoldable pub next_streaks : ℕ → List TimedOperation → List Condition → List ℕ → List ℕ
next_streaks now log (c ∷ cs) (s ∷ ss) =
    (if is_breached c (within now c.window_ms log) then s + 1 else 0) ∷ next_streaks now log cs ss
next_streaks now log [] ss = []
next_streaks now log (c ∷ cs) [] = []

-- The first condition that was breached for long enough.
unfoldable pub first_due : ℕ → List TimedOperation → List Condition → List ℕ → Option Trigger
first_due now log (c ∷ cs) (s ∷ ss) =
    let os = within now c.window_ms log in
    let rest = first_due now log cs ss in
    if is_breached c os && leb (sustain_of c) (s + 1) then some (trigger_of now c os) else rest
first_due now log [] ss = none
first_due now log (c ∷ cs) [] = none

unfoldable pub no_streaks : List Condition → List ℕ
no_streaks [] = []
no_streaks (c ∷ cs) = 0 ∷ no_streaks cs

unfoldable pub first_trigger :
    Evaluator → List TimedOperation → List ℕ → List Arrival → Option Trigger
first_trigger e log ss [] = none
first_trigger e log ss (a ∷ later) =
    let same = first_trigger e log ss later in
    elim (evaluate_streaming_conditions e a.now a.metrics) [
      | some t ↦ some t
      | none ↦ elim (a.arrived) [
        | none ↦ same
        | some os ↦
            let log' = log ++ stamp a.now os in
            elim (first_due a.now log' e.conditions ss) [
              | some t ↦ some t
              | none ↦ first_trigger e log' (next_streaks a.now log' e.conditions ss) later
            ]
      ]
    ]
