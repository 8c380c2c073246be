-- ===== src/StopConditions/Evaluator/Refines.antt =====
-- The evaluator fires as its specification does.
use mcpdrill.Prelude.{
  ℕ, suc, ◌≤◌, ◌≡◌, refl, ap, subst, ◌∙◌, inl, inr, ◌++◌, List, [], ◌∷◌, Bool, true, Option, none,
  some, length, Dict, Option-cases,
}
use mcpdrill.StopConditions.Conditions.{
  Condition, Operation, TimedOperation, StreamingConfig, Trigger, Evaluator, new_evaluator,
}
use mcpdrill.StopConditions.Evaluator.{
  Poll, Evaluation, fired, provider_failed, check_from, stamp, evaluate_streaming_conditions,
  evaluate, check_conditions, answer_of, run_polls, pass_on,
}
use mcpdrill.StopConditions.Evaluator.Spec.{
  Arrival, all_of, grown, polls_of, next_streaks, first_due, no_streaks, first_trigger,
}
use mcpdrill.StopConditions.Evaluator.Windows.{
  Holds, Holds-next, IsGone-later, next_buffer, with_state,
}
use mcpdrill.StopConditions.Evaluator.Counters.{Agree, HaveOwnKeys, check_from-Checked}
use mcpdrill.StopConditions.Evaluator.Steps.{
  IsNamed, streaming-IsNamed, due-IsNamed, Fit, max_window-Fit, Alike-All, AreOrdered,
  evaluate-streaming, evaluate-failed, evaluate-seen,
}

pass_on-named :
    (t : Trigger) (rest : Option Trigger) → IsNamed (some t) → pass_on (fired t) rest ≡ some t
pass_on-named t rest h = rw h refl

run_polls-step :
    (e : Evaluator) (p : Poll) (ps : List Poll) (e' : Evaluator) (ans : Evaluation)
    → evaluate e p.now p.metrics p.operations ≡ (e', ans)
    → run_polls e (p ∷ ps) ≡ pass_on ans (run_polls e' ps)
unfolding run_polls
run_polls-step e p ps e' ans h =
    ap (λ (r : Evaluator × Evaluation). pass_on r.1 (run_polls r.0 ps)) h

-- The specification, by what the providers answer.
module _ (e : Evaluator) (log : List TimedOperation) (ss : List ℕ) (a : Arrival)
    (later : List Arrival) where
  first_trigger-hit :
      {t : Trigger}
      → evaluate_streaming_conditions e a.now a.metrics ≡ some t
      → some t ≡ first_trigger e log ss (a ∷ later)
  unfolding first_trigger
  first_trigger-hit h = rw (h, first_trigger) refl

  module _ (calm : evaluate_streaming_conditions e a.now a.metrics ≡ none) where
    first_trigger-broken :
        a.arrived ≡ none → first_trigger e log ss later ≡ first_trigger e log ss (a ∷ later)
    unfolding first_trigger
    first_trigger-broken h = rw (calm, first_trigger) (rw (h, first_trigger) refl)

    module _ (os : List Operation) (came : a.arrived ≡ some os) where
      first_trigger-due :
          {t : Trigger}
          → first_due a.now (log ++ stamp a.now os) e.conditions ss ≡ some t
          → some t ≡ first_trigger e log ss (a ∷ later)
      unfolding first_trigger
      first_trigger-due h = rw (calm, first_trigger) (rw (came, first_trigger) (rw h refl))

      first_trigger-none :
          first_due a.now (log ++ stamp a.now os) e.conditions ss ≡ none
          → first_trigger e
              (log ++ stamp a.now os)
              (next_streaks a.now (log ++ stamp a.now os) e.conditions ss)
              later
            ≡ first_trigger e log ss (a ∷ later)
      unfolding first_trigger
      first_trigger-none h = rw (calm, first_trigger) (rw (came, first_trigger) (rw h refl))

-- What holds between polls: the operations that were seen, the log, the streaks, the buffer and the
-- counters.
record Sim (e : Evaluator) (last : ℕ) (log : List TimedOperation) (ss : List ℕ)
    (buffer : List TimedOperation) (counts : Dict ℕ) : Type 0 where
  holds : Holds e.max_window_ms last log buffer
  agrees : Agree 0 e.conditions ss counts

Sim-later :
    (e : Evaluator) (last now : ℕ) (log : List TimedOperation) (ss : List ℕ)
    (buffer : List TimedOperation) (counts : Dict ℕ)
    → last ≤ now
    → Sim e last log ss buffer counts
    → Sim e now log ss buffer counts
Sim-later e last now log ss buffer counts o h = record {
  holds = record {
    gone = h.holds.gone;
    splits = h.holds.splits;
    are_gone = IsGone-later e.max_window_ms last now h.holds.gone o h.holds.are_gone;
    unused = h.holds.unused;
  };
  agrees = h.agrees;
}

module _ (e : Evaluator) (on : e.has_telemetry ≡ true) (own : HaveOwnKeys 0 e.conditions)
    (fit : Fit e.max_window_ms e.conditions) where
  refines :
      (later : List Arrival) (last : ℕ) (seen : List Operation) (log : List TimedOperation)
      (ss : List ℕ) (buffer : List TimedOperation) (counts : Dict ℕ)
      → AreOrdered last later
      → Sim e last log ss buffer counts
      → run_polls (with_state e (length seen) buffer counts) (polls_of seen later)
        ≡ first_trigger e log ss later
  unfolding polls_of first_trigger run_polls check_conditions
  refines [] last seen log ss buffer counts o h = refl
  refines (a ∷ later) last seen log ss buffer counts o h =
      let n = length seen in
      let s = with_state e n buffer counts in
      let m = a.metrics in
      let h' = Sim-later e last a.now log ss buffer counts o.0 h in
      elim (Option-cases (evaluate_streaming_conditions e a.now m)) [
        | inr (t, hit) ↦
            run_polls-step s _ _ s (fired t)
              (evaluate-streaming e n a.now buffer counts m (all_of seen a.arrived) hit)
            ∙ pass_on-named t _ (subst IsNamed hit (streaming-IsNamed e a.now m))
            ∙ first_trigger-hit e log ss a later hit
        | inl calm ↦ elim (Option-cases a.arrived) [
          | inl broken ↦
              run_polls-step s _ _ s provider_failed
                (rw broken (evaluate-failed e n a.now buffer counts m calm on))
              ∙ rw broken (refines later a.now seen log ss buffer counts o.1 h')
              ∙ first_trigger-broken e log ss a later calm broken
          | inr (os, came) ↦
              let buffer' = next_buffer e.max_window_ms a.now buffer os in
              let log' = log ++ stamp a.now os in
              let r = check_from a.now buffer' 0 e.conditions counts in
              let e' = with_state e (length (seen ++ os)) buffer' r.1 in
              let checked =
                check_from-Checked a.now buffer' log' 0 e.conditions ss counts
                  (Alike-All e.max_window_ms last a.now log buffer os e.conditions o.0 h.holds fit)
                  own h.agrees in
              let rest = run_polls e' (polls_of (grown seen a.arrived) later) in
              run_polls-step s _ _ e' (answer_of r.0)
                (rw came (evaluate-seen e n a.now buffer counts m calm seen os refl on))
              ∙ elim (Option-cases (first_due a.now log' e.conditions ss)) [
                | inr (t, due) ↦
                    ap (λ x. pass_on (answer_of x) rest) (checked.0 ∙ due)
                    ∙ pass_on-named t _ (subst IsNamed due (due-IsNamed a.now log' e.conditions ss))
                    ∙ first_trigger-due e log ss a later calm os came due
                | inl no_due ↦
                    ap (λ x. pass_on (answer_of x) rest) (checked.0 ∙ no_due)
                    ∙ ap (λ x. run_polls e' (polls_of (grown seen x) later)) came
                    ∙ refines later a.now (seen ++ os) log'
                        (next_streaks a.now log' e.conditions ss) buffer' r.1 o.1
                        (record {
                          holds = Holds-next e.max_window_ms last a.now log buffer os o.0 h.holds;
                          agrees = checked.1 (checked.0 ∙ no_due);
                        })
                    ∙ first_trigger-none e log ss a later calm os came no_due
              ]
        ]
      ]

no_streaks-Agree : (i : ℕ) (cs : List Condition) → Agree i cs (no_streaks cs) []
unfolding no_streaks
no_streaks-Agree i [] = tt
no_streaks-Agree i (c ∷ cs) = (refl, no_streaks-Agree (suc i) cs)

-- A new evaluator with a telemetry provider, whose conditions have keys of their own, fires exactly
-- when and as its specification says, through any history of polls in the order of their times in
-- which the provider fails or returns all operations so far: at the first poll at which the streaming
-- metrics call for it, or a condition, the first in the list, was breached in as many polls in a row
-- as it wants by the whole log of operations in its window; and then with that condition and what it
-- observed. It drops operations from its buffer and keeps its counters unseen.
pub run_polls-first_trigger :
    (cs : List Condition) (has_streaming : Bool) (g : Option StreamingConfig)
    (arrivals : List Arrival)
    → HaveOwnKeys 0 cs
    → AreOrdered 0 arrivals
    → run_polls (new_evaluator cs true has_streaming g) (polls_of [] arrivals)
      ≡ first_trigger (new_evaluator cs true has_streaming g) [] (no_streaks cs) arrivals
unfolding new_evaluator
run_polls-first_trigger cs has_streaming g arrivals own o =
    refines (new_evaluator cs true has_streaming g) refl own (max_window-Fit 0 cs).1 arrivals 0 []
      [] (no_streaks cs) [] [] o
      (record {
        holds = record { gone = []; splits = refl; are_gone = tt; unused = λ z. refl };
        agrees = no_streaks-Agree 0 cs;
      })
