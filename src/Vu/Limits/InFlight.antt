-- ===== src/Vu/Limits/InFlight.antt =====
-- How many operations are in flight.
use mcpdrill.Prelude.{
  ℕ, ◌+◌, ◌-◌, ◌≤◌, ◌≡◌, refl, List, [], ◌∷◌, Bool, true, false, if◌then◌else◌, arith,
}
use mcpdrill.Vu.Limits.{
  InFlightLimiter, new_in_flight_limiter, Waited, entered, enter, try_enter, leave,
}

pub data Call : Type 0 where
  enters : Bool → Call
  tries : Call
  leaves : Call

abbrev pub was_entered : Waited → Bool
was_entered entered = true
was_entered _ = false

-- The limiter after a call, and how many callers are in flight by their own count: one that entered
-- leaves once.
unfoldable pub step : InFlightLimiter × ℕ → Call → InFlightLimiter × ℕ
step (l, n) (enters d) = ((enter l d).0, if was_entered (enter l d).1 then n + 1 else n)
step (l, n) tries = ((try_enter l).0, if (try_enter l).1 then n + 1 else n)
step (l, n) leaves = (leave l, n - 1)

unfoldable pub run : InFlightLimiter × ℕ → List Call → InFlightLimiter × ℕ
run s [] = s
run s (c ∷ cs) = run (step s c) cs

pub record Counts (max : ℕ) (s : InFlightLimiter × ℕ) : Type 0 where
  pub max_stays : s.0.max_in_flight ≡ max
  pub counted : s.0.current ≡ s.1
  pub within : s.1 ≤ max

step-Counts : (max : ℕ) (s : InFlightLimiter × ℕ) (c : Call) → Counts max s → Counts max (step s c)
unfolding step enter try_enter leave
step-Counts max (l, n) (enters d) h = record {
  max_stays = ground arith;
  counted = ground arith;
  within = ground arith;
}
step-Counts max (l, n) tries h = record {
  max_stays = ground arith;
  counted = ground arith;
  within = ground arith;
}
step-Counts max (l, n) leaves h = record {
  max_stays = ground arith;
  counted = ground arith;
  within = ground arith;
}

run-Counts :
    (max : ℕ) (s : InFlightLimiter × ℕ) (cs : List Call) → Counts max s → Counts max (run s cs)
unfolding run
run-Counts max s [] h = h
run-Counts max s (c ∷ cs) h = run-Counts max (step s c) cs (step-Counts max s c h)

-- However calls interleave, no more callers than the bound are in flight, and the limiter counts them.
pub run_new-Counts : (max : ℕ) (cs : List Call) → Counts max (run (new_in_flight_limiter max, 0) cs)
unfolding new_in_flight_limiter
run_new-Counts max cs =
    run-Counts max (new_in_flight_limiter max, 0) cs
      (record { max_stays = refl; counted = refl; within = omega arith })
