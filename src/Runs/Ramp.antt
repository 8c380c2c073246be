-- ===== src/Runs/Ramp.antt =====
-- internal/controlplane/runmanager/stages.go, `startAutoRamp`: how many virtual users a ramp asks for,
-- and when. The numbers are those of the parsed stage, which may be zero or negative.
pub mod Steps
use mcpdrill.Prelude.{
  ℕ, zero, suc, ◌+◌, ◌-◌, ◌*◌, ◌/◌, List, [], ◌∷◌, Bool, Option, none, some, ltb, leb, ◌==◌,
  if◌then◌else◌, max, not, ◌&&◌,
}
use mcpdrill.Prelude.Int.{ℤ, is_nonpos, pos_part}

pub record LoadConfig : Type 0 where
  pub target_vus : ℤ
  pub start_vus : ℤ
  pub ramp_steps : ℤ
  pub step_hold_ms : ℤ
  pub duration_ms : ℤ
  -- `Safety.HardCaps.MaxVUs`
  pub max_vus : ℤ

pub record RampPlan : Type 0 where
  pub start_vus : ℕ
  pub target_vus : ℕ
  pub ramp_steps : ℕ
  pub step_hold_ms : ℕ
  pub vu_increment : ℕ

unfoldable pub capped_target : LoadConfig → ℕ
capped_target c =
    let target = pos_part c.target_vus in
    let cap = pos_part c.max_vus in
    if not (is_nonpos c.max_vus) && ltb cap target then cap else target

unfoldable pub start_of : LoadConfig → ℕ → ℕ
start_of c target =
    let start = if is_nonpos c.start_vus then max 1 (target / 10) else pos_part c.start_vus in
    if ltb target start then target else start

unfoldable pub steps_of : LoadConfig → ℕ
steps_of c = if is_nonpos c.ramp_steps then 5 else pos_part c.ramp_steps

unfoldable pub hold_of : LoadConfig → ℕ → ℕ
hold_of c steps =
    let hold =
      if is_nonpos c.step_hold_ms
      then pos_part c.duration_ms / steps
      else pos_part c.step_hold_ms in
    if hold == 0 then 10000 else hold

unfoldable pub increment_of : ℕ → ℕ → ℕ → ℕ
increment_of start target steps =
    let increment = (target - start) / steps in if increment == 0 then 1 else increment

-- The ramp of a stage; none if its target is not positive.
unfoldable pub plan : LoadConfig → Option RampPlan
unfolding capped_target start_of steps_of hold_of increment_of
plan c =
    let target = capped_target c in
    let start = start_of c target in
    let steps = steps_of c in
    if is_nonpos c.target_vus
    then none
    else some (record {
      start_vus = start;
      target_vus = target;
      ramp_steps = steps;
      step_hold_ms = hold_of c steps;
      vu_increment = increment_of start target steps;
    })

-- A dispatch asks for some virtual users from an offset on.
pub record Dispatch : Type 0 where
  pub step : ℕ
  pub num_vus : ℕ
  pub vu_offset : ℕ

unfoldable pub next_vus : RampPlan → ℕ → ℕ
next_vus p step =
    let next = p.start_vus + p.vu_increment * step in
    if ltb p.target_vus next then p.target_vus else next

-- The loop from `step` on, with `left` steps to go, of a run that stays in its ramp.
unfoldable pub ramp_from : RampPlan → ℕ → ℕ → ℕ → List Dispatch
unfolding next_vus
ramp_from p zero step current = []
ramp_from p (suc left) step current =
    let next = next_vus p step in
    let now_at = if ltb current next then next else current in
    let rest = if leb p.target_vus now_at then [] else ramp_from p left (step + 1) now_at in
    if ltb current next
    then record { step = step; num_vus = next - current; vu_offset = current } ∷ rest
    else rest

unfoldable pub auto_ramp : RampPlan → List Dispatch
unfolding ramp_from
auto_ramp p =
    record { step = 0; num_vus = p.start_vus; vu_offset = 0 }
    ∷ ramp_from p p.ramp_steps 1 p.start_vus
