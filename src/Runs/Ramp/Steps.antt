-- ===== src/Runs/Ramp/Steps.antt =====
-- Where a ramp leads: its dispatches follow each other, and the last ends near the target.
use native.Mathlib.Nat.{mul-add, mul_comm, mod-add-div, mod-lt}
use mcpdrill.Prelude.{
  ℕ, zero, suc, ◌+◌, ◌-◌, ◌*◌, ◌/◌, ◌%◌, ◌≤◌, ◌<◌, ◌≡◌, refl, sym, ap, subst, ◌∙◌, List, [], ◌∷◌,
  false, none, some, ltb, leb, ◌==◌, if◌then◌else◌, min, arith, Bool-cases, inl, inr,
}
use mcpdrill.Prelude.Int.{ℤ, pos, negsuc, is_nonpos, pos_part}
use mcpdrill.Runs.Ramp.{
  LoadConfig, RampPlan, Dispatch, plan, next_vus, ramp_from, auto_ramp, capped_target, start_of,
  steps_of, increment_of,
}

-- The dispatches ask for the virtual users from `a` to `b`, each going on where the last ended.
abbrev pub Covers : ℕ → List Dispatch → ℕ → Type 0
Covers a [] b = b ≡ a
Covers a (d ∷ ds) b = (d.vu_offset ≡ a) × (0 < d.num_vus) × Covers (a + d.num_vus) ds b

module _ (p : RampPlan) where
  reached : ℕ → ℕ
  reached k = min p.target_vus (p.start_vus + p.vu_increment * k)

  next_vus-reached : (k : ℕ) → next_vus p k ≡ reached k
  unfolding next_vus reached
  next_vus-reached k = ground arith

  reached_more : (k j : ℕ) → reached k ≤ reached (k + j)
  unfolding reached
  reached_more k j = omega (arith, mul-add p.vu_increment k j)

  reached_full : (k j : ℕ) → p.target_vus ≤ reached k → reached (k + j) ≡ p.target_vus
  unfolding reached
  reached_full k j h = omega (arith, mul-add p.vu_increment k j)

  plus_zero : (k : ℕ) → k + zero ≡ k
  plus_zero k = omega arith

  one_more : (k left : ℕ) → k + suc left ≡ k + 1 + left
  one_more k left = omega arith

  ramp_from-Covers :
      (left k current : ℕ)
      → current ≡ reached k
      → Covers current (ramp_from p left (k + 1) current) (reached (k + left))
  unfolding ramp_from
  ramp_from-Covers zero k current e = ap reached (plus_zero k) ∙ sym e
  ramp_from-Covers (suc left) k current e =
      let next = next_vus-reached (k + 1) in
      let more = reached_more k 1 in
      let full_at : p.target_vus ≤ reached (k + 1) → reached (k + suc left) ≡ p.target_vus =
        λ h. ap reached (one_more k left) ∙ reached_full (k + 1) left h in
      elim (Bool-cases (ltb current (next_vus p (k + 1)))) [
        | inl grows ↦ elim (Bool-cases (leb p.target_vus (next_vus p (k + 1)))) [
          | inl full ↦
              rw (grows, full, ramp_from)
                (refl, ground arith, ground (arith, full_at (ground arith)))
          | inr short ↦
              let rest = ramp_from p left (k + 1 + 1) (next_vus p (k + 1)) in
              let to_next : next_vus p (k + 1) ≡ current + (next_vus p (k + 1) - current) =
                ground arith in
              let covers : Covers (next_vus p (k + 1)) rest (reached (k + suc left)) =
                subst (Covers (next_vus p (k + 1)) rest) (sym (ap reached (one_more k left)))
                  (ramp_from-Covers left (k + 1) (next_vus p (k + 1)) next) in
              rw (grows, short, ramp_from)
                (
                  refl,
                  ground arith,
                  subst (λ a. Covers a rest (reached (k + suc left))) to_next covers,
                )
        ]
        | inr rests ↦ elim (Bool-cases (leb p.target_vus current)) [
          | inl full ↦ rw (rests, full, ramp_from) (ground (arith, reached_full k (suc left)))
          | inr short ↦
              let rest = ramp_from p left (k + 1 + 1) current in
              let covers : Covers current rest (reached (k + suc left)) =
                subst (Covers current rest) (sym (ap reached (one_more k left)))
                  (ramp_from-Covers left (k + 1) current (ground arith)) in
              rw (rests, short, ramp_from) covers
        ]
      ]

  reached_start : p.start_vus ≤ p.target_vus → p.start_vus ≡ reached 0
  unfolding reached
  reached_start h = ground arith

-- Where the ramp of a plan ends.
abbrev pub IsRamp : LoadConfig → RampPlan → Type 0
IsRamp c p =
    (b : ℕ) × Covers 0 (auto_ramp p) b
    × (b ≤ p.target_vus)
    × (p.target_vus < b + p.ramp_steps)
    × ((p.target_vus - p.start_vus) % p.ramp_steps ≡ 0 → b ≡ p.target_vus)

not_none {ℓ} : {A : Type ℓ} {x : A} → none ≡ some x → ⊥
not_none e = cc

some_injective {ℓ} : {A : Type ℓ} {x y : A} → some x ≡ some y → x ≡ y
some_injective e = cc

-- The plan and its numbers.
abbrev IsPlan : RampPlan → Type 0
IsPlan p =
    (0 < p.ramp_steps)
    × (0 < p.start_vus)
    × (p.start_vus ≤ p.target_vus)
    × (p.vu_increment ≡ increment_of p.start_vus p.target_vus p.ramp_steps)

positive : (z : ℤ) → is_nonpos z ≡ false → 0 < pos_part z
positive (pos zero) e = cc
positive (pos (suc n)) e = omega arith
positive (negsuc n) e = cc

steps_positive : (c : LoadConfig) → 0 < steps_of c
unfolding steps_of
steps_positive c = ground (arith, positive c.ramp_steps)

target_positive : (c : LoadConfig) → is_nonpos c.target_vus ≡ false → 0 < capped_target c
unfolding capped_target
target_positive c h = ground (arith, positive c.target_vus h, positive c.max_vus)

start_positive : (c : LoadConfig) (target : ℕ) → 0 < target → 0 < start_of c target
unfolding start_of
start_positive c target h = ground (arith, positive c.start_vus)

start_at_most : (c : LoadConfig) (target : ℕ) → start_of c target ≤ target
unfolding start_of
start_at_most c target = ground arith

plan-IsPlan : (c : LoadConfig) (p : RampPlan) → plan c ≡ some p → IsPlan p
unfolding plan
plan-IsPlan c p e = elim (Bool-cases (is_nonpos c.target_vus)) [
  | inl off ↦ elim (not_none (rw (off, plan) at e)) [ ]
  | inr on ↦
      let target = capped_target c in
      let made = some_injective (rw (on, plan) at e) in
      subst IsPlan made (
        steps_positive c,
        start_positive c target (target_positive c on),
        start_at_most c target,
        refl,
      )
]

zero_plus : (k : ℕ) → 0 + k ≡ k
zero_plus k = omega arith

-- What the increment, over all steps, leaves of the way.
left_over :
    (d n i : ℕ)
    → 0 < n
    → (if d / n == 0 then 1 else d / n) ≡ i
    → (d < i * n + n) × (d % n ≡ 0 → d ≤ i * n)
left_over d n i h e =
    let divided = mod-add-div d n in
    let below = mod-lt d h in
    elim (Bool-cases (d / n == 0)) [
      | inl small ↦
          let one : i ≡ 1 = sym e ∙ rw small refl in
          let none_whole : d / n ≡ 0 = ground arith in
          let all_left = rw none_whole at divided in rw one (omega arith, λ z. omega arith)
      | inr large ↦
          let whole : i ≡ d / n = sym e ∙ rw large refl in
          rw (whole, mul_comm (d / n) n) (omega arith, λ z. omega arith)
    ]

-- A ramp starts at the first virtual user, each of its dispatches goes on where the one before
-- ended, it never asks for more than its target, and it ends less than one virtual user per step
-- below it; it ends at the target if the steps divide the way there.
pub plan-IsRamp : (c : LoadConfig) (p : RampPlan) → plan c ≡ some p → IsRamp c p
unfolding auto_ramp reached increment_of
plan-IsRamp c p e =
    let (some_steps, some_start, in_order, increment) = plan-IsPlan c p e in
    let d = p.target_vus - p.start_vus in
    let (near, exact) = left_over d p.ramp_steps p.vu_increment some_steps (sym increment) in
    let steps = ramp_from-Covers p p.ramp_steps 0 p.start_vus (reached_start p in_order) in
    let b = reached p p.ramp_steps in
    let from_start = rw (zero_plus p.ramp_steps) at steps in
    (
      b,
      (refl, some_start, rw (zero_plus p.start_vus) from_start),
      omega arith,
      omega arith,
      λ z. omega (arith, exact z),
    )
