-- ===== src/Vu/Sampler.antt =====
-- internal/vu/operation_sampler.go: the choice of an operation by weight, from a number that the
-- random source draws below the sum of the weights. A weight is not negative; an operation is its
-- weight and whatever else it carries.
use mcpdrill.Prelude.{
  ℕ, ◌+◌, ◌≤◌, ◌<◌, ◌≡◌, refl, ◌++◌, List, [], ◌∷◌, Option, none, some, ltb, ◌==◌, if◌then◌else◌,
  total, false, ap, ◌∙◌, sym, subst, arith, Bool-cases, inl, inr,
}

pub record OperationWeight {ℓ} (A : Type ℓ) : Type ℓ where
  pub weight : ℕ
  pub operation : A

pub record OperationSampler {ℓ} (A : Type ℓ) : Type ℓ where
  pub mix : List (OperationWeight A)
  pub total_weight : ℕ

not_made {ℓ} : {B : Type ℓ} {b : B} → none ≡ some b → ⊥
not_made e = cc

made_injective {ℓ} : {B : Type ℓ} {a b : B} → some a ≡ some b → a ≡ b
made_injective e = cc

module _ {ℓ} {A : Type ℓ} where
  abbrev pub weight_of : OperationWeight A → ℕ
  weight_of o = o.weight

  abbrev pub total_weight_of : List (OperationWeight A) → ℕ
  total_weight_of = total weight_of

  -- `none` is ErrNoOperations.
  unfoldable pub new_operation_sampler : List (OperationWeight A) → Option (OperationSampler A)
  new_operation_sampler mix =
      if total_weight_of mix == 0
      then none
      else some (record { mix = mix; total_weight = total_weight_of mix })

  -- The loop of `Sample`.
  unfoldable pub sample_from : List (OperationWeight A) → ℕ → ℕ → Option (OperationWeight A)
  sample_from [] cumulative r = none
  sample_from (o ∷ os) cumulative r =
      let later = sample_from os (cumulative + o.weight) r in
      if ltb r (cumulative + o.weight) then some o else later

  abbrev last_of : List (OperationWeight A) → Option (OperationWeight A)
  last_of [] = none
  last_of (o ∷ []) = some o
  last_of (o ∷ p ∷ os) = last_of (p ∷ os)

  -- The operation for a draw; a mix without operations, which no sampler has, gives none.
  unfoldable pub sample : OperationSampler A → ℕ → Option (OperationWeight A)
  unfolding sample_from
  sample s r = elim (sample_from s.mix 0 r) [ none ↦ last_of s.mix | some o ↦ some o ]

  sample_from-share :
      (before : List (OperationWeight A)) (o : OperationWeight A) (later : List (OperationWeight A))
      (cumulative r : ℕ)
      → cumulative + total_weight_of before ≤ r
      → r < cumulative + total_weight_of before + o.weight
      → sample_from (before ++ o ∷ later) cumulative r ≡ some o
  unfolding sample_from
  sample_from-share [] o later cumulative r low high = ground arith
  sample_from-share (p ∷ before) o later cumulative r low high =
      let past : ltb r (cumulative + p.weight) ≡ false = ground arith in
      rw past
        (sample_from-share before o later (cumulative + p.weight) r (omega arith) (omega arith))

  keeps_mix :
      (mix : List (OperationWeight A)) (s : OperationSampler A)
      → new_operation_sampler mix ≡ some s
      → s.mix ≡ mix
  unfolding new_operation_sampler
  keeps_mix mix s e = elim (Bool-cases (total_weight_of mix == 0)) [
    | inl off ↦ elim (not_made (rw (off, new_operation_sampler) at e)) [ ]
    | inr on ↦ sym (ap (λ x. x.mix) (made_injective (rw (on, new_operation_sampler) at e)))
  ]

  keeps_total :
      (mix : List (OperationWeight A)) (s : OperationSampler A)
      → new_operation_sampler mix ≡ some s
      → s.total_weight ≡ total_weight_of mix
  unfolding new_operation_sampler
  keeps_total mix s e = elim (Bool-cases (total_weight_of mix == 0)) [
    | inl off ↦ elim (not_made (rw (off, new_operation_sampler) at e)) [ ]
    | inr on ↦ sym (ap (λ x. x.total_weight) (made_injective (rw (on, new_operation_sampler) at e)))
  ]

  total_weight_of-append :
      (xs ys : List (OperationWeight A))
      → total_weight_of (xs ++ ys) ≡ total_weight_of xs + total_weight_of ys
  total_weight_of-append [] ys = omega arith
  total_weight_of-append (x ∷ xs) ys = omega (arith, total_weight_of-append xs ys)

  -- A sampler draws below the sum of the weights of its operations, and each operation is the choice for
  -- as many of these draws in a row as it has weight: those from the sum of the weights before it on.
  pub sample-share :
      (before : List (OperationWeight A)) (o : OperationWeight A) (later : List (OperationWeight A))
      (s : OperationSampler A) (k : ℕ)
      → new_operation_sampler (before ++ o ∷ later) ≡ some s
      → k < o.weight
      → (s.total_weight ≡ total weight_of before + (o.weight + total weight_of later))
        × (total weight_of before + k < s.total_weight)
        × (sample s (total weight_of before + k) ≡ some o)
  unfolding sample
  sample-share before o later s k made few =
      let drawn =
        sample_from-share before o later 0 (total_weight_of before + k) (omega arith)
          (omega arith) in
      let here : sample_from s.mix 0 (total_weight_of before + k) ≡ some o =
        subst (λ m. sample_from m 0 (total_weight_of before + k) ≡ some o)
          (sym (keeps_mix (before ++ o ∷ later) s made)) drawn in
      let sum : s.total_weight ≡ total_weight_of before + (o.weight + total_weight_of later) =
        keeps_total (before ++ o ∷ later) s made ∙ total_weight_of-append before (o ∷ later) in
      (sum, omega (arith, sum, few), rw (here, sample) refl)
