-- ===== src/Telemetry/Queue/Tiers.antt =====
-- What shedding takes from the queue: never a record of tier 0, and one of tier 1 only if no record
-- of tier 2 is there.
use mcpdrill.Prelude.{
  ℕ, suc, ◌≡◌, ◌≢◌, refl, ◌++◌, List, [], ◌∷◌, Bool, false, Option, none, some, ◌==◌, if◌then◌else◌,
  length, keep, count_if, arith, Bool-cases, inl, inr,
}
use mcpdrill.Telemetry.Queue.{TelemetryRecord, without_first, tier0_lifecycle}

module _ {ℓ} {A : Type ℓ} where
  abbrev pub has_tier : ℕ → TelemetryRecord A → Bool
  has_tier t r = r.tier == t

  abbrev pub lifecycle : List (TelemetryRecord A) → List (TelemetryRecord A)
  lifecycle = keep (has_tier tier0_lifecycle)

  pub keep-append :
      (p : TelemetryRecord A → Bool) (rs ss : List (TelemetryRecord A))
      → keep p (rs ++ ss) ≡ keep p rs ++ keep p ss
  keep-append p [] ss = refl
  keep-append p (r ∷ rs) ss = ground (arith, keep-append p rs ss)

  -- What `without_first` returns.
  abbrev pub Without : ℕ → List (TelemetryRecord A) → Option (List (TelemetryRecord A)) → Type ℓ
  Without t rs none = (count_if (has_tier t) rs ≡ 0) × Unit {ℓ}
  Without t rs (some rest) =
      (length rs ≡ suc (length rest))
      × ((u : ℕ)
          → count_if (has_tier u) rs
            ≡ (if t == u then suc (count_if (has_tier u) rest) else count_if (has_tier u) rest))
      × (t ≢ tier0_lifecycle → lifecycle rest ≡ lifecycle rs)

  Without-cons :
      (t : ℕ) (r : TelemetryRecord A) (rs : List (TelemetryRecord A))
      (o : Option (List (TelemetryRecord A)))
      → (r.tier == t) ≡ false
      → Without t rs o
      → Without t (r ∷ rs) (elim o [ none ↦ none | some rest ↦ some (r ∷ rest) ])
  Without-cons t r rs none e (h, _) = (ground arith, tt)
  Without-cons t r rs (some rest) e (l, c, k) =
      (omega arith, (λ u. ground (arith, c u)), λ z. ground (arith, k z))

  pub without_first-Without :
      (t : ℕ) (rs : List (TelemetryRecord A)) → Without t rs (without_first t rs)
  unfolding without_first
  without_first-Without t [] = (refl, tt)
  without_first-Without t (r ∷ rs) = elim (Bool-cases (r.tier == t)) [
    | inl here ↦ rw (here, without_first) (refl, (λ u. ground arith), λ z. ground arith)
    | inr later ↦
        rw (later, without_first)
          (Without-cons t r rs (without_first t rs) later (without_first-Without t rs))
  ]
