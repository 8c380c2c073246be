-- ===== src/Scheduler/Ids.antt =====
-- Ids that are made from the clock and a counter (`generateLeaseID`, `generateWorkerID`) do not
-- repeat, as long as the clock prints with eleven hexadecimal digits (from 2004 to 2527).
use mcpdrill.Prelude.{
  ℕ, ◌+◌, ◌^◌, ◌≤◌, ◌<◌, ◌≡◌, refl, sym, ◌∙◌, [], ◌∷◌, ◌++◌, none, arith, Str, Dict, lookup, erase,
  update_all, update_at,
}
use mcpdrill.Prelude.Hex.{to_hex, to_hex-injective, HasDigits, length-to_hex, append-split}

abbrev pub IsEpoch : ℕ → Type 0
IsEpoch ts = (16 ^ 10 ≤ ts) × (ts < 16 ^ 11)

epoch_digits : (ts : ℕ) → IsEpoch ts → HasDigits 10 ts
epoch_digits ts h = omega arith

pub print-injective :
    (t u m n : ℕ) → IsEpoch t → IsEpoch u → to_hex t ++ to_hex m ≡ to_hex u ++ to_hex n → m ≡ n
print-injective t u m n ht hu e = to_hex-injective m n (
    append-split (to_hex t) (to_hex m) (to_hex u) (to_hex n)
      (length-to_hex 10 t (epoch_digits t ht) ∙ sym (length-to_hex 10 u (epoch_digits u hu))) e)

-- Every key was made from a counter up to `n`.
abbrev pub IsMinted {ℓ} : {V : Type ℓ} → (ℕ → ℕ → Str) → ℕ → Dict V → Type 0
IsMinted make n [] = Unit
IsMinted make n ((k, v) ∷ m) =
    ((t : ℕ) × (c : ℕ) × IsEpoch t × (c ≤ n) × (k ≡ make t c)) × IsMinted make n m

module _ {ℓ} {V : Type ℓ} (make : ℕ → ℕ → Str) where
  pub IsMinted-erase :
      (n : ℕ) (k : Str) (m : Dict V) → IsMinted make n m → IsMinted make n (erase k m)
  IsMinted-erase n k [] h = tt
  IsMinted-erase n k ((j, v) ∷ m) h = ground (arith, IsMinted-erase n k m h.1)

  pub IsMinted-suc : (n : ℕ) (m : Dict V) → IsMinted make n m → IsMinted make (n + 1) m
  IsMinted-suc n [] h = tt
  IsMinted-suc n ((j, v) ∷ m) ((t, c, e, b, p), rest) =
      ((t, c, e, omega arith, p), IsMinted-suc n m rest)

  pub IsMinted-update_all :
      (n : ℕ) (f : V → V) (m : Dict V) → IsMinted make n m → IsMinted make n (update_all f m)
  IsMinted-update_all n f [] h = tt
  IsMinted-update_all n f ((j, v) ∷ m) h = (h.0, IsMinted-update_all n f m h.1)

  pub IsMinted-update_at :
      (n : ℕ) (k : Str) (f : V → V) (m : Dict V)
      → IsMinted make n m
      → IsMinted make n (update_at k f m)
  IsMinted-update_at n k f [] h = tt
  IsMinted-update_at n k f ((j, v) ∷ m) h = (h.0, IsMinted-update_at n k f m h.1)

  -- The next id is not in use.
  pub lookup-next :
      ((t u i j : ℕ) → IsEpoch t → IsEpoch u → make t i ≡ make u j → i ≡ j)
      → (n ts : ℕ) (m : Dict V) → IsEpoch ts
      → IsMinted make n m
      → lookup (make ts (n + 1)) m ≡ none
  lookup-next inj n ts [] e h = refl
  lookup-next inj n ts ((j, v) ∷ m) e ((t, c, et, b, p), rest) = ground (
    arith,
    lookup-next inj n ts m e rest,
    λ (q : make t c ≡ make ts (n + 1)). inj t ts c (n + 1) et e q,
  )
