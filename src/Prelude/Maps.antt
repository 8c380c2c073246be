-- ===== src/Prelude/Maps.antt =====
-- Go's maps with string keys, as association lists. The order of the list stands for the order in
-- which a `range` loop meets the entries, which Go leaves open: nothing depends on it but the order
-- of what such a loop appends.
use mathlib.Core.Path.{◌≡◌, refl}
use mathlib.Core.Logic.{◌⊎◌, inl, inr}
use mathlib.Core.Bool.{true, false}
use mathlib.Core.Option.{Option, none, some}
use mathlib.Core.List.{List, [], ◌∷◌}
use native.Mathlib.Omega.{arith}
use mcpdrill.Prelude.Tests.{if◌then◌else◌}
use mcpdrill.Prelude.Lists.{All}
use mcpdrill.Prelude.Text.{Str, str_eq, Str-discrete}

-- To split on the equality of two strings.
pub Str-cases : (a b : Str) → ((a ≡ b) × (str_eq a b ≡ true)) ⊎ (str_eq a b ≡ false)
Str-cases a b = elim (Str-discrete a b) [
  | yes same ↦ inl (same, ground (arith, same))
  | no other ↦ inr (ground (arith, other))
]

abbrev pub Dict {ℓ} : Type ℓ → Type ℓ
Dict V = List (Str × V)

module _ {ℓ} {V : Type ℓ} where
  abbrev pub lookup : Str → Dict V → Option V
  lookup k [] = none
  lookup k ((j, v) ∷ m) = if str_eq j k then some v else lookup k m

  -- `delete(m, k)`
  abbrev pub erase : Str → Dict V → Dict V
  erase k [] = []
  erase k ((j, v) ∷ m) = if str_eq j k then erase k m else (j, v) ∷ erase k m

  -- `m[k] = v`
  abbrev pub insert : Str → V → Dict V → Dict V
  insert k v m = (k, v) ∷ erase k m

  abbrev pub values : Dict V → List V
  values [] = []
  values ((k, v) ∷ m) = v ∷ values m

  -- A `range` loop that updates each value in place.
  abbrev pub update_all : (V → V) → Dict V → Dict V
  update_all f [] = []
  update_all f ((k, v) ∷ m) = (k, f v) ∷ update_all f m

  -- An update in place of the value of one key.
  abbrev pub update_at : Str → (V → V) → Dict V → Dict V
  update_at k f [] = []
  update_at k f ((j, v) ∷ m) = (j, if str_eq j k then f v else v) ∷ update_at k f m

  -- No key stands twice.
  abbrev pub IsKeyed : Dict V → Type ℓ
  IsKeyed [] = Unit
  IsKeyed ((k, v) ∷ m) = (lookup k m ≡ none) × IsKeyed m

module _ {ℓ} {V : Type ℓ} where
  pub lookup-erase :
      (k j : Str) (m : Dict V) → lookup j (erase k m) ≡ (if str_eq k j then none else lookup j m)
  lookup-erase k j [] = ground arith
  lookup-erase k j ((i, v) ∷ m) = ground (arith, lookup-erase k j m)

  pub lookup-insert :
      (k j : Str) (v : V) (m : Dict V)
      → lookup j (insert k v m) ≡ (if str_eq k j then some v else lookup j m)
  lookup-insert k j v m = ground (arith, lookup-erase k j m)

  pub lookup-update_at :
      (k j : Str) (f : V → V) (m : Dict V) {v : V}
      → lookup j m ≡ some v
      → lookup j (update_at k f m) ≡ some (if str_eq j k then f v else v)
  lookup-update_at k j f [] e = cc
  lookup-update_at k j f ((i, w) ∷ m) {v} e = ground (arith, lookup-update_at k j f m {v = v})

  pub lookup-update_all :
      (j : Str) (f : V → V) (m : Dict V) {v : V}
      → lookup j m ≡ some v
      → lookup j (update_all f m) ≡ some (f v)
  lookup-update_all j f [] e = cc
  lookup-update_all j f ((i, w) ∷ m) {v} e = ground (arith, lookup-update_all j f m {v = v})

  pub lookup-update_at-none :
      (k j : Str) (f : V → V) (m : Dict V) → lookup j m ≡ none → lookup j (update_at k f m) ≡ none
  lookup-update_at-none k j f [] e = refl
  lookup-update_at-none k j f ((i, w) ∷ m) e = ground (arith, lookup-update_at-none k j f m)

  pub lookup-update_all-none :
      (j : Str) (f : V → V) (m : Dict V) → lookup j m ≡ none → lookup j (update_all f m) ≡ none
  lookup-update_all-none j f [] e = refl
  lookup-update_all-none j f ((i, w) ∷ m) e = ground (arith, lookup-update_all-none j f m)

  pub erase-IsKeyed : (k : Str) (m : Dict V) → IsKeyed m → IsKeyed (erase k m)
  erase-IsKeyed k [] h = tt
  erase-IsKeyed k ((j, v) ∷ m) h = ground (arith, lookup-erase k j m, erase-IsKeyed k m h.1)

  pub insert-IsKeyed : (k : Str) (v : V) (m : Dict V) → IsKeyed m → IsKeyed (insert k v m)
  insert-IsKeyed k v m h = ground (arith, lookup-erase k k m, erase-IsKeyed k m h)

  pub update_at-IsKeyed : (k : Str) (f : V → V) (m : Dict V) → IsKeyed m → IsKeyed (update_at k f m)
  update_at-IsKeyed k f [] h = tt
  update_at-IsKeyed k f ((j, v) ∷ m) h =
      (lookup-update_at-none k j f m h.0, update_at-IsKeyed k f m h.1)

  pub update_all-IsKeyed : (f : V → V) (m : Dict V) → IsKeyed m → IsKeyed (update_all f m)
  update_all-IsKeyed f [] h = tt
  update_all-IsKeyed f ((j, v) ∷ m) h =
      (lookup-update_all-none j f m h.0, update_all-IsKeyed f m h.1)

  -- A property of the values passes to the value of a key, and through the operations.
  pub All-lookup {κ} :
      (P : V → Type κ) (k : Str) (m : Dict V) {v : V} → All P (values m) → lookup k m ≡ some v → P v
  All-lookup P k [] a e = cc
  All-lookup P k ((j, w) ∷ m) {v} a e = ground (arith, All-lookup P k m {v = v} a.1)

  pub All-erase {κ} :
      (P : V → Type κ) (k : Str) (m : Dict V) → All P (values m) → All P (values (erase k m))
  All-erase P k [] a = tt
  All-erase P k ((j, w) ∷ m) a = ground (arith, All-erase P k m a.1)
