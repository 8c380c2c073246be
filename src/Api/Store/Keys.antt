-- ===== src/Api/Store/Keys.antt =====
-- The keys of the map of the store, through its operations.
use mcpdrill.Prelude.{
  suc, ◌≡◌, refl, sym, ap, subst, ◌∙◌, inl, inr, [], ◌∷◌, Bool, true, false, Option, none, some,
  if◌then◌else◌, if_false, length, arith, Str, str_eq, Str-cases, Dict, lookup, erase, insert,
  update_at, IsKeyed, lookup-erase, lookup-insert,
}
use mcpdrill.Api.Store.Records.{RunTelemetry}
use mcpdrill.Api.Store.Queries.{of_run}

-- Whether a key stands in a map.
abbrev pub known : Str → Dict RunTelemetry → Bool
known k m = of_run false (λ rt. true) (lookup k m)

known_if :
    (b : Bool) (o : Option RunTelemetry)
    → of_run false (λ rt. true) (if b then none else o)
      ≡ (if b then false else of_run false (λ rt. true) o)
unfolding of_run
known_if true o = refl
known_if false o = refl

pub known-erase :
    (k j : Str) (m : Dict RunTelemetry)
    → known j (erase k m) ≡ (if str_eq k j then false else known j m)
known-erase k j m =
    ap (of_run false (λ rt. true)) (lookup-erase k j m) ∙ known_if (str_eq k j) (lookup j m)

known_some_if :
    (b : Bool) (v : RunTelemetry) (o : Option RunTelemetry)
    → of_run false (λ rt. true) (if b then some v else o)
      ≡ (if b then true else of_run false (λ rt. true) o)
unfolding of_run
known_some_if true v o = refl
known_some_if false v o = refl

pub known-insert :
    (k j : Str) (v : RunTelemetry) (m : Dict RunTelemetry)
    → known j (insert k v m) ≡ (if str_eq k j then true else known j m)
known-insert k j v m =
    ap (of_run false (λ rt. true)) (lookup-insert k j v m)
    ∙ known_some_if (str_eq k j) v (lookup j m)

pub str_eq_self : (k : Str) → str_eq k k ≡ true
str_eq_self k = ground arith

pub str_eq-sym : (a b : Str) → str_eq a b ≡ false → str_eq b a ≡ false
str_eq-sym a b h = ground arith

pub if_same : {A : Type 0} (b : Bool) (x : A) → (if b then x else x) ≡ x
if_same true x = refl
if_same false x = refl

pub erase-erase : (j k : Str) (m : Dict RunTelemetry) → erase j (erase k m) ≡ erase k (erase j m)
erase-erase j k [] = refl
erase-erase j k ((i, v) ∷ m) = ground (arith, erase-erase j k m)

pub erase-insert :
    (k j : Str) (v : RunTelemetry) (m : Dict RunTelemetry)
    → str_eq k j ≡ false
    → erase j (insert k v m) ≡ insert k v (erase j m)
erase-insert k j v m other =
    if_false (str_eq k j) (erase j (erase k m)) ((k, v) ∷ erase j (erase k m)) other
    ∙ ap (λ m'. (k, v) ∷ m') (erase-erase j k m)

pub erase-update_at :
    (j k : Str) (f : RunTelemetry → RunTelemetry) (m : Dict RunTelemetry)
    → erase j (update_at k f m) ≡ update_at k f (erase j m)
erase-update_at j k f [] = refl
erase-update_at j k f ((i, v) ∷ m) = ground (arith, erase-update_at j k f m)

pub known-update_at :
    (j k : Str) (f : RunTelemetry → RunTelemetry) (m : Dict RunTelemetry)
    → known j (update_at k f m) ≡ known j m
unfolding of_run
known-update_at j k f [] = refl
known-update_at j k f ((i, v) ∷ m) = ground (arith, known-update_at j k f m)

erase-unknown : (k : Str) (m : Dict RunTelemetry) → lookup k m ≡ none → erase k m ≡ m
erase-unknown k [] h = refl
erase-unknown k ((i, v) ∷ m) h = ground (arith, erase-unknown k m)

pub length-erase :
    (k : Str) (m : Dict RunTelemetry)
    → IsKeyed m
    → known k m ≡ true
    → length m ≡ suc (length (erase k m))
unfolding of_run
length-erase k [] keyed h = cc
length-erase k ((i, v) ∷ m) keyed h = elim (Str-cases i k) [
  | inl (same, e) ↦ rw e (
      ap (λ n. suc (length n))
        (sym (erase-unknown k m (subst (λ x. lookup x m ≡ none) same keyed.0))))
  | inr other ↦
      let found : known k m ≡ true =
        ap (of_run false (λ rt. true)) (sym (if_false (str_eq i k) (some v) (lookup k m) other))
        ∙ h in
      rw other (ap suc (length-erase k m keyed.1 found))
]
