-- ===== src/StopConditions/Numbers.antt =====
-- The numbers of internal/controlplane/stopconditions/evaluator.go: floats as fractions, percentiles
-- of latencies, and decimal printing.
use mcpdrill.Prelude.{
  ℕ, zero, suc, ◌+◌, ◌-◌, ◌*◌, ◌/◌, ◌%◌, List, [], ◌∷◌, Bool, true, false, not, ltb, leb,
  if◌then◌else◌, length, Str, str_eq, codes,
}
use mcpdrill.Prelude.Int.{ℤ, pos, negsuc, pos_part, neg_part}

-- `num / den`, with a positive `den`.
pub record Ratio : Type 0 where
  pub num : ℤ
  pub den : ℕ

unfoldable pub ratio_lt : Ratio → Ratio → Bool
ratio_lt a b =
    ltb (pos_part a.num * b.den + neg_part b.num * a.den)
      (pos_part b.num * a.den + neg_part a.num * b.den)

abbrev pub is_negative : ℤ → Bool
is_negative (pos n) = false
is_negative (negsuc n) = true

abbrev pub is_positive : ℤ → Bool
is_positive (pos zero) = false
is_positive (pos (suc n)) = true
is_positive (negsuc n) = false

-- `compare` of the source.
unfoldable pub breaches : Ratio → Str → Ratio → Bool
unfolding ratio_lt
breaches observed comparator threshold =
    if is_negative observed.num
    then false
    else if str_eq comparator (codes ">=")
    then not (ratio_lt observed threshold)
    else if str_eq comparator (codes "<")
    then ratio_lt observed threshold
    else if str_eq comparator (codes "<=")
    then not (ratio_lt threshold observed)
    else ratio_lt threshold observed

-- `sort.Ints`
unfoldable pub insert_int : ℕ → List ℕ → List ℕ
insert_int x [] = x ∷ []
insert_int x (y ∷ ys) = if leb x y then x ∷ y ∷ ys else y ∷ insert_int x ys

unfoldable pub sort_ints : List ℕ → List ℕ
unfolding insert_int
sort_ints [] = []
sort_ints (x ∷ xs) = insert_int x (sort_ints xs)

abbrev pub get_or : List ℕ → ℕ → ℕ → ℕ
get_or [] i d = d
get_or (x ∷ xs) zero d = x
get_or (x ∷ xs) (suc i) d = get_or xs i d

-- The index of the percentile `p` of `n` values: ⌈p n / 100⌉ - 1, kept within the list.
abbrev pub percentile_index : ℕ → ℕ → ℕ
percentile_index p n = let index = (p * n + 99) / 100 - 1 in if leb n index then n - 1 else index

unfoldable pub percentile : List ℕ → ℕ → ℕ
unfolding sort_ints
percentile values p = get_or (sort_ints values) (percentile_index p (length values)) 0

-- `%d`, with fuel enough for a number that is divided by ten.
unfoldable pub decimal_loop : ℕ → ℕ → Str → Str
decimal_loop zero n out = out
decimal_loop (suc f) n out =
    let rest = decimal_loop f (n / 10) ((48 + n % 10) ∷ out) in
    if ltb n 10 then (48 + n) ∷ out else rest

unfoldable pub to_decimal : ℕ → Str
unfolding decimal_loop
to_decimal n = decimal_loop (suc n) n []
