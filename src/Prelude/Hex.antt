-- ===== src/Prelude/Hex.antt =====
-- `%x` of Go's fmt package, on the numbers that the program prints so: most significant digit
-- first, no leading zero.
use mcpdrill.Prelude.{
  ℕ, zero, suc, ◌+◌, ◌-◌, ◌*◌, ◌/◌, ◌%◌, ◌≤◌, ◌<◌, ◌≡◌, ap, sym, ◌∙◌, inl, inr, List, [], ◌∷◌, ◌++◌,
  arith, ltb, if◌then◌else◌, Bool-cases, length, Str,
}

unfoldable pub hex_digit : ℕ → ℕ
hex_digit d = if ltb d 10 then 48 + d else 87 + d

-- The last digit goes before what is printed already; `n` is fuel enough, since it is divided by 16.
unfoldable pub hex_loop : ℕ → ℕ → Str → Str
hex_loop zero n out = out
hex_loop (suc f) n out =
    let rest = hex_loop f (n / 16) (hex_digit (n % 16) ∷ out) in
    if ltb n 16 then hex_digit n ∷ out else rest

unfoldable pub to_hex : ℕ → Str
unfolding hex_digit hex_loop
to_hex n = hex_loop (suc n) n []

undigit : ℕ → ℕ
undigit c = if ltb c 58 then c - 48 else c - 87

value : ℕ → Str → ℕ
value a [] = a
value a (c ∷ cs) = value (a * 16 + undigit c) cs

undigit-digit : (a d : ℕ) → d < 16 → a * 16 + undigit (hex_digit d) ≡ a * 16 + d
unfolding undigit hex_digit
undigit-digit a d h = ground arith

value-loop : (f n : ℕ) (out : Str) → n < f → value 0 (hex_loop f n out) ≡ value n out
unfolding hex_loop value
value-loop zero n out h = elim h [ ]
value-loop (suc f) n out h = elim (Bool-cases (ltb n 16)) [
  | inl last ↦
      rw last (ap (λ (t : ℕ). value t out) (undigit-digit 0 n (ground arith) ∙ omega arith))
  | inr more ↦ rw more (
      value-loop f (n / 16) (hex_digit (n % 16) ∷ out) (ground arith)
      ∙ ap (λ (t : ℕ). value t out) (undigit-digit (n / 16) (n % 16) (omega arith) ∙ omega arith))
]

-- Two numbers that print alike are equal.
pub to_hex-injective : (m n : ℕ) → to_hex m ≡ to_hex n → m ≡ n
unfolding to_hex value
to_hex-injective m n e =
    sym (value-loop (suc m) m [] (omega arith))
    ∙ ap (value 0) e
    ∙ value-loop (suc n) n [] (omega arith)

-- `n` has `k + 1` hexadecimal digits.
abbrev pub HasDigits : ℕ → ℕ → Type 0
HasDigits zero n = n < 16
HasDigits (suc k) n = (16 ≤ n) × HasDigits k (n / 16)

length-loop :
    (k f n : ℕ) (out : Str) → n < f → HasDigits k n → length (hex_loop f n out) ≡ suc k + length out
unfolding hex_loop
length-loop k zero n out h d = elim h [ ]
length-loop zero (suc f) n out h d = ground arith
length-loop (suc k) (suc f) n out h d =
    ground (arith, length-loop k f (n / 16) (hex_digit (n % 16) ∷ out) (omega arith) d.1)

pub length-to_hex : (k n : ℕ) → HasDigits k n → length (to_hex n) ≡ suc k
unfolding to_hex
length-to_hex k n d = omega (arith, length-loop k (suc n) n [] (omega arith) d)

-- Texts with parts of one length are equal part by part.
pub append-split {ℓ} :
    {A : Type ℓ} (xs ys us vs : List A) → length xs ≡ length us → xs ++ ys ≡ us ++ vs → ys ≡ vs
append-split [] ys [] vs l e = e
append-split [] ys (u ∷ us) vs l e = absurd (omega arith)
append-split (x ∷ xs) ys [] vs l e = absurd (omega arith)
append-split (x ∷ xs) ys (u ∷ us) vs l e = append-split xs ys us vs (omega arith) (cc)
