-- ===== src/Validation/Policy/Endings.antt =====
-- What `ends_with` decides.
use mcpdrill.Prelude.{
  ◌+◌, ◌-◌, ◌≡◌, refl, sym, ap, subst, ◌∙◌, ◌++◌, [], ◌∷◌, true, length, take, drop, length-append,
  take-append-drop, Str, str_eq, Str-discrete, arith,
}
use mcpdrill.Validation.Policy.{ends_with}

pub str_eq_sound : (a b : Str) → str_eq a b ≡ true → a ≡ b
str_eq_sound a b e = elim (Str-discrete a b) [ yes same ↦ same | no differ ↦ ground arith ]

str_eq_refl : (a : Str) → str_eq a a ≡ true
str_eq_refl a = ground arith

pub str_eq_complete : (a b : Str) → a ≡ b → str_eq a b ≡ true
str_eq_complete a b e = subst (λ x. str_eq a x ≡ true) e (str_eq_refl a)

drop_front : (p b : Str) → drop (length p) (p ++ b) ≡ b
drop_front [] b = refl
drop_front (c ∷ p) b = drop_front p b

-- The text ends with `b`: something stands before it.
abbrev pub EndsWith : Str → Str → Type 0
EndsWith a b = (front : Str) × (a ≡ front ++ b)

pub ends_with-EndsWith : (a b : Str) → ends_with a b ≡ true → EndsWith a b
ends_with-EndsWith a b e =
    let n = length a - length b in
    (
      take n a,
      sym (take-append-drop n a)
          ∙ ap (λ x. take n a ++ x) (str_eq_sound (drop n a) b (ground (arith, e))),
    )

pub EndsWith-ends_with : (a b : Str) → EndsWith a b → ends_with a b ≡ true
EndsWith-ends_with a b (front, e) =
    let long : length a ≡ length front + length b = ap length e ∙ length-append front b in
    let gap : length a - length b ≡ length front = omega (arith, long) in
    let back : drop (length a - length b) a ≡ b =
      ap (λ n. drop n a) gap ∙ ap (drop (length front)) e ∙ drop_front front b in
    ground (arith, long, str_eq_complete (drop (length a - length b) a) b back)
