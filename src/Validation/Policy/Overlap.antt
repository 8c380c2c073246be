-- ===== src/Validation/Policy/Overlap.antt =====
-- What the intersection of two allowlists keeps.
use mathlib.Core.List.{Memᴰ}
use mcpdrill.Prelude.{
  suc, ◌+◌, ◌≡◌, refl, sym, ap, subst, ◌∙◌, ◌⊎◌, ◌↔◌, inl, inr, List, [], ◌∷◌, Bool, true, false,
  ◌||◌, if_cases, length, length-append, Str, str_eq, arith,
}
use mcpdrill.Validation.Policy.{
  Kind, exact, suffix, other, AllowlistEntry, ends_with, ends_with_more, entries_overlap,
  overlap_of, overlaps_any, intersect, compute_allowlist_intersection,
}
use mcpdrill.Validation.Policy.Endings.{
  EndsWith, ends_with-EndsWith, EndsWith-ends_with, str_eq_sound, str_eq_complete,
}

-- Two values meet: two exact ones if they are the same, an exact one and a suffix if it ends with the
-- suffix, and two suffixes if one ends with the other. A value of another kind meets none.
abbrev pub Meets : Kind → Kind → Str → Str → Type 0
Meets exact exact a b = a ≡ b
Meets exact suffix a b = EndsWith a b
Meets suffix exact a b = EndsWith b a
Meets suffix suffix a b = EndsWith a b ⊎ EndsWith b a
Meets _ _ a b = ⊥

or_cases : (x y : Bool) → (x || y) ≡ true → (x ≡ true) ⊎ (y ≡ true)
or_cases true y e = inl refl
or_cases false y e = inr e

more→ends_with : (a b : Str) → ends_with_more a b ≡ true → ends_with a b ≡ true
more→ends_with a b e = ground arith

EndsWith-self : (a b : Str) → a ≡ b → EndsWith a b
EndsWith-self a b e = ([], e)

overlap-Meets : (k l : Kind) (a b : Str) → overlap_of k l a b ≡ true → Meets k l a b
overlap-Meets exact exact a b e = str_eq_sound a b e
overlap-Meets exact suffix a b e = ends_with-EndsWith a b e
overlap-Meets suffix exact a b e = ends_with-EndsWith b a e
overlap-Meets suffix suffix a b e = elim (or_cases (str_eq a b) _ e) [
  | inl same ↦ inl (EndsWith-self a b (str_eq_sound a b same))
  | inr one ↦ elim (or_cases (ends_with_more a b) _ one) [
    | inl longer ↦ inl (ends_with-EndsWith a b (more→ends_with a b longer))
    | inr shorter ↦ inr (ends_with-EndsWith b a (more→ends_with b a shorter))
  ]
]
overlap-Meets exact (other l) a b e = cc
overlap-Meets suffix (other l) a b e = cc
overlap-Meets (other k) l a b e = cc

-- An ending is the text itself or shorter.
EndsWith-more : (a b : Str) → EndsWith a b → (str_eq a b ≡ true) ⊎ (ends_with_more a b ≡ true)
EndsWith-more a b ([], e) = inl (str_eq_complete a b e)
EndsWith-more a b (c ∷ front, e) =
    let long : length a ≡ suc (length front) + length b =
      ap length e ∙ length-append (c ∷ front) b in
    inr (ground (arith, long, EndsWith-ends_with a b (c ∷ front, e)))

str_eq-swap : (a b : Str) → str_eq b a ≡ true → str_eq a b ≡ true
str_eq-swap a b e = str_eq_complete a b (sym (str_eq_sound b a e))

suffixes_overlap :
    (a b : Str)
    → (str_eq a b ≡ true) ⊎ (ends_with_more a b ≡ true) ⊎ (ends_with_more b a ≡ true)
    → overlap_of suffix suffix a b ≡ true
suffixes_overlap a b h = ground arith

Meets-overlap : (k l : Kind) (a b : Str) → Meets k l a b → overlap_of k l a b ≡ true
Meets-overlap exact exact a b e = str_eq_complete a b e
Meets-overlap exact suffix a b e = EndsWith-ends_with a b e
Meets-overlap suffix exact a b e = EndsWith-ends_with b a e
Meets-overlap suffix suffix a b (inl e) = elim (EndsWith-more a b e) [
  | inl same ↦ suffixes_overlap a b (inl same)
  | inr more ↦ suffixes_overlap a b (inr (inl more))
]
Meets-overlap suffix suffix a b (inr e) = elim (EndsWith-more b a e) [
  | inl same ↦ suffixes_overlap a b (inl (str_eq-swap a b same))
  | inr more ↦ suffixes_overlap a b (inr (inr more))
]
Meets-overlap exact (other l) a b e = absurd e
Meets-overlap suffix (other l) a b e = absurd e
Meets-overlap (other k) l a b e = absurd e

abbrev pub Meet : AllowlistEntry → AllowlistEntry → Type 0
Meet e s = Meets e.kind s.kind e.value s.value

MeetsOne : AllowlistEntry → List AllowlistEntry → Type 0
MeetsOne e ss = (s : AllowlistEntry) × Memᴰ s ss × Meet e s

overlaps_any-MeetsOne :
    (e : AllowlistEntry) (ss : List AllowlistEntry) → overlaps_any e ss ≡ true → MeetsOne e ss
unfolding MeetsOne entries_overlap
overlaps_any-MeetsOne e [] h = cc h
overlaps_any-MeetsOne e (s ∷ ss) h =
    if_cases (λ b. b ≡ true → MeetsOne e (s ∷ ss)) (entries_overlap e s) true (overlaps_any e ss)
      (λ yes_here h'. (s, Memᴰ.head refl, overlap-Meets e.kind s.kind e.value s.value yes_here))
      (λ not_here h'. let (t, m, meet) = overlaps_any-MeetsOne e ss h' in (t, Memᴰ.tail m, meet)) h

MeetsOne-overlaps_any :
    (e : AllowlistEntry) (ss : List AllowlistEntry) → MeetsOne e ss → overlaps_any e ss ≡ true
unfolding MeetsOne entries_overlap
MeetsOne-overlaps_any e [] (t, m, meet) = elim m [ ]
MeetsOne-overlaps_any e (s ∷ ss) (t, m, meet) =
    if_cases (λ b. b ≡ true) (entries_overlap e s) true (overlaps_any e ss) (λ here. refl)
      (λ not_here. elim m [
        | Memᴰ.head same ↦
            cc (Meets-overlap e.kind s.kind e.value s.value (subst (Meet e) same meet), not_here)
        | Memᴰ.tail m' ↦ MeetsOne-overlaps_any e ss (t, m', meet)
      ])

-- Which entries are kept: all of the run if the system has no allowlist, all of the system if the run has
-- none, and else those of the run that meet one of the system.
abbrev pub IsKept : AllowlistEntry → List AllowlistEntry → List AllowlistEntry → Type 0
IsKept e run [] = Memᴰ e run
IsKept e [] (s ∷ system) = Memᴰ e (s ∷ system)
IsKept e (r ∷ run) (s ∷ system) =
    Memᴰ e (r ∷ run) × ((t : AllowlistEntry) × Memᴰ t (s ∷ system) × Meet e t)

module _ (e : AllowlistEntry) (system : List AllowlistEntry) where
  intersect-Mem :
      (run : List AllowlistEntry)
      → Memᴰ e (intersect run system)
      → Memᴰ e run × (overlaps_any e system ≡ true)
  unfolding intersect
  intersect-Mem [] m = elim m [ ]
  intersect-Mem (r ∷ run) m =
      if_cases (λ es. Memᴰ e es → Memᴰ e (r ∷ run) × (overlaps_any e system ≡ true))
        (overlaps_any r system) (r ∷ intersect run system) (intersect run system)
        (λ meets mem. elim mem [
          | Memᴰ.head same ↦ (Memᴰ.head same, ap (λ x. overlaps_any x system) same ∙ meets)
          | Memᴰ.tail mem' ↦ let (there, ok) = intersect-Mem run mem' in (Memᴰ.tail there, ok)
        ])
        (λ misses mem. let (there, ok) = intersect-Mem run mem in (Memᴰ.tail there, ok)) m

  Mem-intersect :
      (run : List AllowlistEntry)
      → Memᴰ e run
      → overlaps_any e system ≡ true
      → Memᴰ e (intersect run system)
  unfolding intersect
  Mem-intersect [] m ok = elim m [ ]
  Mem-intersect (r ∷ run) m ok =
      if_cases (λ es. Memᴰ e es) (overlaps_any r system) (r ∷ intersect run system)
        (intersect run system)
        (λ meets. elim m [
          | Memᴰ.head same ↦ Memᴰ.head same
          | Memᴰ.tail m' ↦ Memᴰ.tail (Mem-intersect run m' ok)
        ])
        (λ misses. elim m [
          | Memᴰ.head same ↦ cc (sym (ap (λ x. overlaps_any x system) same) ∙ ok, misses)
          | Memᴰ.tail m' ↦ Mem-intersect run m' ok
        ])

-- The intersection of the allowlists of a run and of the system has an entry if and only if the entry is
-- to be kept: if both lists have entries, those of the run that meet an entry of the system, which is
-- said of their texts alone.
pub compute_allowlist_intersection_iff :
    (e : AllowlistEntry) (run system : List AllowlistEntry)
    → Memᴰ e (compute_allowlist_intersection run system) ↔ IsKept e run system
unfolding compute_allowlist_intersection MeetsOne
compute_allowlist_intersection_iff e run [] = (λ m. m, λ m. m)
compute_allowlist_intersection_iff e [] (s ∷ system) = (λ m. m, λ m. m)
compute_allowlist_intersection_iff e (r ∷ run) (s ∷ system) = (
  λ m.
      let (there, ok) = intersect-Mem e (s ∷ system) (r ∷ run) m in
      (there, overlaps_any-MeetsOne e (s ∷ system) ok),
  λ (there, meets).
      Mem-intersect e (s ∷ system) (r ∷ run) there (MeetsOne-overlaps_any e (s ∷ system) meets),
)
