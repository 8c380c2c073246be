-- ===== src/Validation/Policy.antt =====
-- internal/validation/policy_merge.go: the allowlist of a run and that of the system. The entries of
-- the run's configuration are those that its JSON holds.
pub mod Endings
pub mod Overlap
use mcpdrill.Prelude.{
  ℕ, zero, suc, ◌+◌, ◌-◌, ◌≤◌, ◌≡◌, refl, sym, ap, subst, ◌∙◌, ◌⊎◌, ◌↔◌, inl, inr, List, [], ◌∷◌,
  Bool, true, false, ◌&&◌, ◌||◌, leb, ltb, if◌then◌else◌, length, drop, length-drop, Str, str_eq,
  Str-discrete, codes, arith, Bool-cases,
}

pub data Kind : Type 0 where
  exact : Kind
  suffix : Kind
  other : Str → Kind

pub record AllowlistEntry : Type 0 where
  pub kind : Kind
  pub value : Str

-- `len(a) >= len(b) && a[len(a)-len(b):] == b`
abbrev pub ends_with : Str → Str → Bool
ends_with a b = leb (length b) (length a) && str_eq (drop (length a - length b) a) b

-- `len(a) > len(b) && a[len(a)-len(b):] == b`
abbrev pub ends_with_more : Str → Str → Bool
ends_with_more a b = ltb (length b) (length a) && str_eq (drop (length a - length b) a) b

abbrev pub overlap_of : Kind → Kind → Str → Str → Bool
overlap_of exact exact a b = str_eq a b
overlap_of suffix suffix a b = str_eq a b || (ends_with_more a b || ends_with_more b a)
overlap_of exact suffix a b = ends_with a b
overlap_of suffix exact a b = ends_with b a
overlap_of _ _ a b = false

unfoldable pub entries_overlap : AllowlistEntry → AllowlistEntry → Bool
entries_overlap a b = overlap_of a.kind b.kind a.value b.value

abbrev pub overlaps_any : AllowlistEntry → List AllowlistEntry → Bool
overlaps_any e [] = false
overlaps_any e (s ∷ ss) = if entries_overlap e s then true else overlaps_any e ss

unfoldable pub intersect : List AllowlistEntry → List AllowlistEntry → List AllowlistEntry
intersect [] system = []
intersect (e ∷ es) system =
    if overlaps_any e system then e ∷ intersect es system else intersect es system

unfoldable pub compute_allowlist_intersection :
    List AllowlistEntry → List AllowlistEntry → List AllowlistEntry
unfolding intersect
compute_allowlist_intersection run [] = run
compute_allowlist_intersection [] (s ∷ system) = s ∷ system
compute_allowlist_intersection (e ∷ run) (s ∷ system) = intersect (e ∷ run) (s ∷ system)
