-- ===== src/StopConditions/Evaluator/Counters.antt =====
-- The counters are the streaks, if no two conditions share a key.
use mcpdrill.Prelude.{
  ℕ, suc, ◌+◌, ◌≡◌, refl, if_cases, sym, ap, ◌∙◌, ◌⊎◌, inl, inr, List, [], ◌∷◌, Bool, true, false,
  ◌&&◌, Option, none, some, arith, leb, if◌then◌else◌, All, Str, str_eq, Dict, lookup, insert,
  lookup-insert, Bool-cases,
}
use mcpdrill.StopConditions.Conditions.{
  Condition, Operation, TimedOperation, Trigger, within, is_breached, sustain_of, trigger_of,
  condition_key, count_of, or_zero,
}
use mcpdrill.StopConditions.Evaluator.{check_from}
use mcpdrill.StopConditions.Evaluator.Spec.{next_streaks, first_due}

-- No condition has the key `k`, counted from an index on.
abbrev pub Lacks : Str → ℕ → List Condition → Type 0
Lacks k i [] = Unit
Lacks k i (c ∷ cs) = (str_eq (condition_key c i) k ≡ false) × Lacks k (suc i) cs

abbrev pub HaveOwnKeys : ℕ → List Condition → Type 0
HaveOwnKeys i [] = Unit
HaveOwnKeys i (c ∷ cs) = Lacks (condition_key c i) (suc i) cs × HaveOwnKeys (suc i) cs

abbrev pub Agree : ℕ → List Condition → List ℕ → Dict ℕ → Type 0
Agree i [] [] counts = Unit
Agree i [] (s ∷ ss) counts = ⊥
Agree i (c ∷ cs) [] counts = ⊥
Agree i (c ∷ cs) (s ∷ ss) counts =
    (count_of (condition_key c i) counts ≡ s) × Agree (suc i) cs ss counts

or_zero-if :
    (b : Bool) (n : ℕ) (o : Option ℕ)
    → or_zero (if b then some n else o) ≡ (if b then n else or_zero o)
or_zero-if true n o = refl
or_zero-if false n o = refl

count_of-insert :
    (k j : Str) (n : ℕ) (m : Dict ℕ)
    → count_of j (insert k n m) ≡ (if str_eq k j then n else count_of j m)
count_of-insert k j n m =
    ap or_zero (lookup-insert k j n m) ∙ or_zero-if (str_eq k j) n (lookup j m)

count_of-insert_self : (k : Str) (n : ℕ) (m : Dict ℕ) → count_of k (insert k n m) ≡ n
count_of-insert_self k n m = ground (arith, count_of-insert k k n m)

str_eq-sym : (a b : Str) → str_eq a b ≡ false → str_eq b a ≡ false
str_eq-sym a b h = ground arith

Agree-insert :
    (k : Str) (n i : ℕ) (cs : List Condition) (ss : List ℕ) (counts : Dict ℕ)
    → Lacks k i cs
    → Agree i cs ss counts
    → Agree i cs ss (insert k n counts)
Agree-insert k n i [] [] counts l a = tt
Agree-insert k n i [] (s ∷ ss) counts l a = a
Agree-insert k n i (c ∷ cs) [] counts l a = a
Agree-insert k n i (c ∷ cs) (s ∷ ss) counts l a = (
  count_of-insert k (condition_key c i) n counts ∙ rw (str_eq-sym (condition_key c i) k l.0) a.0,
  Agree-insert k n (suc i) cs ss counts l.1 a.1,
)

-- A condition sees the same in the buffer as in the log, or nothing in either.
abbrev pub Alike : ℕ → List TimedOperation → List TimedOperation → Condition → Type 0
Alike now buffer log c =
    (c.window_ms ≡ 0) ⊎ (within now c.window_ms buffer ≡ within now c.window_ms log)

no_window : (c : Condition) → c.window_ms ≡ 0 → (os : List Operation) → is_breached c os ≡ false
unfolding is_breached
no_window c e os = ground arith

module _ (now : ℕ) (buffer log : List TimedOperation) (c : Condition) where
  is_breached-Alike :
      Alike now buffer log c
      → is_breached c (within now c.window_ms buffer) ≡ is_breached c (within now c.window_ms log)
  is_breached-Alike (inl z) =
      no_window c z (within now c.window_ms buffer)
      ∙ sym (no_window c z (within now c.window_ms log))
  is_breached-Alike (inr same) = ap (is_breached c) same

  within-Alike :
      Alike now buffer log c
      → is_breached c (within now c.window_ms log) ≡ true
      → within now c.window_ms buffer ≡ within now c.window_ms log
  within-Alike (inl z) b = cc (no_window c z (within now c.window_ms log))
  within-Alike (inr same) b = same

-- The keys of other conditions keep their counts.
check_from-Lacks :
    (now : ℕ) (buffer : List TimedOperation) (k : Str) (i : ℕ) (cs : List Condition)
    (counts : Dict ℕ)
    → Lacks k i cs
    → count_of k (check_from now buffer i cs counts).1 ≡ count_of k counts
unfolding check_from
check_from-Lacks now buffer k i [] counts l = refl
check_from-Lacks now buffer k i (c ∷ cs) counts l =
    let os = within now c.window_ms buffer in
    let key = condition_key c i in
    let count = if is_breached c os then count_of key counts + 1 else 0 in
    let counts' = insert key count counts in
    let kept = count_of-insert key k count counts ∙ rw (l.0) refl in
    if_cases (λ (r : Option Trigger × Dict ℕ). count_of k r.1 ≡ count_of k counts)
      (is_breached c os && leb (sustain_of c) count) (some (trigger_of now c os), counts')
      (check_from now buffer (suc i) cs counts') (λ fires. kept)
      (λ goes_on. check_from-Lacks now buffer k (suc i) cs counts' l.1 ∙ kept)

-- The loop fires as the streaks do, and else counts as they do.
abbrev pub Checked :
    ℕ → List TimedOperation → ℕ → List Condition → List ℕ → Option Trigger × Dict ℕ → Type 0
Checked now log i cs ss r =
    (r.0 ≡ first_due now log cs ss) × (r.0 ≡ none → Agree i cs (next_streaks now log cs ss) r.1)

pub check_from-Checked :
    (now : ℕ) (buffer log : List TimedOperation) (i : ℕ) (cs : List Condition) (ss : List ℕ)
    (counts : Dict ℕ)
    → All (Alike now buffer log) cs
    → HaveOwnKeys i cs
    → Agree i cs ss counts
    → Checked now log i cs ss (check_from now buffer i cs counts)
unfolding check_from first_due next_streaks
check_from-Checked now buffer log i [] [] counts al own a = (refl, λ e. tt)
check_from-Checked now buffer log i [] (s ∷ ss) counts al own a = absurd a
check_from-Checked now buffer log i (c ∷ cs) [] counts al own a = absurd a
check_from-Checked now buffer log i (c ∷ cs) (s ∷ ss) counts al own a =
    let key = condition_key c i in
    let saw = is_breached-Alike now buffer log c al.0 in
    let after = λ (n : ℕ).
      check_from-Checked now buffer log (suc i) cs ss (insert key n counts) al.1 own.1
        (Agree-insert key n (suc i) cs ss counts own.0 a.1) in
    let head = λ (n : ℕ).
      check_from-Lacks now buffer key (suc i) cs (insert key n counts) own.0
      ∙ count_of-insert_self key n counts in
    elim (Bool-cases (is_breached c (within now c.window_ms log))) [
      | inr calm ↦ rw (saw ∙ calm, calm) ((after 0).0, λ e. (head 0, (after 0).1 e))
      | inl breach ↦ elim (Bool-cases (leb (sustain_of c) (s + 1))) [
        | inl due ↦
            rw (saw ∙ breach, breach, a.0, due)
              (
                ap (λ os. some (trigger_of now c os)) (within-Alike now buffer log c al.0 breach),
                λ e. cc,
              )
        | inr early ↦
            rw (saw ∙ breach, breach, a.0, early)
              ((after (s + 1)).0, λ e. (head (s + 1), (after (s + 1)).1 e))
      ]
    ]
