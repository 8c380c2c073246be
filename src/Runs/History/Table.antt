-- ===== src/Runs/History/Table.antt =====
-- The states that a run goes through are those of the table.
use mcpdrill.Prelude.{
  ℕ, [], ◌∷◌, true, some, Str, lookup, lookup-update_at, inl, inr, ◌≡◌, refl, sym, ap, Dict, subst,
  ◌∙◌, arith, Bool-cases, str_eq, Str-discrete, update_at,
}
use mcpdrill.Runs.States.{
  RunState, preflight_running, baseline_running, stopping, completed, can_transition, same_state,
  same_state_sound,
}
use mcpdrill.Runs.Manager.{RunRecord, enter}

-- What one hold of the lock does to the state of a run.
pub data Moves (s : RunState) (t : RunState) : Type 0 where
  stays : t ≡ s → Moves s t
  moves : can_transition s t ≡ true → Moves s t
  -- `TransitionToBaseline` enters two states.
  passes : s ≡ preflight_running → t ≡ baseline_running → Moves s t
  -- `transitionToCompleted`, when there is nothing to analyze, is not in the table.
  skips : s ≡ stopping → t ≡ completed → Moves s t

-- Every run of the first table is in the second, where its state may have moved.
abbrev pub Holds : Dict RunRecord → Dict RunRecord → Type 0
Holds m m' =
    (j : Str) (r : RunRecord)
    → lookup j m ≡ some r
    → (r' : RunRecord) × (lookup j m' ≡ some r') × Moves r.state r'.state

pub same-Holds : {m m' : Dict RunRecord} → m' ≡ m → Holds m m'
same-Holds e j r found = (r, ap (lookup j) e ∙ found, stays refl)

-- The edit of the run that was found.
pub edit-Holds :
    (m : Dict RunRecord) {m' : Dict RunRecord} (id : Str) (f : RunRecord → RunRecord)
    {r : RunRecord}
    → lookup id m ≡ some r
    → m' ≡ update_at id f m
    → Moves r.state (f r).state
    → Holds m m'
edit-Holds m {m'} id f {r} found e moved j r' found' =
    let edited = ap (lookup j) e ∙ lookup-update_at id j f m {v = r'} found' in
    elim (Str-discrete j id) [
      | yes same ↦
          let one : r ≡ r' = ground arith in
          (f r', ground (arith, edited), subst (λ x. Moves x.state (f x).state) one moved)
      | no other ↦ (r', ground (arith, edited), stays refl)
    ]

-- Two edits of a run are one.
pub update_twice :
    (id : Str) (f g : RunRecord → RunRecord) (m : Dict RunRecord)
    → update_at id g (update_at id f m) ≡ update_at id (λ r. g (f r)) m
update_twice id f g [] = refl
update_twice id f g ((j, r) ∷ m) = elim (Bool-cases (str_eq j id)) [
  | inl same ↦ rw (update_twice id f g m, same) refl
  | inr other ↦ rw (update_twice id f g m, other) refl
]

-- A run that enters a state, from a state that the table allows it to leave for that one.
pub enter-Holds :
    (m : Dict RunRecord) {m' : Dict RunRecord} (id : Str) (from to : RunState) (now : ℕ)
    {r : RunRecord}
    → lookup id m ≡ some r
    → same_state r.state from ≡ true
    → m' ≡ update_at id (enter to now) m
    → can_transition from to ≡ true
    → Holds m m'
unfolding enter
enter-Holds m id from to now {r} found here e allowed = edit-Holds m id (enter to now) found e (
    moves
      (subst (λ s. can_transition s to ≡ true) (sym (same_state_sound r.state from here)) allowed))
