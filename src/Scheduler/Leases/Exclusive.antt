-- ===== src/Scheduler/Leases/Exclusive.antt =====
-- No virtual user of a stage is leased twice.
use mcpdrill.Prelude.{
  ℕ, ◌+◌, ◌≡◌, ◌≢◌, List, [], ◌∷◌, Bool, true, false, ◌&&◌, some, arith, Str, str_eq, Dict, lookup,
  erase, update_all, update_at, values, All, All-erase, All-lookup,
}
use mcpdrill.Prelude.Int.{ℤ}
use mcpdrill.Scheduler.Types.{active, Lease, VuidRange, overlaps, Covers}
use mcpdrill.Scheduler.Leases.{
  LeaseManager, Call, step, run, new_lease_manager, generate_lease_id, is_active, blocks,
  any_blocks,
}
use mcpdrill.Scheduler.Leases.Evolves.{IsTame, IsTame-of_Evolves}
use mcpdrill.Scheduler.Leases.Effects.{Effect, same, adds, edits, edits_all, clears, step-Effect}

-- Two active leases for one stage of one run, with a virtual user in common.
abbrev pub conflict : Lease → Lease → Bool
conflict l m =
    (is_active l.state && is_active m.state)
    && (str_eq l.assignment.run_id m.assignment.run_id
        && (str_eq l.assignment.stage_id m.assignment.stage_id
            && overlaps l.assignment.vu_id_range m.assignment.vu_id_range))

abbrev pub Apart : Lease → List Lease → Type 0
Apart l = All λ m. conflict l m ≡ false

abbrev pub IsExclusive : List Lease → Type 0
IsExclusive [] = Unit {0}
IsExclusive (l ∷ ls) = Apart l ls × IsExclusive ls

overlaps_comm : (r s : VuidRange) → overlaps r s ≡ overlaps s r
unfolding overlaps
overlaps_comm r s = ground arith

-- The guard of `IssueLease`.
any_blocks-Apart : (l : Lease) (ls : List Lease) → any_blocks l.assignment ls ≡ false → Apart l ls
unfolding any_blocks blocks
any_blocks-Apart l [] h = tt
any_blocks-Apart l (m ∷ ls) h =
    ground (
      arith,
      any_blocks-Apart l ls,
      overlaps_comm l.assignment.vu_id_range m.assignment.vu_id_range,
    )

IsExclusive-erase :
    (k : Str) (m : Dict Lease) → IsExclusive (values m) → IsExclusive (values (erase k m))
IsExclusive-erase k [] h = tt
IsExclusive-erase k ((j, l) ∷ m) h =
    ground (arith, IsExclusive-erase k m h.1, All-erase (λ x. conflict l x ≡ false) k m h.0)

-- A conflict after tame changes of both leases was one before.
conflict-tame :
    (l m l' m' : Lease)
    → l'.assignment ≡ l.assignment
    → m'.assignment ≡ m.assignment
    → (is_active l'.state ≡ true → is_active l.state ≡ true)
    → (is_active m'.state ≡ true → is_active m.state ≡ true)
    → conflict l m ≡ false
    → conflict l' m' ≡ false
conflict-tame l m l' m' p q r s h = ground arith

-- Lists of leases, changed place by place in a tame way.
abbrev Tamed : List Lease → List Lease → Type 0
Tamed [] [] = Unit {0}
Tamed (l ∷ ls) (m ∷ ms) =
    ((m.assignment ≡ l.assignment) × (is_active m.state ≡ true → is_active l.state ≡ true))
    × Tamed ls ms
Tamed _ _ = ⊥

Apart-Tamed :
    (l l' : Lease) (ls ms : List Lease)
    → l'.assignment ≡ l.assignment
    → (is_active l'.state ≡ true → is_active l.state ≡ true)
    → Tamed ls ms
    → Apart l ls
    → Apart l' ms
Apart-Tamed l l' [] [] p a t h = tt
Apart-Tamed l l' [] (m ∷ ms) p a t h = elim t [ ]
Apart-Tamed l l' (k ∷ ls) [] p a t h = elim t [ ]
Apart-Tamed l l' (k ∷ ls) (m ∷ ms) p a t h =
    (conflict-tame l k l' m p t.0.0 a t.0.1 h.0, Apart-Tamed l l' ls ms p a t.1 h.1)

IsExclusive-Tamed : (ls ms : List Lease) → Tamed ls ms → IsExclusive ls → IsExclusive ms
IsExclusive-Tamed [] [] t h = tt
IsExclusive-Tamed [] (m ∷ ms) t h = elim t [ ]
IsExclusive-Tamed (l ∷ ls) [] t h = elim t [ ]
IsExclusive-Tamed (l ∷ ls) (m ∷ ms) t h =
    (Apart-Tamed l m ls ms t.0.0 t.0.1 t.1 h.0, IsExclusive-Tamed ls ms t.1 h.1)

Tamed-update_all :
    (f : Lease → Lease) (m : Dict Lease) → IsTame f → Tamed (values m) (values (update_all f m))
Tamed-update_all f [] t = tt
Tamed-update_all f ((k, l) ∷ m) t = (t l, Tamed-update_all f m t)

Tamed-update_at :
    (k : Str) (f : Lease → Lease) (m : Dict Lease)
    → IsTame f
    → Tamed (values m) (values (update_at k f m))
Tamed-update_at k f [] t = tt
Tamed-update_at k f ((j, l) ∷ m) t = (ground (arith, t l), Tamed-update_at k f m t)

abbrev pub IsExclusiveManager : LeaseManager → Type 0
IsExclusiveManager lm = IsExclusive (values lm.leases)

Effect-IsExclusive :
    {lm after : LeaseManager} {c : Call}
    → Effect lm c after
    → IsExclusiveManager lm
    → IsExclusiveManager after
Effect-IsExclusive (same e) h = rw e h
Effect-IsExclusive {lm} (adds w a now ts l called p free e) h =
    let id = generate_lease_id ts (lm.counter + 1) in
    rw e (
      All-erase (λ x. conflict l x ≡ false) id lm.leases
          (any_blocks-Apart l (values lm.leases) (rw p free)),
      IsExclusive-erase id lm.leases h,
    )
Effect-IsExclusive {lm} (edits id f tame _ e) h =
    rw e (IsExclusive-Tamed _ _ (Tamed-update_at id f lm.leases tame) h)
Effect-IsExclusive {lm} (edits_all f allowed e) h =
    rw e (IsExclusive-Tamed _ _ (Tamed-update_all f lm.leases (IsTame-of_Evolves f allowed)) h)
Effect-IsExclusive (clears _ e) h = rw e tt

-- Every call of the manager, with any clock, keeps the active leases of a stage apart.
pub step-IsExclusive :
    (lm : LeaseManager) (c : Call) → IsExclusiveManager lm → IsExclusiveManager (step lm c)
step-IsExclusive lm c = Effect-IsExclusive (step-Effect lm c)

pub run-IsExclusive :
    (lm : LeaseManager) (cs : List Call) → IsExclusiveManager lm → IsExclusiveManager (run lm cs)
unfolding run
run-IsExclusive lm [] h = h
run-IsExclusive lm (c ∷ cs) h = run-IsExclusive (step lm c) cs (step-IsExclusive lm c h)

-- Two entries of an exclusive map are in no conflict.
lookup-apart :
    (k j : Str) (m : Dict Lease) {l n : Lease}
    → k ≢ j
    → IsExclusive (values m)
    → lookup k m ≡ some l
    → lookup j m ≡ some n
    → (conflict l n && conflict n l) ≡ false
lookup-apart k j [] d h p q = cc
lookup-apart k j ((i, x) ∷ m) {l} {n} d h p q = ground (
  arith,
  lookup-apart k j m {l = l} {n = n} d h.1,
  All-lookup (λ y. conflict x y ≡ false) k m {v = l} h.0,
  All-lookup (λ y. conflict x y ≡ false) j m {v = n} h.0,
)

covered_twice : (r s : VuidRange) (vu : ℕ) → Covers r vu → Covers s vu → overlaps r s ≡ true
unfolding overlaps
covered_twice r s vu p q = ground arith

-- After any history of calls on a new manager, two leases under different ids that are both active,
-- for the same stage of the same run, have no virtual user in common.
pub run-exclusive_vus :
    (ttl_ms : ℤ) (cs : List Call) (k j : Str) (l n : Lease) (vu : ℕ)
    → k ≢ j
    → lookup k (run (new_lease_manager ttl_ms) cs).leases ≡ some l
    → lookup j (run (new_lease_manager ttl_ms) cs).leases ≡ some n
    → l.state ≡ active
    → n.state ≡ active
    → l.assignment.run_id ≡ n.assignment.run_id
    → l.assignment.stage_id ≡ n.assignment.stage_id
    → Covers l.assignment.vu_id_range vu
    → ¬ Covers n.assignment.vu_id_range vu
unfolding new_lease_manager
run-exclusive_vus ttl_ms cs k j l n vu d p q a b r s c c' =
    let lm = run (new_lease_manager ttl_ms) cs in
    ground (
      arith,
      lookup-apart k j lm.leases {l = l} {n = n} d
          (run-IsExclusive (new_lease_manager ttl_ms) cs tt) p q,
      covered_twice l.assignment.vu_id_range n.assignment.vu_id_range vu c c',
      covered_twice n.assignment.vu_id_range l.assignment.vu_id_range vu c' c,
    )
