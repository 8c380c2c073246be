-- ===== src/Scheduler/Allocator/Methods.antt =====
-- `ReallocateAssignments` and `AllocateAssignments`, on every branch.
use mcpdrill.Prelude.{
  ◌≤◌, ◌<◌, ◌≡◌, ◌≢◌, refl, List, [], ◌∷◌, false, none, some, arith, Str, Dict, lookup, All, total,
  Bool-cases, inl, inr, values, IsKeyed, subst, sym,
}
use mcpdrill.Prelude.Int.{ℤ, is_nonpos, pos_part}
use mcpdrill.Scheduler.Types.{WorkerInfo}
use mcpdrill.Scheduler.Registry.{Registry, list_workers}
use mcpdrill.Scheduler.Registry.Membership.{Inv, IsNamed}
use mcpdrill.Scheduler.Allocator.{
  WorkerRoom, room, allocate_some, Outcome, ok, err, no_workers_available, insufficient_capacity,
  invalid_target_vus, worker_not_in_registry, registry_error, Allocation, available, excluded,
  reallocate_assignments,
}
use mcpdrill.Scheduler.Allocator.Sort.{IsDistinct}
use mcpdrill.Scheduler.Allocator.Sharing.{Shares, Allocated, allocate-Allocated}

-- The answer to a target, for the workers that may be used.
abbrev pub Answers :
    (WorkerRoom → Type 0) → Str → Str → ℤ → List WorkerRoom → Outcome Allocation → Type 0
Answers P run_id stage_id target ws (ok r) =
    (0 < pos_part target)
    × (ws ≢ [])
    × (pos_part target ≤ total room ws)
    × Shares P run_id stage_id (pos_part target) r
Answers P run_id stage_id target ws (err invalid_target_vus) = pos_part target ≡ 0
Answers P run_id stage_id target ws (err no_workers_available) = (0 < pos_part target) × (ws ≡ [])
Answers P run_id stage_id target ws (err insufficient_capacity) =
    (ws ≢ []) × (total room ws < pos_part target)
Answers P run_id stage_id target ws (err _) = ⊥

Answers-of_Allocated :
    (P : WorkerRoom → Type 0) (run_id stage_id : Str) (target : ℤ) (ws : List WorkerRoom)
    (o : Outcome Allocation)
    → is_nonpos target ≡ false
    → ws ≢ []
    → Allocated P run_id stage_id (pos_part target) ws o
    → Answers P run_id stage_id target ws o
Answers-of_Allocated P run_id stage_id target ws (ok r) p w a = (ground arith, w, a.0, a.1)
Answers-of_Allocated P run_id stage_id target ws (err insufficient_capacity) p w a = (w, a.0.1)
Answers-of_Allocated P run_id stage_id target ws (err invalid_target_vus) p w a = cc a.0.0
Answers-of_Allocated P run_id stage_id target ws (err no_workers_available) p w a = cc a.0.0
Answers-of_Allocated P run_id stage_id target ws (err worker_not_in_registry) p w a = cc a.0.0
Answers-of_Allocated P run_id stage_id target ws (err (registry_error e)) p w a = cc a.0.0

-- A registered worker that is not to be left out, with what it can take at present.
abbrev pub IsEligible : Dict WorkerInfo → List Str → WorkerRoom → Type 0
IsEligible m exclude w =
    (info : WorkerInfo) × (lookup w.worker_id m ≡ some info)
    × (w.max_vus ≡ info.effective_capacity.max_vus)
    × (excluded w.worker_id exclude ≡ false)

IsEligible-cons :
    (k : Str) (x : WorkerInfo) (m : Dict WorkerInfo) (exclude : List Str) (ws : List WorkerRoom)
    → lookup k m ≡ none
    → All (IsEligible m exclude) ws
    → All (IsEligible ((k, x) ∷ m) exclude) ws
IsEligible-cons k x m exclude [] h a = tt
IsEligible-cons k x m exclude (w ∷ ws) h ((info, found, r, e), rest) =
    ((info, ground arith, r, e), IsEligible-cons k x m exclude ws h rest)

not_among :
    (k : Str) (m : Dict WorkerInfo) (exclude : List Str) (ws : List WorkerRoom)
    → lookup k m ≡ none
    → All (IsEligible m exclude) ws
    → All (λ w. w.worker_id ≢ k) ws
not_among k m exclude [] h a = tt
not_among k m exclude (w ∷ ws) h ((info, found, r, e), rest) =
    ((λ q. ground arith), not_among k m exclude ws h rest)

available_lem :
    (m : Dict WorkerInfo) (exclude : List Str)
    → IsNamed m
    → IsKeyed m
    → All (IsEligible m exclude) (available exclude (values m))
      × IsDistinct (available exclude (values m))
unfolding available
available_lem [] exclude n k = (tt, tt)
available_lem ((j, w) ∷ m) exclude n k =
    let (eligible, distinct) = available_lem m exclude n.1 k.1 in
    let ws = available exclude (values m) in
    let lifted = IsEligible-cons j w m exclude ws k.0 eligible in
    elim (Bool-cases (excluded w.worker_id exclude)) [
      | inl out ↦ rw (out, available) (lifted, distinct)
      | inr kept ↦
          rw (kept, available)
            (
              ((w, ground arith, refl, kept), lifted),
              (
                subst (λ t. All (λ x. x.worker_id ≢ t) ws) (sym n.0)
                    (not_among j m exclude ws k.0 eligible),
                distinct,
              ),
            )
    ]

allocate_some-Answers :
    (P : WorkerRoom → Type 0) (run_id stage_id : Str) (target : ℤ) (ws : List WorkerRoom)
    → is_nonpos target ≡ false
    → All P ws
    → IsDistinct ws
    → Answers P run_id stage_id target ws (allocate_some run_id stage_id (pos_part target) ws)
unfolding allocate_some
allocate_some-Answers P run_id stage_id target [] p a d = (ground arith, refl)
allocate_some-Answers P run_id stage_id target (w ∷ ws) p a d =
    Answers-of_Allocated P run_id stage_id target (w ∷ ws) _ p (λ e. cc)
      (allocate-Allocated P run_id stage_id (pos_part target) (w ∷ ws) a d)

-- `ReallocateAssignments`, in a registry that satisfies the invariant: a target that is not positive
-- is refused; so is any target if every worker is left out, and a target above what the others can
-- take together. Otherwise the virtual users 0, …, target - 1 are shared out, each to one range,
-- among workers that are registered and not left out, none beyond its effective capacity and none
-- with an empty range, and the map gives each of these workers its range.
pub reallocate_assignments-Answers :
    (r : Registry) (run_id stage_id : Str) (target : ℤ) (exclude : List Str)
    → Inv r
    → Answers
        (IsEligible r.workers exclude)
        run_id
        stage_id
        target
        (available exclude (list_workers r))
        (reallocate_assignments r run_id stage_id target exclude)
unfolding reallocate_assignments list_workers
reallocate_assignments-Answers r run_id stage_id target exclude v =
    elim (Bool-cases (is_nonpos target)) [
      | inl nonpos ↦ rw (nonpos, reallocate_assignments) (ground arith)
      | inr positive ↦
          let (eligible, distinct) = available_lem r.workers exclude v.named v.keyed in
          rw (positive, reallocate_assignments)
            (allocate_some-Answers (IsEligible r.workers exclude) run_id stage_id target
              (available exclude (values r.workers)) positive eligible distinct)
    ]
