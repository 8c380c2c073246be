-- ===== src/Scheduler/Leases/Fresh.antt =====
-- The manager's ids do not repeat, so what one call does to a lease extends to histories.
use mcpdrill.Prelude.{ℕ, ◌+◌, ◌≡◌, refl, subst, arith, ◌≢◌, [], ◌∷◌, List, some, All, Str, lookup}
use mcpdrill.Scheduler.Ids.{
  IsEpoch, print-injective, IsMinted, IsMinted-erase, IsMinted-suc, IsMinted-update_all,
  IsMinted-update_at, lookup-next,
}
use mcpdrill.Scheduler.Leases.{LeaseManager, Call, issues, closes, step, run, generate_lease_id}
use mcpdrill.Scheduler.Leases.Lifecycle.{IsFresh, Kept, step-Evolves}
use mcpdrill.Scheduler.Leases.Evolves.{Evolves-refl, Evolves-trans}
use mcpdrill.Scheduler.Types.{Lease}
use mcpdrill.Scheduler.Leases.Effects.{Effect, same, adds, edits, edits_all, clears, step-Effect}

-- Equal ids come from equal counters.
pub generate_lease_id-injective :
    (t u m n : ℕ) → IsEpoch t → IsEpoch u → generate_lease_id t m ≡ generate_lease_id u n → m ≡ n
unfolding generate_lease_id
generate_lease_id-injective t u m n ht hu e = print-injective t u m n ht hu (cc)

abbrev pub IsMintedManager : LeaseManager → Type 0
IsMintedManager lm = IsMinted generate_lease_id lm.counter lm.leases

-- The clock of a call that makes an id is in the epoch.
abbrev pub IsTimely : Call → Type 0
IsTimely (issues worker_id a now ts) = IsEpoch ts
IsTimely _ = Unit {0}

pub IsFresh-of_IsMinted :
    (lm : LeaseManager) (c : Call) → IsTimely c → IsMintedManager lm → IsFresh lm c
IsFresh-of_IsMinted lm (issues worker_id a now ts) e m =
    lookup-next generate_lease_id generate_lease_id-injective lm.counter ts lm.leases e m
IsFresh-of_IsMinted lm _ e m = tt

module _ (lm : LeaseManager) where
  Effect-IsMinted :
      {c : Call} {after : LeaseManager}
      → Effect lm c after
      → IsTimely c
      → IsMintedManager lm
      → IsMintedManager after
  Effect-IsMinted (same e) t h = rw e h
  Effect-IsMinted (adds w a now ts x called _ _ e) t h =
      let t' : IsEpoch ts = subst IsTimely called t in
      let id = generate_lease_id ts (lm.counter + 1) in
      rw e (
        (ts, lm.counter + 1, t', omega arith, refl),
        IsMinted-erase generate_lease_id (lm.counter + 1) id lm.leases
            (IsMinted-suc generate_lease_id lm.counter lm.leases h),
      )
  Effect-IsMinted (edits id f _ _ e) t h =
      rw e (IsMinted-update_at generate_lease_id lm.counter id f lm.leases h)
  Effect-IsMinted (edits_all f _ e) t h =
      rw e (IsMinted-update_all generate_lease_id lm.counter f lm.leases h)
  Effect-IsMinted (clears _ e) t h = rw e tt

  pub step-IsMinted : (c : Call) → IsTimely c → IsMintedManager lm → IsMintedManager (step lm c)
  step-IsMinted c t h = Effect-IsMinted (step-Effect lm c) t h

pub run-IsMinted :
    (lm : LeaseManager) (cs : List Call)
    → IsMintedManager lm
    → All IsTimely cs
    → IsMintedManager (run lm cs)
unfolding run
run-IsMinted lm [] h t = h
run-IsMinted lm (c ∷ cs) h t = run-IsMinted (step lm c) cs (step-IsMinted lm c t.0 h) t.1

-- In any history without `Close` whose clock stays in the epoch, every lease that a manager with
-- ids of its own making holds stays under its id as the same grant, with a state that moves from
-- active to expired, from active to revoked or from expired to revoked, or stays; once revoked it
-- does not change at all.
pub run-Evolves :
    (lm : LeaseManager) (cs : List Call) (k : Str) (l : Lease)
    → IsMintedManager lm
    → All IsTimely cs
    → All (λ c. c ≢ closes) cs
    → lookup k lm.leases ≡ some l
    → Kept (run lm cs) k l
unfolding run
run-Evolves lm [] k l m t o held = (l, held, Evolves-refl l)
run-Evolves lm (c ∷ cs) k l m t o held =
    let (l', held', e) = step-Evolves lm c k l (IsFresh-of_IsMinted lm c t.0 m) held o.0 in
    let (l'', held'', e') =
      run-Evolves (step lm c) cs k l' (step-IsMinted lm c t.0 m) t.1 o.1 held' in
    (l'', held'', Evolves-trans l l' l'' e e')
