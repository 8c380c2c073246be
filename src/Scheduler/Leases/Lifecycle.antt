-- ===== src/Scheduler/Leases/Lifecycle.antt =====
-- The life of a lease goes from active to expired or revoked, and never back.
use mcpdrill.Prelude.{
  ◌+◌, ◌≡◌, ◌≢◌, subst, none, some, arith, Str, str_eq, lookup, lookup-erase, lookup-update_all,
  lookup-update_at, if◌then◌else◌,
}
use mcpdrill.Scheduler.Types.{Lease}
use mcpdrill.Scheduler.Leases.{LeaseManager, Call, issues, closes, step, generate_lease_id}
use mcpdrill.Scheduler.Leases.Evolves.{Evolves, Evolves-refl}
use mcpdrill.Scheduler.Leases.Effects.{Effect, same, adds, edits, edits_all, clears, step-Effect}

-- The id that a call hands out is not in use.
abbrev pub IsFresh : LeaseManager → Call → Type 0
IsFresh lm (issues worker_id a now ts) =
    lookup (generate_lease_id ts (lm.counter + 1)) lm.leases ≡ none
IsFresh lm _ = Unit {0}

-- A later state of the lease stands under the key.
abbrev pub Kept : LeaseManager → Str → Lease → Type 0
Kept lm k l = (m : Lease) × (lookup k lm.leases ≡ some m) × Evolves l m

Effect-Kept :
    {lm after : LeaseManager} {c : Call} (k : Str) (l : Lease)
    → Effect lm c after
    → IsFresh lm c
    → lookup k lm.leases ≡ some l
    → c ≢ closes
    → Kept after k l
Effect-Kept k l (same e) fresh held o = rw e (l, held, Evolves-refl l)
Effect-Kept {lm} k l (adds w a now ts x called _ _ e) fresh held o =
    let fresh' : IsFresh lm (issues w a now ts) = subst (IsFresh lm) called fresh in
    let id = generate_lease_id ts (lm.counter + 1) in
    rw e (l, ground (arith, lookup-erase id k lm.leases), Evolves-refl l)
Effect-Kept {lm} k l (edits id f tame allowed e) fresh held o = rw e (
  if str_eq k id then f l else l,
  lookup-update_at id k f lm.leases held,
  ground (arith, Evolves-refl l, allowed l),
)
Effect-Kept {lm} k l (edits_all f allowed e) fresh held o =
    rw e (f l, lookup-update_all k f lm.leases held, allowed l)
Effect-Kept k l (clears called e) fresh held o = absurd (o called)

pub step-Evolves :
    (lm : LeaseManager) (c : Call) (k : Str) (l : Lease)
    → IsFresh lm c
    → lookup k lm.leases ≡ some l
    → c ≢ closes
    → Kept (step lm c) k l
step-Evolves lm c k l fresh held o = Effect-Kept k l (step-Effect lm c) fresh held o
