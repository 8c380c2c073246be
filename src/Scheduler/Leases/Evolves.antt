-- ===== src/Scheduler/Leases/Evolves.antt =====
-- The life of a lease: what the methods may make of one that the manager holds.
use mcpdrill.Prelude.{ℕ, ◌≡◌, Bool, true, arith}
use mcpdrill.Scheduler.Types.{LeaseState, active, revoked, expired, Lease}
use mcpdrill.Scheduler.Leases.{is_active, is_stale, revoke, extend, expire, where_active}

-- The edges of the life of a lease, and staying put.
abbrev pub Moves : LeaseState → LeaseState → Type 0
Moves active s = Unit {0}
Moves expired active = ⊥
Moves expired s = Unit {0}
Moves revoked revoked = Unit {0}
Moves revoked s = ⊥

-- `m` is a later state of the lease `l`; a revoked lease does not change at all.
pub record Evolves (l m : Lease) : Type 0 where
  pub same_id : m.lease_id ≡ l.lease_id
  pub same_worker : m.worker_id ≡ l.worker_id
  pub same_assignment : m.assignment ≡ l.assignment
  pub same_issue : m.issued_at ≡ l.issued_at
  pub moves : Moves l.state m.state
  pub frozen : l.state ≡ revoked → m ≡ l

pub Evolves-refl : (l : Lease) → Evolves l l
Evolves-refl l = ground arith

pub Evolves-trans : (l m n : Lease) → Evolves l m → Evolves m n → Evolves l n
Evolves-trans l m n p q = ground arith

-- The weaker fact that also holds of an update which is not allowed: it brings nothing to life.
abbrev pub IsTame : (Lease → Lease) → Type 0
IsTame f =
    (l : Lease)
    → ((f l).assignment ≡ l.assignment) × (is_active (f l).state ≡ true → is_active l.state ≡ true)

-- Each loop body, on any lease.
pub revokes_active-Evolves :
    (test : Lease → Bool) (now : ℕ) (l : Lease) → Evolves l (where_active test (revoke now) l)
unfolding where_active revoke
revokes_active-Evolves test now l = ground arith

pub extends_active-Evolves :
    (test : Lease → Bool) (e : ℕ) (l : Lease) → Evolves l (where_active test (extend e) l)
unfolding where_active extend
extends_active-Evolves test e l = ground arith

pub expire-Evolves : (now : ℕ) (l : Lease) → Evolves l (expire now l)
unfolding expire is_stale
expire-Evolves now l = ground arith

pub IsTame-of_Evolves : (f : Lease → Lease) → ((l : Lease) → Evolves l (f l)) → IsTame f
IsTame-of_Evolves f h l = ground (arith, h l)
