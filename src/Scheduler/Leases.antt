-- ===== src/Scheduler/Leases.antt =====
-- internal/controlplane/scheduler/lease_manager.go. Each method holds the lock while it runs, so it
-- is one function from the manager to the manager; the clock's readings are arguments.
pub mod Exclusive
pub mod Evolves
pub mod Effects
pub mod Lifecycle
pub mod Fresh
pub mod Expiry
use mcpdrill.Prelude.{
  ℕ, suc, ◌+◌, ◌++◌, List, [], ◌∷◌, Bool, true, false, ◌&&◌, ◌||◌, not, Option, none, some, ltb,
  if◌then◌else◌, Str, codes, str_eq, Dict, lookup, insert, values, update_all, update_at, length,
  keep, count_if,
}
use mcpdrill.Prelude.Hex.{to_hex}
use mcpdrill.Prelude.Int.{ℤ, is_nonpos, pos_part}
use mcpdrill.Scheduler.Types.{
  LeaseState, active, revoked, expired, Lease, Assignment, VuidRange, overlaps,
}

pub data LeaseError : Type 0 where
  lease_not_found lease_revoked lease_expired vuid_range_overlap lease_manager_closed : LeaseError

pub data Result {ℓ} (A : Type ℓ) : Type ℓ where
  ok : A → Result A
  err : LeaseError → Result A

pub record LeaseManager : Type 0 where
  pub leases : Dict Lease
  pub counter : ℕ
  pub ttl_ms : ℕ
  pub closed : Bool

abbrev pub default_lease_ttl_ms : ℕ
default_lease_ttl_ms = 60000

unfoldable pub new_lease_manager : ℤ → LeaseManager
new_lease_manager ttl_ms = record {
  leases = [];
  counter = 0;
  ttl_ms = if is_nonpos ttl_ms then default_lease_ttl_ms else pos_part ttl_ms;
  closed = false;
}

unfoldable pub generate_lease_id : ℕ → ℕ → Str
generate_lease_id ts counter = codes "lse_" ++ (to_hex ts ++ to_hex counter)

abbrev pub is_active : LeaseState → Bool
is_active active = true
is_active _ = false

abbrev pub is_revoked : LeaseState → Bool
is_revoked revoked = true
is_revoked _ = false

-- The loop body of `IssueLease`: does this lease stand in the way of the assignment?
unfoldable pub blocks : Assignment → Lease → Bool
unfolding overlaps
blocks a l =
    is_active l.state
    && (str_eq l.assignment.run_id a.run_id
        && (str_eq l.assignment.stage_id a.stage_id
            && overlaps l.assignment.vu_id_range a.vu_id_range))

unfoldable pub any_blocks : Assignment → List Lease → Bool
any_blocks a [] = false
any_blocks a (l ∷ ls) = blocks a l || any_blocks a ls

-- `now` is the time of issue, and `ts` the one that goes into the id.
unfoldable pub issue_lease : LeaseManager → Str → Assignment → ℕ → ℕ → LeaseManager × Result Str
issue_lease lm worker_id assignment now ts =
    if lm.closed
    then (lm, err lease_manager_closed)
    else if any_blocks assignment (values lm.leases)
    then (lm, err vuid_range_overlap)
    else (record lm { leases = insert id lease lm.leases; counter = lm.counter + 1 }, ok id)
  where
    id : Str
    id = generate_lease_id ts (lm.counter + 1)

    lease : Lease
    lease = record {
      lease_id = id;
      worker_id = worker_id;
      assignment = assignment;
      state = active;
      issued_at = now;
      expires_at = now + lm.ttl_ms;
      revoked_at = none;
    }

unfoldable pub extend : ℕ → Lease → Lease
extend expires_at l = record l { expires_at = expires_at }

unfoldable pub revoke : ℕ → Lease → Lease
revoke now l = record l { state = revoked; revoked_at = some now }

renew_found : LeaseManager → Str → ℕ → LeaseState → LeaseManager × Result (Unit {0})
unfolding extend
renew_found lm id now revoked = (lm, err lease_revoked)
renew_found lm id now expired = (lm, err lease_expired)
renew_found lm id now active =
    (record lm { leases = update_at id (extend (now + lm.ttl_ms)) lm.leases }, ok tt)

unfoldable pub renew_lease : LeaseManager → Str → ℕ → LeaseManager × Result (Unit {0})
unfolding renew_found
renew_lease lm id now =
    if lm.closed then (lm, err lease_manager_closed) else elim (lookup id lm.leases) [
      | none ↦ (lm, err lease_not_found)
      | some l ↦ renew_found lm id now l.state
    ]

revoke_found : LeaseManager → Str → ℕ → LeaseState → LeaseManager × Result (Unit {0})
unfolding revoke
revoke_found lm id now state =
    if is_revoked state
    then (lm, ok tt)
    else (record lm { leases = update_at id (revoke now) lm.leases }, ok tt)

unfoldable pub revoke_lease : LeaseManager → Str → ℕ → LeaseManager × Result (Unit {0})
unfolding revoke_found
revoke_lease lm id now =
    if lm.closed then (lm, err lease_manager_closed) else elim (lookup id lm.leases) [
      | none ↦ (lm, err lease_not_found)
      | some l ↦ revoke_found lm id now l.state
    ]

-- The `range` loops: each touches the active leases that a test picks.
unfoldable pub where_active : (Lease → Bool) → (Lease → Lease) → Lease → Lease
where_active test f l = if test l && is_active l.state then f l else l

abbrev pub of_worker : Str → Lease → Bool
of_worker worker_id l = str_eq l.worker_id worker_id

abbrev pub of_run : Str → Lease → Bool
of_run run_id l = str_eq l.assignment.run_id run_id

abbrev pub of_stage : Str → Str → Lease → Bool
of_stage run_id stage_id l = of_run run_id l && str_eq l.assignment.stage_id stage_id

unfoldable pub bulk : LeaseManager → (Lease → Lease) → LeaseManager × Result (Unit {0})
bulk lm f =
    if lm.closed
    then (lm, err lease_manager_closed)
    else (record lm { leases = update_all f lm.leases }, ok tt)

unfoldable pub revoke_worker_leases : LeaseManager → Str → ℕ → LeaseManager × Result (Unit {0})
unfolding bulk where_active revoke
revoke_worker_leases lm worker_id now = bulk lm (where_active (of_worker worker_id) (revoke now))

unfoldable pub renew_worker_leases : LeaseManager → Str → ℕ → LeaseManager × Result (Unit {0})
unfolding bulk where_active extend
renew_worker_leases lm worker_id now =
    bulk lm (where_active (of_worker worker_id) (extend (now + lm.ttl_ms)))

unfoldable pub revoke_leases_by_run_and_stage :
    LeaseManager → Str → Str → ℕ → LeaseManager × Result (Unit {0})
unfolding bulk where_active revoke
revoke_leases_by_run_and_stage lm run_id stage_id now =
    bulk lm (where_active (of_stage run_id stage_id) (revoke now))

unfoldable pub revoke_leases_by_run : LeaseManager → Str → ℕ → LeaseManager × Result (Unit {0})
unfolding bulk where_active revoke
revoke_leases_by_run lm run_id now = bulk lm (where_active (of_run run_id) (revoke now))

unfoldable pub get_lease : LeaseManager → Str → Result Lease
get_lease lm id =
    if lm.closed
    then err lease_manager_closed
    else elim (lookup id lm.leases) [ none ↦ err lease_not_found | some l ↦ ok l ]

unfoldable pub list_leases : LeaseManager → Str → List Lease
list_leases lm run_id = keep (of_run run_id) (values lm.leases)

-- The set of run ids, as the list of its members.
unfoldable pub mem : Str → List Str → Bool
mem x [] = false
mem x (y ∷ ys) = str_eq y x || mem x ys

unfoldable pub add_to_set : Str → List Str → List Str
add_to_set x s = if mem x s then s else x ∷ s

unfoldable pub run_ids_of : Str → List Lease → List Str
unfolding add_to_set mem
run_ids_of worker_id [] = []
run_ids_of worker_id (l ∷ ls) =
    let rest = run_ids_of worker_id ls in
    if of_worker worker_id l && is_active l.state then add_to_set l.assignment.run_id rest else rest

unfoldable pub list_worker_run_ids : LeaseManager → Str → List Str
unfolding run_ids_of
list_worker_run_ids lm worker_id = run_ids_of worker_id (values lm.leases)

-- `ExpireLeases` looks at no `closed` flag.
unfoldable pub is_stale : ℕ → Lease → Bool
is_stale now l = is_active l.state && ltb l.expires_at now

unfoldable pub expire : ℕ → Lease → Lease
expire now l = if is_stale now l then record l { state = expired } else l

stale_ids : ℕ → List Lease → List Str
stale_ids now [] = []
stale_ids now (l ∷ ls) = if is_stale now l then l.lease_id ∷ stale_ids now ls else stale_ids now ls

unfoldable pub expire_leases : LeaseManager → ℕ → LeaseManager × List Str
unfolding expire stale_ids is_stale
expire_leases lm now =
    (record lm { leases = update_all (expire now) lm.leases }, stale_ids now (values lm.leases))

unfoldable pub lease_count : LeaseManager → ℕ
lease_count lm = length lm.leases

unfoldable pub active_lease_count : LeaseManager → ℕ
active_lease_count lm = count_if (λ l. is_active l.state) (values lm.leases)

unfoldable pub close : LeaseManager → LeaseManager
close lm = if lm.closed then lm else record lm { leases = []; closed = true }

-- A call of the manager, with the clock's readings.
pub data Call : Type 0 where
  issues : Str → Assignment → ℕ → ℕ → Call
  renews : Str → ℕ → Call
  revokes : Str → ℕ → Call
  revokes_worker : Str → ℕ → Call
  renews_worker : Str → ℕ → Call
  revokes_run : Str → ℕ → Call
  revokes_stage : Str → Str → ℕ → Call
  expires : ℕ → Call
  closes : Call

unfoldable pub step : LeaseManager → Call → LeaseManager
step lm (issues worker_id a now ts) = (issue_lease lm worker_id a now ts).0
step lm (renews id now) = (renew_lease lm id now).0
step lm (revokes id now) = (revoke_lease lm id now).0
step lm (revokes_worker worker_id now) = (revoke_worker_leases lm worker_id now).0
step lm (renews_worker worker_id now) = (renew_worker_leases lm worker_id now).0
step lm (revokes_run run_id now) = (revoke_leases_by_run lm run_id now).0
step lm (revokes_stage run_id stage_id now) =
    (revoke_leases_by_run_and_stage lm run_id stage_id now).0
step lm (expires now) = (expire_leases lm now).0
step lm closes = close lm

unfoldable pub run : LeaseManager → List Call → LeaseManager
run lm [] = lm
run lm (c ∷ cs) = run (step lm c) cs
