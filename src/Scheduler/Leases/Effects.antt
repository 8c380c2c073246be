-- ===== src/Scheduler/Leases/Effects.antt =====
-- Every call of the manager has one of five effects on its map of leases.
use mcpdrill.Prelude.{
  ℕ, ◌+◌, ◌≡◌, refl, inl, inr, [], true, false, some, subst, arith, Bool-cases, Option-cases, Str,
  lookup, insert, values, update_all, update_at,
}
use mcpdrill.Scheduler.Types.{LeaseState, active, revoked, Lease, Assignment}
use mcpdrill.Scheduler.Leases.{
  LeaseManager, Call, issues, renews, revokes, revokes_worker, renews_worker, revokes_run,
  revokes_stage, expires, closes, step, issue_lease, generate_lease_id, any_blocks, renew_lease,
  renew_found, revoke_lease, revoke_found, revoke_worker_leases, renew_worker_leases, bulk,
  revoke_leases_by_run, revoke_leases_by_run_and_stage, expire_leases, close, extend, revoke,
  expire, of_worker, of_run, of_stage,
}
use mcpdrill.Scheduler.Leases.Evolves.{
  Evolves, IsTame, revokes_active-Evolves, extends_active-Evolves, expire-Evolves,
}

pub data Effect (lm : LeaseManager) (c : Call) (after : LeaseManager) : Type 0 where
  same : after ≡ lm → Effect lm c after
  adds :
      (worker_id : Str) (a : Assignment) (now ts : ℕ) (l : Lease)
      → c ≡ issues worker_id a now ts
      → l.assignment ≡ a
      → any_blocks a (values lm.leases) ≡ false
      → after ≡ record lm {
        leases = insert (generate_lease_id ts (lm.counter + 1)) l lm.leases;
        counter = lm.counter + 1;
      }
      → Effect lm c after
  edits :
      (id : Str) (f : Lease → Lease)
      → IsTame f
      → ((l : Lease) → lookup id lm.leases ≡ some l → Evolves l (f l))
      → after ≡ record lm { leases = update_at id f lm.leases }
      → Effect lm c after
  edits_all :
      (f : Lease → Lease)
      → ((l : Lease) → Evolves l (f l))
      → after ≡ record lm { leases = update_all f lm.leases }
      → Effect lm c after
  clears : c ≡ closes → after ≡ record lm { leases = []; closed = true } → Effect lm c after

module _ (lm : LeaseManager) (c : Call) where
  bulk-Effect : (f : Lease → Lease) → ((l : Lease) → Evolves l (f l)) → Effect lm c (bulk lm f).0
  unfolding bulk
  bulk-Effect f h = elim (Bool-cases lm.closed) [
    | inl shut ↦ same (ground arith)
    | inr live ↦ rw (live, bulk) (edits_all f h refl)
  ]

  issue-Effect :
      (worker_id : Str) (a : Assignment) (now ts : ℕ)
      → c ≡ issues worker_id a now ts
      → Effect lm c (issue_lease lm worker_id a now ts).0
  unfolding issue_lease
  issue-Effect worker_id a now ts e = elim (Bool-cases lm.closed) [
    | inl shut ↦ same (ground arith)
    | inr live ↦ elim (Bool-cases (any_blocks a (values lm.leases))) [
      | inl taken ↦ same (ground arith)
      | inr free ↦ rw (live, free, issue_lease) (adds worker_id a now ts _ e refl free refl)
    ]
  ]

  renew_found-Effect :
      (id : Str) (now : ℕ) (s : LeaseState)
      → ((l : Lease) → lookup id lm.leases ≡ some l → l.state ≡ s)
      → Effect lm c (renew_found lm id now s).0
  unfolding renew_found extend
  renew_found-Effect id now active h =
      edits id (extend (now + lm.ttl_ms)) (λ l. ground arith) (λ l e. ground (arith, h l e)) refl
  renew_found-Effect id now _ h = same refl

  renew-Effect : (id : Str) (now : ℕ) → Effect lm c (renew_lease lm id now).0
  unfolding renew_lease
  renew-Effect id now = elim (Bool-cases lm.closed) [
    | inl shut ↦ same (ground arith)
    | inr live ↦ elim (Option-cases (lookup id lm.leases)) [
      | inl missing ↦ same (ground arith)
      | inr (x, found) ↦
          let same_after : (renew_found lm id now x.state).0 ≡ (renew_lease lm id now).0 =
            ground arith in
          subst (Effect lm c) same_after (renew_found-Effect id now x.state (λ l e. ground arith))
    ]
  ]

  revoke_found-Effect :
      (id : Str) (now : ℕ) (s : LeaseState)
      → ((l : Lease) → lookup id lm.leases ≡ some l → l.state ≡ s)
      → Effect lm c (revoke_found lm id now s).0
  unfolding revoke_found revoke
  revoke_found-Effect id now revoked h = same refl
  revoke_found-Effect id now _ h =
      edits id (revoke now) (λ l. ground arith) (λ l e. ground (arith, h l e)) refl

  revoke-Effect : (id : Str) (now : ℕ) → Effect lm c (revoke_lease lm id now).0
  unfolding revoke_lease
  revoke-Effect id now = elim (Bool-cases lm.closed) [
    | inl shut ↦ same (ground arith)
    | inr live ↦ elim (Option-cases (lookup id lm.leases)) [
      | inl missing ↦ same (ground arith)
      | inr (x, found) ↦
          let same_after : (revoke_found lm id now x.state).0 ≡ (revoke_lease lm id now).0 =
            ground arith in
          subst (Effect lm c) same_after (revoke_found-Effect id now x.state (λ l e. ground arith))
    ]
  ]

close-Effect : (lm : LeaseManager) → Effect lm closes (close lm)
unfolding close
close-Effect lm = elim (Bool-cases lm.closed) [
  | inl shut ↦ same (ground arith)
  | inr live ↦ rw (live, close) (clears refl refl)
]

pub step-Effect : (lm : LeaseManager) (c : Call) → Effect lm c (step lm c)
unfolding step revoke_worker_leases renew_worker_leases revoke_leases_by_run
    revoke_leases_by_run_and_stage expire_leases
step-Effect lm (issues worker_id a now ts) = issue-Effect lm _ worker_id a now ts refl
step-Effect lm (renews id now) = renew-Effect lm _ id now
step-Effect lm (revokes id now) = revoke-Effect lm _ id now
step-Effect lm (revokes_worker w now) =
    bulk-Effect lm _ _ (revokes_active-Evolves (of_worker w) now)
step-Effect lm (renews_worker w now) =
    bulk-Effect lm _ _ (extends_active-Evolves (of_worker w) (now + lm.ttl_ms))
step-Effect lm (revokes_run r now) = bulk-Effect lm _ _ (revokes_active-Evolves (of_run r) now)
step-Effect lm (revokes_stage r s now) =
    bulk-Effect lm _ _ (revokes_active-Evolves (of_stage r s) now)
step-Effect lm (expires now) = edits_all (expire now) (expire-Evolves now) refl
step-Effect lm closes = close-Effect lm
