-- ===== src/Scheduler/Leases/Expiry.antt =====
-- Renewal, expiry and the bulk revocations.
use mathlib.Core.List.{Memᴰ}
use mcpdrill.Prelude.{
  ℕ, ◌+◌, ◌≤◌, ◌≡◌, ◌≢◌, refl, sym, ap, subst, ◌∙◌, List, [], ◌∷◌, true, false, some, arith, Str,
  Dict, lookup, update_all, update_at, values, length, count_if, lookup-update_at,
  lookup-update_all, max, none, insert, Bool-cases, inl, inr, false, ◌<◌, ◌⊎◌, ◌↔◌, if_cases,
  lookup-update_all-none, lookup-insert,
}
use mcpdrill.Scheduler.Types.{active, expired, Lease, Assignment, Covers, overlaps}
use mcpdrill.Scheduler.Leases.{
  LeaseManager, Result, ok, err, vuid_range_overlap, issue_lease, blocks, any_blocks,
  generate_lease_id, renew_lease, renew_found, extend, revoke, expire, is_stale, stale_ids,
  is_active, where_active, bulk, of_worker, run_ids_of, expire_leases, active_lease_count,
  revoke_worker_leases, list_worker_run_ids,
}

count_if-expire :
    (now : ℕ) (m : Dict Lease)
    → count_if (λ l. is_active l.state) (values m)
      ≡ count_if (λ l. is_active l.state) (values (update_all (expire now) m))
        + length (stale_ids now (values m))
unfolding expire is_stale stale_ids
count_if-expire now [] = omega arith
count_if-expire now ((k, l) ∷ m) = ground (arith, count_if-expire now m)

-- An active lease whose end is before `now`.
abbrev pub HasRunOut : ℕ → Lease → Type 0
HasRunOut now l = (l.state ≡ active) × (l.expires_at < now)

-- What an expiry makes of a lease.
abbrev pub ExpiresTo : ℕ → Lease → Lease → Type 0
ExpiresTo now l l' =
    (HasRunOut now l × (l' ≡ record l { state = expired })) ⊎ (¬ (HasRunOut now l) × (l' ≡ l))

is_stale-HasRunOut : (now : ℕ) (l : Lease) → is_stale now l ≡ true → HasRunOut now l
unfolding is_stale
is_stale-HasRunOut now l h = ground arith

HasRunOut-is_stale : (now : ℕ) (l : Lease) → HasRunOut now l → is_stale now l ≡ true
unfolding is_stale
HasRunOut-is_stale now l (a, b) = ground arith

expire-ExpiresTo : (now : ℕ) (l : Lease) → ExpiresTo now l (expire now l)
unfolding expire
expire-ExpiresTo now l =
    if_cases (ExpiresTo now l) (is_stale now l) (record l { state = expired }) l
      (λ stale. inl (is_stale-HasRunOut now l stale, refl))
      (λ fresh. inr ((λ h. cc (HasRunOut-is_stale now l h, fresh)), refl))

-- A lease among `ls` that has run out and has this id of its own.
abbrev pub IsStaleIn : ℕ → List Lease → Str → Type 0
IsStaleIn now ls id = (l : Lease) × Memᴰ l ls × HasRunOut now l × (l.lease_id ≡ id)

IsStaleIn-later :
    (now : ℕ) (x : Lease) (ls : List Lease) (id : Str)
    → IsStaleIn now ls id
    → IsStaleIn now (x ∷ ls) id
IsStaleIn-later now x ls id (l, m, out, e) = (l, Memᴰ.tail m, out, e)

stale_ids-IsStaleIn :
    (now : ℕ) (ls : List Lease) (id : Str) → Memᴰ id (stale_ids now ls) → IsStaleIn now ls id
unfolding stale_ids
stale_ids-IsStaleIn now [] id m = elim m [ ]
stale_ids-IsStaleIn now (l ∷ ls) id m =
    if_cases (λ ids. Memᴰ id ids → IsStaleIn now (l ∷ ls) id) (is_stale now l)
      (l.lease_id ∷ stale_ids now ls) (stale_ids now ls)
      (λ stale mem. elim mem [
        | Memᴰ.head e ↦ (l, Memᴰ.head refl, is_stale-HasRunOut now l stale, sym e)
        | Memᴰ.tail mem' ↦ IsStaleIn-later now l ls id (stale_ids-IsStaleIn now ls id mem')
      ])
      (λ fresh mem. IsStaleIn-later now l ls id (stale_ids-IsStaleIn now ls id mem)) m

IsStaleIn-stale_ids :
    (now : ℕ) (ls : List Lease) (id : Str) → IsStaleIn now ls id → Memᴰ id (stale_ids now ls)
unfolding stale_ids
IsStaleIn-stale_ids now [] id (l, m, out, e) = elim m [ ]
IsStaleIn-stale_ids now (x ∷ ls) id (l, m, out, e) =
    let rest = stale_ids now ls in
    if_cases (λ ids. Memᴰ id ids) (is_stale now x) (x.lease_id ∷ rest) rest
      (λ stale. elim m [
        | Memᴰ.head same ↦ Memᴰ.head (sym e ∙ ap (λ y. y.lease_id) same)
        | Memᴰ.tail m' ↦ Memᴰ.tail (IsStaleIn-stale_ids now ls id (l, m', out, e))
      ])
      (λ fresh. elim m [
        | Memᴰ.head same ↦ cc (HasRunOut-is_stale now x (subst (HasRunOut now) same out), fresh)
        | Memᴰ.tail m' ↦ IsStaleIn-stale_ids now ls id (l, m', out, e)
      ])

-- What an expiry does to the leases and which ids it returns.
pub record Expires (lm : LeaseManager) (now : ℕ) (r : LeaseManager × List Str) : Type 0 where
  pub leases :
      (k : Str) (l : Lease)
      → lookup k lm.leases ≡ some l
      → (l' : Lease) × (lookup k r.0.leases ≡ some l') × ExpiresTo now l l'
  pub missing : (k : Str) → lookup k lm.leases ≡ none → lookup k r.0.leases ≡ none
  pub ids : (id : Str) → Memᴰ id r.1 ↔ IsStaleIn now (values lm.leases) id
  pub counts : active_lease_count lm ≡ active_lease_count r.0 + length r.1

-- `ExpireLeases` makes of each active lease whose end is before the time of the call an expired one, and
-- leaves each other lease as it was; the ids that it returns are those of the leases that it ended and no
-- other, and they are as many as the leases that ceased to be active.
pub expire_leases_lem : (lm : LeaseManager) (now : ℕ) → Expires lm now (expire_leases lm now)
unfolding expire_leases active_lease_count
expire_leases_lem lm now = record {
  leases = λ k l held. (
    expire now l,
    lookup-update_all k (expire now) lm.leases {v = l} held,
    expire-ExpiresTo now l,
  );
  missing = λ k held. lookup-update_all-none k (expire now) lm.leases held;
  ids = λ id. (
    stale_ids-IsStaleIn now (values lm.leases) id,
    IsStaleIn-stale_ids now (values lm.leases) id,
  );
  counts = count_if-expire now lm.leases;
}

-- An active lease of an open manager that is renewed outlives every expiry up to `ttl_ms` later: it
-- stands there, active, with its new end.
pub expire_leases-renew :
    (lm : LeaseManager) (id : Str) (l : Lease) (at now : ℕ)
    → lm.closed ≡ false
    → lookup id lm.leases ≡ some l
    → l.state ≡ active
    → now ≤ at + lm.ttl_ms
    → ((renew_lease lm id at).1 ≡ ok tt)
      × (lookup id (expire_leases (renew_lease lm id at).0 now).0.leases
          ≡ some (record l { expires_at = at + lm.ttl_ms }))
unfolding renew_lease renew_found extend expire_leases expire is_stale
expire_leases-renew lm id l at now live held a h =
    let f : Lease → Lease = extend (at + lm.ttl_ms) in
    let renewed = lookup-update_at id id f lm.leases {v = l} held in
    ground (arith, renewed, lookup-update_all id (expire now) (update_at id f lm.leases) {v = f l})

revoke_all-none_left :
    (w : Str) (now : ℕ) (m : Dict Lease)
    → run_ids_of w (values (update_all (where_active (of_worker w) (revoke now)) m)) ≡ []
unfolding run_ids_of where_active revoke
revoke_all-none_left w now [] = refl
revoke_all-none_left w now ((k, l) ∷ m) = ground (arith, revoke_all-none_left w now m)

-- After `RevokeWorkerLeases` on an open manager the worker has an active lease in no run, and the
-- leases of every other worker are as they were.
pub revoke_worker_leases_lem :
    (lm : LeaseManager) (w : Str) (now : ℕ)
    → lm.closed ≡ false
    → (list_worker_run_ids (revoke_worker_leases lm w now).0 w ≡ [])
      × ((k : Str) (l : Lease)
          → lookup k lm.leases ≡ some l
          → l.worker_id ≢ w
          → lookup k (revoke_worker_leases lm w now).0.leases ≡ some l)
unfolding revoke_worker_leases list_worker_run_ids bulk where_active revoke
revoke_worker_leases_lem lm w now live = (
  ground (arith, revoke_all-none_left w now lm.leases),
  λ k l held other.
      ground (
        arith,
        lookup-update_all k (where_active (of_worker w) (revoke now)) lm.leases {v = l} held,
      ),
)

blocks-Mem :
    (a : Assignment) (ls : List Lease)
    → any_blocks a ls ≡ true
    → (l : Lease) × Memᴰ l ls × (blocks a l ≡ true)
unfolding any_blocks
blocks-Mem a [] h = cc
blocks-Mem a (l ∷ ls) h = elim (Bool-cases (blocks a l)) [
  | inl here ↦ (l, Memᴰ.head refl, here)
  | inr not_here ↦ let (m, mem, b) = blocks-Mem a ls (ground arith) in (m, Memᴰ.tail mem, b)
]

-- The meaning of the test in the loop of `IssueLease`.
abbrev pub Obstructs : Assignment → Lease → Type 0
Obstructs a l =
    (l.state ≡ active)
    × (l.assignment.run_id ≡ a.run_id)
    × (l.assignment.stage_id ≡ a.stage_id)
    × ((vu : ℕ) × Covers l.assignment.vu_id_range vu × Covers a.vu_id_range vu)

blocks-Obstructs : (a : Assignment) (l : Lease) → blocks a l ≡ true → Obstructs a l
unfolding blocks overlaps
blocks-Obstructs a l h = (
  ground arith,
  ground arith,
  ground arith,
  (max l.assignment.vu_id_range.start a.vu_id_range.start, ground arith, ground arith),
)

Obstructs-blocks : (a : Assignment) (l : Lease) → Obstructs a l → blocks a l ≡ true
unfolding blocks overlaps
Obstructs-blocks a l (alive, run, stage, (vu, c, d)) = ground arith

no_blocks :
    (a : Assignment) (ls : List Lease)
    → any_blocks a ls ≡ false
    → (l : Lease) → Memᴰ l ls
    → ¬ (Obstructs a l)
unfolding any_blocks
no_blocks a [] h l m o = elim m [ ]
no_blocks a (x ∷ ls) h l m o = elim m [
  | Memᴰ.head same ↦
      let taken : blocks a x ≡ true =
        subst (λ y. blocks a y ≡ true) same (Obstructs-blocks a l o) in
      ground (arith, taken, h)
  | Memᴰ.tail m' ↦ no_blocks a ls (ground (arith, h)) l m' o
]

abbrev pub Issued : LeaseManager → Str → Assignment → ℕ → LeaseManager → Result Str → Type 0
Issued lm w a now lm' (ok id) =
    (l : Lease) × (lookup id lm'.leases ≡ some l)
    × (l.state ≡ active)
    × (l.worker_id ≡ w)
    × (l.assignment ≡ a)
    × (l.expires_at ≡ now + lm.ttl_ms)
    × ((m : Lease) → Memᴰ m (values lm.leases) → ¬ (Obstructs a m))
    × ((k : Str) → k ≢ id → lookup k lm'.leases ≡ lookup k lm.leases)
Issued lm w a now lm' (err e) =
    (e ≡ vuid_range_overlap)
    × (lm' ≡ lm)
    × ((l : Lease) × Memᴰ l (values lm.leases) × Obstructs a l)

-- An open manager refuses an assignment, and stays as it is, exactly if it holds an active lease for the
-- same stage of the same run that has a virtual user in common with it; otherwise it answers with an
-- id under which the new lease stands, active, for that worker, with the assignment, until `ttl_ms`
-- after the time of issue, and what stands under every other id stays.
pub issue_lease-Issued :
    (lm : LeaseManager) (w : Str) (a : Assignment) (now ts : ℕ)
    → lm.closed ≡ false
    → Issued lm w a now (issue_lease lm w a now ts).0 (issue_lease lm w a now ts).1
unfolding issue_lease
issue_lease-Issued lm w a now ts live = elim (Bool-cases (any_blocks a (values lm.leases))) [
  | inl taken ↦
      let (l, mem, b) = blocks-Mem a (values lm.leases) taken in
      let refused : issue_lease lm w a now ts ≡ (lm, err vuid_range_overlap) = ground arith in
      rw refused (refl, refl, (l, mem, blocks-Obstructs a l b))
  | inr free ↦
      let id : Str = generate_lease_id ts (lm.counter + 1) in
      let l : Lease = record {
        lease_id = id;
        worker_id = w;
        assignment = a;
        state = active;
        issued_at = now;
        expires_at = now + lm.ttl_ms;
        revoked_at = none;
      } in
      let issued : issue_lease lm w a now ts
          ≡ (record lm { leases = insert id l lm.leases; counter = lm.counter + 1 }, ok id) =
        ground arith in
      rw issued (
        l,
        ground arith,
        refl,
        refl,
        refl,
        refl,
        no_blocks a (values lm.leases) free,
        λ k other. ground (arith, lookup-insert id k l lm.leases),
      )
]
