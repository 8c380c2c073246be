-- ===== src/Scheduler/Heartbeat/Revoked.antt =====
-- What becomes of the leases of a dropped worker: the round is a history of calls of the lease manager
-- in which the leases of the worker are revoked.
use mcpdrill.Prelude.{
  ℕ, suc, ◌≡◌, ◌≢◌, refl, sym, ap, subst, ◌∙◌, ◌⊎◌, inl, inr, ◌++◌, List, [], ◌∷◌, true, false,
  some, arith, Str, lookup, lookup-update_all, All, All-append, Str-discrete,
}
use mcpdrill.Scheduler.Types.{Lease}
use mcpdrill.Scheduler.Leases.{
  LeaseManager, Call, revokes_worker, closes, step, run, is_active, of_worker, where_active, revoke,
  bulk, revoke_worker_leases,
}
use mcpdrill.Scheduler.Leases.Effects.{Effect, same, adds, edits, edits_all, clears, step-Effect}
use mcpdrill.Scheduler.Leases.Evolves.{Evolves, Evolves-trans, revokes_active-Evolves}
use mcpdrill.Scheduler.Leases.Lifecycle.{step-Evolves}
use mcpdrill.Scheduler.Leases.Fresh.{
  IsMintedManager, IsTimely, IsFresh-of_IsMinted, step-IsMinted, run-Evolves,
}
use mcpdrill.Scheduler.Heartbeat.{Monitor, Pauses, pass, handle_dead_worker, handle_all}
use mcpdrill.Scheduler.Heartbeat.Detection.{contains}

-- The lease stands under its key as the same grant, and is not active.
abbrev pub Spent : LeaseManager → Str → Lease → Type 0
Spent lm j l =
    (m : Lease) × (lookup j lm.leases ≡ some m) × Evolves l m × (is_active m.state ≡ false)

-- Some call revokes the leases of the worker.
abbrev pub RevokesIn : Str → List Call → Type 0
RevokesIn w [] = ⊥
RevokesIn w (c ∷ cs) = ((t : ℕ) × (c ≡ revokes_worker w t)) ⊎ RevokesIn w cs

RevokesIn-append : (w : Str) (cs ds : List Call) → RevokesIn w ds → RevokesIn w (cs ++ ds)
RevokesIn-append w [] ds h = h
RevokesIn-append w (c ∷ cs) ds h = inr (RevokesIn-append w cs ds h)

-- A call that may come in a pause: not `Close`, and at a time in the epoch.
abbrev pub IsUsual : Call → Type 0
IsUsual c = IsTimely c × (c ≢ closes)

All-IsTimely : (cs : List Call) → All IsUsual cs → All IsTimely cs
All-IsTimely [] h = tt
All-IsTimely (c ∷ cs) (h, hs) = (h.0, All-IsTimely cs hs)

none_closes : (cs : List Call) → All IsUsual cs → All (λ c. c ≢ closes) cs
none_closes [] h = tt
none_closes (c ∷ cs) (h, hs) = (h.1, none_closes cs hs)

Effect-closed :
    {lm after : LeaseManager} {c : Call} → Effect lm c after → c ≢ closes → after.closed ≡ lm.closed
Effect-closed (same e) o = rw e refl
Effect-closed (adds w a now ts x called _ _ e) o = rw e refl
Effect-closed (edits id f _ _ e) o = rw e refl
Effect-closed (edits_all f _ e) o = rw e refl
Effect-closed (clears called e) o = absurd (o called)

revoked_now :
    (lm : LeaseManager) (j : Str) (l : Lease) (t : ℕ)
    → lm.closed ≡ false
    → lookup j lm.leases ≡ some l
    → Spent (step lm (revokes_worker l.worker_id t)) j l
unfolding step revoke_worker_leases bulk where_active revoke
revoked_now lm j l t live held =
    let f = where_active (of_worker l.worker_id) (revoke t) in
    rw live (
      f l,
      lookup-update_all j f lm.leases held,
      revokes_active-Evolves (of_worker l.worker_id) t l,
      ground arith,
    )

stays-Spent :
    (lm : LeaseManager) (cs : List Call) (j : Str) (l : Lease)
    → IsMintedManager lm
    → All IsUsual cs
    → Spent lm j l
    → Spent (run lm cs) j l
stays-Spent lm cs j l minted usual (m, held, e, over) =
    let (m', held', e') =
      run-Evolves lm cs j m minted (All-IsTimely cs usual) (none_closes cs usual) held in
    (m', held', Evolves-trans l m m' e e', ground (arith, e', over))

-- In a history in which the leases of a worker are revoked, each of its leases ends.
pub run-Spent :
    (lm : LeaseManager) (cs : List Call) (j : Str) (l : Lease)
    → lm.closed ≡ false
    → IsMintedManager lm
    → All IsUsual cs
    → RevokesIn l.worker_id cs
    → lookup j lm.leases ≡ some l
    → Spent (run lm cs) j l
unfolding run
run-Spent lm [] j l live minted usual h held = elim h [ ]
run-Spent lm (c ∷ cs) j l live minted (u, us) (inl (t, e)) held =
    let minted' = step-IsMinted lm c u.0 minted in
    stays-Spent (step lm c) cs j l minted' us
      (subst (λ x. Spent (step lm x) j l) (sym e) (revoked_now lm j l t live held))
run-Spent lm (c ∷ cs) j l live minted (u, us) (inr later) held =
    let minted' = step-IsMinted lm c u.0 minted in
    let (l', held', e) = step-Evolves lm c j l (IsFresh-of_IsMinted lm c u.0 minted) held u.1 in
    let (m, held'', e', over) =
      run-Spent (step lm c) cs j l' (Effect-closed (step-Effect lm c) u.1 ∙ live) minted' us
        (subst (λ w. RevokesIn w cs) (sym e.same_worker) later) held' in
    (m, held'', Evolves-trans l l' m e e', over)

pub run_append : (lm : LeaseManager) (cs ds : List Call) → run lm (cs ++ ds) ≡ run (run lm cs) ds
unfolding run
run_append lm [] ds = refl
run_append lm (c ∷ cs) ds = run_append (step lm c) cs ds

-- The calls of the lease manager in the turn of a worker, and in all turns.
abbrev pub turn_calls : Pauses → Str → ℕ → List Call
turn_calls others id now =
    others.before_list.on_leases
    ++ (others.before_revoke.on_leases ++ (revokes_worker id now ∷ others.before_remove.on_leases))

abbrev pub all_calls : (ℕ → ℕ) → (ℕ → Pauses) → List Str → List Call
all_calls clock others [] = []
all_calls clock others (id ∷ ids) =
    turn_calls (others 0) id (clock 0) ++ all_calls (λ i. clock (suc i)) (λ i. others (suc i)) ids

turn_leases :
    (m : Monitor) (others : Pauses) (id : Str) (now : ℕ)
    → (handle_dead_worker m others id now).lease_manager
      ≡ run m.lease_manager (turn_calls others id now)
unfolding handle_dead_worker pass run step
turn_leases m others id now =
    let first = others.before_list.on_leases in
    let second = others.before_revoke.on_leases in
    let third : List Call = revokes_worker id now ∷ others.before_remove.on_leases in
    let kept : (handle_dead_worker m others id now).lease_manager
        ≡ run (run (run m.lease_manager first) second) third =
      ground arith in
    kept
    ∙ sym (
        run_append m.lease_manager first (second ++ third)
        ∙ run_append (run m.lease_manager first) second third)

pub handle_all-leases :
    (clock : ℕ → ℕ) (others : ℕ → Pauses) (m : Monitor) (ids : List Str)
    → (handle_all clock others m ids).lease_manager
      ≡ run m.lease_manager (all_calls clock others ids)
unfolding handle_all run
handle_all-leases clock others m [] = refl
handle_all-leases clock others m (id ∷ ids) =
    let turn = turn_calls (others 0) id (clock 0) in
    let rest = all_calls (λ i. clock (suc i)) (λ i. others (suc i)) ids in
    handle_all-leases (λ i. clock (suc i)) (λ i. others (suc i))
      (handle_dead_worker m (others 0) id (clock 0)) ids
    ∙ ap (λ lm. run lm rest) (turn_leases m (others 0) id (clock 0))
    ∙ sym (run_append m.lease_manager turn rest)

pub RevokesIn-append_left : (w : Str) (cs ds : List Call) → RevokesIn w cs → RevokesIn w (cs ++ ds)
RevokesIn-append_left w [] ds h = elim h [ ]
RevokesIn-append_left w (c ∷ cs) ds (inl here) = inl here
RevokesIn-append_left w (c ∷ cs) ds (inr later) = inr (RevokesIn-append_left w cs ds later)

turn_calls-RevokesIn :
    (others : Pauses) (id : Str) (now : ℕ) → RevokesIn id (turn_calls others id now)
turn_calls-RevokesIn others id now =
    RevokesIn-append id others.before_list.on_leases _
      (RevokesIn-append id others.before_revoke.on_leases _ (inl (now, refl)))

pub all_calls-RevokesIn :
    (clock : ℕ → ℕ) (others : ℕ → Pauses) (k : Str) (ids : List Str)
    → contains k ids ≡ true
    → RevokesIn k (all_calls clock others ids)
all_calls-RevokesIn clock others k [] h = cc
all_calls-RevokesIn clock others k (id ∷ ids) h =
    let turn = turn_calls (others 0) id (clock 0) in
    let rest = all_calls (λ i. clock (suc i)) (λ i. others (suc i)) ids in
    elim (Str-discrete id k) [
      | yes e ↦
          subst (λ w. RevokesIn w (turn ++ rest)) e
            (RevokesIn-append_left id turn rest (turn_calls-RevokesIn (others 0) id (clock 0)))
      | no other ↦
          RevokesIn-append k turn rest
            (all_calls-RevokesIn (λ i. clock (suc i)) (λ i. others (suc i)) k ids (ground arith))
    ]

-- Every pause has usual calls only.
abbrev pub AreUsual : (ℕ → Pauses) → Type 0
AreUsual others =
    (i : ℕ)
    → All IsUsual (others i).before_list.on_leases
      × All IsUsual (others i).before_revoke.on_leases
      × All IsUsual (others i).before_remove.on_leases

pub all_calls-AreUsual :
    (clock : ℕ → ℕ) (others : ℕ → Pauses) (ids : List Str)
    → AreUsual others
    → All IsUsual (all_calls clock others ids)
all_calls-AreUsual clock others [] u = tt
all_calls-AreUsual clock others (id ∷ ids) u =
    let rest = all_calls (λ i. clock (suc i)) (λ i. others (suc i)) ids in
    let (first, second, third) = u 0 in
    let revoked : IsUsual (revokes_worker id (clock 0)) = (tt, λ e. cc) in
    All-append IsUsual (turn_calls (others 0) id (clock 0)) rest
      (All-append IsUsual (others 0).before_list.on_leases _ first
        (All-append IsUsual (others 0).before_revoke.on_leases _ second (revoked, third)))
      (all_calls-AreUsual (λ i. clock (suc i)) (λ i. others (suc i)) ids (λ i. u (suc i)))
