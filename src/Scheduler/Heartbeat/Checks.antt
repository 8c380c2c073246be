-- ===== src/Scheduler/Heartbeat/Checks.antt =====
-- What one round of the monitor does, `checkWorkers` from the detector to the expiry.
use mcpdrill.Prelude.{
  ℕ, suc, ◌/◌, ◌≡◌, ◌++◌, ◌∙◌, ap, sym, subst, List, [], ◌∷◌, true, false, some, arith, Str, Dict,
  lookup, values, All, All-append, if◌then◌else◌, Bool-cases, inl, inr,
}
use mcpdrill.Prelude.Int.{ℤ, pos}
use mcpdrill.Scheduler.Types.{WorkerInfo, Lease}
use mcpdrill.Scheduler.Registry.{list_workers}
use mcpdrill.Scheduler.Registry.Membership.{Inv, IsNamed}
use mcpdrill.Scheduler.Leases.{Call, expires, step, run}
use mcpdrill.Scheduler.Leases.Fresh.{IsMintedManager}
use mcpdrill.Scheduler.Heartbeat.{
  Monitor, Pause, Pauses, pass, is_lost, lost_ids, detect_lost_workers, handle_all, check_workers,
}
use mcpdrill.Scheduler.Heartbeat.Round.{
  is_some, is_registered, IsBeat, OnlyBeats, heard, run-SameWorkers, handle_all-workers,
  handle_all-calls,
}
use mcpdrill.Scheduler.Heartbeat.Revoked.{
  Spent, IsUsual, AreUsual, run-Spent, run_append, RevokesIn, RevokesIn-append_left, all_calls,
  handle_all-leases, all_calls-RevokesIn, all_calls-AreUsual,
}
use mcpdrill.Scheduler.Heartbeat.Detection.{
  contains, lost_at, contains-lost_ids, lost_ids-AllDistinct,
}

-- The workers that a round drops, in the order in which it meets them.
abbrev pub dropped : Monitor → ℕ → List Str
dropped m now = lost_ids (pos (m.timeout_ns / 1000000)) now (values m.registry.workers)

registered_cons :
    (j : Str) (x : WorkerInfo) (m : Dict WorkerInfo) (ids : List Str)
    → All (λ id. is_some (lookup id m) ≡ true) ids
    → All (λ id. is_some (lookup id ((j, x) ∷ m)) ≡ true) ids
registered_cons j x m [] h = tt
registered_cons j x m (id ∷ ids) (found, rest) = (ground arith, registered_cons j x m ids rest)

registered_lost :
    (timeout_ms : ℤ) (now : ℕ) (m : Dict WorkerInfo)
    → IsNamed m
    → All (λ id. is_some (lookup id m) ≡ true) (lost_ids timeout_ms now (values m))
unfolding lost_ids
registered_lost timeout_ms now [] n = tt
registered_lost timeout_ms now ((j, x) ∷ m) n =
    let rest = registered_cons j x m _ (registered_lost timeout_ms now m n.1) in
    elim (Bool-cases (is_lost timeout_ms now x)) [
      | inl lost ↦ rw (lost, lost_ids) (ground arith, rest)
      | inr kept ↦ rw (kept, lost_ids) rest
    ]

module _ (m : Monitor) (clock : ℕ → ℕ) (others : ℕ → Pauses) (before_expiry : Pause) (expire_at : ℕ)
    (v : Inv m.registry) where
  abbrev dead : List Str
  dead = dropped m (clock 0)

  abbrev handled : Monitor
  handled = handle_all (λ i. clock (suc i)) others m dead

  -- A round removes exactly the workers whose last heartbeat, when the round begins, is longer ago
  -- than the timeout, whatever heartbeats come in between its steps: one of a worker that is to be
  -- removed does not save it. The registry is open and satisfies its invariant, and meanwhile no
  -- worker registers or is removed by others.
  pub check_workers-workers :
      m.registry.closed ≡ false
      → OnlyBeats others
      → All IsBeat before_expiry.on_registry
      → (k : Str)
      → is_registered k (check_workers m clock others before_expiry expire_at).registry ≡ (
          if lost_at (pos (m.timeout_ns / 1000000)) (clock 0) (lookup k m.registry.workers)
          then false
          else is_registered k m.registry)
  unfolding check_workers detect_lost_workers list_workers pass
  check_workers-workers live beats last k =
      (run-SameWorkers handled.registry before_expiry.on_registry last).kept k
      ∙ handle_all-workers (λ i. clock (suc i)) others m dead k beats live
      ∙ ap (λ b. if b then false else is_registered k m.registry)
          (contains-lost_ids (pos (m.timeout_ns / 1000000)) (clock 0) k m.registry.workers v.named
            v.keyed)

  round_leases :
      (check_workers m clock others before_expiry expire_at).lease_manager
      ≡ run m.lease_manager (
          all_calls (λ i. clock (suc i)) others dead
          ++ (before_expiry.on_leases ++ expires expire_at ∷ []))
  unfolding check_workers detect_lost_workers list_workers pass run step
  round_leases =
      let cs = all_calls (λ i. clock (suc i)) others dead in
      let last : List Call = expires expire_at ∷ [] in
      ap (λ lm. run (run lm before_expiry.on_leases) last)
        (handle_all-leases (λ i. clock (suc i)) others m dead)
      ∙ sym (
          run_append m.lease_manager cs (before_expiry.on_leases ++ last)
          ∙ run_append (run m.lease_manager cs) before_expiry.on_leases last)

  -- Each lease that a worker held when the round began, and that the round drops, is still there as
  -- the same grant when the round ends, and is not active, whatever other calls of the lease manager
  -- come in between its steps, but for its closing. It says nothing of leases that others issue to
  -- the worker meanwhile. The lease manager is open, with ids of its own making, and the clock of the
  -- calls stays in the epoch.
  pub check_workers-leases :
      (k : Str) (w : WorkerInfo) (j : Str) (l : Lease)
      → lookup k m.registry.workers ≡ some w
      → is_lost (pos (m.timeout_ns / 1000000)) (clock 0) w ≡ true
      → m.lease_manager.closed ≡ false
      → IsMintedManager m.lease_manager
      → AreUsual others
      → All IsUsual before_expiry.on_leases
      → lookup j m.lease_manager.leases ≡ some l
      → l.worker_id ≡ k
      → Spent (check_workers m clock others before_expiry expire_at).lease_manager j l
  check_workers-leases k w j l found lost live minted usual last held its =
      let cs = all_calls (λ i. clock (suc i)) others dead in
      let rest = before_expiry.on_leases ++ expires expire_at ∷ [] in
      let member : contains k dead ≡ true = ground (
        arith,
        contains-lost_ids (pos (m.timeout_ns / 1000000)) (clock 0) k m.registry.workers v.named
            v.keyed,
      ) in
      let revoked = all_calls-RevokesIn (λ i. clock (suc i)) others k dead member in
      let usual_all =
        All-append IsUsual cs rest (all_calls-AreUsual (λ i. clock (suc i)) others dead usual) (
          All-append IsUsual before_expiry.on_leases (expires expire_at ∷ []) last
            ((tt, λ e. cc), tt)) in
      subst (λ lm. Spent lm j l) (sym round_leases)
        (run-Spent m.lease_manager (cs ++ rest) j l live minted usual_all
          (RevokesIn-append_left l.worker_id cs rest
            (subst (λ x. RevokesIn x cs) (sym its) revoked))
          held)

  -- The callback hears of each worker that was silent when the round began exactly once, in the order
  -- in which the round meets them, whatever heartbeats and calls of the lease manager come in between
  -- its steps. The callback is set, the registry is open and satisfies its invariant, and meanwhile
  -- no worker registers or is removed by others.
  pub check_workers-calls :
      m.registry.closed ≡ false
      → OnlyBeats others
      → m.has_callback ≡ true
      → heard (check_workers m clock others before_expiry expire_at).calls
        ≡ heard m.calls ++ dropped m (clock 0)
  unfolding check_workers detect_lost_workers list_workers pass
  check_workers-calls live beats set =
      handle_all-calls (λ i. clock (suc i)) others m dead beats live set
        (lost_ids-AllDistinct (pos (m.timeout_ns / 1000000)) (clock 0) m.registry.workers v.named
          v.keyed)
        (registered_lost (pos (m.timeout_ns / 1000000)) (clock 0) m.registry.workers v.named)
