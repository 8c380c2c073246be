-- ===== src/Scheduler/Registry/Membership.antt =====
-- Who is registered: every worker stands under its own id, and ids do not repeat.
use mcpdrill.Prelude.{
  ℕ, ◌+◌, ◌≡◌, refl, List, [], ◌∷◌, Option, none, some, arith, false, Str, Dict, erase, update_at,
  All, IsKeyed, erase-IsKeyed, update_at-IsKeyed, lookup-erase, Bool-cases, inl, inr,
}
use mcpdrill.Scheduler.Types.{HostInfo, WorkerCapacity, WorkerHealth, WorkerInfo}
use mcpdrill.Scheduler.Ids.{
  IsEpoch, print-injective, IsMinted, IsMinted-erase, IsMinted-suc, IsMinted-update_at, lookup-next,
}
use mcpdrill.Scheduler.Registry.{
  Registry, ok, err, Call, registers, heartbeats, removes, closes, step, run, new_registry,
  generate_worker_id, register_worker, get_worker, heartbeat, beat, update_effective_capacity,
  remove_worker, close, worker_not_found,
}

pub generate_worker_id-injective :
    (t u m n : ℕ) → IsEpoch t → IsEpoch u → generate_worker_id t m ≡ generate_worker_id u n → m ≡ n
unfolding generate_worker_id
generate_worker_id-injective t u m n ht hu e = print-injective t u m n ht hu (cc)

-- Each worker stands under its own id.
abbrev pub IsNamed : Dict WorkerInfo → Type 0
IsNamed [] = Unit {0}
IsNamed ((k, w) ∷ m) = (w.worker_id ≡ k) × IsNamed m

IsNamed-erase : (k : Str) (m : Dict WorkerInfo) → IsNamed m → IsNamed (erase k m)
IsNamed-erase k [] h = tt
IsNamed-erase k ((j, w) ∷ m) h = ground (arith, IsNamed-erase k m h.1)

IsNamed-beat :
    (k : Str) (r : Option WorkerHealth) (now : ℕ) (m : Dict WorkerInfo)
    → IsNamed m
    → IsNamed (update_at k (beat r now) m)
unfolding beat update_effective_capacity
IsNamed-beat k r now [] h = tt
IsNamed-beat k none now ((j, w) ∷ m) h = (ground arith, IsNamed-beat k none now m h.1)
IsNamed-beat k (some x) now ((j, w) ∷ m) h = (ground arith, IsNamed-beat k (some x) now m h.1)

pub record Inv (r : Registry) : Type 0 where
  pub named : IsNamed r.workers
  pub keyed : IsKeyed r.workers
  pub minted : IsMinted generate_worker_id r.counter r.workers

abbrev pub IsTimely : Call → Type 0
IsTimely (registers host_info capacity now ts) = IsEpoch ts
IsTimely _ = Unit {0}

module _ (r : Registry) (v : Inv r) where
  register-Inv :
      (host_info : HostInfo) (capacity : WorkerCapacity) (now ts : ℕ)
      → IsEpoch ts
      → Inv (register_worker r host_info capacity now ts).0
  unfolding register_worker
  register-Inv host_info capacity now ts e = elim (Bool-cases r.closed) [
    | inl shut ↦ ground arith
    | inr live ↦
        let id : Str = generate_worker_id ts (r.counter + 1) in
        rw (live, register_worker)
          (record {
            named = (refl, IsNamed-erase id r.workers v.named);
            keyed =
                (ground (arith, lookup-erase id id r.workers), erase-IsKeyed id r.workers v.keyed);
            minted = (
              (ts, r.counter + 1, e, omega arith, refl),
              IsMinted-erase generate_worker_id (r.counter + 1) id r.workers
                  (IsMinted-suc generate_worker_id r.counter r.workers v.minted),
            );
          })
  ]

  heartbeat-Inv : (id : Str) (h : Option WorkerHealth) (now : ℕ) → Inv (heartbeat r id h now).0
  unfolding heartbeat
  heartbeat-Inv id h now = ground (
    arith,
    IsNamed-beat id h now r.workers v.named,
    update_at-IsKeyed id (beat h now) r.workers v.keyed,
    IsMinted-update_at generate_worker_id r.counter id (beat h now) r.workers v.minted,
  )

  pub remove-Inv : (id : Str) → Inv (remove_worker r id).0
  unfolding remove_worker
  remove-Inv id = ground (
    arith,
    IsNamed-erase id r.workers v.named,
    erase-IsKeyed id r.workers v.keyed,
    IsMinted-erase generate_worker_id r.counter id r.workers v.minted,
  )

  close-Inv : Inv (close r)
  unfolding close
  close-Inv = ground arith

  -- The registry's calls, with a clock in the epoch for the ids, keep each worker under its own id
  -- and no id twice, with ids made from the counters used so far.
  pub step-Inv : (c : Call) → IsTimely c → Inv (step r c)
  unfolding step
  step-Inv (registers host_info capacity now ts) e = register-Inv host_info capacity now ts e
  step-Inv (heartbeats id h now) e = heartbeat-Inv id h now
  step-Inv (removes id) e = remove-Inv id
  step-Inv closes e = close-Inv

pub run-Inv : (r : Registry) (cs : List Call) → All IsTimely cs → Inv r → Inv (run r cs)
unfolding run
run-Inv r [] t v = v
run-Inv r (c ∷ cs) t v = run-Inv (step r c) cs t.1 (step-Inv r v c t.0)

pub new-Inv : Inv new_registry
unfolding new_registry
new-Inv = ground arith

-- A registration that succeeds, in a registry that satisfies the invariant and at a time in the
-- epoch, answers with an id that no worker had, gives under it a record with the whole capacity and
-- no report, and leaves the record of every other worker as it was.
pub register_worker-get_worker :
    (r : Registry) (host_info : HostInfo) (capacity : WorkerCapacity) (now ts : ℕ) (id : Str)
    → Inv r
    → IsEpoch ts
    → (register_worker r host_info capacity now ts).1 ≡ ok id
    → (get_worker r id ≡ err worker_not_found)
      × (get_worker (register_worker r host_info capacity now ts).0 id
          ≡ ok (record {
            worker_id = id;
            host_info = host_info;
            capacity = capacity;
            effective_capacity = capacity;
            saturated = false;
            registered_at = now;
            last_heartbeat = now;
            health = none;
          }))
      × ((k : Str) (w : WorkerInfo)
          → get_worker r k ≡ ok w
          → get_worker (register_worker r host_info capacity now ts).0 k ≡ ok w)
unfolding register_worker get_worker
register_worker-get_worker r host_info capacity now ts id v e h =
    let fresh =
      lookup-next generate_worker_id generate_worker_id-injective r.counter ts r.workers e
        v.minted in
    (
      ground (arith, fresh),
      ground (arith, fresh),
      λ k w g. ground (arith, fresh, lookup-erase id k r.workers),
    )
