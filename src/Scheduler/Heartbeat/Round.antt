-- ===== src/Scheduler/Heartbeat/Round.antt =====
-- One round of the monitor: who is dropped, and whom the callback hears of, while heartbeats come in.
use mathlib.Core.List.{append_assoc, append-nil}
use mcpdrill.Prelude.{
  ℕ, suc, ◌≡◌, refl, sym, ap, ◌∙◌, ◌++◌, List, [], ◌∷◌, Bool, true, false, Option, none, some,
  arith, Str, str_eq, lookup, lookup-erase, lookup-update_at, lookup-update_at-none, Option-cases,
  inl, inr, All, if◌then◌else◌,
}
use mcpdrill.Scheduler.Types.{WorkerInfo}
use mcpdrill.Scheduler.Registry.{
  Registry, Call, heartbeats, step, run, heartbeat, beat, remove_worker, Result, ok,
}
use mcpdrill.Scheduler.Leases.{list_worker_run_ids}
use mcpdrill.Scheduler.Heartbeat.{Monitor, Pauses, pass, notify, handle_dead_worker, handle_all}
use mcpdrill.Scheduler.Heartbeat.Detection.{contains, AllDistinct}

abbrev pub is_some : Option WorkerInfo → Bool
is_some none = false
is_some (some w) = true

abbrev pub is_registered : Str → Registry → Bool
is_registered k r = is_some (lookup k r.workers)

abbrev pub IsBeat : Call → Type 0
IsBeat (heartbeats id health now) = Unit {0}
IsBeat _ = ⊥

-- Other goroutines only pass on heartbeats of workers to the registry, of any worker.
abbrev pub OnlyBeats : (ℕ → Pauses) → Type 0
OnlyBeats others =
    (i : ℕ)
    → All IsBeat (others i).before_list.on_registry
      × All IsBeat (others i).before_revoke.on_registry
      × All IsBeat (others i).before_remove.on_registry

-- The same workers are registered, and it is open as before.
pub record SameWorkers (r r' : Registry) : Type 0 where
  pub kept : (k : Str) → is_registered k r' ≡ is_registered k r
  pub still : r'.closed ≡ r.closed

SameWorkers-trans :
    (r r' r'' : Registry) → SameWorkers r r' → SameWorkers r' r'' → SameWorkers r r''
SameWorkers-trans r r' r'' p q = record {
  kept = λ k. q.kept k ∙ p.kept k;
  still = q.still ∙ p.still;
}

step-SameWorkers : (r : Registry) (c : Call) → IsBeat c → SameWorkers r (step r c)
unfolding step heartbeat
step-SameWorkers r (heartbeats id health now) b = record {
  kept = λ k. elim (Option-cases (lookup k r.workers)) [
    | inl absent ↦ ground (arith, lookup-update_at-none id k (beat health now) r.workers absent)
    | inr (w, there) ↦
        ground (arith, lookup-update_at id k (beat health now) r.workers {v = w} there)
  ];
  still = ground arith;
}
step-SameWorkers r _ b = elim b [ ]

pub run-SameWorkers : (r : Registry) (cs : List Call) → All IsBeat cs → SameWorkers r (run r cs)
unfolding run
run-SameWorkers r [] b = record { kept = λ k. refl; still = refl }
run-SameWorkers r (c ∷ cs) (b, bs) =
    SameWorkers-trans r (step r c) (run (step r c) cs) (step-SameWorkers r c b)
      (run-SameWorkers (step r c) cs bs)

-- The registry when the turn of a worker comes to its removal.
abbrev before_removal : Monitor → Pauses → Registry
before_removal m others =
    run (run (run m.registry others.before_list.on_registry) others.before_revoke.on_registry)
      others.before_remove.on_registry

before_removal-SameWorkers :
    (m : Monitor) (others : ℕ → Pauses)
    → OnlyBeats others
    → SameWorkers m.registry (before_removal m (others 0))
before_removal-SameWorkers m others beats =
    let (first, second, third) = beats 0 in
    let r1 = run m.registry (others 0).before_list.on_registry in
    let r2 = run r1 (others 0).before_revoke.on_registry in
    let r3 = run r2 (others 0).before_remove.on_registry in
    SameWorkers-trans m.registry r2 r3
      (SameWorkers-trans m.registry r1 r2
        (run-SameWorkers m.registry (others 0).before_list.on_registry first)
        (run-SameWorkers r1 (others 0).before_revoke.on_registry second))
      (run-SameWorkers r2 (others 0).before_remove.on_registry third)

handled_registry :
    (m : Monitor) (others : Pauses) (id : Str) (now : ℕ)
    → (handle_dead_worker m others id now).registry ≡ (remove_worker (before_removal m others) id).0
unfolding handle_dead_worker pass
handled_registry m others id now = ground arith

handled_callback :
    (m : Monitor) (others : Pauses) (id : Str) (now : ℕ)
    → (handle_dead_worker m others id now).has_callback ≡ m.has_callback
unfolding handle_dead_worker pass
handled_callback m others id now = ground arith

removed-closed : (r : Registry) (id : Str) → (remove_worker r id).0.closed ≡ r.closed
unfolding remove_worker
removed-closed r id = ground arith

removed-is_registered :
    (r : Registry) (id k : Str)
    → r.closed ≡ false
    → is_registered k (remove_worker r id).0 ≡ (if str_eq id k then false else is_registered k r)
unfolding remove_worker
removed-is_registered r id k live = ground (arith, lookup-erase id k r.workers)

-- Whom the callback has heard of.
abbrev pub heard : List (Str × List Str) → List Str
heard [] = []
heard ((id, affected) ∷ calls) = id ∷ heard calls

heard-append : (xs ys : List (Str × List Str)) → heard (xs ++ ys) ≡ heard xs ++ heard ys
heard-append [] ys = refl
heard-append (x ∷ xs) ys = ap (λ (t : List Str). x.0 ∷ t) (heard-append xs ys)

notify-calls :
    (m : Monitor) (id : Str) (affected : List Str) (removed : Result (Unit {0}))
    → m.has_callback ≡ true
    → removed ≡ ok tt
    → (notify m id affected removed).calls ≡ m.calls ++ (id, affected) ∷ []
unfolding notify
notify-calls m id affected removed set done = rw (done, set, notify) refl

removed-ok :
    (r : Registry) (id : Str)
    → r.closed ≡ false
    → is_registered id r ≡ true
    → (remove_worker r id).1 ≡ ok tt
unfolding remove_worker
removed-ok r id live there = ground arith

handled_calls :
    (m : Monitor) (others : Pauses) (id : Str) (now : ℕ)
    → m.has_callback ≡ true
    → (remove_worker (before_removal m others) id).1 ≡ ok tt
    → (affected : List Str) × ((handle_dead_worker m others id now).calls
        ≡ m.calls ++ (id, affected) ∷ [])
unfolding handle_dead_worker pass
handled_calls m others id now set done = (
  list_worker_run_ids (pass others.before_list m).lease_manager id,
  notify-calls _ id _ _ set done,
)

module _ (m : Monitor) (others : ℕ → Pauses) (id : Str) (now : ℕ) (beats : OnlyBeats others)
    (live : m.registry.closed ≡ false) where
  handled_open : (handle_dead_worker m (others 0) id now).registry.closed ≡ false
  handled_open =
      ap (λ (r : Registry). r.closed) (handled_registry m (others 0) id now)
      ∙ removed-closed (before_removal m (others 0)) id
      ∙ (before_removal-SameWorkers m others beats).still
      ∙ live

  handled_workers :
      (k : Str)
      → is_registered k (handle_dead_worker m (others 0) id now).registry
        ≡ (if str_eq id k then false else is_registered k m.registry)
  handled_workers k =
      let same = before_removal-SameWorkers m others beats in
      ap (is_registered k) (handled_registry m (others 0) id now)
      ∙ removed-is_registered (before_removal m (others 0)) id k (same.still ∙ live)
      ∙ ap (λ b. if str_eq id k then false else b) (same.kept k)

  handled_heard :
      m.has_callback ≡ true
      → is_registered id m.registry ≡ true
      → heard (handle_dead_worker m (others 0) id now).calls ≡ heard m.calls ++ id ∷ []
  handled_heard set found =
      let same = before_removal-SameWorkers m others beats in
      let (affected, told) =
        handled_calls m (others 0) id now set (
          removed-ok (before_removal m (others 0)) id (same.still ∙ live) (same.kept id ∙ found)) in
      ap heard told ∙ heard-append m.calls ((id, affected) ∷ [])

pub handle_all-workers :
    (clock : ℕ → ℕ) (others : ℕ → Pauses) (m : Monitor) (ids : List Str) (k : Str)
    → OnlyBeats others
    → m.registry.closed ≡ false
    → is_registered k (handle_all clock others m ids).registry
      ≡ (if contains k ids then false else is_registered k m.registry)
unfolding handle_all
handle_all-workers clock others m [] k beats live = refl
handle_all-workers clock others m (id ∷ ids) k beats live = ground (
  arith,
  handled_workers m others id (clock 0) beats live k,
  handle_all-workers (λ i. clock (suc i)) (λ i. others (suc i))
      (handle_dead_worker m (others 0) id (clock 0)) ids k (λ i. beats (suc i))
      (handled_open m others id (clock 0) beats live),
)

abbrev pub AreRegistered : Registry → List Str → Type 0
AreRegistered r = All λ id. is_registered id r ≡ true

handled_AreRegistered :
    (m : Monitor) (others : ℕ → Pauses) (id : Str) (now : ℕ) (ids : List Str)
    → OnlyBeats others
    → m.registry.closed ≡ false
    → contains id ids ≡ false
    → AreRegistered m.registry ids
    → AreRegistered (handle_dead_worker m (others 0) id now).registry ids
handled_AreRegistered m others id now [] beats live c h = tt
handled_AreRegistered m others id now (x ∷ xs) beats live c (found, rest) = (
  ground (arith, handled_workers m others id now beats live x),
  handled_AreRegistered m others id now xs beats live (ground arith) rest,
)

pub handle_all-calls :
    (clock : ℕ → ℕ) (others : ℕ → Pauses) (m : Monitor) (ids : List Str)
    → OnlyBeats others
    → m.registry.closed ≡ false
    → m.has_callback ≡ true
    → AllDistinct ids
    → AreRegistered m.registry ids
    → heard (handle_all clock others m ids).calls ≡ heard m.calls ++ ids
unfolding handle_all
handle_all-calls clock others m [] beats live set d h = sym (append-nil (heard m.calls))
handle_all-calls clock others m (id ∷ ids) beats live set d (found, rest) =
    let now = clock 0 in
    let m' = handle_dead_worker m (others 0) id now in
    let later =
      handle_all-calls (λ i. clock (suc i)) (λ i. others (suc i)) m' ids (λ i. beats (suc i))
        (handled_open m others id now beats live) (handled_callback m (others 0) id now ∙ set) d.1
        (handled_AreRegistered m others id now ids beats live d.0 rest) in
    later
    ∙ ap (λ (t : List Str). t ++ ids) (handled_heard m others id now beats live set found)
    ∙ append_assoc (heard m.calls) (id ∷ []) ids
