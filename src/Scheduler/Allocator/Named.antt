-- ===== src/Scheduler/Allocator/Named.antt =====
-- `AllocateAssignments`: workers named one by one.
use mathlib.Core.List.{Memᴰ}
use mcpdrill.Prelude.{
  ◌<◌, ◌≡◌, ◌≢◌, refl, List, [], ◌∷◌, true, false, arith, Str, lookup, All, total, Bool-cases, inl,
  inr, subst, sym, ◌⊎◌, Option-cases,
}
use mcpdrill.Prelude.Int.{ℤ, is_nonpos, pos_part}
use mcpdrill.Scheduler.Types.{WorkerInfo}
use mcpdrill.Scheduler.Registry.{
  Registry, RegistryError, get_worker, worker_not_found, registry_closed,
}
use mcpdrill.Scheduler.Registry as Registry
use mcpdrill.Scheduler.Allocator.{
  WorkerRoom, room, allocate, Outcome, ok, err, no_workers_available, insufficient_capacity,
  invalid_target_vus, worker_not_in_registry, registry_error, Allocation, fetch, alloc_error,
  allocate_assignments, ◌>>=◌,
}
use mcpdrill.Scheduler.Allocator.Sort.{IsDistinct}
use mcpdrill.Scheduler.Allocator.Sharing.{Shares, Allocated, allocate-Allocated}

abbrev pub IsRegistered : Registry → WorkerRoom → Type 0
IsRegistered r w =
    (info : WorkerInfo) × (get_worker r w.worker_id ≡ Registry.ok info)
    × (w.max_vus ≡ info.effective_capacity.max_vus)

abbrev pub HasDistinct : List Str → Type 0
HasDistinct [] = Unit {0}
HasDistinct (x ∷ xs) = All (λ y. y ≢ x) xs × HasDistinct xs

-- The workers stand for the ids, one for each.
abbrev Stands : List Str → List WorkerRoom → Type 0
Stands [] [] = Unit {0}
Stands (x ∷ xs) (w ∷ ws) = (w.worker_id ≡ x) × Stands xs ws
Stands _ _ = ⊥

Stands-absent :
    (k : Str) (ids : List Str) (ws : List WorkerRoom)
    → Stands ids ws
    → All (λ y. y ≢ k) ids
    → All (λ w. w.worker_id ≢ k) ws
Stands-absent k [] [] s a = tt
Stands-absent k [] (w ∷ ws) s a = elim s [ ]
Stands-absent k (x ∷ xs) [] s a = elim s [ ]
Stands-absent k (x ∷ xs) (w ∷ ws) s a = ((λ e. ground arith), Stands-absent k xs ws s.1 a.1)

Stands-IsDistinct :
    (ids : List Str) (ws : List WorkerRoom) → Stands ids ws → HasDistinct ids → IsDistinct ws
Stands-IsDistinct [] [] s d = tt
Stands-IsDistinct [] (w ∷ ws) s d = elim s [ ]
Stands-IsDistinct (x ∷ xs) [] s d = elim s [ ]
Stands-IsDistinct (x ∷ xs) (w ∷ ws) s d = (
  subst (λ t. All (λ y. y.worker_id ≢ t) ws) (sym s.0) (Stands-absent x xs ws s.1 d.0),
  Stands-IsDistinct xs ws s.1 d.1,
)

-- What went wrong with a lookup.
abbrev pub Missing : Registry → List Str → RegistryError → Type 0
Missing r ids worker_not_found =
    (id : Str) × Memᴰ id ids × (get_worker r id ≡ Registry.err worker_not_found)
Missing r ids registry_closed = r.closed ≡ true

Missing-cons :
    (r : Registry) (x : Str) (ids : List Str) (e : RegistryError)
    → Missing r ids e
    → Missing r (x ∷ ids) e
Missing-cons r x ids worker_not_found (id, mem, h) = (id, Memᴰ.tail mem, h)
Missing-cons r x ids registry_closed h = h

abbrev Fetched : Registry → List Str → Outcome (List WorkerRoom) → Type 0
Fetched r ids (ok ws) = Stands ids ws × All (IsRegistered r) ws
Fetched r ids (err e) = (x : RegistryError) × (e ≡ alloc_error x) × Missing r ids x

get_worker-cases :
    (r : Registry) (id : Str)
    → ((info : WorkerInfo) × (get_worker r id ≡ Registry.ok info))
      ⊎ ((x : RegistryError) × (get_worker r id ≡ Registry.err x) × Missing r (id ∷ []) x)
unfolding get_worker
get_worker-cases r id = elim (Bool-cases r.closed) [
  | inl shut ↦ inr (registry_closed, ground arith, shut)
  | inr live ↦ elim (Option-cases (lookup id r.workers)) [
    | inl missing ↦
        let absent : get_worker r id ≡ Registry.err worker_not_found = ground arith in
        inr (worker_not_found, absent, (id, Memᴰ.head refl, absent))
    | inr (w, found) ↦ inl (w, ground arith)
  ]
]

fetch_more :
    (r : Registry) (x : Str) (xs : List Str) (w : WorkerRoom) (o : Outcome (List WorkerRoom))
    → w.worker_id ≡ x
    → IsRegistered r w
    → Fetched r xs o
    → Fetched r (x ∷ xs) (o >>= λ ws. ok (w ∷ ws))
fetch_more r x xs w (ok ws) e p (s, a) = ((e, s), (p, a))
fetch_more r x xs w (err e') e p (y, q, m) = (y, q, Missing-cons r x xs y m)

-- `Missing` at one id is `Missing` at a list that holds it.
Missing-here :
    (r : Registry) (x : Str) (xs : List Str) (e : RegistryError)
    → Missing r (x ∷ []) e
    → Missing r (x ∷ xs) e
unfolding get_worker
Missing-here r x xs worker_not_found (id, Memᴰ.head p, h) = (id, Memᴰ.head p, h)
Missing-here r x xs worker_not_found (id, Memᴰ.tail m, h) = elim m [ ]
Missing-here r x xs registry_closed h = h

fetch-Fetched : (r : Registry) (ids : List Str) → Fetched r ids (fetch r ids)
unfolding fetch
fetch-Fetched r [] = (tt, tt)
fetch-Fetched r (x ∷ xs) = elim (get_worker-cases r x) [
  | inl (info, found) ↦
      rw found (fetch_more r x xs _ (fetch r xs) refl (info, found, refl) (fetch-Fetched r xs))
  | inr (e, failed, m) ↦ rw failed (e, refl, Missing-here r x xs e m)
]

-- The answer to a target for workers that are named by their ids.
abbrev pub AnswersFor : Registry → Str → Str → ℤ → List Str → Outcome Allocation → Type 0
AnswersFor r run_id stage_id target ids (ok q) =
    (0 < pos_part target) × Shares (IsRegistered r) run_id stage_id (pos_part target) q
AnswersFor r run_id stage_id target ids (err invalid_target_vus) = pos_part target ≡ 0
AnswersFor r run_id stage_id target ids (err no_workers_available) = ids ≡ []
AnswersFor r run_id stage_id target ids (err insufficient_capacity) =
    (ws : List WorkerRoom) × (fetch r ids ≡ ok ws) × (total room ws < pos_part target)
AnswersFor r run_id stage_id target ids (err worker_not_in_registry) =
    Missing r ids worker_not_found
AnswersFor r run_id stage_id target ids (err (registry_error e)) =
    (e ≡ registry_closed) × (r.closed ≡ true)

from_rooms :
    (r : Registry) (run_id stage_id : Str) (target : ℤ) (ids : List Str) (ws : List WorkerRoom)
    (o : Outcome Allocation)
    → is_nonpos target ≡ false
    → fetch r ids ≡ ok ws
    → Allocated (IsRegistered r) run_id stage_id (pos_part target) ws o
    → AnswersFor r run_id stage_id target ids o
from_rooms r run_id stage_id target ids ws (ok q) p f a = (ground arith, a.1)
from_rooms r run_id stage_id target ids ws (err insufficient_capacity) p f a = (ws, f, a.0.1)
from_rooms r run_id stage_id target ids ws (err invalid_target_vus) p f a = cc a.0.0
from_rooms r run_id stage_id target ids ws (err no_workers_available) p f a = cc a.0.0
from_rooms r run_id stage_id target ids ws (err worker_not_in_registry) p f a = cc a.0.0
from_rooms r run_id stage_id target ids ws (err (registry_error e)) p f a = cc a.0.0

from_fetch :
    (r : Registry) (run_id stage_id : Str) (target : ℤ) (ids : List Str)
    (o : Outcome (List WorkerRoom))
    → is_nonpos target ≡ false
    → HasDistinct ids
    → fetch r ids ≡ o
    → Fetched r ids o
    → AnswersFor r run_id stage_id target ids (o >>= allocate run_id stage_id (pos_part target))
unfolding alloc_error
from_fetch r run_id stage_id target ids (ok ws) p d f (s, a) =
    from_rooms r run_id stage_id target ids ws _ p f (
      allocate-Allocated (IsRegistered r) run_id stage_id (pos_part target) ws a
        (Stands-IsDistinct ids ws s d))
from_fetch r run_id stage_id target ids (err e) p d f (worker_not_found, q, m) = rw q m
from_fetch r run_id stage_id target ids (err e) p d f (registry_closed, q, m) = rw q (refl, m)

-- `AllocateAssignments` for distinct ids: a target that is not positive is refused, as is an empty
-- list of ids, an id that is not registered, a closed registry, and a target above what the workers
-- can take together. Otherwise the virtual users 0, …, target - 1 are shared out, each to one range,
-- among registered workers, none beyond its effective capacity and none with an empty range, and the
-- map gives each of these workers its range.
pub allocate_assignments-AnswersFor :
    (r : Registry) (run_id stage_id : Str) (target : ℤ) (ids : List Str)
    → HasDistinct ids
    → AnswersFor r run_id stage_id target ids (allocate_assignments r run_id stage_id target ids)
unfolding allocate_assignments
allocate_assignments-AnswersFor r run_id stage_id target [] d =
    elim (Bool-cases (is_nonpos target)) [
      | inl nonpos ↦ rw (nonpos, allocate_assignments) (ground arith)
      | inr positive ↦ rw (positive, allocate_assignments) refl
    ]
allocate_assignments-AnswersFor r run_id stage_id target (x ∷ xs) d =
    elim (Bool-cases (is_nonpos target)) [
      | inl nonpos ↦ rw (nonpos, allocate_assignments) (ground arith)
      | inr positive ↦
          rw (positive, allocate_assignments)
            (from_fetch r run_id stage_id target (x ∷ xs) (fetch r (x ∷ xs)) positive d refl
              (fetch-Fetched r (x ∷ xs)))
    ]
