-- ===== src/Scheduler/Allocator.antt =====
-- internal/controlplane/scheduler/allocator.go: virtual users handed out to the workers with the
-- most room first. `sort.Slice` is an insertion sort here; it puts workers of equal room in their
-- old order, one of the orders that Go allows. A target is a signed number, as in the source; the
-- registry's callers refuse a capacity that is not positive, so capacities are plain numbers.
pub mod Sort
pub mod Partition
pub mod Sharing
pub mod Methods
pub mod Named
use mcpdrill.Prelude.{
  ℕ, ◌+◌, ◌-◌, List, [], ◌∷◌, Bool, true, false, ◌||◌, if◌then◌else◌, ltb, leb, ◌==◌, map, Str,
  str_eq, Dict, insert, total, length,
}
use mcpdrill.Prelude.Int.{ℤ, is_nonpos, pos_part}
use mcpdrill.Scheduler.Types.{Assignment, VuidRange, WorkerInfo}
use mcpdrill.Scheduler.Registry.{
  Registry, RegistryError, worker_not_found, registry_closed, list_workers, get_worker,
}
use mcpdrill.Scheduler.Registry as Registry

pub data AllocError : Type 0 where
  no_workers_available insufficient_capacity invalid_target_vus worker_not_in_registry : AllocError
  registry_error : RegistryError → AllocError

pub data Outcome {ℓ} (A : Type ℓ) : Type ℓ where
  ok : A → Outcome A
  err : AllocError → Outcome A

pub record WorkerRoom : Type 0 where
  pub worker_id : Str
  pub max_vus : ℕ

abbrev pub room : WorkerRoom → ℕ
room w = w.max_vus

-- `sort.Slice(ws, func(i, j) bool { return ws[i].maxVUs > ws[j].maxVUs })`
unfoldable pub insert_sorted : WorkerRoom → List WorkerRoom → List WorkerRoom
insert_sorted w [] = w ∷ []
insert_sorted w (x ∷ xs) = if leb x.max_vus w.max_vus then w ∷ x ∷ xs else x ∷ insert_sorted w xs

unfoldable pub sort : List WorkerRoom → List WorkerRoom
unfolding insert_sorted
sort [] = []
sort (w ∷ ws) = insert_sorted w (sort ws)

-- The placement loop, as the pairs of worker and assignment that its rounds add.
unfoldable pub place : Str → Str → List WorkerRoom → ℕ → ℕ → List (Str × Assignment)
place run_id stage_id [] vu_start remaining = []
place run_id stage_id (w ∷ ws) vu_start remaining =
    let vu_count = if ltb remaining w.max_vus then remaining else w.max_vus in
    let a : Assignment = record {
      run_id = run_id;
      stage_id = stage_id;
      vu_id_range = record { start = vu_start; end = vu_start + vu_count };
    } in
    let rest = place run_id stage_id ws (vu_start + vu_count) (remaining - vu_count) in
    if remaining == 0 then [] else (w.worker_id, a) ∷ rest

abbrev pub assignments_of : List (Str × Assignment) → List Assignment
assignments_of [] = []
assignments_of ((id, a) ∷ ps) = a ∷ assignments_of ps

-- `workerAssignments[w.workerID] = assignment`, round by round.
abbrev pub insert_all : Dict Assignment → List (Str × Assignment) → Dict Assignment
insert_all m [] = m
insert_all m ((id, a) ∷ ps) = insert_all (insert id a m) ps

abbrev pub Allocation : Type 0
Allocation = List Assignment × Dict Assignment

-- What both methods do once they have the workers.
unfoldable pub allocate : Str → Str → ℕ → List WorkerRoom → Outcome Allocation
allocate run_id stage_id target_vus ws =
    if ltb (total room ws) target_vus
    then err insufficient_capacity
    else ok (assignments_of placed, insert_all [] placed)
  where
    placed : List (Str × Assignment)
    placed = place run_id stage_id (sort ws) 0 target_vus

-- Is the worker among those to leave out?
unfoldable pub excluded : Str → List Str → Bool
excluded id [] = false
excluded id (x ∷ xs) = str_eq x id || excluded id xs

unfoldable pub available : List Str → List WorkerInfo → List WorkerRoom
unfolding excluded
available exclude [] = []
available exclude (w ∷ ws) =
    if excluded w.worker_id exclude
    then available exclude ws
    else record { worker_id = w.worker_id; max_vus = w.effective_capacity.max_vus }
      ∷ available exclude ws

allocate_some : Str → Str → ℕ → List WorkerRoom → Outcome Allocation
unfolding allocate
allocate_some run_id stage_id target_vus [] = err no_workers_available
allocate_some run_id stage_id target_vus (w ∷ ws) = allocate run_id stage_id target_vus (w ∷ ws)

unfoldable pub reallocate_assignments : Registry → Str → Str → ℤ → List Str → Outcome Allocation
unfolding allocate_some available
reallocate_assignments r run_id stage_id target_vus exclude_workers =
    if is_nonpos target_vus
    then err invalid_target_vus
    else allocate_some run_id stage_id (pos_part target_vus)
        (available exclude_workers (list_workers r))

-- `ErrWorkerNotFound` is reported under another name, any other error as it is.
alloc_error : RegistryError → AllocError
alloc_error worker_not_found = worker_not_in_registry
alloc_error registry_closed = registry_error registry_closed

infixl 5 ◌>>=◌
abbrev ◌>>=◌ {ℓ κ} : {A : Type ℓ} {B : Type κ} → Outcome A → (A → Outcome B) → Outcome B
ok a >>= f = f a
err e >>= f = err e

room_of : Str → Registry.Result WorkerInfo → Outcome WorkerRoom
unfolding alloc_error
room_of id (Registry.ok w) = ok (record { worker_id = id; max_vus = w.effective_capacity.max_vus })
room_of id (Registry.err e) = err (alloc_error e)

unfoldable pub fetch : Registry → List Str → Outcome (List WorkerRoom)
unfolding room_of
fetch r [] = ok []
fetch r (id ∷ ids) = do w ← room_of id (get_worker r id); ws ← fetch r ids; ok (w ∷ ws)

abbrev is_empty : List Str → Bool
is_empty [] = true
is_empty _ = false

unfoldable pub allocate_assignments : Registry → Str → Str → ℤ → List Str → Outcome Allocation
unfolding allocate fetch
allocate_assignments r run_id stage_id target_vus worker_ids =
    if is_nonpos target_vus
    then err invalid_target_vus
    else if is_empty worker_ids
    then err no_workers_available
    else (fetch r worker_ids >>= allocate run_id stage_id (pos_part target_vus))
