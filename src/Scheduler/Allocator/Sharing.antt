-- ===== src/Scheduler/Allocator/Sharing.antt =====
-- What the two methods of the allocator answer.
use mcpdrill.Prelude.{
  ℕ, ◌≤◌, ◌<◌, ◌≡◌, ◌≢◌, refl, List, [], ◌∷◌, some, arith, Str, Dict, lookup, insert, lookup-erase,
  All, total, count_if, ltb, if◌then◌else◌, Bool-cases, inl, inr, ◌==◌,
}
use mcpdrill.Scheduler.Types.{Assignment}
use mcpdrill.Scheduler.Allocator.{
  WorkerRoom, room, place, assignments_of, insert_all, sort, allocate, Outcome, ok, err,
  insufficient_capacity, Allocation,
}
use mcpdrill.Scheduler.Allocator.Sort.{
  IsDistinct, total-sort, All-sort, sort-IsDescending, sort-IsDistinct,
}
use mcpdrill.Scheduler.Allocator.Partition.{
  in_range, place-count, place-nonempty, Grants, place-Grants,
}

abbrev Holds : Dict Assignment → Str × Assignment → Type 0
Holds m (id, a) = lookup id m ≡ some a

lookup-insert_all :
    (k : Str) (m : Dict Assignment) (ps : List (Str × Assignment))
    → All (λ q. q.0 ≢ k) ps
    → lookup k (insert_all m ps) ≡ lookup k m
lookup-insert_all k m [] h = refl
lookup-insert_all k m ((id, a) ∷ ps) h =
    ground (arith, lookup-insert_all k (insert id a m) ps h.1, lookup-erase id k m)

-- The keys of the pairs are those of the workers.
place-keys :
    (run_id stage_id k : Str) (ws : List WorkerRoom) (s n : ℕ)
    → All (λ w. w.worker_id ≢ k) ws
    → All (λ q. q.0 ≢ k) (place run_id stage_id ws s n)
unfolding place
place-keys run_id stage_id k [] s n h = tt
place-keys run_id stage_id k (w ∷ ws) s n h = elim (Bool-cases (n == 0)) [
  | inl done ↦ rw (done, place) tt
  | inr more ↦ rw (more, place) (h.0, place-keys run_id stage_id k ws _ _ h.1)
]

-- No worker is given two ranges.
abbrev HasDistinctKeys : List (Str × Assignment) → Type 0
HasDistinctKeys [] = Unit {0}
HasDistinctKeys ((id, a) ∷ ps) = All (λ q. q.0 ≢ id) ps × HasDistinctKeys ps

place-HasDistinctKeys :
    (run_id stage_id : Str) (ws : List WorkerRoom) (s n : ℕ)
    → IsDistinct ws
    → HasDistinctKeys (place run_id stage_id ws s n)
unfolding place
place-HasDistinctKeys run_id stage_id [] s n d = tt
place-HasDistinctKeys run_id stage_id (w ∷ ws) s n d = elim (Bool-cases (n == 0)) [
  | inl done ↦ rw (done, place) tt
  | inr more ↦
      rw (more, place)
        (
          place-keys run_id stage_id w.worker_id ws _ _ d.0,
          place-HasDistinctKeys run_id stage_id ws _ _ d.1,
        )
]

insert_all-Holds :
    (m : Dict Assignment) (ps : List (Str × Assignment))
    → HasDistinctKeys ps
    → All (Holds (insert_all m ps)) ps
insert_all-Holds m [] d = tt
insert_all-Holds m ((id, a) ∷ ps) d = (
  ground (arith, lookup-insert_all id (insert id a m) ps d.0),
  insert_all-Holds (insert id a m) ps d.1,
)

-- The virtual users 0, …, n - 1 are in one range each and no others in any; no range is empty; and
-- the ranges are those that the map gives to the workers, of whom each satisfies `P`.
abbrev pub Shares {ℓ} : (WorkerRoom → Type ℓ) → Str → Str → ℕ → Allocation → Type ℓ
Shares P run_id stage_id n (handed, m) =
    ((vu : ℕ) → count_if (in_range vu) handed ≡ (if ltb vu n then 1 else 0))
    × All (λ a. a.vu_id_range.start < a.vu_id_range.end) handed
    × ((ps : List (Str × Assignment)) × (handed ≡ assignments_of ps)
        × All (Grants run_id stage_id P) ps
        × All (Holds m) ps)

-- What `allocate` answers, on both branches.
abbrev pub Allocated {ℓ} :
    (WorkerRoom → Type ℓ) → Str → Str → ℕ → List WorkerRoom → Outcome Allocation → Type ℓ
Allocated P run_id stage_id n ws (ok r) = (n ≤ total room ws) × Shares P run_id stage_id n r
Allocated P run_id stage_id n ws (err e) =
    ((e ≡ insufficient_capacity) × (total room ws < n)) × Unit {ℓ}

pub allocate-Allocated {ℓ} :
    (P : WorkerRoom → Type ℓ) (run_id stage_id : Str) (n : ℕ) (ws : List WorkerRoom)
    → All P ws
    → IsDistinct ws
    → Allocated P run_id stage_id n ws (allocate run_id stage_id n ws)
unfolding allocate
allocate-Allocated P run_id stage_id n ws a d = elim (Bool-cases (ltb (total room ws) n)) [
  | inl few ↦ rw (few, allocate) ((refl, ground arith), tt)
  | inr enough ↦
      let placed = place run_id stage_id (sort ws) 0 n in
      let fits : n ≤ total room (sort ws) = ground (arith, total-sort ws) in
      rw (enough, allocate)
        (
          ground arith,
          (
            λ vu. ground (arith, place-count run_id stage_id (sort ws) 0 n vu fits),
            place-nonempty run_id stage_id (sort ws) 0 n (sort-IsDescending ws) fits,
            (
              placed,
              refl,
              place-Grants run_id stage_id P (sort ws) 0 n (All-sort P ws a),
              insert_all-Holds [] placed
                  (place-HasDistinctKeys run_id stage_id (sort ws) 0 n (sort-IsDistinct ws d)),
            ),
          ),
        )
]
