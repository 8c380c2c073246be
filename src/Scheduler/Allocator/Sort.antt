-- ===== src/Scheduler/Allocator/Sort.antt =====
-- The sort keeps the workers and puts those with the most room first.
use mcpdrill.Prelude.{
  ℕ, ◌+◌, ◌≤◌, ◌≡◌, ◌≢◌, List, [], ◌∷◌, arith, sym, All, total, leb, Bool-cases, inl, inr,
}
use mcpdrill.Scheduler.Allocator.{WorkerRoom, room, insert_sorted, sort}

abbrev pub IsDescending : List WorkerRoom → Type 0
IsDescending [] = Unit {0}
IsDescending (w ∷ ws) = All (λ x. x.max_vus ≤ w.max_vus) ws × IsDescending ws

pub total-insert_sorted :
    (w : WorkerRoom) (ws : List WorkerRoom)
    → total room (insert_sorted w ws) ≡ w.max_vus + total room ws
unfolding insert_sorted
total-insert_sorted w [] = omega arith
total-insert_sorted w (x ∷ xs) = ground (arith, total-insert_sorted w xs)

pub total-sort : (ws : List WorkerRoom) → total room (sort ws) ≡ total room ws
unfolding sort
total-sort [] = omega arith
total-sort (w ∷ ws) = omega (arith, total-insert_sorted w (sort ws), total-sort ws)

pub All-insert_sorted {ℓ} :
    (P : WorkerRoom → Type ℓ) (w : WorkerRoom) (ws : List WorkerRoom)
    → P w
    → All P ws
    → All P (insert_sorted w ws)
unfolding insert_sorted
All-insert_sorted P w [] p a = (p, tt)
All-insert_sorted P w (x ∷ xs) p a = elim (Bool-cases (leb x.max_vus w.max_vus)) [
  | inl here ↦ rw (here, insert_sorted) (p, a)
  | inr later ↦ rw (later, insert_sorted) (a.0, All-insert_sorted P w xs p a.1)
]

pub All-sort {ℓ} : (P : WorkerRoom → Type ℓ) (ws : List WorkerRoom) → All P ws → All P (sort ws)
unfolding sort
All-sort P [] a = tt
All-sort P (w ∷ ws) a = All-insert_sorted P w (sort ws) a.0 (All-sort P ws a.1)

All-below :
    (m n : ℕ) (ws : List WorkerRoom)
    → m ≤ n
    → All (λ x. x.max_vus ≤ m) ws
    → All (λ x. x.max_vus ≤ n) ws
All-below m n [] h a = tt
All-below m n (w ∷ ws) h a = (omega arith, All-below m n ws h a.1)

insert_sorted-IsDescending :
    (w : WorkerRoom) (ws : List WorkerRoom) → IsDescending ws → IsDescending (insert_sorted w ws)
unfolding insert_sorted
insert_sorted-IsDescending w [] h = (tt, tt)
insert_sorted-IsDescending w (x ∷ xs) h = elim (Bool-cases (leb x.max_vus w.max_vus)) [
  | inl here ↦
      rw (here, insert_sorted)
        ((ground arith, All-below x.max_vus w.max_vus xs (ground arith) h.0), h)
  | inr later ↦
      rw (later, insert_sorted)
        (
          All-insert_sorted (λ y. y.max_vus ≤ x.max_vus) w xs (ground arith) h.0,
          insert_sorted-IsDescending w xs h.1,
        )
]

pub sort-IsDescending : (ws : List WorkerRoom) → IsDescending (sort ws)
unfolding sort
sort-IsDescending [] = tt
sort-IsDescending (w ∷ ws) = insert_sorted-IsDescending w (sort ws) (sort-IsDescending ws)

-- No worker stands twice.
abbrev pub IsDistinct : List WorkerRoom → Type 0
IsDistinct [] = Unit {0}
IsDistinct (w ∷ ws) = All (λ x. x.worker_id ≢ w.worker_id) ws × IsDistinct ws

insert_sorted-IsDistinct :
    (w : WorkerRoom) (ws : List WorkerRoom)
    → All (λ x. x.worker_id ≢ w.worker_id) ws
    → IsDistinct ws
    → IsDistinct (insert_sorted w ws)
unfolding insert_sorted
insert_sorted-IsDistinct w [] a d = (tt, tt)
insert_sorted-IsDistinct w (x ∷ xs) a d = elim (Bool-cases (leb x.max_vus w.max_vus)) [
  | inl here ↦ rw (here, insert_sorted) (a, d)
  | inr later ↦
      rw (later, insert_sorted)
        (
          All-insert_sorted (λ y. y.worker_id ≢ x.worker_id) w xs (λ e. a.0 (sym e)) d.0,
          insert_sorted-IsDistinct w xs a.1 d.1,
        )
]

pub sort-IsDistinct : (ws : List WorkerRoom) → IsDistinct ws → IsDistinct (sort ws)
unfolding sort
sort-IsDistinct [] d = tt
sort-IsDistinct (w ∷ ws) d =
    insert_sorted-IsDistinct w (sort ws) (All-sort (λ x. x.worker_id ≢ w.worker_id) ws d.0)
      (sort-IsDistinct ws d.1)
