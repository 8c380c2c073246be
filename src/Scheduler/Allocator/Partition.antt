-- ===== src/Scheduler/Allocator/Partition.antt =====
-- The ranges that are handed out cover the virtual users 0, …, target - 1, each once.
use mcpdrill.Prelude.{
  ℕ, ◌+◌, ◌-◌, ◌≤◌, ◌<◌, ◌≡◌, refl, List, [], ◌∷◌, Bool, ◌&&◌, arith, Str, All, total, count_if,
  ltb, leb, ◌==◌, if◌then◌else◌, Bool-cases, inl, inr, subst,
}
use mcpdrill.Scheduler.Types.{Assignment}
use mcpdrill.Scheduler.Allocator.{WorkerRoom, room, place, assignments_of}
use mcpdrill.Scheduler.Allocator.Sort.{IsDescending}

abbrev pub in_range : ℕ → Assignment → Bool
in_range vu a = leb a.vu_id_range.start vu && ltb vu a.vu_id_range.end

module _ (run_id stage_id : Str) where
  pub place-count :
      (ws : List WorkerRoom) (s n vu : ℕ)
      → n ≤ total room ws
      → count_if (in_range vu) (assignments_of (place run_id stage_id ws s n))
        ≡ (if leb s vu && ltb vu (s + n) then 1 else 0)
  unfolding place
  place-count [] s n vu h = ground arith
  place-count (w ∷ ws) s n vu h =
      let c : ℕ = if ltb n w.max_vus then n else w.max_vus in
      ground (arith, place-count ws (s + c) (n - c) vu)

  -- What the loop gives to a worker: its stage, and not more than its room.
  abbrev pub Grants {ℓ} : (WorkerRoom → Type ℓ) → Str × Assignment → Type ℓ
  Grants P (id, a) =
      (w : WorkerRoom) × P w
      × (id ≡ w.worker_id)
      × (a.run_id ≡ run_id)
      × (a.stage_id ≡ stage_id)
      × (a.vu_id_range.end ≤ a.vu_id_range.start + w.max_vus)

  pub place-Grants {ℓ} :
      (P : WorkerRoom → Type ℓ) (ws : List WorkerRoom) (s n : ℕ)
      → All P ws
      → All (Grants P) (place run_id stage_id ws s n)
  unfolding place
  place-Grants P [] s n a = tt
  place-Grants P (w ∷ ws) s n a = elim (Bool-cases (n == 0)) [
    | inl done ↦ rw (done, place) tt
    | inr more ↦
        let c : ℕ = if ltb n w.max_vus then n else w.max_vus in
        rw (more, place)
          ((w, a.0, refl, refl, refl, ground arith), place-Grants P ws (s + c) (n - c) a.1)
  ]

  no_room : (ws : List WorkerRoom) → All (λ x. x.max_vus ≤ 0) ws → total room ws ≡ 0
  no_room [] a = refl
  no_room (w ∷ ws) a = omega (arith, no_room ws a.1)

  -- With the most room first and room enough, nobody is given an empty range.
  pub place-nonempty :
      (ws : List WorkerRoom) (s n : ℕ)
      → IsDescending ws
      → n ≤ total room ws
      → All
          (λ a. a.vu_id_range.start < a.vu_id_range.end)
          (assignments_of (place run_id stage_id ws s n))
  unfolding place
  place-nonempty [] s n d h = tt
  place-nonempty (w ∷ ws) s n d h =
      let c : ℕ = if ltb n w.max_vus then n else w.max_vus in
      ground (
        arith,
        place-nonempty ws (s + c) (n - c) d.1,
        λ (z : w.max_vus ≡ 0). no_room ws (subst (λ t. All (λ x. x.max_vus ≤ t) ws) z d.0),
      )
