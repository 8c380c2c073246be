-- ===== src/Api/Store/Tracks.antt =====
-- The order of the store lists the keys of its map, through the operations of both.
use mcpdrill.Prelude.{
  ℕ, suc, ◌-◌, ◌<◌, ◌≡◌, refl, sym, ap, subst, ◌∙◌, inl, inr, ◌++◌, List, [], ◌∷◌, true, false, not,
  leb, if◌then◌else◌, if_cases, if_true, if_false, length, drop, drop_nil, keep, leb→le, arith, Str,
  str_eq, Str-cases, Dict, erase, insert, update_at, IsKeyed, erase-IsKeyed,
}
use mcpdrill.Scheduler.Leases.{mem}
use mcpdrill.Api.Store.Records.{RunTelemetry}
use mcpdrill.Api.Store.Batches.{evict_oldest, remove_first}
use mcpdrill.Api.Store.Queries.{of_run}
use mcpdrill.Api.Store.Keys.{
  known, known-erase, known-insert, str_eq_self, str_eq-sym, if_same, erase-erase, erase-insert,
  erase-update_at, known-update_at, length-erase,
}

-- The ids in the order are the keys of the map, each once.
abbrev pub Tracks : Dict RunTelemetry → List Str → Type 0
Tracks m [] = m ≡ []
Tracks m (id ∷ ids) = (known id m ≡ true) × Tracks (erase id m) ids

pub Tracks-length :
    (m : Dict RunTelemetry) (ids : List Str) → IsKeyed m → Tracks m ids → length m ≡ length ids
Tracks-length m [] keyed t = ap length t
Tracks-length m (id ∷ ids) keyed t =
    length-erase id m keyed t.0
    ∙ ap suc (Tracks-length (erase id m) ids (erase-IsKeyed id m keyed) t.1)

known-nil : (k : Str) → known k [] ≡ false
unfolding of_run
known-nil k = refl

pub Tracks-mem :
    (m : Dict RunTelemetry) (ids : List Str) → Tracks m ids → (k : Str) → known k m ≡ mem k ids
unfolding mem
Tracks-mem m [] t k = ap (known k) t ∙ known-nil k
Tracks-mem m (id ∷ ids) t k = elim (Str-cases id k) [
  | inl (same, e) ↦ ap (λ x. known x m) (sym same) ∙ t.0 ∙ rw e refl
  | inr other ↦
      sym (if_false (str_eq id k) false (known k m) other)
      ∙ sym (known-erase id k m)
      ∙ Tracks-mem (erase id m) ids t.1 k
      ∙ rw other refl
]

pub Tracks-update_at :
    (k : Str) (f : RunTelemetry → RunTelemetry) (m : Dict RunTelemetry) (ids : List Str)
    → Tracks m ids
    → Tracks (update_at k f m) ids
Tracks-update_at k f m [] t = ap (update_at k f) t
Tracks-update_at k f m (id ∷ ids) t = (
  known-update_at id k f m ∙ t.0,
  subst (λ m'. Tracks m' ids) (sym (erase-update_at id k f m))
      (Tracks-update_at k f (erase id m) ids t.1),
)

pub Tracks-insert :
    (k : Str) (v : RunTelemetry) (m : Dict RunTelemetry) (ids : List Str)
    → known k m ≡ false
    → Tracks m ids
    → Tracks (insert k v m) (ids ++ (k ∷ []))
Tracks-insert k v m [] new t = (
  known-insert k k v m ∙ if_true (str_eq k k) true (known k m) (str_eq_self k),
  if_true (str_eq k k) (erase k (erase k m)) ((k, v) ∷ erase k (erase k m)) (str_eq_self k)
      ∙ ap (λ x. erase k (erase k x)) t,
)
Tracks-insert k v m (id ∷ ids) new t = elim (Str-cases k id) [
  | inl (same, e) ↦
      let clash : false ≡ true = sym new ∙ ap (λ x. known x m) same ∙ t.0 in absurd (cc clash)
  | inr other ↦ (
    known-insert k id v m ∙ if_false (str_eq k id) true (known id m) other ∙ t.0,
    subst (λ m'. Tracks m' (ids ++ (k ∷ []))) (sym (erase-insert k id v m other))
        (Tracks-insert k v (erase id m) ids
          (known-erase id k m
            ∙ ap (λ b. if str_eq id k then false else b) new
            ∙ if_same (str_eq id k) false)
          t.1),
  )
]

-- A queue without an id.
abbrev pub without : Str → List Str → List Str
without id q = keep (λ j. not (str_eq j id)) q

-- Without the id the rest of the order stays as it is.
keep_unless : (k : Str) (ids : List Str) → mem k ids ≡ false → without k ids ≡ ids
unfolding mem
keep_unless k [] h = refl
keep_unless k (id ∷ ids) h = ground (arith, keep_unless k ids)

pub Tracks-remove :
    (k : Str) (m : Dict RunTelemetry) (ids : List Str)
    → Tracks m ids
    → Tracks (erase k m) (remove_first k ids) × (remove_first k ids ≡ without k ids)
unfolding remove_first
Tracks-remove k m [] t = (ap (erase k) t, refl)
Tracks-remove k m (id ∷ ids) t = elim (Str-cases id k) [
  | inl (same, e) ↦ rw e (
    subst (λ x. Tracks (erase x m) ids) same t.1,
    sym (
        keep_unless k ids (
          sym (Tracks-mem (erase id m) ids t.1 k)
          ∙ known-erase id k m
          ∙ if_true (str_eq id k) false (known k m) e)),
  )
  | inr other ↦
      let rest = Tracks-remove k (erase id m) ids t.1 in
      rw other (
        (
          known-erase k id m
              ∙ if_false (str_eq k id) false (known id m) (str_eq-sym id k other)
              ∙ t.0,
          subst (λ m'. Tracks m' (remove_first k ids)) (erase-erase k id m) rest.0,
        ),
        ap (λ q. id ∷ q) rest.1,
      )
]

-- What the eviction leaves.
pub record Evicted (limit : ℕ) (ids : List Str) (r : Dict RunTelemetry × List Str) : Type 0 where
  pub keyed : IsKeyed r.0
  pub tracks : Tracks r.0 r.1
  pub left : r.1 ≡ drop (suc (length ids) - limit) ids

pub evict_oldest-Evicted :
    (limit : ℕ) (m : Dict RunTelemetry) (ids : List Str)
    → 0 < limit
    → IsKeyed m
    → Tracks m ids
    → Evicted limit ids (evict_oldest limit m ids)
unfolding evict_oldest
evict_oldest-Evicted limit m [] pos keyed t = record {
  keyed = keyed;
  tracks = t;
  left = sym (drop_nil (1 - limit));
}
evict_oldest-Evicted limit m (id ∷ ids) pos keyed t =
    let counts = Tracks-length m (id ∷ ids) keyed t in
    let after = evict_oldest-Evicted limit (erase id m) ids pos (erase-IsKeyed id m keyed) t.1 in
    if_cases (Evicted limit (id ∷ ids)) (leb limit (length m)) (evict_oldest limit (erase id m) ids)
      (m, id ∷ ids)
      (λ full.
        let one_more : suc (suc (length ids)) - limit ≡ suc (suc (length ids) - limit) =
          omega (arith, counts, leb→le limit (length m) full) in
        record {
          keyed = after.keyed;
          tracks = after.tracks;
          left = after.left ∙ ap (λ n. drop n (id ∷ ids)) (sym one_more);
        })
      (λ room.
        let none_more : suc (suc (length ids)) - limit ≡ 0 = ground (arith, counts, room) in
        record { keyed = keyed; tracks = t; left = ap (λ n. drop n (id ∷ ids)) (sym none_more) })
