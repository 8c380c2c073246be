-- ===== src/Api/RateLimit/Clients.antt =====
-- How many clients the limiter remembers.
use mcpdrill.Prelude.{
  ℕ, ◌≤◌, ◌<◌, ◌≡◌, refl, ◌⊎◌, List, [], ◌∷◌, Bool, true, false, some, arith, length, Str, str_eq,
  Dict, lookup, erase, insert, subst, if_cases, not, ◌&&◌, Option-cases, inl, inr, if◌then◌else◌,
  ltb, leb,
}
use mcpdrill.Api.RateLimit.{
  RateLimiter, RateLimiterConfig, ClientBucket, new_rate_limiter, allow_key, take, cleanup_locked,
  keep_seen, with_bucket, make_room, ask, evict_oldest_locked, oldest_key, oldest_from, key_of,
  is_empty,
}

-- Requests of clients, each with the readings of the clock.
pub record Request : Type 0 where
  pub key : Str
  pub now : ℕ
  pub made : ℕ
  pub taken : ℕ

unfoldable pub run : RateLimiter → List Request → RateLimiter
run r [] = r
run r (q ∷ qs) = run (allow_key r q.key q.now q.made q.taken).0 qs

-- The keys of the map are not empty.
abbrev pub AreNamed : Dict ClientBucket → Type 0
AreNamed [] = Unit
AreNamed ((k, c) ∷ m) = (is_empty k ≡ false) × AreNamed m

pub record IsBounded (r : RateLimiter) : Type 0 where
  pub named : AreNamed r.buckets
  pub few : length r.buckets ≤ r.config.max_clients

keep-AreNamed :
    (ttl now : ℕ) (m : Dict ClientBucket)
    → AreNamed m
    → AreNamed (keep_seen ttl now m) × (length (keep_seen ttl now m) ≤ length m)
unfolding keep_seen
keep-AreNamed ttl now [] h = (tt, omega arith)
keep-AreNamed ttl now ((k, c) ∷ m) h = ground (arith, keep-AreNamed ttl now m h.1)

cleanup-IsBounded : (r : RateLimiter) (now : ℕ) → IsBounded r → IsBounded (cleanup_locked r now)
unfolding cleanup_locked
cleanup-IsBounded r now h = grind (arith, keep-AreNamed)

erase-AreNamed :
    (k : Str) (m : Dict ClientBucket)
    → AreNamed m
    → AreNamed (erase k m) × (length (erase k m) ≤ length m)
erase-AreNamed k [] h = (tt, omega arith)
erase-AreNamed k ((j, c) ∷ m) h = ground (arith, erase-AreNamed k m h.1)

-- Whether a key stands in the map.
abbrev has : Str → Dict ClientBucket → Bool
has k [] = false
has k ((j, c) ∷ m) = if str_eq j k then true else has k m

erase-shorter :
    (k : Str) (m : Dict ClientBucket) → AreNamed m → has k m ≡ true → length (erase k m) < length m
erase-shorter k [] h e = cc
erase-shorter k ((j, c) ∷ m) h e = ground (arith, erase-AreNamed k m h.1, erase-shorter k m h.1)

lookup-has :
    (k : Str) (m : Dict ClientBucket) {c : ClientBucket} → lookup k m ≡ some c → has k m ≡ true
lookup-has k [] e = cc
lookup-has k ((j, d) ∷ m) {c} e = ground (arith, lookup-has k m {c = c})

has-at : (k j : Str) (c : ClientBucket) (m : Dict ClientBucket) → k ≡ j → has k ((j, c) ∷ m) ≡ true
has-at k j c m e = ground arith

has-cons :
    (j k : Str) (c : ClientBucket) (m : Dict ClientBucket)
    → has k m ≡ true
    → has k ((j, c) ∷ m) ≡ true
has-cons j k c m e = ground arith

-- The scan ends at the key it began with or at one it met.
oldest_from-has :
    (k : Str) (t : ℕ) (m : Dict ClientBucket)
    → (oldest_from k t m ≡ k) ⊎ (has (oldest_from k t m) m ≡ true)
unfolding oldest_from
oldest_from-has k t [] = inl refl
oldest_from-has k t ((j, c) ∷ m) =
    elim (ltb c.last_seen t)
      as (λ older.
        let x = oldest_from (if older then j else k) (if older then c.last_seen else t) m in
        (x ≡ k) ⊎ (has x ((j, c) ∷ m) ≡ true)) [
          | true ↦ elim (oldest_from-has j c.last_seen m) [
            | inl same ↦ inr (has-at _ j c m same)
            | inr met ↦ inr (has-cons j _ c m met)
          ]
          | false ↦ elim (oldest_from-has k t m) [
            | inl same ↦ inl same
            | inr met ↦ inr (has-cons j _ c m met)
          ]
        ]

has-named : (k : Str) (m : Dict ClientBucket) → AreNamed m → has k m ≡ true → is_empty k ≡ false
has-named k [] h e = cc
has-named k ((j, c) ∷ m) h e = ground (arith, has-named k m h.1)

oldest-has :
    (k : Str) (c : ClientBucket) (m : Dict ClientBucket)
    → has (oldest_key ((k, c) ∷ m)) ((k, c) ∷ m) ≡ true
unfolding oldest_key
oldest-has k c m = elim (oldest_from-has k c.last_seen m) [
  | inl same ↦ has-at _ k c m same
  | inr met ↦ has-cons k _ c m met
]

evict-shorter :
    (m : Dict ClientBucket)
    → AreNamed m
    → 0 < length m
    → AreNamed (evict_oldest_locked m) × (length (evict_oldest_locked m) < length m)
unfolding evict_oldest_locked
evict-shorter [] h l = absurd (omega arith)
evict-shorter ((k, c) ∷ m) h l =
    let m' : Dict ClientBucket = (k, c) ∷ m in
    let met = oldest-has k c m in
    rw (has-named (oldest_key m') m' h met)
      ((erase-AreNamed (oldest_key m') m' h).0, erase-shorter (oldest_key m') m' h met)

key_of-named : (k : Str) → is_empty (key_of k) ≡ false
key_of-named [] = refl
key_of-named (c ∷ k) = refl

-- Room for the key: it stands in the map, or the map is not full.
record HasRoom (max : ℕ) (k : Str) (m : Dict ClientBucket) : Type 0 where
  named : AreNamed m
  few : length m ≤ max
  room : (has k m ≡ true) ⊎ (length m < max)

make_room-HasRoom :
    (r : RateLimiter) (k : Str)
    → 0 < r.config.max_clients
    → IsBounded r
    → HasRoom r.config.max_clients k (make_room r)
unfolding make_room
make_room-HasRoom r k pos h =
    if_cases (HasRoom r.config.max_clients k)
      (ltb 0 r.config.max_clients && leb r.config.max_clients (length r.buckets))
      (evict_oldest_locked r.buckets) r.buckets
      (λ full.
        let s = evict-shorter r.buckets h.named (ground (arith, full, pos)) in
        let few = h.few in
        record { named = s.0; few = omega (arith, s.1); room = inr (omega (arith, s.1)) })
      (λ free. record { named = h.named; few = h.few; room = inr (ground (arith, free, pos)) })

with_bucket-HasRoom :
    (r : RateLimiter) (k : Str) (now made : ℕ)
    → 0 < r.config.max_clients
    → IsBounded r
    → HasRoom r.config.max_clients k (with_bucket r k now made).0
unfolding with_bucket
with_bucket-HasRoom r k now made pos h = elim (Option-cases (lookup k r.buckets)) [
  | inr (c, e) ↦
      rw (e, with_bucket)
        (record { named = h.named; few = h.few; room = inl (lookup-has k r.buckets e) })
  | inl e ↦ rw (e, with_bucket) (make_room-HasRoom r k pos h)
]

insert-IsBounded :
    (max : ℕ) (k : Str) (m : Dict ClientBucket) (c : ClientBucket)
    → is_empty k ≡ false
    → HasRoom max k m
    → AreNamed (insert k c m) × (length (insert k c m) ≤ max)
insert-IsBounded max k m c e h =
    let a = erase-AreNamed k m h.named in
    let few = h.few in
    elim (h.room) [
      | inl there ↦ ((e, a.0), omega (arith, erase-shorter k m h.named there))
      | inr room ↦ ((e, a.0), omega (arith, a.1))
    ]

cleanup-config : (r : RateLimiter) (now : ℕ) → (cleanup_locked r now).config ≡ r.config
unfolding cleanup_locked
cleanup-config r now = ground arith

-- What a call keeps.
record Kept (c : RateLimiterConfig) (r : RateLimiter) : Type 0 where
  bounded : IsBounded r
  same : r.config ≡ c

ask-Kept :
    (r : RateLimiter) (k : Str) (now made taken : ℕ)
    → is_empty k ≡ false
    → 0 < r.config.max_clients
    → IsBounded r
    → Kept r.config (ask r k now made taken).0
unfolding ask
ask-Kept r k now made taken e pos h =
    let w = with_bucket r k now made in
    let b =
      insert-IsBounded r.config.max_clients k w.0
        (record { bucket = (take w.1.bucket taken).0; last_seen = now }) e
        (with_bucket-HasRoom r k now made pos h) in
    record { bounded = record { named = b.0; few = b.1 }; same = refl }

allow_key-Kept :
    (r : RateLimiter) (k : Str) (now made taken : ℕ)
    → 0 < r.config.max_clients
    → IsBounded r
    → Kept r.config (allow_key r k now made taken).0
unfolding allow_key
allow_key-Kept r k now made taken pos h =
    let r' = cleanup_locked r now in
    let same = cleanup-config r now in
    if_cases (λ (x : RateLimiter × Bool). Kept r.config x.0) (not r.config.enabled) (r, true)
      (ask r' (key_of k) now made taken) (λ off. record { bounded = h; same = refl })
      (λ on.
        subst (λ c. Kept c (ask r' (key_of k) now made taken).0) same
          (ask-Kept r' (key_of k) now made taken (key_of-named k) (rw same pos)
            (cleanup-IsBounded r now h)))

run-IsBounded :
    (r : RateLimiter) (qs : List Request)
    → 0 < r.config.max_clients
    → IsBounded r
    → length (run r qs).buckets ≤ r.config.max_clients
unfolding run
run-IsBounded r [] pos h = h.few
run-IsBounded r (q ∷ qs) pos h =
    let r' = (allow_key r q.key q.now q.made q.taken).0 in
    let s = allow_key-Kept r q.key q.now q.made q.taken pos h in
    subst (λ (c : RateLimiterConfig). length (run r' qs).buckets ≤ c.max_clients) s.same
      (run-IsBounded r' qs (rw (s.same) pos) s.bounded)

-- A limiter with a bound on its clients, new and then asked any number of times by any clients,
-- never holds more buckets than that bound.
pub run_new-few :
    (c : RateLimiterConfig) (now : ℕ) (qs : List Request)
    → 0 < c.max_clients
    → length (run (new_rate_limiter (some c) now) qs).buckets ≤ c.max_clients
unfolding new_rate_limiter
run_new-few c now qs pos =
    run-IsBounded (new_rate_limiter (some c) now) qs pos (record { named = tt; few = omega arith })
