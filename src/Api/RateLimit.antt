-- ===== src/Api/RateLimit.antt =====
-- internal/controlplane/api/ratelimit.go. Times are nanoseconds, of the wall clock in a bucket, so a
-- clock that is set back can make the tokens negative. A token is 10 ^ 18 parts and a rate is a
-- number of billionths of a request per second, so that a nanosecond adds as many parts as the rate
-- says; the rounding of floats is not modelled. A setting that is not positive is zero. The burst
-- size is not negative.
pub mod Bounds
pub mod Clients
use mcpdrill.Prelude.{
  ℕ, ◌+◌, ◌-◌, ◌*◌, ◌++◌, List, [], ◌∷◌, Bool, true, false, not, ◌&&◌, Option, none, some, ltb, leb,
  ◌==◌, if◌then◌else◌, length, Str, str_eq, codes, Dict, lookup, erase, insert, update_at,
}
use mcpdrill.Prelude.Int.{ℤ, pos, pos_part, neg_part, sub_ℕ, ltb_ℤ}

abbrev pub token : ℕ
token = 1000000000000000000

abbrev pub default_max_rate_limiter_clients : ℕ
default_max_rate_limiter_clients = 10000

abbrev pub default_rate_limiter_client_ttl : ℕ
default_rate_limiter_client_ttl = 600000000000

abbrev pub default_rate_limiter_cleanup_interval : ℕ
default_rate_limiter_cleanup_interval = 60000000000

pub record RateLimiterConfig : Type 0 where
  pub requests_per_second : ℕ
  pub burst_size : ℕ
  pub enabled : Bool
  pub max_clients : ℕ
  pub client_ttl : ℕ
  pub cleanup_interval : ℕ

abbrev pub default_rate_limiter_config : RateLimiterConfig
default_rate_limiter_config = record {
  requests_per_second = 100000000000;
  burst_size = 200;
  enabled = true;
  max_clients = default_max_rate_limiter_clients;
  client_ttl = default_rate_limiter_client_ttl;
  cleanup_interval = default_rate_limiter_cleanup_interval;
}

pub record TokenBucket : Type 0 where
  pub tokens : ℤ
  pub max_tokens : ℕ
  pub refill_rate : ℕ
  pub last_refill_ns : ℕ

unfoldable pub new_token_bucket : ℕ → ℕ → ℕ → TokenBucket
new_token_bucket requests_per_second burst_size now = record {
  tokens = pos (burst_size * token);
  max_tokens = burst_size * token;
  refill_rate = requests_per_second;
  last_refill_ns = now;
}

-- The tokens after the time since the last refill, before they are capped.
abbrev pub grown : TokenBucket → ℕ → ℤ
grown b now =
    sub_ℕ (pos_part b.tokens + now * b.refill_rate)
      (neg_part b.tokens + b.last_refill_ns * b.refill_rate)

abbrev pub refilled : TokenBucket → ℕ → ℤ
refilled b now = if ltb_ℤ (pos b.max_tokens) (grown b now) then pos b.max_tokens else grown b now

unfoldable pub take : TokenBucket → ℕ → TokenBucket × Bool
take b now =
    let b' = record b { tokens = refilled b now; last_refill_ns = now } in
    if leb token (pos_part (refilled b now))
    then (record b' { tokens = pos (pos_part (refilled b now) - token) }, true)
    else (b', false)

pub record ClientBucket : Type 0 where
  pub bucket : TokenBucket
  pub last_seen : ℕ

pub record RateLimiter : Type 0 where
  pub config : RateLimiterConfig
  pub buckets : Dict ClientBucket
  pub last_cleanup : ℕ

unfoldable pub new_rate_limiter : Option RateLimiterConfig → ℕ → RateLimiter
new_rate_limiter none now = record {
  config = default_rate_limiter_config;
  buckets = [];
  last_cleanup = now;
}
new_rate_limiter (some c) now = record { config = c; buckets = []; last_cleanup = now }

-- The loop of the cleanup: those seen last before the cutoff, `ttl` ago, go.
unfoldable pub keep_seen : ℕ → ℕ → Dict ClientBucket → Dict ClientBucket
keep_seen ttl now [] = []
keep_seen ttl now ((k, c) ∷ m) =
    if ltb (c.last_seen + ttl) now then keep_seen ttl now m else (k, c) ∷ keep_seen ttl now m

unfoldable pub cleanup_locked : RateLimiter → ℕ → RateLimiter
unfolding keep_seen
cleanup_locked r now =
    let interval : ℕ =
      if r.config.cleanup_interval == 0
      then default_rate_limiter_cleanup_interval
      else r.config.cleanup_interval in
    let ttl : ℕ =
      if r.config.client_ttl == 0 then default_rate_limiter_client_ttl else r.config.client_ttl in
    if ltb now (r.last_cleanup + interval)
    then r
    else record r { last_cleanup = now; buckets = keep_seen ttl now r.buckets }

-- The loop of the eviction: the key seen least recently, the first of these.
unfoldable pub oldest_from : Str → ℕ → Dict ClientBucket → Str
oldest_from k t [] = k
oldest_from k t ((j, c) ∷ m) =
    oldest_from (if ltb c.last_seen t then j else k) (if ltb c.last_seen t then c.last_seen else t)
      m

unfoldable pub oldest_key : Dict ClientBucket → Str
unfolding oldest_from
oldest_key [] = []
oldest_key ((k, c) ∷ m) = oldest_from k c.last_seen m

abbrev pub is_empty : Str → Bool
is_empty [] = true
is_empty (c ∷ s) = false

unfoldable pub evict_oldest_locked : Dict ClientBucket → Dict ClientBucket
unfolding oldest_key
evict_oldest_locked m = if is_empty (oldest_key m) then m else erase (oldest_key m) m

-- The map with room for one more client, if there is a bound.
unfoldable pub make_room : RateLimiter → Dict ClientBucket
unfolding evict_oldest_locked
make_room r =
    if ltb 0 r.config.max_clients && leb r.config.max_clients (length r.buckets)
    then evict_oldest_locked r.buckets
    else r.buckets

-- The bucket of the key, made if it is not there, after room was made for it.
unfoldable pub with_bucket : RateLimiter → Str → ℕ → ℕ → Dict ClientBucket × ClientBucket
unfolding make_room new_token_bucket
with_bucket r key now made = elim (lookup key r.buckets) [
  | some c ↦ (r.buckets, c)
  | none ↦
      let c : ClientBucket = record {
        bucket = new_token_bucket r.config.requests_per_second r.config.burst_size made;
        last_seen = now;
      } in
      (make_room r, c)
]

abbrev pub key_of : Str → Str
key_of key = if is_empty key then codes "unknown" else key

-- `now`, `made` and `taken` are the three readings of the clock. The pointer of the entry that the
-- map holds is written through, in place or as it is inserted.
unfoldable pub ask : RateLimiter → Str → ℕ → ℕ → ℕ → RateLimiter × Bool
unfolding with_bucket take
ask r key now made taken =
    let (m, c) = with_bucket r key now made in
    let (b, allowed) = take c.bucket taken in
    let c' : ClientBucket = record { bucket = b; last_seen = now } in
    (record r { buckets = insert key c' m }, allowed)

unfoldable pub allow_key : RateLimiter → Str → ℕ → ℕ → ℕ → RateLimiter × Bool
unfolding cleanup_locked ask
allow_key r key now made taken =
    if not r.config.enabled
    then (r, true)
    else ask (cleanup_locked r now) (key_of key) now made taken

unfoldable pub allow : RateLimiter → ℕ → ℕ → ℕ → RateLimiter × Bool
unfolding allow_key
allow r now made taken = allow_key r (codes "global") now made taken
