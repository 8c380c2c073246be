-- ===== src/Vu/Limits.antt =====
-- internal/vu/rate_limiter.go: how many operations the virtual users start per second, and how many are
-- in flight. Times are nanoseconds of a monotonic clock, a token is 10 ^ 18 parts and a rate a number of
-- billionths of an operation per second; the rounding of floats is not modelled. A rate or a bound
-- that is not positive is zero. `Acquire` is its attempts, each after the wait that the one before
-- asks for.
pub mod InFlight
use mcpdrill.Prelude.{
  ℕ, ◌+◌, ◌-◌, ◌*◌, ◌/◌, ◌%◌, Bool, true, false, not, Option, none, some, ltb, leb, ◌==◌,
  if◌then◌else◌,
}

abbrev pub token : ℕ
token = 1000000000000000000

pub record RateLimiter : Type 0 where
  pub target_rps : ℕ
  pub tokens : ℕ
  pub max_tokens : ℕ
  pub last_refill : ℕ
  pub refill_rate : ℕ
  pub enabled : Bool

-- The bound of the tokens: the rate, between 1 and 10000 operations.
abbrev pub max_tokens_of : ℕ → ℕ
max_tokens_of target_rps =
    let wanted = target_rps * 1000000000 in
    if ltb wanted token then token else if ltb (10000 * token) wanted then 10000 * token else wanted

unfoldable pub new_rate_limiter : ℕ → ℕ → RateLimiter
new_rate_limiter target_rps now =
    if target_rps == 0
    then record {
      target_rps = target_rps;
      tokens = 0;
      max_tokens = 0;
      last_refill = 0;
      refill_rate = 0;
      enabled = false;
    }
    else record {
      target_rps = target_rps;
      tokens = max_tokens_of target_rps;
      max_tokens = max_tokens_of target_rps;
      last_refill = now;
      refill_rate = target_rps;
      enabled = true;
    }

unfoldable pub refill : RateLimiter → ℕ → RateLimiter
refill r now =
    let grown = r.tokens + (now - r.last_refill) * r.refill_rate in
    record r { last_refill = now; tokens = if ltb r.max_tokens grown then r.max_tokens else grown }

unfoldable pub try_acquire : RateLimiter → ℕ → RateLimiter × Bool
unfolding refill
try_acquire r now =
    if not r.enabled
    then (r, true)
    else if leb token (refill r now).tokens
    then (record (refill r now) { tokens = (refill r now).tokens - token }, true)
    else (refill r now, false)

-- The wait for a token: a second by the rate, in whole nanoseconds, and no less than 100 microseconds.
abbrev pub wait_duration : RateLimiter → ℕ
wait_duration r =
    let wait = 1000000000000000000 / r.refill_rate in if ltb wait 100000 then 100000 else wait

-- One attempt of `Acquire`: none if it is done, and else how long it waits for the next.
unfoldable pub acquire_attempt : RateLimiter → ℕ → RateLimiter × Option ℕ
unfolding try_acquire
acquire_attempt r now =
    let a = try_acquire r now in (a.0, if a.1 then none else some (wait_duration r))

unfoldable pub available_tokens : RateLimiter → ℕ → RateLimiter × ℕ
unfolding refill
available_tokens r now = (refill r now, (refill r now).tokens)

unfoldable pub update_target_rps : RateLimiter → ℕ → RateLimiter
update_target_rps r target_rps =
    let max = max_tokens_of target_rps in
    if target_rps == 0 then record r { target_rps = target_rps; enabled = false } else record r {
      target_rps = target_rps;
      enabled = true;
      refill_rate = target_rps;
      max_tokens = max;
      tokens = if ltb max r.tokens then max else r.tokens;
    }

pub record InFlightLimiter : Type 0 where
  pub max_in_flight : ℕ
  pub current : ℕ

unfoldable pub new_in_flight_limiter : ℕ → InFlightLimiter
new_in_flight_limiter max_in_flight = record { max_in_flight = max_in_flight; current = 0 }

pub data Waited : Type 0 where
  entered : Waited
  sleeps : Waited
  cancelled : Waited

-- `Acquire` from the start, or from where it sleeps, until it returns or sleeps; the context may be
-- done.
unfoldable pub enter : InFlightLimiter → Bool → InFlightLimiter × Waited
enter l is_done =
    if is_done
    then (l, cancelled)
    else if leb l.max_in_flight l.current
    then (l, sleeps)
    else (record l { current = l.current + 1 }, entered)

unfoldable pub try_enter : InFlightLimiter → InFlightLimiter × Bool
try_enter l =
    if leb l.max_in_flight l.current
    then (l, false)
    else (record l { current = l.current + 1 }, true)

unfoldable pub leave : InFlightLimiter → InFlightLimiter
leave l = record l { current = if ltb 0 l.current then l.current - 1 else l.current }
