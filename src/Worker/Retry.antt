-- ===== src/Worker/Retry.antt =====
-- internal/worker/retry_client.go: `Do`. What the HTTP client, the timer and the request answer at
-- each attempt is the argument `World`. Errors are numbers; the worker's token is left out.
pub mod Answers
use mcpdrill.Prelude.{
  ℕ, zero, suc, ◌+◌, ◌*◌, List, [], ◌∷◌, Bool, true, false, ◌&&◌, Option, none, some, ltb, leb,
  if◌then◌else◌,
}
use mcpdrill.Prelude.Int.{ℤ, pos, negsuc}

pub record RetryConfig : Type 0 where
  pub max_retries : ℤ
  pub backoff : ℕ
  pub max_backoff : ℕ

pub data Reply : Type 0 where
  failed : ℕ → Reply
  status : ℕ → Reply

-- `wait k b` is what ends the wait of `b` before attempt `k`: the timer, or a context that is done
-- with its error. `body k` is the error of `GetBody` there, if the request has that function.
pub record World : Type 0 where
  pub send : ℕ → Reply
  pub wait : ℕ → ℕ → Option ℕ
  pub body : ℕ → Option ℕ

pub data RetryFailure : Type 0 where
  from_client : ℕ → RetryFailure
  from_body : ℕ → RetryFailure
  retryable_error : ℕ → RetryFailure

-- What `Do` returns: a response, the error of a context, or the error of the last attempt. `none` is
-- a nil error beside a nil response.
pub data Done : Type 0 where
  responded : ℕ → Done
  cancelled : ℕ → Done
  gave_up : Option RetryFailure → Done

abbrev pub try_reply : Reply → Option RetryFailure
try_reply (failed e) = some (from_client e)
try_reply (status code) = if leb 500 code then some (retryable_error code) else none

-- A body that cannot be had again is a failure.
abbrev pub try_body : Option ℕ → Reply → Option RetryFailure
try_body (some e) r = some (from_body e)
try_body none r = try_reply r

-- The failure of attempt `k`, if it is not to be returned.
abbrev pub failure_of : World → ℕ → Option RetryFailure
failure_of w zero = try_reply (w.send zero)
failure_of w (suc k) = try_body (w.body (suc k)) (w.send (suc k))

abbrev pub status_of : Reply → ℕ
status_of (failed e) = 0
status_of (status code) = code

abbrev pub next_backoff : RetryConfig → ℕ → ℕ
next_backoff c b = if ltb c.max_backoff (b * 2) then c.max_backoff else b * 2

-- The wait before an attempt: what ends it early, the backoff after it, and the waits that are asked.
abbrev pub interruption : World → ℕ → ℕ → Option ℕ
interruption w zero b = none
interruption w (suc k) b = w.wait (suc k) b

abbrev pub backoff_after : RetryConfig → ℕ → ℕ → ℕ
backoff_after c zero b = b
backoff_after c (suc k) b = next_backoff c b

abbrev pub waits_before : ℕ → ℕ → List ℕ → List ℕ
waits_before zero b ws = ws
waits_before (suc k) b ws = b ∷ ws

-- The loop from attempt `k` on, with the rounds that are left, the backoff and the last error; and the
-- waits that it asks for.
unfoldable pub do_from : World → RetryConfig → ℕ → ℕ → ℕ → Option RetryFailure → Done × List ℕ
do_from w c zero k b last = (gave_up last, [])
do_from w c (suc n) k b last = elim (interruption w k b) [
  | some e ↦ (cancelled e, waits_before k b [])
  | none ↦ elim (failure_of w k) [
    | none ↦ (responded (status_of (w.send k)), waits_before k b [])
    | some f ↦
        let rest = do_from w c n (suc k) (backoff_after c k b) (some f) in
        (rest.0, waits_before k b rest.1)
  ]
]

abbrev pub rounds : ℤ → ℕ
rounds (pos n) = suc n
rounds (negsuc n) = 0

unfoldable pub do_request : World → RetryConfig → Done × List ℕ
unfolding do_from
do_request w c = do_from w c (rounds c.max_retries) 0 c.backoff none
