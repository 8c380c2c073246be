-- ===== src/Api/Examples.antt =====
-- The rate limiter at concrete inputs.
use mcpdrill.Prelude.{[], ◌∷◌, ◌+◌, ◌*◌, ◌≤◌, ◌≡◌, refl, arith}
use mcpdrill.Api.RateLimit.{token, new_token_bucket, take}
use mcpdrill.Api.RateLimit.Bounds.{take_all, take_all-rate}

-- A bucket of two tokens and a rate of one request per second: after two requests at once the third is
-- refused, and one more is granted a second later.
take_all-rate_example :
    (take_all (take_all (new_token_bucket 1000000000 2 0) (5 ∷ 5 ∷ [])).0 (6 ∷ 1000000006 ∷ [])).1
        * token
      + 5 * 1000000000
    ≤ 2 * token + 1000000006 * 1000000000
take_all-rate_example =
    take_all-rate 1000000000 2 0 (5 ∷ 5 ∷ []) (6 ∷ 1000000006 ∷ []) (omega arith) (omega arith)

granted_one :
    (take_all (take_all (new_token_bucket 1000000000 2 0) (5 ∷ 5 ∷ [])).0 (6 ∷ 1000000006 ∷ [])).1
    ≡ 1
unfolding take_all take new_token_bucket
granted_one = refl
