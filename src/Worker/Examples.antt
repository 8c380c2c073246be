-- ===== src/Worker/Examples.antt =====
-- The client that retries, at concrete inputs.
use mcpdrill.Prelude.{ℕ, zero, suc, [], ◌∷◌, ◌≡◌, refl, none}
use mcpdrill.Prelude.Int.{pos, negsuc}
use mcpdrill.Worker.Retry.{
  RetryConfig, Reply, failed, status, World, responded, gave_up, do_request, do_from,
}
use mcpdrill.Worker.Retry.Answers.{Answered, do_request-Answers}

abbrev third_time : ℕ → Reply
third_time zero = failed 7
third_time (suc zero) = status 503
third_time (suc (suc k)) = status 200

abbrev world : World
world = record { send = third_time; wait = λ k b. none; body = λ k. none }

abbrev config : RetryConfig
config = record { max_retries = pos 3; backoff = 100; max_backoff = 150 }

do_request-Answers_example :
    Answered world config 4 (do_request world config).0 (do_request world config).1
do_request-Answers_example = do_request-Answers world config

third_answers : do_request world config ≡ (responded 200, 100 ∷ 150 ∷ [])
unfolding do_request do_from
third_answers = refl

-- A bound that is negative makes no attempt, and the answer is neither a response nor an error.
never_tried : do_request world (record config { max_retries = negsuc 0 }) ≡ (gave_up none, [])
unfolding do_request do_from
never_tried = refl
