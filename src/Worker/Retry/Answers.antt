-- ===== src/Worker/Retry/Answers.antt =====
-- What `Do` answers, and how long it waits.
use mcpdrill.Prelude.{
  ℕ, zero, suc, ◌+◌, ◌≤◌, ◌<◌, ◌≡◌, refl, sym, ap, subst, ◌∙◌, List, [], ◌∷◌, Option, none, some,
  arith, Option-cases, Bool-cases, inl, inr, if_true, if_false, leb, min, ◌*◌,
}
use native.Mathlib.Decide.{dec_lt}
use mcpdrill.Worker.Retry.{
  RetryConfig, World, RetryFailure, Done, responded, cancelled, gave_up, failure_of, status_of,
  interruption, backoff_after, waits_before, do_from, rounds, do_request, next_backoff, Reply,
  failed, status, try_reply, from_client, from_body, retryable_error, try_body,
}

some_injective : {A : Type 0} {a b : A} → some a ≡ some b → a ≡ b
some_injective e = cc

-- The waits that are due before attempt `k` and the `n` after it, if `b` is the backoff at `k`.
unfoldable waits_due : RetryConfig → ℕ → ℕ → ℕ → List ℕ
waits_due c zero k b = []
waits_due c (suc n) k b = waits_before k b (waits_due c n (suc k) (backoff_after c k b))

-- The backoff at attempt `k + m`, if it is `b` at `k`.
unfoldable backoff_from : RetryConfig → ℕ → ℕ → ℕ → ℕ
backoff_from c k b zero = b
backoff_from c k b (suc m) = backoff_from c (suc k) (backoff_after c k b) m

abbrev AllFail : World → ℕ → ℕ → Type 0
AllFail w k n = (i : ℕ) → k ≤ i → i < k + n → (f : RetryFailure) × (failure_of w i ≡ some f)

-- The failure of the last of `n` attempts from `k` on.
abbrev last_failure : World → ℕ → ℕ → Option RetryFailure → Option RetryFailure
last_failure w k zero last = last
last_failure w k (suc n) last = failure_of w (k + n)

-- What the answer says of the attempts `k`, …, `k + n - 1`, and of the waits before them.
abbrev Answers : World → RetryConfig → ℕ → ℕ → ℕ → Option RetryFailure → Done → List ℕ → Type 0
Answers w c n k b last (responded code) ws =
    (m : ℕ) × (m < n)
    × AllFail w k m
    × (failure_of w (k + m) ≡ none)
    × (code ≡ status_of (w.send (k + m)))
    × (ws ≡ waits_due c (suc m) k b)
Answers w c n k b last (cancelled e) ws =
    (m : ℕ) × (m < n)
    × AllFail w k m
    × (interruption w (k + m) (backoff_from c k b m) ≡ some e)
    × (ws ≡ waits_due c (suc m) k b)
Answers w c n k b last (gave_up f) ws =
    AllFail w k n × (ws ≡ waits_due c n k b) × (f ≡ last_failure w k n last)

AllFail-nil : (w : World) (k : ℕ) → AllFail w k 0
AllFail-nil w k i h l = absurd (omega arith)

AllFail-cons :
    (w : World) (k n : ℕ) (f : RetryFailure)
    → failure_of w k ≡ some f
    → AllFail w (suc k) n
    → AllFail w k (suc n)
AllFail-cons w k n f e h i l u = elim (dec_lt k i) [
  | yes later ↦ h i (omega arith) (omega arith)
  | no now ↦
      let same : k ≡ i = omega arith in
      subst (λ j. (f' : RetryFailure) × (failure_of w j ≡ some f')) same (f, e)
]

at_zero : (k : ℕ) → k ≡ k + 0
at_zero k = omega arith

after : (k m : ℕ) → suc k + m ≡ k + suc m
after k m = omega arith

module _ (w : World) (c : RetryConfig) (n k b : ℕ) (last : Option RetryFailure) (f : RetryFailure)
    (fails : failure_of w k ≡ some f) where
  last_failure-cons : (n' : ℕ) → last_failure w (suc k) n' (some f) ≡ last_failure w k (suc n') last
  last_failure-cons zero = sym fails ∙ ap (failure_of w) (at_zero k)
  last_failure-cons (suc m) = ap (failure_of w) (after k m)

  -- The answer of the attempts after one that failed is an answer of all.
  Answers-cons :
      (d : Done) (ws : List ℕ)
      → Answers w c n (suc k) (backoff_after c k b) (some f) d ws
      → Answers w c (suc n) k b last d (waits_before k b ws)
  unfolding waits_due backoff_from
  Answers-cons (responded code) ws (m, l, a, ok, e, ew) = (
    suc m,
    omega arith,
    AllFail-cons w k m f fails a,
    subst (λ j. failure_of w j ≡ none) (after k m) ok,
    e ∙ ap (λ j. status_of (w.send j)) (after k m),
    ap (waits_before k b) ew,
  )
  Answers-cons (cancelled e) ws (m, l, a, stop, ew) = (
    suc m,
    omega arith,
    AllFail-cons w k m f fails a,
    subst (λ j. interruption w j (backoff_from c k b (suc m)) ≡ some e) (after k m) stop,
    ap (waits_before k b) ew,
  )
  Answers-cons (gave_up g) ws (a, ew, e) =
      (AllFail-cons w k n f fails a, ap (waits_before k b) ew, e ∙ last_failure-cons n)

do_from-Answers :
    (w : World) (c : RetryConfig) (n k b : ℕ) (last : Option RetryFailure)
    → Answers w c n k b last (do_from w c n k b last).0 (do_from w c n k b last).1
unfolding do_from waits_due backoff_from
do_from-Answers w c zero k b last = (AllFail-nil w k, refl, refl)
do_from-Answers w c (suc n) k b last = elim (Option-cases (interruption w k b)) [
  | inr (e, stop) ↦
      rw (stop, do_from)
        (
          0,
          omega arith,
          AllFail-nil w k,
          subst (λ j. interruption w j b ≡ some e) (at_zero k) stop,
          refl,
        )
  | inl waited ↦ elim (Option-cases (failure_of w k)) [
    | inl good ↦
        rw (waited, good, do_from)
          (
            0,
            omega arith,
            AllFail-nil w k,
            subst (λ j. failure_of w j ≡ none) (at_zero k) good,
            ap (λ j. status_of (w.send j)) (at_zero k),
            refl,
          )
    | inr (f, bad) ↦
        rw (waited, bad, do_from)
          (Answers-cons w c n k b last f bad _ _
            (do_from-Answers w c n (suc k) (backoff_after c k b) (some f)))
  ]
]

-- The body is there for attempt `i`.
abbrev pub HasBody : World → ℕ → Type 0
HasBody w zero = Unit
HasBody w (suc k) = w.body (suc k) ≡ none

-- Attempt `i` fails: its body cannot be had again, the client has an error, or the status is of a server
-- in trouble.
pub data Fails (w : World) : ℕ → RetryFailure → Type 0 where
  no_body : (k e : ℕ) → w.body (suc k) ≡ some e → Fails w (suc k) (from_body e)
  no_answer : (i e : ℕ) → HasBody w i → w.send i ≡ failed e → Fails w i (from_client e)
  bad_status :
      (i code : ℕ)
      → HasBody w i
      → w.send i ≡ status code
      → 500 ≤ code
      → Fails w i (retryable_error code)

-- Attempt `i` is answered with a status below 500.
abbrev pub Succeeds : World → ℕ → ℕ → Type 0
Succeeds w i code = HasBody w i × (w.send i ≡ status code) × (code < 500)

abbrev pub doubled : ℕ → ℕ → ℕ
doubled b zero = b
doubled b (suc i) = doubled b i * 2

-- The wait before attempt `i + 1`: the first as it is set, and then that many times doubled, but no more
-- than the bound.
abbrev pub due_wait : RetryConfig → ℕ → ℕ
due_wait c zero = c.backoff
due_wait c (suc i) = min c.max_backoff (doubled c.backoff (suc i))

-- The waits before attempts `i + 1`, …, `i + n`.
abbrev pub due_waits : RetryConfig → ℕ → ℕ → List ℕ
due_waits c i zero = []
due_waits c i (suc n) = due_wait c i ∷ due_waits c (suc i) n

abbrev pub FailBefore : World → ℕ → Type 0
FailBefore w m = (i : ℕ) → i < m → (f : RetryFailure) × Fails w i f

-- What `Do` promises of its answer and of the waits that it asks for, with at most `n` attempts.
abbrev pub Answered : World → RetryConfig → ℕ → Done → List ℕ → Type 0
Answered w c n (responded code) ws =
    (m : ℕ) × (m < n) × FailBefore w m × Succeeds w m code × (ws ≡ due_waits c 0 m)
Answered w c n (cancelled e) ws =
    (m : ℕ) × (suc m < n)
    × FailBefore w (suc m)
    × (w.wait (suc m) (due_wait c m) ≡ some e)
    × (ws ≡ due_waits c 0 (suc m))
Answered w c n (gave_up none) ws = (n ≡ 0) × (ws ≡ [])
Answered w c n (gave_up (some f)) ws =
    (m : ℕ) × (n ≡ suc m) × FailBefore w n × Fails w m f × (ws ≡ due_waits c 0 m)

next_backoff-due_wait :
    (c : RetryConfig) (i : ℕ) → next_backoff c (due_wait c i) ≡ due_wait c (suc i)
next_backoff-due_wait c zero = ground arith
next_backoff-due_wait c (suc i) = ground arith

waits_due-due_waits :
    (c : RetryConfig) (n k : ℕ) → waits_due c n (suc k) (due_wait c k) ≡ due_waits c k n
unfolding waits_due
waits_due-due_waits c zero k = refl
waits_due-due_waits c (suc n) k =
    ap (λ b. due_wait c k ∷ waits_due c n (suc (suc k)) b) (next_backoff-due_wait c k)
    ∙ ap (λ ws. due_wait c k ∷ ws) (waits_due-due_waits c n (suc k))

backoff_from-due_wait :
    (c : RetryConfig) (m k : ℕ) → backoff_from c (suc k) (due_wait c k) m ≡ due_wait c (k + m)
unfolding backoff_from
backoff_from-due_wait c zero k = ap (due_wait c) (at_zero k)
backoff_from-due_wait c (suc m) k =
    ap (λ b. backoff_from c (suc (suc k)) b m) (next_backoff-due_wait c k)
    ∙ backoff_from-due_wait c m (suc k)
    ∙ ap (due_wait c) (after k m)

try_reply-Fails :
    (w : World) (i : ℕ) (r : Reply) (f : RetryFailure)
    → HasBody w i
    → w.send i ≡ r
    → try_reply r ≡ some f
    → Fails w i f
try_reply-Fails w i (failed e) f h s t = subst (Fails w i) (some_injective t) (no_answer i e h s)
try_reply-Fails w i (status code) f h s t = elim (Bool-cases (leb 500 code)) [
  | inl bad ↦
      subst (Fails w i) (some_injective (sym (if_true (leb 500 code) _ none bad) ∙ t))
        (bad_status i code h s (ground (arith, bad)))
  | inr good ↦ cc (sym (if_false (leb 500 code) (some (retryable_error code)) none good) ∙ t)
]

try_reply-Succeeds :
    (w : World) (i : ℕ) (r : Reply)
    → HasBody w i
    → w.send i ≡ r
    → try_reply r ≡ none
    → Succeeds w i (status_of r)
try_reply-Succeeds w i (failed e) h s t = cc t
try_reply-Succeeds w i (status code) h s t = (h, s, ground (arith, t))

failure_of-Fails : (w : World) (i : ℕ) (f : RetryFailure) → failure_of w i ≡ some f → Fails w i f
failure_of-Fails w zero f e = try_reply-Fails w zero (w.send zero) f tt refl e
failure_of-Fails w (suc k) f e = elim (Option-cases (w.body (suc k))) [
  | inl there ↦
      try_reply-Fails w (suc k) (w.send (suc k)) f there refl
        (sym (ap (λ o. try_body o (w.send (suc k))) there) ∙ e)
  | inr (b, gone) ↦
      subst (Fails w (suc k))
        (some_injective (sym (ap (λ o. try_body o (w.send (suc k))) gone) ∙ e)) (no_body k b gone)
]

failure_of-Succeeds :
    (w : World) (i : ℕ) → failure_of w i ≡ none → Succeeds w i (status_of (w.send i))
failure_of-Succeeds w zero e = try_reply-Succeeds w zero (w.send zero) tt refl e
failure_of-Succeeds w (suc k) e = elim (Option-cases (w.body (suc k))) [
  | inl there ↦
      try_reply-Succeeds w (suc k) (w.send (suc k)) there refl
        (sym (ap (λ o. try_body o (w.send (suc k))) there) ∙ e)
  | inr (b, gone) ↦ cc (sym (ap (λ o. try_body o (w.send (suc k))) gone) ∙ e)
]

fail_before : (w : World) (m : ℕ) → AllFail w 0 m → FailBefore w m
fail_before w m a i l =
    let (f, e) = a i (omega arith) (omega arith) in (f, failure_of-Fails w i f e)

from_zero : (m : ℕ) → 0 + m ≡ m
from_zero m = omega arith

Answers-Answered :
    (w : World) (c : RetryConfig) (n : ℕ) (d : Done) (ws : List ℕ)
    → Answers w c n 0 c.backoff none d ws
    → Answered w c n d ws
unfolding waits_due backoff_from
Answers-Answered w c n (responded code) ws (m, l, a, good, e, ew) = (
  m,
  l,
  fail_before w m a,
  subst (Succeeds w m) (sym (e ∙ ap (λ j. status_of (w.send j)) (from_zero m)))
      (failure_of-Succeeds w m (sym (ap (failure_of w) (from_zero m)) ∙ good)),
  ew ∙ waits_due-due_waits c m 0,
)
Answers-Answered w c n (cancelled e) ws (zero, l, a, stop, ew) = cc stop
Answers-Answered w c n (cancelled e) ws (suc m, l, a, stop, ew) = (
  m,
  l,
  fail_before w (suc m) a,
  ap (λ b. w.wait (suc m) b) (sym (backoff_from-due_wait c m 0 ∙ ap (due_wait c) (from_zero m)))
      ∙ sym (ap (λ j. interruption w j (backoff_from c 0 c.backoff (suc m))) (from_zero (suc m)))
      ∙ stop,
  ew ∙ waits_due-due_waits c (suc m) 0,
)
Answers-Answered w c zero (gave_up none) ws (a, ew, e) = (refl, ew)
Answers-Answered w c (suc m) (gave_up none) ws (a, ew, e) =
    let (f, bad) = a m (omega arith) (omega arith) in
    cc (bad, sym (ap (failure_of w) (from_zero m)), e)
Answers-Answered w c zero (gave_up (some f)) ws (a, ew, e) = cc e
Answers-Answered w c (suc m) (gave_up (some f)) ws (a, ew, e) = (
  m,
  refl,
  fail_before w (suc m) a,
  failure_of-Fails w m f (sym (ap (failure_of w) (from_zero m)) ∙ sym e),
  ew ∙ waits_due-due_waits c m 0,
)

-- `Do` makes at most `MaxRetries` + 1 attempts. It answers with the response of the first attempt that
-- neither fails nor meets a status of 500 or more, after failures alone; or with the error of a context
-- that was done during the wait after such failures; or, if every attempt failed, with the failure of
-- the last. Between attempts it asked for the waits that are due: the backoff as it is set, and then
-- the backoff doubled once more each time, but no more than its bound.
pub do_request-Answers :
    (w : World) (c : RetryConfig)
    → Answered w c (rounds c.max_retries) (do_request w c).0 (do_request w c).1
unfolding do_request
do_request-Answers w c =
    Answers-Answered w c (rounds c.max_retries) (do_request w c).0 (do_request w c).1
      (do_from-Answers w c (rounds c.max_retries) 0 c.backoff none)
