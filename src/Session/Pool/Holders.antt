-- ===== src/Session/Pool/Holders.antt =====
-- Who holds the sessions of the pool: each is held once, and by one caller at a time.
use mcpdrill.Prelude.{
  ℕ, ◌+◌, ◌≤◌, ◌≡◌, refl, sym, ap, subst, ◌∙◌, inl, inr, ◌++◌, List, [], ◌∷◌, Bool, true, false,
  ◌||◌, none, some, ltb, if◌then◌else◌, length, length-append, Str, str_eq, Dict, lookup, erase,
  insert, lookup-erase, lookup-insert, All, All-append, arith, Bool-cases,
}
use mcpdrill.Session.Types.{SessionInfo, active, idle, touch, is_expired, is_closed, is_over}
use mcpdrill.Session.Pool.{
  SessionPool, new_session_pool, Acquired, got, creates, waits, refused_closed, refused_timeout,
  reserve, attempt_from, attempt, acquire, wake, add, cancel_reservation, release, size, close,
  set_state, untrack, close_connection, count_wait, or_times_out,
}
use mcpdrill.Session.Pool.Capacity.{
  Call, acquires, wakes, adds, cancels, releases, removes, evicts, closes, step, run, AreIdle,
  IsAllowed, AreAllowed, IsDistinct, IsGood, length-erase, length-erase_found, erase-AreIdle,
  insert-AreIdle, attempt_from-IsGood, count_wait-IsGood, or_times_out-IsGood, remove-IsGood,
  evict_session-IsGood,
}

-- The idle sessions and one that is in use.
apart :
    (k : Str) (u : Dict SessionInfo) (ss : List SessionInfo) {r : SessionInfo}
    → lookup k u ≡ some r
    → AreIdle u ss
    → All (λ t. str_eq t.id k ≡ false) ss
apart k u [] found h = tt
apart k u (s ∷ ss) {r} found (e, h) = (ground arith, apart k u ss {r = r} found h)

append-IsDistinct :
    (s : SessionInfo) (ss : List SessionInfo)
    → IsDistinct ss
    → All (λ t. str_eq t.id s.id ≡ false) ss
    → IsDistinct (ss ++ s ∷ [])
append-IsDistinct s [] d a = (tt, tt)
append-IsDistinct s (t ∷ ss) (h, d) (e, a) =
    (All-append (λ x. str_eq t.id x.id ≡ false) ss (s ∷ []) h (e, tt), append-IsDistinct s ss d a)

add-IsGood :
    (p : SessionPool) (s : SessionInfo) → IsAllowed p (adds s) → IsGood p → IsGood (add p s)
unfolding add
add-IsGood p s (inl shut) g = rw (shut, add) g
add-IsGood p s (inr (reserved, new, other)) (b, h, d) = elim (Bool-cases p.is_shut) [
  | inl shut ↦ rw (shut, add) (b, h, d)
  | inr live ↦
      rw (live, add)
        (
          omega (arith, length-erase s.id p.in_use),
          insert-AreIdle s.id s p.in_use p.sessions h other,
          d,
        )
]

release-IsGood :
    (p : SessionPool) (s : SessionInfo) (now : ℕ)
    → IsAllowed p (releases s now)
    → IsGood p
    → IsGood (release p s now)
unfolding release touch
release-IsGood p s now (inl shut) g = rw (shut, release) g
release-IsGood p s now (inr (r, held)) (b, h, d) =
    let fewer = length-erase_found s.id p.in_use {v = r} held in
    let others = erase-AreIdle s.id p.in_use p.sessions h in
    let s' = touch p.max_idle_ms now (set_state idle s) in
    let gone : lookup s.id (erase s.id p.in_use) ≡ none =
      ground (arith, lookup-erase s.id s.id p.in_use) in
    elim (Bool-cases p.is_shut) [
      | inl shut ↦ rw (shut, release) (b, h, d)
      | inr live ↦ elim (Bool-cases (is_expired now s || is_over s.state)) [
        | inl over ↦ rw (live, over, release) (omega arith, others, d)
        | inr usable ↦
            rw (live, usable, release)
              (
                omega (arith, length-append p.sessions (s' ∷ [])),
                All-append (λ t. lookup t.id (erase s.id p.in_use) ≡ none) p.sessions (s' ∷ [])
                    others (gone, tt),
                append-IsDistinct s' p.sessions d (apart s.id p.in_use p.sessions {r = r} held h),
              )
      ]
    ]

close-IsGood : (p : SessionPool) → IsGood p → IsGood (close p)
unfolding close
close-IsGood p (b, h, d) = elim (Bool-cases p.is_shut) [
  | inl shut ↦ rw (shut, close) (b, h, d)
  | inr live ↦ rw (live, close) (omega arith, tt, tt)
]

acquire_live :
    (p : SessionPool) (is_done : Bool) (now : ℕ)
    → p.is_shut ≡ false
    → acquire p is_done now ≡ or_times_out is_done (count_wait (attempt p now))
unfolding acquire
acquire_live p is_done now live = rw (live, acquire) refl

attempt-IsGood : (p : SessionPool) (now : ℕ) → IsGood p → IsGood (attempt p now).0
unfolding attempt
attempt-IsGood p now g = attempt_from-IsGood p now p.sessions g

wake-IsGood :
    (p : SessionPool) (is_done : Bool) (now : ℕ) → IsGood p → IsGood (wake p is_done now).0
unfolding wake
wake-IsGood p is_done now g = or_times_out-IsGood is_done (attempt p now) (attempt-IsGood p now g)

acquire-IsGood :
    (p : SessionPool) (is_done : Bool) (now : ℕ) → IsGood p → IsGood (acquire p is_done now).0
unfolding acquire
acquire-IsGood p is_done now g = elim (Bool-cases p.is_shut) [
  | inl shut ↦ rw (shut, acquire) g
  | inr live ↦
      subst (λ r. IsGood r.0) (sym (acquire_live p is_done now live))
        (or_times_out-IsGood is_done (count_wait (attempt p now))
          (count_wait-IsGood (attempt p now) (attempt-IsGood p now g)))
]

step-IsGood : (p : SessionPool) (c : Call) → IsAllowed p c → IsGood p → IsGood (step p c)
unfolding step cancel_reservation
step-IsGood p (acquires is_done now) a g = acquire-IsGood p is_done now g
step-IsGood p (wakes is_done now) a g = wake-IsGood p is_done now g
step-IsGood p (adds s) a g = add-IsGood p s a g
step-IsGood p cancels a (b, h, d) = (omega arith, h, d)
step-IsGood p (releases s now) a g = release-IsGood p s now a g
step-IsGood p (removes s) a g = remove-IsGood p s g
step-IsGood p (evicts s reason now) a g = evict_session-IsGood p s reason now g
step-IsGood p closes a g = close-IsGood p g

run-IsGood : (p : SessionPool) (cs : List Call) → AreAllowed p cs → IsGood p → IsGood (run p cs)
unfolding run
run-IsGood p [] a g = g
run-IsGood p (c ∷ cs) (a, later) g = run-IsGood (step p c) cs later (step-IsGood p c a g)

-- No history of allowed calls makes the sessions of a pool, idle and in use, and those that callers
-- are about to create, more than its size.
pub run_new-size :
    (max_size ttl_ms max_idle_ms : ℕ) (cs : List Call)
    → AreAllowed (new_session_pool max_size ttl_ms max_idle_ms) cs
    → let p = run (new_session_pool max_size ttl_ms max_idle_ms) cs in
      size p + p.pending_creates ≤ p.max_size
unfolding new_session_pool size
run_new-size max_size ttl_ms max_idle_ms cs a =
    (run-IsGood (new_session_pool max_size ttl_ms max_idle_ms) cs a (omega arith, tt, tt)).0

-- What an attempt gives: a session that no one holds, that is in time and was not closed, is now
-- held under its id, is the only one that is held anew, and is no longer idle.
abbrev pub Given : SessionPool → ℕ → SessionInfo → SessionPool → Type 0
Given p now s after =
    (t : SessionInfo) × (s ≡ touch p.max_idle_ms now (set_state active t))
    × (is_expired now t ≡ false)
    × (is_closed t.state ≡ false)
    × (lookup t.id p.in_use ≡ none)
    × ((k : Str) → lookup k after.in_use ≡ (if str_eq t.id k then some s else lookup k p.in_use))
    × All (λ u. str_eq u.id t.id ≡ false) after.sessions

reserve_gives_none : (p : SessionPool) (s : SessionInfo) → (reserve p).1 ≡ got s → ⊥
unfolding reserve
reserve_gives_none p s =
    elim (Bool-cases (ltb (length p.sessions + length p.in_use + p.pending_creates) p.max_size)) [
      | inl room ↦ rw (room, reserve) (λ e. cc)
      | inr full ↦ rw (full, reserve) (λ e. cc)
    ]

refused_gives_none : {s : SessionInfo} → refused_closed ≡ got s → ⊥
refused_gives_none e = cc

got_injective : {s t : SessionInfo} → got s ≡ got t → s ≡ t
got_injective e = cc

attempt_from-Given :
    (p : SessionPool) (now : ℕ) (ss : List SessionInfo) (s : SessionInfo)
    → AreIdle p.in_use ss
    → IsDistinct ss
    → (attempt_from p now ss).1 ≡ got s
    → Given p now s (attempt_from p now ss).0
unfolding attempt_from reserve touch
attempt_from-Given p now [] s h d e = elim (reserve_gives_none (record p { sessions = [] }) s e) [ ]
attempt_from-Given p now (t ∷ ss) s (none_holds, h) (others, d) e =
    let p' : SessionPool = record p {
      tracked = untrack t.id p.tracked;
      closings = close_connection t p.closings;
    } in
    let t' = touch p.max_idle_ms now (set_state active t) in
    elim (Bool-cases (is_expired now t || is_closed t.state)) [
      | inl over ↦
          rw (over, attempt_from)
            (attempt_from-Given p' now ss s h d (rw (over, attempt_from) at e))
      | inr usable ↦
          let same : t' ≡ s = got_injective (rw (usable, attempt_from) at e) in
          let there : (k : Str)
              → lookup k (insert t.id t' p.in_use)
                ≡ (if str_eq t.id k then some s else lookup k p.in_use) =
            λ k. ground (arith, lookup-insert t.id k t' p.in_use, same) in
          let apart' =
            apart t.id (insert t.id t' p.in_use) ss {r = t'}
              (ground (arith, lookup-insert t.id t.id t' p.in_use))
              (insert-AreIdle t.id t' p.in_use ss h others) in
          rw (usable, attempt_from)
            (t, sym same, ground arith, ground arith, none_holds, there, apart')
    ]

count_wait-got :
    (r : SessionPool × Acquired) (s : SessionInfo) → (count_wait r).1 ≡ got s → count_wait r ≡ r
count_wait-got (p, got t) s e = refl
count_wait-got (p, creates) s e = refl
count_wait-got (p, waits) s e = cc
count_wait-got (p, refused_closed) s e = refl
count_wait-got (p, refused_timeout) s e = refl

or_times_out-got :
    (is_done : Bool) (r : SessionPool × Acquired) (s : SessionInfo)
    → (or_times_out is_done r).1 ≡ got s
    → or_times_out is_done r ≡ r
or_times_out-got false r s e = refl
or_times_out-got true (p, got t) s e = refl
or_times_out-got true (p, creates) s e = refl
or_times_out-got true (p, waits) s e = cc
or_times_out-got true (p, refused_closed) s e = refl
or_times_out-got true (p, refused_timeout) s e = refl

acquire_shut :
    (p : SessionPool) (is_done : Bool) (now : ℕ)
    → p.is_shut ≡ true
    → (acquire p is_done now).1 ≡ refused_closed
unfolding acquire
acquire_shut p is_done now shut = rw (shut, acquire) refl

-- A call of `Acquire` until it returns or sleeps: from its start, or from when it is woken.
unfoldable pub acquire_or_wake : Bool → SessionPool → Bool → ℕ → SessionPool × Acquired
acquire_or_wake false p is_done now = acquire p is_done now
acquire_or_wake true p is_done now = wake p is_done now

attempted :
    (p : SessionPool) (now : ℕ) (s : SessionInfo) (r : SessionPool × Acquired)
    → IsGood p
    → r ≡ attempt p now
    → r.1 ≡ got s
    → Given p now s r.0
unfolding attempt
attempted p now s r (b, h, d) same e =
    subst (λ x. Given p now s x.0) (sym same)
      (attempt_from-Given p now p.sessions s h d (ap (λ x. x.1) (sym same) ∙ e))

woken :
    (p : SessionPool) (is_done : Bool) (now : ℕ) (s : SessionInfo)
    → (wake p is_done now).1 ≡ got s
    → wake p is_done now ≡ attempt p now
unfolding wake
woken p is_done now s e = or_times_out-got is_done (attempt p now) s e

acquired :
    (p : SessionPool) (is_done : Bool) (now : ℕ) (s : SessionInfo)
    → (acquire p is_done now).1 ≡ got s
    → acquire p is_done now ≡ attempt p now
acquired p is_done now s e = elim (Bool-cases p.is_shut) [
  | inl shut ↦ elim (refused_gives_none (sym (acquire_shut p is_done now shut) ∙ e)) [ ]
  | inr live ↦
      let begun = acquire_live p is_done now live in
      let counted = count_wait (attempt p now) in
      let kept = or_times_out-got is_done counted s (ap (λ r. r.1) (sym begun) ∙ e) in
      begun ∙ kept ∙ count_wait-got (attempt p now) s (ap (λ r. r.1) (sym (begun ∙ kept)) ∙ e)
]

acquire_or_wake-Given :
    (p : SessionPool) (is_woken is_done : Bool) (now : ℕ) (s : SessionInfo)
    → IsGood p
    → (acquire_or_wake is_woken p is_done now).1 ≡ got s
    → Given p now s (acquire_or_wake is_woken p is_done now).0
unfolding acquire_or_wake
acquire_or_wake-Given p false is_done now s g e =
    attempted p now s (acquire p is_done now) g (acquired p is_done now s e) e
acquire_or_wake-Given p true is_done now s g e =
    attempted p now s (wake p is_done now) g (woken p is_done now s e) e

-- A session that `Acquire` returns after a history of allowed calls, at once or when it is woken, was
-- held by no caller, is in time and its state was not closed; it is the only one that is held anew,
-- and no idle session has its id. The states of connections are no part of this.
pub acquire-Given :
    (max_size ttl_ms max_idle_ms : ℕ) (cs : List Call) (is_woken is_done : Bool) (now : ℕ)
    (s : SessionInfo)
    → AreAllowed (new_session_pool max_size ttl_ms max_idle_ms) cs
    → (acquire_or_wake is_woken
        (run (new_session_pool max_size ttl_ms max_idle_ms) cs)
        is_done
        now).1
      ≡ got s
    → Given
        (run (new_session_pool max_size ttl_ms max_idle_ms) cs)
        now
        s
        (acquire_or_wake is_woken
          (run (new_session_pool max_size ttl_ms max_idle_ms) cs)
          is_done
          now).0
unfolding new_session_pool
acquire-Given max_size ttl_ms max_idle_ms cs is_woken is_done now s a =
    let new = new_session_pool max_size ttl_ms max_idle_ms in
    acquire_or_wake-Given (run new cs) is_woken is_done now s
      (run-IsGood new cs a (omega arith, tt, tt))

wake_shut :
    (p : SessionPool) (is_done : Bool) (now : ℕ)
    → p.is_shut ≡ false
    → (wake (close p) is_done now).1 ≡ (
        if ltb p.pending_creates p.max_size
        then creates
        else if is_done
        then refused_timeout
        else waits)
unfolding wake attempt attempt_from reserve close
wake_shut p false now live = ground arith
wake_shut p true now live = ground arith

-- Closing an open pool leaves no session in it, and refuses every call of `Acquire` that begins
-- later; but a caller that slept and is woken by it is told to create a session, if there is room
-- beside the reservations, and else times out, if its context is done, or sleeps again.
pub close-wake :
    (p : SessionPool) (is_done : Bool) (now : ℕ)
    → p.is_shut ≡ false
    → (size (close p) ≡ 0)
      × ((acquire (close p) is_done now).1 ≡ refused_closed)
      × ((wake (close p) is_done now).1 ≡ (
          if ltb p.pending_creates p.max_size
          then creates
          else if is_done
          then refused_timeout
          else waits))
unfolding size close
close-wake p is_done now live =
    let shut : (close p).is_shut ≡ true = ground arith in
    (ground arith, acquire_shut (close p) is_done now shut, wake_shut p is_done now live)
