-- ===== src/Session/Pool/Capacity.antt =====
-- Histories of calls of the pool: how many sessions there are, and who holds them.
use mcpdrill.Prelude.{
  ℕ, ◌+◌, ◌≤◌, ◌<◌, ◌≡◌, ◌⊎◌, inl, inr, List, [], ◌∷◌, Bool, true, false, ◌||◌, none, some, ltb,
  length, Str, str_eq, Dict, lookup, erase, insert, lookup-erase, lookup-insert, All, arith,
  Bool-cases, Option-cases,
}
use mcpdrill.Session.Types.{SessionInfo, active, expired, touch, is_expired, is_closed, is_over}
use mcpdrill.Session.Pool.{
  SessionPool, Acquired, got, creates, waits, refused_closed, refused_timeout, reserve,
  attempt_from, acquire, wake, add, cancel_reservation, release, remove, remove_session, without,
  evict_session, EvictionReason, close, set_state, untrack, close_connection, is_due, count_wait,
  or_times_out,
}

pub data Call : Type 0 where
  acquires : (is_done : Bool) (now : ℕ) → Call
  wakes : (is_done : Bool) (now : ℕ) → Call
  adds : SessionInfo → Call
  cancels : Call
  releases : SessionInfo → (now : ℕ) → Call
  removes : SessionInfo → Call
  evicts : SessionInfo → EvictionReason → (now : ℕ) → Call
  closes : Call

unfoldable pub step : SessionPool → Call → SessionPool
step p (acquires is_done now) = (acquire p is_done now).0
step p (wakes is_done now) = (wake p is_done now).0
step p (adds s) = add p s
step p cancels = cancel_reservation p
step p (releases s now) = release p s now
step p (removes s) = remove p s
step p (evicts s reason now) = evict_session p s reason now
step p closes = close p

unfoldable pub run : SessionPool → List Call → SessionPool
run p [] = p
run p (c ∷ cs) = run (step p c) cs

abbrev pub AreIdle : Dict SessionInfo → List SessionInfo → Type 0
AreIdle u ss = All (λ s. lookup s.id u ≡ none) ss

-- What a caller may do: it adds a session only for a reservation that it got, under a new id, and
-- releases only a session that is in use.
abbrev pub IsAllowed : SessionPool → Call → Type 0
IsAllowed p (adds s) =
    (p.is_shut ≡ true)
    ⊎ (0 < p.pending_creates)
      × (lookup s.id p.in_use ≡ none)
      × All (λ t. str_eq s.id t.id ≡ false) p.sessions
IsAllowed p (releases s now) =
    (p.is_shut ≡ true) ⊎ ((r : SessionInfo) × (lookup s.id p.in_use ≡ some r))
IsAllowed p _ = Unit

abbrev pub AreAllowed : SessionPool → List Call → Type 0
AreAllowed p [] = Unit
AreAllowed p (c ∷ cs) = IsAllowed p c × AreAllowed (step p c) cs

abbrev pub IsDistinct : List SessionInfo → Type 0
IsDistinct [] = Unit
IsDistinct (s ∷ ss) = All (λ t. str_eq s.id t.id ≡ false) ss × IsDistinct ss

-- The size is in bounds, and no session is in two places.
abbrev pub Good : ℕ → List SessionInfo → Dict SessionInfo → ℕ → Type 0
Good m ss u n = (length ss + length u + n ≤ m) × AreIdle u ss × IsDistinct ss

abbrev pub IsGood : SessionPool → Type 0
IsGood p = Good p.max_size p.sessions p.in_use p.pending_creates

pub length-erase : {V : Type 0} (k : Str) (m : Dict V) → length (erase k m) ≤ length m
length-erase k [] = omega arith
length-erase k ((j, v) ∷ m) = ground (arith, length-erase k m)

pub length-erase_found :
    {V : Type 0} (k : Str) (m : Dict V) {v : V}
    → lookup k m ≡ some v
    → length (erase k m) < length m
length-erase_found k [] e = cc
length-erase_found k ((j, w) ∷ m) {v} e =
    ground (arith, length-erase_found k m {v = v}, length-erase k m)

pub erase-AreIdle :
    (k : Str) (u : Dict SessionInfo) (ss : List SessionInfo) → AreIdle u ss → AreIdle (erase k u) ss
erase-AreIdle k u [] h = tt
erase-AreIdle k u (s ∷ ss) (e, h) = (ground (arith, lookup-erase k s.id u), erase-AreIdle k u ss h)

pub insert-AreIdle :
    (k : Str) (v : SessionInfo) (u : Dict SessionInfo) (ss : List SessionInfo)
    → AreIdle u ss
    → All (λ t. str_eq k t.id ≡ false) ss
    → AreIdle (insert k v u) ss
insert-AreIdle k v u [] h d = tt
insert-AreIdle k v u (s ∷ ss) (e, h) (f, d) =
    (ground (arith, lookup-insert k s.id v u), insert-AreIdle k v u ss h d)

reserve-IsGood : (p : SessionPool) → IsGood p → IsGood (reserve p).0
unfolding reserve
reserve-IsGood p (b, h, d) =
    elim (Bool-cases (ltb (length p.sessions + length p.in_use + p.pending_creates) p.max_size)) [
      | inl room ↦ rw (room, reserve) (ground arith, h, d)
      | inr full ↦ rw (full, reserve) (b, h, d)
    ]

pub attempt_from-IsGood :
    (p : SessionPool) (now : ℕ) (ss : List SessionInfo)
    → Good p.max_size ss p.in_use p.pending_creates
    → IsGood (attempt_from p now ss).0
unfolding attempt_from touch
attempt_from-IsGood p now [] g = reserve-IsGood (record p { sessions = [] }) g
attempt_from-IsGood p now (s ∷ ss) (b, (e, h), (f, d)) =
    let p' : SessionPool = record p {
      tracked = untrack s.id p.tracked;
      closings = close_connection s p.closings;
    } in
    let s' = touch p.max_idle_ms now (set_state active s) in
    elim (Bool-cases (is_expired now s || is_closed s.state)) [
      | inl over ↦ rw (over, attempt_from) (attempt_from-IsGood p' now ss (omega arith, h, d))
      | inr usable ↦
          rw (usable, attempt_from)
            (omega (arith, length-erase s.id p.in_use), insert-AreIdle s.id s' p.in_use ss h f, d)
    ]

pub count_wait-IsGood : (r : SessionPool × Acquired) → IsGood r.0 → IsGood (count_wait r).0
count_wait-IsGood (p, got s) g = g
count_wait-IsGood (p, creates) g = g
count_wait-IsGood (p, waits) g = g
count_wait-IsGood (p, refused_closed) g = g
count_wait-IsGood (p, refused_timeout) g = g

pub or_times_out-IsGood :
    (is_done : Bool) (r : SessionPool × Acquired) → IsGood r.0 → IsGood (or_times_out is_done r).0
or_times_out-IsGood false r g = g
or_times_out-IsGood true (p, got s) g = g
or_times_out-IsGood true (p, creates) g = g
or_times_out-IsGood true (p, waits) g = g
or_times_out-IsGood true (p, refused_closed) g = g
or_times_out-IsGood true (p, refused_timeout) g = g

without-All :
    (P : SessionInfo → Type 0) (id : Str) (ss : List SessionInfo) → All P ss → All P (without id ss)
unfolding without
without-All P id [] a = tt
without-All P id (s ∷ ss) (h, a) = elim (Bool-cases (str_eq s.id id)) [
  | inl here ↦ rw (here, without) a
  | inr later ↦ rw (later, without) (h, without-All P id ss a)
]

without-IsDistinct : (id : Str) (ss : List SessionInfo) → IsDistinct ss → IsDistinct (without id ss)
unfolding without
without-IsDistinct id [] d = tt
without-IsDistinct id (s ∷ ss) (h, d) = elim (Bool-cases (str_eq s.id id)) [
  | inl here ↦ rw (here, without) d
  | inr later ↦
      rw (later, without)
        (without-All (λ t. str_eq s.id t.id ≡ false) id ss h, without-IsDistinct id ss d)
]

length-without : (id : Str) (ss : List SessionInfo) → length (without id ss) ≤ length ss
unfolding without
length-without id [] = omega arith
length-without id (s ∷ ss) = elim (Bool-cases (str_eq s.id id)) [
  | inl here ↦ rw (here, without) (omega arith)
  | inr later ↦ rw (later, without) (omega (arith, length-without id ss))
]

pub remove-IsGood : (p : SessionPool) (s : SessionInfo) → IsGood p → IsGood (remove p s)
unfolding remove
remove-IsGood p s (b, h, d) = (
  omega (arith, length-without s.id p.sessions, length-erase s.id p.in_use),
  erase-AreIdle s.id p.in_use (without s.id p.sessions)
      (without-All (λ t. lookup t.id p.in_use ≡ none) s.id p.sessions h),
  without-IsDistinct s.id p.sessions d,
)

remove_session-IsGood : (p : SessionPool) (s : SessionInfo) → IsGood p → IsGood (remove_session p s)
unfolding remove_session
remove_session-IsGood p s (b, h, d) = elim (Option-cases (lookup s.id p.in_use)) [
  | inr (r, held) ↦ rw (held, remove_session) (b, h, d)
  | inl free ↦
      rw (free, remove_session)
        (
          omega (arith, length-without s.id p.sessions),
          without-All (λ t. lookup t.id p.in_use ≡ none) s.id p.sessions h,
          without-IsDistinct s.id p.sessions d,
        )
]

pub evict_session-IsGood :
    (p : SessionPool) (s : SessionInfo) (reason : EvictionReason) (now : ℕ)
    → IsGood p
    → IsGood (evict_session p s reason now)
unfolding evict_session
evict_session-IsGood p s reason now g =
    let p' : SessionPool = record p { tracked = untrack s.id p.tracked } in
    elim (Bool-cases (is_over s.state)) [
      | inl over ↦ rw (over, evict_session) g
      | inr live ↦ elim (Bool-cases (is_due reason now s)) [
        | inl due ↦ rw (live, due, evict_session) (remove_session-IsGood p' (set_state expired s) g)
        | inr other ↦ rw (live, other, evict_session) g
      ]
    ]
