-- ===== src/Session/Modes/Reuse/Histories.antt =====
-- Histories of steps on the mode that reuses sessions, each one hold of a lock, in any order.
use mcpdrill.Prelude.{
  ℕ, ◌≡◌, ap, ◌∙◌, List, [], ◌∷◌, Bool, false, not, ◌||◌, Option, none, some, if_cases, arith, Str,
  lookup, lookup-insert, Option-cases, inl, inr, Bool-cases, ◌==◌,
}
use mcpdrill.Session.Types.{is_over}
use mcpdrill.Session.Pool.{EvictionReason, is_due}
use mcpdrill.Session.Modes.Heap.{Heap}
use mcpdrill.Session.Modes.Reuse.{
  SessionTimer, ReuseMode, new_reuse_mode, Begun, has, acquire_begin, activate, touch_session,
  create, acquire_finish, discard, track, invalidate, release, close, expire_due, Verdict, untrack,
  count_eviction, on_eviction, fire_ttl, on_ttl_expired, expire_by_ttl, expire_by_idleness,
  stop_own, stop_idle, is_idle_state,
}
use mcpdrill.Session.Modes.Reuse.Owned.{
  IsOwned, IsNew, IsUnheld, has_ref, activate-IsOwned, touch_session-IsOwned, create-IsOwned,
  acquire_finish-IsOwned, discard-IsOwned, invalidate-IsOwned, release-IsOwned, close-IsOwned,
  on_eviction-IsOwned, expire-IsOwned,
}

expire_due-IsOwned :
    (m : ReuseMode) (r : ℕ) (reason : EvictionReason) (now : ℕ)
    → IsOwned m
    → IsOwned (expire_due m r reason now).0
unfolding expire_due
expire_due-IsOwned m r reason now o =
    if_cases (λ (x : ReuseMode × Verdict). IsOwned x.0) (is_over (m.heap.at r).state) _ _
      (λ over. o)
      (λ live.
        if_cases (λ (x : ReuseMode × Verdict). IsOwned x.0) (is_due reason now (m.heap.at r)) _ _
          (λ due. expire-IsOwned m r o) (λ early. o))

expire_by_ttl-IsOwned : (m : ReuseMode) (r : ℕ) → IsOwned m → IsOwned (expire_by_ttl m r).0
unfolding expire_by_ttl
expire_by_ttl-IsOwned m r o =
    if_cases (λ (x : ReuseMode × Bool). IsOwned x.0) (is_over (m.heap.at r).state) _ _ (λ over. o)
      (λ live. expire-IsOwned m r o)

expire_by_idleness-IsOwned :
    (m : ReuseMode) (r : ℕ) → IsOwned m → IsOwned (expire_by_idleness m r).0
unfolding expire_by_idleness
expire_by_idleness-IsOwned m r o =
    if_cases (λ (x : ReuseMode × Bool). IsOwned x.0) (is_idle_state (m.heap.at r).state) _ _
      (λ idles. expire-IsOwned m r o) (λ used. o)

fire_ttl-IsOwned :
    (m : ReuseMode) (vu : Str) (t : Option SessionTimer) → IsOwned m → IsOwned (fire_ttl m vu t).0
fire_ttl-IsOwned m vu none o = o
fire_ttl-IsOwned m vu (some t) o =
    if_cases (λ (x : ReuseMode × Option ℕ). IsOwned x.0) (t.stopped || not t.has_ttl) _ _ (λ off. o)
      (λ on. record { entry = o.entry })

stop_own-IsOwned :
    (m : ReuseMode) (vu : Str) (r : ℕ) (t : Option SessionTimer)
    → IsOwned m
    → IsOwned (stop_own m vu r t)
stop_own-IsOwned m vu r none o = o
stop_own-IsOwned m vu r (some t) o =
    if_cases IsOwned (t.session == r) _ _ (λ own. record { entry = o.entry }) (λ other. o)

-- The steps, and the first look of `Acquire`, which changes nothing.
pub data Call : Type 0 where
  begins : Str → Call
  activates : ℕ → Call
  touches : ℕ → (now : ℕ) → Call
  creates : Str → Str → (now : ℕ) → Call
  finishes : Str → ℕ → Call
  discards : ℕ → Call
  tracks : ℕ → Call
  releases : ℕ → Call
  invalidates : ℕ → Call
  shuts : Call
  expires_due : ℕ → EvictionReason → (now : ℕ) → Call
  untracks : ℕ → Call
  counts : ℕ → EvictionReason → Call
  calls_back : ℕ → Call
  fires_ttl : Str → Call
  expires_by_ttl : ℕ → Call
  expires_by_idleness : ℕ → Call
  stops_idle : Str → ℕ → Call

unfoldable pub step : ReuseMode → Call → ReuseMode
step m (begins vu) = m
step m (activates r) = activate m r
step m (touches r now) = touch_session m r now
step m (creates vu id now) = create m vu id now
step m (finishes vu r) = (acquire_finish m vu r).0
step m (discards r) = discard m r
step m (tracks r) = track m r
step m (releases r) = release m r
step m (invalidates r) = invalidate m r
step m shuts = close m
step m (expires_due r reason now) = (expire_due m r reason now).0
step m (untracks r) = untrack m r
step m (counts r reason) = count_eviction m r reason
step m (calls_back r) = on_eviction m r
step m (fires_ttl vu) = (on_ttl_expired m vu).0
step m (expires_by_ttl r) = (expire_by_ttl m r).0
step m (expires_by_idleness r) = (expire_by_idleness m r).0
step m (stops_idle vu r) = stop_idle m vu r

unfoldable pub run : ReuseMode → List Call → ReuseMode
run m [] = m
run m (c ∷ cs) = run (step m c) cs

-- `acquire_finish` is called for a session that its caller made, and no other call has seen, with an
-- id that no session in the maps has; and only a session that no map holds is discarded. No other
-- step has a condition.
abbrev pub IsAllowed : ReuseMode → Call → Type 0
IsAllowed m (finishes vu r) = IsNew m vu r
IsAllowed m (discards r) = IsUnheld m r
IsAllowed m _ = Unit {0}

abbrev pub AreAllowed : ReuseMode → List Call → Type 0
AreAllowed m [] = Unit {0}
AreAllowed m (c ∷ cs) = IsAllowed m c × AreAllowed (step m c) cs

step-IsOwned : (m : ReuseMode) (c : Call) → IsAllowed m c → IsOwned m → IsOwned (step m c)
unfolding step on_ttl_expired stop_idle track untrack count_eviction
step-IsOwned m (begins vu) a o = o
step-IsOwned m (activates r) a o = activate-IsOwned m r o
step-IsOwned m (touches r now) a o = touch_session-IsOwned m r now o
step-IsOwned m (creates vu id now) a o = create-IsOwned m vu id now o
step-IsOwned m (finishes vu r) a o = acquire_finish-IsOwned m vu r a o
step-IsOwned m (discards r) a o = discard-IsOwned m r a o
step-IsOwned m (tracks r) a o = record { entry = o.entry }
step-IsOwned m (releases r) a o = release-IsOwned m r o
step-IsOwned m (invalidates r) a o = invalidate-IsOwned m r o
step-IsOwned m shuts a o = close-IsOwned m o
step-IsOwned m (expires_due r reason now) a o = expire_due-IsOwned m r reason now o
step-IsOwned m (untracks r) a o = record { entry = o.entry }
step-IsOwned m (counts r reason) a o = record { entry = o.entry }
step-IsOwned m (calls_back r) a o = on_eviction-IsOwned m r o
step-IsOwned m (fires_ttl vu) a o = fire_ttl-IsOwned m vu (lookup vu m.timers) o
step-IsOwned m (expires_by_ttl r) a o = expire_by_ttl-IsOwned m r o
step-IsOwned m (expires_by_idleness r) a o = expire_by_idleness-IsOwned m r o
step-IsOwned m (stops_idle vu r) a o = stop_own-IsOwned m vu r (lookup vu m.timers) o

pub run-IsOwned :
    (m : ReuseMode) (cs : List Call) → AreAllowed m cs → IsOwned m → IsOwned (run m cs)
unfolding run
run-IsOwned m [] a o = o
run-IsOwned m (c ∷ cs) a o = run-IsOwned (step m c) cs a.1 (step-IsOwned m c a.0 o)

-- A look of `Acquire` in the map for a user: the first one, or the one with a session that was made
-- meanwhile.
unfoldable pub look : ReuseMode → Str → Option ℕ → ReuseMode × Begun
look m vu none = (m, acquire_begin m vu)
look m vu (some made) = let (after, r) = acquire_finish m vu made in (after, has r)

abbrev pub MayLook : ReuseMode → Str → Option ℕ → Type 0
MayLook m vu none = Unit {0}
MayLook m vu (some made) = IsNew m vu made

-- A session that is held in the map for the user it was made for, and of which the connection was not
-- closed so far.
pub record IsServed (m : ReuseMode) (vu : Str) (r : ℕ) : Type 0 where
  pub held : lookup vu m.sessions ≡ some r
  pub its_user : (m.heap.at r).vu_id ≡ vu
  pub still_open : has_ref r m.closings ≡ false

has_injective : {r k : ℕ} → has r ≡ has k → r ≡ k
has_injective e = cc

begin-held :
    (m : ReuseMode) (vu : Str) (r : ℕ) → acquire_begin m vu ≡ has r → lookup vu m.sessions ≡ some r
unfolding acquire_begin
begin-held m vu r = elim (Bool-cases m.is_shut) [
  | inl shut ↦ rw (shut, acquire_begin) (λ e. cc)
  | inr live ↦ elim (Option-cases (lookup vu m.sessions)) [
    | inl absent ↦ rw (live, absent, acquire_begin) (λ e. cc)
    | inr (k, there) ↦
        rw (live, there, acquire_begin) (λ e. ap (λ (j : ℕ). some j) (has_injective e))
  ]
]

finish-held :
    (m : ReuseMode) (vu : Str) (made : ℕ)
    → lookup vu (acquire_finish m vu made).0.sessions ≡ some (acquire_finish m vu made).1
unfolding acquire_finish
finish-held m vu made = elim (Option-cases (lookup vu m.sessions)) [
  | inl absent ↦ rw (absent, acquire_finish) (ground (arith, lookup-insert vu vu made m.sessions))
  | inr (k, there) ↦ rw (there, acquire_finish) there
]

served :
    (m : ReuseMode) (vu : Str) (r : ℕ) → IsOwned m → lookup vu m.sessions ≡ some r → IsServed m vu r
served m vu r o there =
    let at = o.entry vu r there in record { held = there; its_user = at.1; still_open = at.3 }

look_served :
    (m : ReuseMode) (vu : Str) (made : Option ℕ) (r : ℕ)
    → IsOwned m
    → MayLook m vu made
    → (look m vu made).1 ≡ has r
    → IsServed (look m vu made).0 vu r
unfolding look
look_served m vu none r o a e = served m vu r o (begin-held m vu r e)
look_served m vu (some made) r o a e =
    served (acquire_finish m vu made).0 vu r (acquire_finish-IsOwned m vu made a o)
      (finish-held m vu made ∙ ap (λ (j : ℕ). some j) (has_injective e))

-- After any history of allowed steps of `Acquire`, `Release`, `Invalidate`, `Close`, the evictor and
-- the timers, in any order, a session that `Acquire` finds in the map for a virtual user, or puts
-- there, was made for that user, and its connection was not closed so far. It may still be closed
-- before `Acquire` returns it.
pub look-IsServed :
    (ttl_ms max_idle_ms : ℕ) (heap : Heap) (cs : List Call) (vu : Str) (made : Option ℕ) (r : ℕ)
    → AreAllowed (new_reuse_mode ttl_ms max_idle_ms heap) cs
    → MayLook (run (new_reuse_mode ttl_ms max_idle_ms heap) cs) vu made
    → (look (run (new_reuse_mode ttl_ms max_idle_ms heap) cs) vu made).1 ≡ has r
    → IsServed (look (run (new_reuse_mode ttl_ms max_idle_ms heap) cs) vu made).0 vu r
unfolding new_reuse_mode
look-IsServed ttl_ms max_idle_ms heap cs vu made r a =
    let new = new_reuse_mode ttl_ms max_idle_ms heap in
    look_served (run new cs) vu made r (run-IsOwned new cs a (record { entry = λ w k e. cc }))
