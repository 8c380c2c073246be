-- ===== src/Session/Modes/Reuse/Owned.antt =====
-- The sessions in the maps belong to their users, and their connections are open.
use mcpdrill.Prelude.{
  ℕ, ◌<◌, ◌≡◌, ◌≢◌, refl, sym, subst, ◌∙◌, inl, inr, List, [], ◌∷◌, Bool, false, ◌||◌, Option, none,
  some, ◌==◌, arith, if_cases, Bool-cases, Option-cases, Str, str_eq, Dict, lookup, insert,
  lookup-erase, lookup-insert,
}
use mcpdrill.Session.Types.{SessionState, active, idle, expired, closed, touch, new_session_info}
use mcpdrill.Session.Modes.Heap.{Heap, write, set_state, close_connection}
use mcpdrill.Session.Modes.Reuse.{
  ReuseMode, forget, forget_user, invalidate, activate, touch_session, create, acquire_finish,
  discard, release, close, on_eviction,
}

abbrev pub has_ref : ℕ → List ℕ → Bool
has_ref r [] = false
has_ref r (k ∷ ks) = r == k || has_ref r ks

-- The ids of the objects stay, and who they were made for.
record SameNames (h h' : Heap) : Type 0 where
  ids : (k : ℕ) → (h'.at k).id ≡ (h.at k).id
  users : (k : ℕ) → (h'.at k).vu_id ≡ (h.at k).vu_id
  nexts : h'.next ≡ h.next

set_state-SameNames : (r : ℕ) (st : SessionState) (h : Heap) → SameNames h (set_state r st h)
set_state-SameNames r st h = record {
  ids = λ k. ground arith;
  users = λ k. ground arith;
  nexts = refl;
}

touched-SameNames :
    (r max_idle_ms now : ℕ) (h : Heap) → SameNames h (write r (touch max_idle_ms now (h.at r)) h)
unfolding touch
touched-SameNames r max_idle_ms now h = record {
  ids = λ k. ground arith;
  users = λ k. ground arith;
  nexts = refl;
}

-- What holds of a session that stands in the map under a user.
abbrev pub Entry : Heap → Dict Str → List ℕ → Str → ℕ → Type 0
Entry h to_vu closings vu r =
    (r < h.next)
    × ((h.at r).vu_id ≡ vu)
    × (lookup (h.at r).id to_vu ≡ some vu)
    × (has_ref r closings ≡ false)

pub record IsOwned (m : ReuseMode) : Type 0 where
  pub entry :
      (vu : Str) (r : ℕ)
      → lookup vu m.sessions ≡ some r
      → Entry m.heap m.session_to_vu m.closings vu r

Entry-SameNames :
    (h h' : Heap) (to_vu : Dict Str) (closings : List ℕ) (vu : Str) (r : ℕ)
    → SameNames h h'
    → Entry h to_vu closings vu r
    → Entry h' to_vu closings vu r
Entry-SameNames h h' to_vu closings vu r s e = (
  rw (s.nexts) e.0,
  s.users r ∙ e.1,
  subst (λ i. lookup i to_vu ≡ some vu) (sym (s.ids r)) e.2,
  e.3,
)

Entry-close :
    (h : Heap) (to_vu : Dict Str) (closings : List ℕ) (vu : Str) (r k : ℕ)
    → r ≢ k
    → Entry h to_vu closings vu r
    → Entry h to_vu (close_connection h k closings) vu r
Entry-close h to_vu closings vu r k d e = (e.0, e.1, e.2, ground (arith, d, e.3))

forget_user-Entry :
    (m : ReuseMode) (r : ℕ) (user : Option Str)
    → lookup (m.heap.at r).id m.session_to_vu ≡ user
    → IsOwned m
    → (vu : Str) (k : ℕ) → lookup vu (forget_user m (m.heap.at r).id user).sessions ≡ some k
    → Entry m.heap (forget_user m (m.heap.at r).id user).session_to_vu m.closings vu k × (k ≢ r)
forget_user-Entry m r none e o vu k h =
    let at = o.entry vu k h in
    (
      at,
      λ same.
          let x = subst (λ j. lookup (m.heap.at j).id m.session_to_vu ≡ some vu) same at.2 in cc,
    )
forget_user-Entry m r (some w) e o vu k h =
    let erased = lookup-erase w vu m.sessions in
    let other : str_eq w vu ≡ false = ground (arith, erased, h) in
    let stays : lookup vu m.sessions ≡ some k = ground (arith, erased, h) in
    let at = o.entry vu k stays in
    let apart : str_eq (m.heap.at r).id (m.heap.at k).id ≡ false = ground (arith, at, e, other) in
    (
      (
        at.0,
        at.1,
        lookup-erase (m.heap.at r).id (m.heap.at k).id m.session_to_vu ∙ rw apart at.2,
        at.3,
      ),
      λ same. ground (arith, apart, same),
    )

-- What stays in the map after a session was forgotten: it is no more in it.
forget-Entry :
    (m : ReuseMode) (r : ℕ)
    → IsOwned m
    → (vu : Str) (k : ℕ) → lookup vu (forget m r).sessions ≡ some k
    → Entry m.heap (forget m r).session_to_vu m.closings vu k × (k ≢ r)
unfolding forget
forget-Entry m r o = forget_user-Entry m r (lookup (m.heap.at r).id m.session_to_vu) refl o

-- A session is forgotten, put in a state and its connection is closed.
pub dropped-IsOwned :
    (m : ReuseMode) (r : ℕ) (st : SessionState)
    → IsOwned m
    → (vu : Str) (k : ℕ) → lookup vu (forget m r).sessions ≡ some k
    → Entry
        (set_state r st m.heap)
        (forget m r).session_to_vu
        (close_connection m.heap r m.closings)
        vu
        k
dropped-IsOwned m r st o vu k h =
    let (at, apart) = forget-Entry m r o vu k h in
    Entry-SameNames m.heap (set_state r st m.heap) (forget m r).session_to_vu
      (close_connection m.heap r m.closings) vu k (set_state-SameNames r st m.heap)
      (Entry-close m.heap (forget m r).session_to_vu m.closings vu k r apart at)

pub invalidate-IsOwned : (m : ReuseMode) (r : ℕ) → IsOwned m → IsOwned (invalidate m r)
unfolding invalidate
invalidate-IsOwned m r o = record { entry = dropped-IsOwned m r closed o }

-- Only the heap changed, and it names its objects as before.
heap-IsOwned :
    (m : ReuseMode) (h' : Heap) → SameNames m.heap h' → IsOwned m → IsOwned (record m { heap = h' })
heap-IsOwned m h' s o = record {
  entry = λ vu r e. Entry-SameNames m.heap h' m.session_to_vu m.closings vu r s (o.entry vu r e);
}

pub activate-IsOwned : (m : ReuseMode) (r : ℕ) → IsOwned m → IsOwned (activate m r)
unfolding activate
activate-IsOwned m r o =
    heap-IsOwned m (set_state r active m.heap) (set_state-SameNames r active m.heap) o

pub touch_session-IsOwned :
    (m : ReuseMode) (r now : ℕ) → IsOwned m → IsOwned (touch_session m r now)
unfolding touch_session
touch_session-IsOwned m r now o =
    let h' = write r (touch m.max_idle_ms now (m.heap.at r)) m.heap in
    heap-IsOwned m h' (touched-SameNames r m.max_idle_ms now m.heap) o

pub create-IsOwned :
    (m : ReuseMode) (vu id : Str) (now : ℕ) → IsOwned m → IsOwned (create m vu id now)
unfolding create new_session_info
create-IsOwned m vu id now o = record {
  entry = λ w r e.
      let at = o.entry w r e in
      let old : (r == m.heap.next) ≡ false = ground (arith, at) in
      (omega (arith, at.0), rw old at.1, rw old at.2, at.3);
}

-- A session that its caller made for a user, that no map holds yet and whose id is new to them.
pub record IsNew (m : ReuseMode) (vu : Str) (r : ℕ) : Type 0 where
  pub made : r < m.heap.next
  pub its_user : (m.heap.at r).vu_id ≡ vu
  pub new_id : lookup (m.heap.at r).id m.session_to_vu ≡ none
  pub still_open : has_ref r m.closings ≡ false

put-Entry :
    (m : ReuseMode) (vu : Str) (r : ℕ)
    → IsNew m vu r
    → IsOwned m
    → (w : Str) (k : ℕ) → lookup w (insert vu r m.sessions) ≡ some k
    → Entry m.heap (insert (m.heap.at r).id vu m.session_to_vu) m.closings w k
put-Entry m vu r n o w k h = elim (Bool-cases (str_eq vu w)) [
  | inl same ↦
      let r_is_k : r ≡ k = ground (arith, lookup-insert vu w r m.sessions, same, h) in
      let is : Entry m.heap (insert (m.heap.at r).id vu m.session_to_vu) m.closings w r = (
        n.made,
        ground (arith, n.its_user, same),
        lookup-insert (m.heap.at r).id (m.heap.at r).id vu m.session_to_vu ∙ ground (arith, same),
        n.still_open,
      ) in
      subst (λ j. Entry m.heap (insert (m.heap.at r).id vu m.session_to_vu) m.closings w j) r_is_k
        is
  | inr other ↦
      let stays : lookup w m.sessions ≡ some k =
        ground (arith, lookup-insert vu w r m.sessions, other, h) in
      let at = o.entry w k stays in
      let apart : str_eq (m.heap.at r).id (m.heap.at k).id ≡ false = ground (arith, at, n.new_id) in
      (
        at.0,
        at.1,
        lookup-insert (m.heap.at r).id (m.heap.at k).id vu m.session_to_vu ∙ rw apart at.2,
        at.3,
      )
]

pub acquire_finish-IsOwned :
    (m : ReuseMode) (vu : Str) (r : ℕ)
    → IsNew m vu r
    → IsOwned m
    → IsOwned (acquire_finish m vu r).0
unfolding acquire_finish
acquire_finish-IsOwned m vu r n o = elim (Option-cases (lookup vu m.sessions)) [
  | inl e ↦ rw (e, acquire_finish) (record { entry = put-Entry m vu r n o })
  | inr (k, e) ↦ rw (e, acquire_finish) o
]

-- A session that no map holds.
abbrev pub IsUnheld : ReuseMode → ℕ → Type 0
IsUnheld m r = (vu : Str) (k : ℕ) → lookup vu m.sessions ≡ some k → k ≢ r

pub discard-IsOwned : (m : ReuseMode) (r : ℕ) → IsUnheld m r → IsOwned m → IsOwned (discard m r)
unfolding discard
discard-IsOwned m r unheld o = record {
  entry = λ w j h.
      Entry-SameNames m.heap (set_state r closed m.heap) m.session_to_vu
        (close_connection m.heap r m.closings) w j (set_state-SameNames r closed m.heap)
        (Entry-close m.heap m.session_to_vu m.closings w j r (unheld w j h) (o.entry w j h));
}

pub release-IsOwned : (m : ReuseMode) (r : ℕ) → IsOwned m → IsOwned (release m r)
unfolding release
release-IsOwned m r o =
    if_cases IsOwned m.is_shut m (record m { heap = set_state r idle m.heap }) (λ shut. o)
      (λ working. heap-IsOwned m (set_state r idle m.heap) (set_state-SameNames r idle m.heap) o)

pub close-IsOwned : (m : ReuseMode) → IsOwned m → IsOwned (close m)
unfolding close
close-IsOwned m o =
    if_cases IsOwned m.is_shut m _ (λ shut. o) (λ working. record { entry = λ vu r e. cc })

forget_user-heap :
    (m : ReuseMode) (id : Str) (user : Option Str) → (forget_user m id user).heap ≡ m.heap
forget_user-heap m id none = refl
forget_user-heap m id (some vu) = refl

pub on_eviction-IsOwned : (m : ReuseMode) (r : ℕ) → IsOwned m → IsOwned (on_eviction m r)
unfolding on_eviction forget
on_eviction-IsOwned m r o = record {
  entry = λ vu k h.
      let (at, apart) = forget-Entry m r o vu k h in
      let same = forget_user-heap m (m.heap.at r).id (lookup (m.heap.at r).id m.session_to_vu) in
      subst (λ h'. Entry h' (forget m r).session_to_vu (close_connection m.heap r m.closings) vu k)
        (sym same) (Entry-close m.heap (forget m r).session_to_vu m.closings vu k r apart at);
}

pub expire-IsOwned :
    (m : ReuseMode) (r : ℕ) → IsOwned m → IsOwned (record m { heap = set_state r expired m.heap })
expire-IsOwned m r o =
    heap-IsOwned m (set_state r expired m.heap) (set_state-SameNames r expired m.heap) o
