-- ===== src/Session/Modes/Churn/Rotation.antt =====
-- How long the churn mode keeps a session.
use mcpdrill.Prelude.{
  ℕ, suc, ◌+◌, ◌≤◌, ◌<◌, ◌≡◌, refl, sym, ap, subst, length, lookup-insert, ◌∙◌, List, [], ◌∷◌, true,
  false, none, some, arith, Str, lookup, lookup-update_at, update_at, if_true, if_false,
}
use mcpdrill.Session.Types.{idle, is_closed, touch}
use mcpdrill.Session.Modes.Heap.{set_state, take_up}
use mcpdrill.Session.Modes.Churn.{
  ChurnMode, ChurnSession, Found, has, must_create, resume, acquire_begin, acquire_finish, release,
  invalidate, gives_up, count_op, count_for,
}

-- A user takes its session at each of the times and gives it back; what it was told each time.
unfoldable pub rounds : ChurnMode → Str → ℕ → List ℕ → ChurnMode × List Found
rounds m vu r [] = (m, [])
rounds m vu r (t ∷ ts) =
    let a = acquire_begin m vu t in
    let rest = rounds (release a.0 r) vu r ts in (rest.0, a.1 ∷ rest.1)

-- The session `r` serves `vu`, after `n` operations; it has no term.
pub record Serving (m : ChurnMode) (vu : Str) (r n : ℕ) : Type 0 where
  pub since : ℕ
  pub works : m.is_shut ≡ false
  pub counts : m.use_ops_based ≡ true
  pub stands :
      lookup vu m.sessions ≡ some (record { session = r; created_at = since; op_count = n })
  pub named : lookup (m.heap.at r).id m.session_to_vu ≡ some vu
  pub endless : (m.heap.at r).expires_at ≡ none
  pub never_idle : (m.heap.at r).idle_expires_at ≡ none
  pub no_idle_term : m.max_idle_ms ≡ 0
  pub not_closed : is_closed (m.heap.at r).state ≡ false

module _ (m : ChurnMode) (vu : Str) (r n : ℕ) (s : Serving m vu r n) where
  cs : ChurnSession
  cs = record { session = r; created_at = s.since; op_count = n }

  served : ℕ → ChurnMode
  served t = record m { heap = take_up r m.max_idle_ms t m.heap }

  serve : (t : ℕ) → n < m.churn_interval_ops → acquire_begin m vu t ≡ (served t, has r)
  unfolding acquire_begin resume cs served
  serve t l =
      if_false m.is_shut _ _ s.works
      ∙ ap (λ f. resume m f t) s.stands
      ∙ if_false (gives_up m cs t) (invalidate m r, must_create) (served t, has r)
          (ground (arith, s.counts, l, s.endless, s.never_idle, s.not_closed))

  rotate : (t : ℕ) → m.churn_interval_ops ≤ n → acquire_begin m vu t ≡ (invalidate m r, must_create)
  unfolding acquire_begin resume cs served
  rotate t l =
      if_false m.is_shut _ _ s.works
      ∙ ap (λ f. resume m f t) s.stands
      ∙ if_true (gives_up m cs t) (invalidate m r, must_create) (served t, has r)
          (ground (arith, s.counts, l))

  give_back :
      release m r
      ≡ record m { heap = set_state r idle m.heap; sessions = update_at vu count_op m.sessions }
  unfolding release
  give_back =
      if_false m.is_shut _ _ s.works
      ∙ if_true m.use_ops_based _ _ s.counts
      ∙ ap (λ o. record m { heap = set_state r idle m.heap; sessions = count_for o m.sessions })
          s.named

  take_up-Serving : (t : ℕ) → Serving (served t) vu r n
  unfolding touch served
  take_up-Serving t = record {
    since = s.since;
    works = s.works;
    counts = s.counts;
    stands = s.stands;
    named = ground (arith, s.named);
    endless = ground (arith, s.endless);
    never_idle = ground (arith, s.never_idle, s.no_idle_term);
    no_idle_term = s.no_idle_term;
    not_closed = ground arith;
  }

  give_back-Serving :
      Serving
        (record m { heap = set_state r idle m.heap; sessions = update_at vu count_op m.sessions })
        vu
        r
        (n + 1)
  give_back-Serving = record {
    since = s.since;
    works = s.works;
    counts = s.counts;
    stands = lookup-update_at vu vu count_op m.sessions s.stands ∙ ground arith;
    named = ground (arith, s.named);
    endless = ground (arith, s.endless);
    never_idle = ground (arith, s.never_idle);
    no_idle_term = s.no_idle_term;
    not_closed = ground arith;
  }

round-Serving :
    (m : ChurnMode) (vu : Str) (r n t : ℕ) (s : Serving m vu r n)
    → n < m.churn_interval_ops
    → ((acquire_begin m vu t).1 ≡ has r)
      × Serving (release (acquire_begin m vu t).0 r) vu r (n + 1)
      × ((release (acquire_begin m vu t).0 r).churn_interval_ops ≡ m.churn_interval_ops)
unfolding served
round-Serving m vu r n t s l =
    let e = serve m vu r n s t l in
    let up = take_up-Serving m vu r n s t in
    let back = give_back (served m vu r n s t) vu r n up in
    let all = ap (λ (x : ChurnMode × Found). release x.0 r) e ∙ back in
    (
      ap (λ (x : ChurnMode × Found). x.1) e,
      subst (λ x. Serving x vu r (n + 1)) (sym all)
          (give_back-Serving (served m vu r n s t) vu r n up),
      ap (λ (x : ChurnMode). x.churn_interval_ops) all,
    )

-- As many answers with the session as there are times.
abbrev pub all_has : ℕ → List ℕ → List Found
all_has r [] = []
all_has r (t ∷ ts) = has r ∷ all_has r ts

rounds-Serving :
    (m : ChurnMode) (vu : Str) (r n : ℕ) (ts : List ℕ)
    → Serving m vu r n
    → n + length ts ≤ m.churn_interval_ops
    → ((rounds m vu r ts).1 ≡ all_has r ts)
      × Serving (rounds m vu r ts).0 vu r (n + length ts)
      × ((rounds m vu r ts).0.churn_interval_ops ≡ m.churn_interval_ops)
unfolding rounds
rounds-Serving m vu r n [] s l =
    (refl, subst (Serving m vu r) (let e : n ≡ n + 0 = omega arith in e) s, refl)
rounds-Serving m vu r n (t ∷ ts) s l =
    let (told, s', same) = round-Serving m vu r n t s (omega arith) in
    let m' = release (acquire_begin m vu t).0 r in
    let (all, s'', same') = rounds-Serving m' vu r (n + 1) ts s' (omega (arith, same)) in
    (
      ap (λ x. x ∷ (rounds m' vu r ts).1) told ∙ ap (λ x. has r ∷ x) all,
      subst (Serving (rounds m' vu r ts).0 vu r)
          (let e : n + 1 + length ts ≡ n + suc (length ts) = omega arith in e) s'',
      same' ∙ same,
    )

rounds-rotate :
    (m : ChurnMode) (vu : Str) (r t : ℕ) (ts : List ℕ)
    → Serving m vu r 0
    → suc (length ts) ≡ m.churn_interval_ops
    → ((rounds (release m r) vu r ts).1 ≡ all_has r ts)
      × (acquire_begin (rounds (release m r) vu r ts).0 vu t
          ≡ (invalidate (rounds (release m r) vu r ts).0 r, must_create))
rounds-rotate m vu r t ts s l =
    let back = give_back m vu r 0 s in
    let s1 = subst (λ x. Serving x vu r 1) (sym back) (give_back-Serving m vu r 0 s) in
    let same = ap (λ (x : ChurnMode). x.churn_interval_ops) back in
    let (all, s2, same') = rounds-Serving (release m r) vu r 1 ts s1 (omega (arith, same)) in
    (
      all,
      rotate (rounds (release m r) vu r ts).0 vu r (1 + length ts) s2 t
          (omega (arith, same, same')),
    )

acquire_finish-Serving :
    (m : ChurnMode) (vu : Str) (r now : ℕ)
    → m.is_shut ≡ false
    → m.use_ops_based ≡ true
    → m.max_idle_ms ≡ 0
    → (m.heap.at r).expires_at ≡ none
    → (m.heap.at r).idle_expires_at ≡ none
    → is_closed (m.heap.at r).state ≡ false
    → Serving (acquire_finish m vu r now) vu r 0
unfolding acquire_finish
acquire_finish-Serving m vu r now works counts no_idle endless never_idle live = record {
  since = now;
  works = works;
  counts = counts;
  stands = lookup-insert vu vu _ m.sessions ∙ ground arith;
  named = lookup-insert (m.heap.at r).id (m.heap.at r).id vu m.session_to_vu ∙ ground arith;
  endless = endless;
  never_idle = never_idle;
  no_idle_term = no_idle;
  not_closed = live;
}

-- A mode that counts operations and limits no idleness puts a new session without a term in its maps
-- for a user. The user gives it back and then takes it and gives it back at each of the times, in all
-- as often as the interval says, and no other call comes between. Then it is told that session each
-- time, and the next time it is told to create one, after the old one was invalidated.
pub acquire_finish-rounds :
    (m : ChurnMode) (vu : Str) (r now t : ℕ) (ts : List ℕ)
    → m.is_shut ≡ false
    → m.use_ops_based ≡ true
    → m.max_idle_ms ≡ 0
    → (m.heap.at r).expires_at ≡ none
    → (m.heap.at r).idle_expires_at ≡ none
    → is_closed (m.heap.at r).state ≡ false
    → suc (length ts) ≡ m.churn_interval_ops
    → (let m' = rounds (release (acquire_finish m vu r now) r) vu r ts in
        (m'.1 ≡ all_has r ts) × (acquire_begin m'.0 vu t ≡ (invalidate m'.0 r, must_create)))
unfolding acquire_finish
acquire_finish-rounds m vu r now t ts works counts no_idle endless never_idle live l =
    let s = acquire_finish-Serving m vu r now works counts no_idle endless never_idle live in
    rounds-rotate (acquire_finish m vu r now) vu r t ts s l
