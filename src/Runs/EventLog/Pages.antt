-- ===== src/Runs/EventLog/Pages.antt =====
-- The pages that a reader of the log is given, and what `Append` does to them.
use mcpdrill.Prelude.{
  zero_add, suc_add, drop_add, ℕ, zero, suc, ◌+◌, ◌-◌, ◌≤◌, ◌≡◌, refl, sym, ap, ◌∙◌, ◌++◌, List, [],
  ◌∷◌, not, ◌&&◌, ltb, leb, ◌==◌, length, take, drop, arith, length-append, length-drop, Bool-cases,
  Option-cases, inl, inr, ◌⊎◌,
}
use mcpdrill.Runs.EventLog.{
  RunEvent, EventLog, append, store, fill_in, missing_field, page, tail, EventLogError,
  negative_cursor, negative_limit,
}
use mcpdrill.Prelude.Int.{ℤ, pos, negsuc}

add_sub : (c n : ℕ) → c + n - c ≡ n
add_sub c n = omega arith

module _ {ℓ} {A : Type ℓ} where
  take_nil : (n : ℕ) → take {A = A} n [] ≡ []
  take_nil zero = refl
  take_nil (suc n) = refl

  take_all : (n : ℕ) (xs : List A) → length xs ≤ n → take n xs ≡ xs
  take_all zero [] h = refl
  take_all zero (x ∷ xs) h = ground arith
  take_all (suc n) [] h = refl
  take_all (suc n) (x ∷ xs) h = rw (take_all n xs (omega arith)) refl

  drop_all : (n : ℕ) (xs : List A) → length xs ≤ n → drop n xs ≡ []
  drop_all zero [] h = refl
  drop_all zero (x ∷ xs) h = ground arith
  drop_all (suc n) [] h = refl
  drop_all (suc n) (x ∷ xs) h = drop_all n xs (omega arith)

  take_add : (n m : ℕ) (xs : List A) → take n xs ++ take m (drop n xs) ≡ take (n + m) xs
  take_add zero m xs = rw (zero_add m) refl
  take_add (suc n) m [] = rw (suc_add n m, take_nil m) refl
  take_add (suc n) m (x ∷ xs) = rw (suc_add n m, take_add n m xs) refl

  take_append : (n : ℕ) (xs ys : List A) → n ≤ length xs → take n (xs ++ ys) ≡ take n xs
  take_append zero xs ys h = refl
  take_append (suc n) [] ys h = ground arith
  take_append (suc n) (x ∷ xs) ys h = rw (take_append n xs ys (omega arith)) refl

  drop_append : (n : ℕ) (xs ys : List A) → n ≤ length xs → drop n (xs ++ ys) ≡ drop n xs ++ ys
  drop_append zero xs ys h = refl
  drop_append (suc n) [] ys h = ground arith
  drop_append (suc n) (x ∷ xs) ys h = drop_append n xs ys (omega arith)

module _ {ℓ} {P : Type ℓ} where
  take_exact :
      (n c : ℕ) (es : List (RunEvent P))
      → c ≤ length es
      → length es ≤ c + n
      → take (length es - c) (drop c es) ≡ take n (drop c es)
  take_exact n c es h k =
      take_all (length es - c) (drop c es) (omega (arith, length-drop c es))
      ∙ sym (take_all n (drop c es) (omega (arith, length-drop c es)))

  past_end : (n c : ℕ) (es : List (RunEvent P)) → length es ≤ c → [] ≡ take n (drop c es)
  past_end n c es h = rw (drop_all c es h, take_nil n) refl

  page-take : (el : EventLog P) (c n : ℕ) → page el c n ≡ take n (drop c el.events)
  unfolding page
  page-take el c n = elim (Bool-cases (leb (length el.events) c)) [
    | inl past ↦ rw past (past_end n c el.events (ground arith))
    | inr within ↦ elim (Bool-cases (ltb (length el.events) (c + n))) [
      | inl short ↦ rw (within, short) (take_exact n c el.events (ground arith) (ground arith))
      | inr fits ↦ rw (within, fits, add_sub c n) refl
    ]
  ]

  -- What a reader gets from a cursor on: an answer that is not negative is a page.
  abbrev pub Tailed : EventLog P → ℤ → ℤ → EventLogError ⊎ List (RunEvent P) → Type ℓ
  Tailed el (pos c) (pos n) answer = answer ≡ inr (take n (drop c el.events))
  Tailed el (negsuc c) (pos n) answer = answer ≡ inl negative_cursor
  Tailed el cursor (negsuc n) answer = answer ≡ inl negative_limit

  tail-Tailed : (el : EventLog P) (cursor limit : ℤ) → Tailed el cursor limit (tail el cursor limit)
  unfolding tail
  tail-Tailed el (pos c) (pos n) = ap inr (page-take el c n)
  tail-Tailed el (negsuc c) (pos n) = refl
  tail-Tailed el (pos c) (negsuc n) = refl
  tail-Tailed el (negsuc c) (negsuc n) = refl

  -- `Tail` refuses a negative limit, and then a negative cursor; else it returns the events after the
  -- first `cursor`, at most `limit` of them. So the page at a cursor and the page at the cursor moved by
  -- the limit, of any length, are together the events after the first `cursor`, at most as many as both
  -- lengths: a reader that goes on so skips no event and sees none twice.
  pub page-page :
      (el : EventLog P) (c n m : ℕ) (cursor limit : ℤ)
      → Tailed el cursor limit (tail el cursor limit)
        × (page el c n ++ page el (c + n) m ≡ take (n + m) (drop c el.events))
  page-page el c n m cursor limit = (
    tail-Tailed el cursor limit,
    rw (page-take el c n, page-take el (c + n) m, drop_add c n el.events)
        (take_add n m (drop c el.events)),
  )

  page_of_longer :
      (el after : EventLog P) (fs : List (RunEvent P)) (c n : ℕ)
      → after.events ≡ el.events ++ fs
      → c + n ≤ length el.events
      → page after c n ≡ page el c n
  page_of_longer el after fs c n e h =
      rw (page-take after c n, page-take el c n, e, drop_append c el.events fs (omega arith))
        (take_append n (drop c el.events) fs (omega (arith, length-drop c el.events)))

  page_of_same :
      (el after : EventLog P) (c n : ℕ) → after.events ≡ el.events → page after c n ≡ page el c n
  page_of_same el after c n e = rw (page-take after c n, page-take el c n, e) refl

  abbrev pub IsBounded : EventLog P → Type 0
  IsBounded el = (el.max_events ≡ 0) ⊎ (length el.events ≤ el.max_events)

  -- What `Append` leaves of the log.
  abbrev pub Appended : EventLog P → EventLog P → Type ℓ
  Appended el after =
      (IsBounded el → IsBounded after)
      × ((c n : ℕ) → c + n ≤ length el.events → page after c n ≡ page el c n)

  store_lem : (el : EventLog P) (e : RunEvent P) → Appended el (store el e)
  unfolding store
  store_lem el e =
      elim (Bool-cases (not (el.max_events == 0) && leb el.max_events (length el.events))) [
        | inl full ↦ rw (full, store) ((λ b. b), λ c n h. page_of_same el _ c n refl)
        | inr room ↦
            rw (room, store)
              (
                (λ b. ground (arith, length-append el.events (e ∷ []))),
                λ c n h. page_of_longer el _ (e ∷ []) c n refl h,
              )
      ]

  -- `Append` keeps the log within its limit and moves no event that a page has shown.
  pub append-Appended :
      (el : EventLog P) (e : RunEvent P) (now counter : ℕ) → Appended el (append el e now counter).0
  unfolding append
  append-Appended el e now counter = elim (Option-cases (missing_field e)) [
    | inl complete ↦ rw (complete, append) (store_lem el (fill_in e now counter))
    | inr (err, missing) ↦ rw (missing, append) ((λ b. b), λ c n h. refl)
  ]
