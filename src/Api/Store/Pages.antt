-- ===== src/Api/Store/Pages.antt =====
-- The pages of the logs of a run.
use mcpdrill.Prelude.{
  ℕ, zero, suc, ◌+◌, ◌-◌, ◌≤◌, ◌<◌, ◌≡◌, refl, sym, ap, ◌∙◌, inl, inr, ◌++◌, List, [], ◌∷◌, Bool,
  true, false, ◌&&◌, some, ltb, leb, if◌then◌else◌, if_cases, if_true, if_false, Bool-cases, length,
  take, drop, keep, drop_nil, length-drop, leb→le, append_nil, append_assoc, length-append, arith,
  Str, str_eq, codes, lookup,
}
use mcpdrill.Api.Store.Records.{OperationLog, LogFilters, RunTelemetry, TelemetryStore}
use mcpdrill.Api.Store.Queries.{
  matches_filters, count_matches, collect, backwards, page_of, page_if_known, query_logs,
}

module _ {ℓ} {A : Type ℓ} where
  take_nil : (n : ℕ) → take {A = A} n [] ≡ []
  take_nil zero = refl
  take_nil (suc n) = refl

  take_all : (n : ℕ) (xs : List A) → length xs ≤ n → take n xs ≡ xs
  take_all zero [] h = refl
  take_all zero (x ∷ xs) h = absurd (omega (arith, h))
  take_all (suc n) [] h = refl
  take_all (suc n) (x ∷ xs) h = ap (λ ys. x ∷ ys) (take_all n xs (omega (arith, h)))

  drop_all : (n : ℕ) (xs : List A) → length xs ≤ n → drop n xs ≡ []
  drop_all zero [] h = refl
  drop_all zero (x ∷ xs) h = absurd (omega (arith, h))
  drop_all (suc n) [] h = refl
  drop_all (suc n) (x ∷ xs) h = drop_all n xs (omega (arith, h))

  drop_later : (n m : ℕ) (x : A) (xs : List A) → m < n → drop (n - m) (x ∷ xs) ≡ drop (n - suc m) xs
  drop_later n m x xs h =
      let e : n - m ≡ suc (n - suc m) = omega (arith, h) in ap (λ k. drop k (x ∷ xs)) e

  take_one_more :
      (n m : ℕ) (x : A) (xs : List A) → m < n → take (n - m) (x ∷ xs) ≡ x ∷ take (n - (m + 1)) xs
  take_one_more n m x xs h =
      let e : n - m ≡ suc (n - (m + 1)) = omega (arith, h) in ap (λ k. take k (x ∷ xs)) e

  drop_zero : (n : ℕ) (xs : List A) → n ≡ 0 → drop n xs ≡ xs
  drop_zero n xs h = ap (λ k. drop k xs) h

  take_zero : (n : ℕ) (xs : List A) → n ≡ 0 → take n xs ≡ []
  take_zero n xs h = ap (λ k. take k xs) h

abbrev chosen : LogFilters → List OperationLog → List OperationLog
chosen f ls = keep (matches_filters f) ls

-- What the loop still adds to its result.
abbrev to_come : LogFilters → ℕ → ℕ → List OperationLog → List OperationLog → List OperationLog
to_come f size matched result ls =
    take (size - length result) (drop (f.offset - matched) (chosen f ls))

module _ (f : LogFilters) (size m : ℕ) (r : List OperationLog) (l : OperationLog)
    (ls : List OperationLog) where
  keep-hit : matches_filters f l ≡ true → chosen f (l ∷ ls) ≡ l ∷ chosen f ls
  keep-hit h = if_true (matches_filters f l) (l ∷ chosen f ls) (chosen f ls) h

  keep-miss : matches_filters f l ≡ false → chosen f (l ∷ ls) ≡ chosen f ls
  keep-miss h = if_false (matches_filters f l) (l ∷ chosen f ls) (chosen f ls) h

  -- A match: the loop ends if the page is full.
  abbrev goes_on : List OperationLog → List OperationLog
  goes_on r' = if leb size (length r') then r' else collect f size (suc m) r' ls

  collect-miss : matches_filters f l ≡ false → collect f size m r (l ∷ ls) ≡ collect f size m r ls
  unfolding collect
  collect-miss h = rw h refl

  collect-hit :
      matches_filters f l ≡ true
      → collect f size m r (l ∷ ls)
        ≡ goes_on (if leb f.offset m && ltb (length r) size then r ++ (l ∷ []) else r)
  unfolding collect
  collect-hit h = rw h refl

  module _
      (later : (r' : List OperationLog)
        → collect f size (suc m) r' ls ≡ r' ++ to_come f size (suc m) r' ls) where
    goes_on-later : (r' : List OperationLog) → goes_on r' ≡ r' ++ to_come f size (suc m) r' ls
    goes_on-later r' =
        if_cases (λ x. x ≡ r' ++ to_come f size (suc m) r' ls) (leb size (length r')) r'
          (collect f size (suc m) r' ls)
          (λ full. sym (
            ap (λ xs. r' ++ xs)
              (take_zero (size - length r') (drop (f.offset - suc m) (chosen f ls))
                (omega (arith, leb→le size (length r') full)))
            ∙ append_nil r'))
          (λ room. later r')

    collect-hit_later :
        (b : Bool)
        → (leb f.offset m && ltb (length r) size) ≡ b
        → goes_on (if b then r ++ (l ∷ []) else r)
          ≡ r ++ take (size - length r) (drop (f.offset - m) (l ∷ chosen f ls))
    collect-hit_later true e =
        let here : f.offset ≤ m = ground arith in
        let room : length r < size = ground arith in
        goes_on-later (r ++ (l ∷ []))
        ∙ ap (λ n. (r ++ (l ∷ [])) ++ take (size - n) (drop (f.offset - suc m) (chosen f ls)))
            (length-append r (l ∷ []))
        ∙ append_assoc r (l ∷ [])
            (take (size - (length r + 1)) (drop (f.offset - suc m) (chosen f ls)))
        ∙ ap (λ xs. r ++ xs)
            (ap (λ xs. l ∷ take (size - (length r + 1)) xs)
                (drop_zero (f.offset - suc m) (chosen f ls) (omega (arith, here)))
              ∙ sym (take_one_more size (length r) l (chosen f ls) room)
              ∙ ap (take (size - length r))
                  (sym (drop_zero (f.offset - m) (l ∷ chosen f ls) (omega (arith, here)))))
    collect-hit_later false e =
        goes_on-later r
        ∙ ap (λ xs. r ++ xs)
            (elim (Bool-cases (leb f.offset m)) [
              | inr before ↦
                  ap (take (size - length r))
                    (sym (drop_later f.offset m l (chosen f ls) (ground arith)))
              | inl reached ↦
                  let full : size - length r ≡ 0 = ground arith in
                  take_zero (size - length r) (drop (f.offset - suc m) (chosen f ls)) full
                  ∙ sym (take_zero (size - length r) (drop (f.offset - m) (l ∷ chosen f ls)) full)
            ])

collect-to_come :
    (f : LogFilters) (size matched : ℕ) (result ls : List OperationLog)
    → collect f size matched result ls ≡ result ++ to_come f size matched result ls
unfolding collect
collect-to_come f size m r [] = sym (
    ap (λ xs. r ++ take (size - length r) xs) (drop_nil (f.offset - m))
    ∙ ap (λ xs. r ++ xs) (take_nil (size - length r))
    ∙ append_nil r)
collect-to_come f size m r (l ∷ ls) = elim (Bool-cases (matches_filters f l)) [
  | inr miss ↦
      collect-miss f size m r l ls miss
      ∙ collect-to_come f size m r ls
      ∙ ap (λ xs. r ++ take (size - length r) (drop (f.offset - m) xs))
          (sym (keep-miss f size m r l ls miss))
  | inl hit ↦
      collect-hit f size m r l ls hit
      ∙ collect-hit_later f size m r l ls (λ r'. collect-to_come f size (suc m) r' ls)
          (leb f.offset m && ltb (length r) size) refl
      ∙ ap (λ xs. r ++ take (size - length r) (drop (f.offset - m) xs))
          (sym (keep-hit f size m r l ls hit))
]

count_matches-keep :
    (f : LogFilters) (ls : List OperationLog) → count_matches f ls ≡ length (chosen f ls)
unfolding count_matches
count_matches-keep f [] = refl
count_matches-keep f (l ∷ ls) = ground (arith, count_matches-keep f ls)

count_matches-append :
    (f : LogFilters) (xs ys : List OperationLog)
    → count_matches f (xs ++ ys) ≡ count_matches f xs + count_matches f ys
unfolding count_matches
count_matches-append f [] ys = omega arith
count_matches-append f (x ∷ xs) ys = ground (arith, count_matches-append f xs ys)

count_matches-backwards :
    (f : LogFilters) (ls : List OperationLog) → count_matches f (backwards ls) ≡ count_matches f ls
unfolding backwards count_matches
count_matches-backwards f [] = refl
count_matches-backwards f (l ∷ ls) =
    ground (arith, count_matches-append f (backwards ls) (l ∷ []), count_matches-backwards f ls)

-- The order of a page.
abbrev pub in_order : LogFilters → List OperationLog → List OperationLog
in_order f ls = if str_eq f.order (codes "asc") then ls else backwards ls

-- A page of a list, cut to what there is.
module _ (xs : List OperationLog) (offset limit : ℕ) where
  take-cut :
      offset < length xs
      → take
          ((if ltb (length xs) (offset + limit) then length xs else offset + limit) - offset)
          (drop offset xs)
        ≡ take limit (drop offset xs)
  take-cut some_left =
      if_cases (λ end. take (end - offset) (drop offset xs) ≡ take limit (drop offset xs))
        (ltb (length xs) (offset + limit)) (length xs) (offset + limit)
        (λ short.
          let left : length (drop offset xs) ≡ length xs - offset = length-drop offset xs in
          take_all (length xs - offset) (drop offset xs) (omega (arith, left))
          ∙ sym (take_all limit (drop offset xs) (ground (arith, left, short))))
        (λ long. ap (λ n. take n (drop offset xs)) (omega arith))

abbrev page_size : LogFilters → ℕ → ℕ
page_size f count =
    (if ltb count (f.offset + f.limit) then count else f.offset + f.limit) - f.offset

module _ (f : LogFilters) (ls : List OperationLog) (count : ℕ)
    (counted : count ≡ length (chosen f ls)) where
  collect-page :
      leb count f.offset ≡ false
      → collect f (page_size f count) 0 [] ls ≡ take f.limit (drop f.offset (chosen f ls))
  collect-page some_left =
      let size = page_size f count in
      let same : size - 0 ≡ size = omega arith in
      let start : f.offset - 0 ≡ f.offset = omega arith in
      collect-to_come f size 0 [] ls
      ∙ ap (λ n. take n (drop (f.offset - 0) (chosen f ls))) same
      ∙ ap (λ n. take size (drop n (chosen f ls))) start
      ∙ ap (λ n. take (page_size f n) (drop f.offset (chosen f ls))) counted
      ∙ take-cut (chosen f ls) f.offset f.limit (ground (arith, counted, some_left))

  past_the_end : leb count f.offset ≡ true → [] ≡ take f.limit (drop f.offset (chosen f ls))
  past_the_end over = sym (
      ap (take f.limit) (drop_all f.offset (chosen f ls) (ground (arith, counted, over)))
      ∙ take_nil f.limit)

if_both :
    {A B : Type 0} (g : A → B) (b : Bool) (x y : A)
    → (if b then g x else g y) ≡ g (if b then x else y)
if_both g true x y = refl
if_both g false x y = refl

-- In either order.
module _ (f : LogFilters) (logs : List OperationLog) where
  in_order-counted : count_matches f logs ≡ length (chosen f (in_order f logs))
  in_order-counted =
      if_cases (λ ls. count_matches f logs ≡ length (chosen f ls)) (str_eq f.order (codes "asc"))
        logs (backwards logs) (λ asc. count_matches-keep f logs)
        (λ desc. sym (count_matches-backwards f logs) ∙ count_matches-keep f (backwards logs))

  abbrev answer : List OperationLog → List OperationLog × ℕ
  answer page = (page, count_matches f logs)

  page_of-chosen :
      page_of f logs ≡ answer (take f.limit (drop f.offset (chosen f (in_order f logs))))
  unfolding page_of
  page_of-chosen =
      let count = count_matches f logs in
      let size = page_size f count in
      let asc = str_eq f.order (codes "asc") in
      if_cases (λ r. r ≡ answer (take f.limit (drop f.offset (chosen f (in_order f logs)))))
        (leb count f.offset) ([], count)
        (if asc
          then (collect f size 0 [] logs, count)
          else (collect f size 0 [] (backwards logs), count))
        (λ over. ap answer (past_the_end f (in_order f logs) count in_order-counted over))
        (λ some_left.
          if_both (λ ls. answer (collect f size 0 [] ls)) asc logs (backwards logs)
          ∙ ap answer (collect-page f (in_order f logs) count in_order-counted some_left))

-- For a run that the store has, a query returns the number of the entries that match its filters, and
-- of these, from the first entry of the log to the last or the other way round as the query says,
-- those after the first `offset`, at most `limit`. The loop stops as soon as the page is full.
pub query_logs-page :
    (id : Str) (f : LogFilters) (s : TelemetryStore) (rt : RunTelemetry)
    → lookup id s.runs ≡ some rt
    → query_logs id f s
      ≡ some (
        take f.limit (drop f.offset (keep (matches_filters f) (in_order f rt.logs))),
        length (keep (matches_filters f) rt.logs),
      )
unfolding query_logs page_if_known
query_logs-page id f s rt known =
    ap (page_if_known f) known
    ∙ ap some (
        page_of-chosen f rt.logs
        ∙ ap
            (λ n. (take f.limit (drop f.offset (keep (matches_filters f) (in_order f rt.logs))), n))
            (count_matches-keep f rt.logs))
