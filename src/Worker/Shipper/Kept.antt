-- ===== src/Worker/Shipper/Kept.antt =====
-- What the shipper takes, it posts or still has.
use mcpdrill.Prelude.{
  ◌≡◌, refl, sym, ap, subst, ◌∙◌, inl, inr, ◌++◌, List, [], ◌∷◌, Bool, true, false, ◌||◌, Option,
  none, some, leb, if◌then◌else◌, if_cases, length, append_nil, append_assoc, Str, str_eq,
  Str-cases, Dict, lookup, erase, insert, IsKeyed, lookup-erase, lookup-insert,
}
use mcpdrill.Api.Store.Records.{OperationOutcome}
use mcpdrill.Worker.Shipper.{
  TelemetryItem, TelemetryBatchRequest, Answers, Outbox, TelemetryShipper, ship_batch, flush_all,
  flush, or_nil, add_item, receive_from,
}

-- The records of one run, in a post, in the posts, and in the buffer.
abbrev pub chosen : Str → Str → List OperationOutcome → List OperationOutcome
chosen r id os = if str_eq id r then os else []

abbrev pub posted_of : Str → List TelemetryBatchRequest → List OperationOutcome
posted_of r [] = []
posted_of r (q ∷ qs) = chosen r q.run_id q.operations ++ posted_of r qs

abbrev pub item_of : Str → TelemetryItem → List OperationOutcome
item_of r i = chosen r i.run_id (i.outcome ∷ [])

abbrev pub buffered_of : Str → List TelemetryItem → List OperationOutcome
buffered_of r [] = []
buffered_of r (i ∷ is) = item_of r i ++ buffered_of r is

abbrev pub pending_of : Str → Dict (List OperationOutcome) → List OperationOutcome
pending_of r m = or_nil (lookup r m)

-- The records of a run that the shipper posted or has, the first that it took first.
abbrev pub records_of : Str → TelemetryShipper → List OperationOutcome
records_of r s = posted_of r s.outbox.posted ++ (pending_of r s.batches ++ buffered_of r s.buffer)

posted_of-append :
    (r : Str) (ps qs : List TelemetryBatchRequest)
    → posted_of r (ps ++ qs) ≡ posted_of r ps ++ posted_of r qs
posted_of-append r [] qs = refl
posted_of-append r (p ∷ ps) qs =
    ap (λ os. chosen r p.run_id p.operations ++ os) (posted_of-append r ps qs)
    ∙ sym (append_assoc (chosen r p.run_id p.operations) (posted_of r ps) (posted_of r qs))

pub buffered_of-append :
    (r : Str) (is : List TelemetryItem) (i : TelemetryItem)
    → buffered_of r (is ++ (i ∷ [])) ≡ buffered_of r is ++ item_of r i
buffered_of-append r [] i = append_nil (item_of r i)
buffered_of-append r (j ∷ is) i =
    ap (λ os. item_of r j ++ os) (buffered_of-append r is i)
    ∙ sym (append_assoc (item_of r j) (buffered_of r is) (item_of r i))

or_nil-if :
    (b : Bool) (o : Option (List OperationOutcome))
    → or_nil (if b then none else o) ≡ (if b then [] else or_nil o)
or_nil-if true o = refl
or_nil-if false o = refl

or_nil-some_if :
    (b : Bool) (os : List OperationOutcome) (o : Option (List OperationOutcome))
    → or_nil (if b then some os else o) ≡ (if b then os else or_nil o)
or_nil-some_if true os o = refl
or_nil-some_if false os o = refl

-- The records of a run before and after an entry, of this run or not, joins a batch.
module _ (P B : List OperationOutcome) where
  joins_posted :
      (b : Bool) (batch pend o : List OperationOutcome)
      → (b ≡ true → batch ≡ pend)
      → (P ++ (if b then batch ++ o else [])) ++ ((if b then [] else pend) ++ B)
        ≡ P ++ (pend ++ ((if b then o else []) ++ B))
  joins_posted true batch pend o same =
      ap (λ x. (P ++ (x ++ o)) ++ B) (same refl)
      ∙ append_assoc P (pend ++ o) B
      ∙ ap (λ x. P ++ x) (append_assoc pend o B)
  joins_posted false batch pend o same = ap (λ x. x ++ (pend ++ B)) (append_nil P)

  joins_kept :
      (b : Bool) (batch pend o : List OperationOutcome)
      → (b ≡ true → batch ≡ pend)
      → P ++ ((if b then batch ++ o else pend) ++ B) ≡ P ++ (pend ++ ((if b then o else []) ++ B))
  joins_kept true batch pend o same =
      ap (λ x. P ++ ((x ++ o) ++ B)) (same refl) ∙ ap (λ x. P ++ x) (append_assoc pend o B)
  joins_kept false batch pend o same = refl

module _ (accepts : Answers) (r : Str) where
  ship_batch-posted_of :
      (id : Str) (os : List OperationOutcome) (b : Outbox)
      → posted_of r (ship_batch accepts id os b).posted ≡ posted_of r b.posted ++ chosen r id os
  unfolding ship_batch
  ship_batch-posted_of id [] b = sym (
      if_cases (λ os. posted_of r b.posted ++ os ≡ posted_of r b.posted) (str_eq id r) [] []
        (λ same. append_nil (posted_of r b.posted)) (λ other. append_nil (posted_of r b.posted)))
  ship_batch-posted_of id (o ∷ os) b =
      posted_of-append r b.posted _
      ∙ ap (λ x. posted_of r b.posted ++ x) (append_nil (chosen r id (o ∷ os)))

  flush_all-posted_of :
      (m : Dict (List OperationOutcome)) (b : Outbox)
      → IsKeyed m
      → posted_of r (flush_all accepts m b).posted ≡ posted_of r b.posted ++ pending_of r m
  unfolding flush_all
  flush_all-posted_of [] b keyed = sym (append_nil (posted_of r b.posted))
  flush_all-posted_of ((id, os) ∷ m) b keyed =
      flush_all-posted_of m (ship_batch accepts id os b) keyed.1
      ∙ ap (λ x. x ++ pending_of r m) (ship_batch-posted_of id os b)
      ∙ append_assoc (posted_of r b.posted) (chosen r id os) (pending_of r m)
      ∙ ap (λ x. posted_of r b.posted ++ x)
          (elim (Str-cases id r) [
            | inl (same, e) ↦ rw e (
                ap (λ o. os ++ or_nil o) (subst (λ x. lookup x m ≡ none) same keyed.0)
                ∙ append_nil os)
            | inr other ↦ rw other refl
          ])

  pending_of-erase :
      (k : Str) (m : Dict (List OperationOutcome))
      → pending_of r (erase k m) ≡ (if str_eq k r then [] else pending_of r m)
  pending_of-erase k m = ap or_nil (lookup-erase k r m) ∙ or_nil-if (str_eq k r) (lookup r m)

  pending_of-insert :
      (k : Str) (os : List OperationOutcome) (m : Dict (List OperationOutcome))
      → pending_of r (insert k os m) ≡ (if str_eq k r then os else pending_of r m)
  pending_of-insert k os m =
      ap or_nil (lookup-insert k r os m) ∙ or_nil-some_if (str_eq k r) os (lookup r m)

  same_pending :
      (k : Str) (m : Dict (List OperationOutcome))
      → str_eq k r ≡ true
      → pending_of k m ≡ pending_of r m
  same_pending k m e = elim (Str-cases k r) [
    | inl (same, _) ↦ ap (λ x. pending_of x m) same
    | inr other ↦ cc (e, other)
  ]

  pub add_item-records_of :
      (i : TelemetryItem) (s : TelemetryShipper)
      → records_of r (add_item accepts i s)
        ≡ posted_of r s.outbox.posted
          ++ (pending_of r s.batches ++ (item_of r i ++ buffered_of r s.buffer))
  unfolding add_item
  add_item-records_of i s =
      let k = i.run_id in
      let m = s.batches in
      let P = posted_of r s.outbox.posted in
      let B = buffered_of r s.buffer in
      let os = pending_of k m ++ (i.outcome ∷ []) in
      if_cases (λ s'. records_of r s' ≡ P ++ (pending_of r m ++ (item_of r i ++ B)))
        (leb s.batch_size (length os))
        (record s { batches = erase k m; outbox = ship_batch accepts k os s.outbox })
        (record s { batches = insert k os m })
        (λ full.
          ap (λ x. x ++ (pending_of r (erase k m) ++ B)) (ship_batch-posted_of k os s.outbox)
          ∙ ap (λ x. (P ++ chosen r k os) ++ (x ++ B)) (pending_of-erase k m)
          ∙ joins_posted P B (str_eq k r) (pending_of k m) (pending_of r m) (i.outcome ∷ [])
              (same_pending k m))
        (λ room.
          ap (λ x. P ++ (x ++ B)) (pending_of-insert k os m)
          ∙ joins_kept P B (str_eq k r) (pending_of k m) (pending_of r m) (i.outcome ∷ [])
              (same_pending k m))

  pub flush-records_of :
      (s : TelemetryShipper) → IsKeyed s.batches → records_of r (flush accepts s) ≡ records_of r s
  unfolding flush
  flush-records_of s keyed =
      ap (λ x. x ++ buffered_of r s.buffer) (flush_all-posted_of s.batches s.outbox keyed)
      ∙ append_assoc (posted_of r s.outbox.posted) (pending_of r s.batches) (buffered_of r s.buffer)

  pub receive_from-records_of :
      (is : List TelemetryItem) (s : TelemetryShipper)
      → s.buffer ≡ is
      → IsKeyed s.batches
      → records_of r (receive_from accepts is s) ≡ records_of r s
  unfolding receive_from
  receive_from-records_of [] s e keyed =
      if_cases (λ s'. records_of r s' ≡ records_of r s) (s.buffer_closed || s.draining)
        (record (flush accepts s) { stopped = true }) s (λ ends. flush-records_of s keyed)
        (λ waits. refl)
  receive_from-records_of (i ∷ is) s e keyed =
      add_item-records_of i (record s { buffer = is })
      ∙ ap (λ b. posted_of r s.outbox.posted ++ (pending_of r s.batches ++ buffered_of r b)) (sym e)
