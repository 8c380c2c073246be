-- ===== src/Worker/Shipper/Ships.antt =====
-- A call of Ship: what it takes, what it refuses and what it keeps.
use mcpdrill.Prelude.{
  ℕ, suc, ◌+◌, ◌≡◌, sym, ap, ◌∙◌, ◌++◌, List, [], ◌∷◌, Bool, true, false, not, ◌&&◌, ltb,
  if◌then◌else◌, if_cases, if_true, if_false, length, append_nil, append_assoc, arith, Str, IsKeyed,
}
use mcpdrill.Api.Store.Records.{OperationOutcome}
use mcpdrill.Worker.Shipper.{
  TelemetryItem, Answers, TelemetryShipper, ship, Step, ships, begins_close, finishes_close,
  receives, ticks, cancels, step,
}
use mcpdrill.Worker.Shipper.Kept.{
  posted_of, item_of, buffered_of, pending_of, records_of, buffered_of-append,
}

-- Whether the shipper takes a record that it is given now.
abbrev pub takes : TelemetryShipper → Bool
takes s = not s.closed && ltb (length s.buffer) s.buffer_size

abbrev pub taken_of : Str → Step → TelemetryShipper → List OperationOutcome
taken_of r (ships i) s = if takes s then item_of r i else []
taken_of r begins_close s = []
taken_of r finishes_close s = []
taken_of r receives s = []
taken_of r ticks s = []
taken_of r cancels s = []

-- The records of a run that the shipper takes in a history.
abbrev pub accepted_of : Answers → Str → List Step → TelemetryShipper → List OperationOutcome
accepted_of accepts r [] s = []
accepted_of accepts r (t ∷ ts) s = taken_of r t s ++ accepted_of accepts r ts (step accepts t s)

-- How many records it refuses.
abbrev pub refusal : Step → TelemetryShipper → ℕ
refusal (ships i) s = if takes s then 0 else 1
refusal begins_close s = 0
refusal finishes_close s = 0
refusal receives s = 0
refusal ticks s = 0
refusal cancels s = 0

abbrev pub refused : Answers → List Step → TelemetryShipper → ℕ
refused accepts [] s = 0
refused accepts (t ∷ ts) s = refusal t s + refused accepts ts (step accepts t s)

-- What holds between steps.
pub record IsSound (s : TelemetryShipper) : Type 0 where
  pub keyed : IsKeyed s.batches
  pub shuts : s.buffer_closed ≡ true → s.closed ≡ true
  pub calm : s.panicked ≡ false
  pub flushed : s.stopped ≡ true → s.batches ≡ []
  pub emptied : s.stopped ≡ true → s.draining ≡ false → (s.closed ≡ true) × (s.buffer ≡ [])

module _ (i : TelemetryItem) (s : TelemetryShipper) (h : IsSound s) where
  -- A call of `Ship`, by what it finds.
  pub ship_cases {κ} :
      (P : TelemetryShipper → Type κ)
      → (takes s ≡ false → P (record s { dropped_count = suc s.dropped_count }))
      → (takes s ≡ true → s.closed ≡ false → P (record s { buffer = s.buffer ++ (i ∷ []) }))
      → P (ship i s)
  unfolding ship
  ship_cases P refuses accepts_it =
      let space = ltb (length s.buffer) s.buffer_size in
      let dropped = record s { dropped_count = suc s.dropped_count } in
      let added = record s { buffer = s.buffer ++ (i ∷ []) } in
      let by_space = if space then added else dropped in
      let open_or_not = if s.buffer_closed then record s { panicked = true } else by_space in
      if_cases P s.closed dropped open_or_not (λ shut. refuses (ap (λ b. not b && space) shut))
        (λ still_open.
          if_cases P s.buffer_closed (record s { panicked = true }) by_space
            (λ gone. cc (h.shuts gone, still_open))
            (λ there.
              if_cases P space added dropped
                (λ room. accepts_it (ap (λ b. not b && space) still_open ∙ room) still_open)
                (λ full. refuses (ap (λ b. not b && space) still_open ∙ full))))

  pub ship-records_of :
      (r : Str) → records_of r (ship i s) ≡ records_of r s ++ (if takes s then item_of r i else [])
  ship-records_of r =
      let P = posted_of r s.outbox.posted in
      let B = buffered_of r s.buffer in
      let pend = pending_of r s.batches in
      ship_cases (λ s'. records_of r s' ≡ records_of r s ++ (if takes s then item_of r i else []))
        (λ refuses_it.
          sym (append_nil (records_of r s))
          ∙ ap (λ os. records_of r s ++ os) (sym (if_false (takes s) (item_of r i) [] refuses_it)))
        (λ accepts_it still_open.
          ap (λ x. P ++ (pend ++ x)) (buffered_of-append r s.buffer i)
          ∙ ap (λ x. P ++ x) (sym (append_assoc pend B (item_of r i)))
          ∙ sym (append_assoc P (pend ++ B) (item_of r i))
          ∙ ap (λ os. records_of r s ++ os) (sym (if_true (takes s) (item_of r i) [] accepts_it)))

  pub ship-refused : (ship i s).dropped_count ≡ s.dropped_count + (if takes s then 0 else 1)
  ship-refused =
      ship_cases (λ s'. s'.dropped_count ≡ s.dropped_count + (if takes s then 0 else 1))
        (λ refuses_it. rw refuses_it (omega arith))
        (λ accepts_it still_open. rw accepts_it (omega arith))

  pub ship-IsSound : IsSound (ship i s)
  ship-IsSound =
      ship_cases IsSound
        (λ refuses_it. record {
          keyed = h.keyed;
          shuts = h.shuts;
          calm = h.calm;
          flushed = h.flushed;
          emptied = h.emptied;
        })
        (λ accepts_it still_open. record {
          keyed = h.keyed;
          shuts = h.shuts;
          calm = h.calm;
          flushed = h.flushed;
          emptied = λ e d. cc ((h.emptied e d).0, still_open);
        })
