-- ===== src/StopConditions/Evaluator/Windows.antt =====
-- The buffer holds what the windows of the log show.
use mcpdrill.Prelude.{
  ℕ, zero, suc, Dict, ◌+◌, ◌≤◌, ◌<◌, ◌≡◌, refl, sym, ap, ◌∙◌, ◌⊎◌, inl, inr, ◌++◌, List, [], ◌∷◌,
  arith, ltb, length, length-append, All, All-append, if◌then◌else◌, drop, Bool-cases,
}
use mathlib.Core.List.{append_assoc, append-nil}
use mcpdrill.StopConditions.Conditions.{Operation, TimedOperation, Evaluator, within}
use mcpdrill.StopConditions.Evaluator.{stamp, trim, take_in}

-- Too old for a window, at any time from then on.
abbrev pub IsGone : ℕ → ℕ → TimedOperation → Type 0
IsGone window now t = (window ≡ 0) ⊎ (t.observed_ms + window < now)

pub within-gone :
    (now last window max : ℕ) (pre ts : List TimedOperation)
    → last ≤ now
    → 0 < window
    → window ≤ max
    → All (IsGone max last) pre
    → within now window (pre ++ ts) ≡ within now window ts
unfolding within
within-gone now last window max [] ts o p l g = refl
within-gone now last window max (t ∷ pre) ts o p l g =
    ground (arith, g.0, within-gone now last window max pre ts o p l g.1)

pub within-trim :
    (now window max : ℕ) (ts : List TimedOperation)
    → window ≤ max
    → within now window (trim now max ts) ≡ within now window ts
unfolding within trim
within-trim now window max [] l = refl
within-trim now window max (t ∷ ts) l = ground (arith, within-trim now window max ts l)

-- What the trim drops.
unfoldable pub dropped : ℕ → ℕ → List TimedOperation → List TimedOperation
dropped now window [] = []
dropped now window (t ∷ ts) =
    if ltb (t.observed_ms + window) now then t ∷ dropped now window ts else []

pub dropped-trim :
    (now window : ℕ) (ts : List TimedOperation) → dropped now window ts ++ trim now window ts ≡ ts
unfolding dropped trim
dropped-trim now window [] = refl
dropped-trim now window (t ∷ ts) = ground (arith, dropped-trim now window ts)

pub dropped-IsGone :
    (now window : ℕ) (ts : List TimedOperation) → All (IsGone window now) (dropped now window ts)
unfolding dropped
dropped-IsGone now window [] = tt
dropped-IsGone now window (t ∷ ts) = elim (Bool-cases (ltb (t.observed_ms + window) now)) [
  | inl old ↦ rw old (inr (ground arith), dropped-IsGone now window ts)
  | inr young ↦ rw young tt
]

-- The log is what was dropped and then the buffer.
pub record Holds (max now : ℕ) (log buffer : List TimedOperation) : Type 0 where
  pub gone : List TimedOperation
  pub splits : log ≡ gone ++ buffer
  pub are_gone : All (IsGone max now) gone
  pub unused : max ≡ 0 → buffer ≡ []

pub IsGone-later :
    (max last now : ℕ) (ts : List TimedOperation)
    → last ≤ now
    → All (IsGone max last) ts
    → All (IsGone max now) ts
IsGone-later max last now [] o g = tt
IsGone-later max last now (t ∷ ts) o g = (
  elim (g.0) [ inl none ↦ inl none | inr old ↦ inr (omega arith) ],
  IsGone-later max last now ts o g.1,
)

abbrev pub next_buffer : ℕ → ℕ → List TimedOperation → List Operation → List TimedOperation
next_buffer zero now buffer os = buffer
next_buffer (suc max) now buffer os = trim now (suc max) (buffer ++ stamp now os)

next_buffer-if :
    (max now : ℕ) (buffer : List TimedOperation) (os : List Operation)
    → (if ltb 0 max then trim now max (buffer ++ stamp now os) else buffer)
      ≡ next_buffer max now buffer os
next_buffer-if zero now buffer os = refl
next_buffer-if (suc max) now buffer os = ground arith

append_gone :
    (max now : ℕ) (log gone buffer more kept : List TimedOperation) (left : List TimedOperation)
    → log ≡ gone ++ buffer
    → left ++ kept ≡ buffer ++ more
    → log ++ more ≡ (gone ++ left) ++ kept
append_gone max now log gone buffer more kept left e f =
    ap (λ x. x ++ more) e
    ∙ append_assoc gone buffer more
    ∙ ap (λ x. gone ++ x) (sym f)
    ∙ sym (append_assoc gone left kept)

All-IsGone : (now : ℕ) (ts : List TimedOperation) → All (IsGone 0 now) ts
All-IsGone now [] = tt
All-IsGone now (t ∷ ts) = (inl refl, All-IsGone now ts)

pub Holds-next :
    (max last now : ℕ) (log buffer : List TimedOperation) (os : List Operation)
    → last ≤ now
    → Holds max last log buffer
    → Holds max now (log ++ stamp now os) (next_buffer max now buffer os)
Holds-next zero last now log buffer os o h = record {
  gone = h.gone ++ stamp now os;
  splits =
      (let e = h.unused refl in
        ap (λ x. x ++ stamp now os) (h.splits ∙ ap (λ x. h.gone ++ x) e ∙ append-nil h.gone)
        ∙ sym (ap (λ x. (h.gone ++ stamp now os) ++ x) e ∙ append-nil (h.gone ++ stamp now os)));
  are_gone = All-IsGone now _;
  unused = h.unused;
}
Holds-next (suc max) last now log buffer os o h =
    let more = stamp now os in
    let left = dropped now (suc max) (buffer ++ more) in
    record {
      gone = h.gone ++ left;
      splits =
          append_gone (suc max) now log h.gone buffer more _ left h.splits
            (dropped-trim now (suc max) (buffer ++ more));
      are_gone =
          All-append (IsGone (suc max) now) h.gone left
            (IsGone-later (suc max) last now h.gone o h.are_gone)
            (dropped-IsGone now (suc max) (buffer ++ more));
      unused = λ z. absurd (omega arith);
    }

-- The windows of the conditions show the same in the log and in the buffer.
pub within-Holds :
    (max last now window : ℕ) (log buffer : List TimedOperation) (os : List Operation)
    → last ≤ now
    → 0 < window
    → window ≤ max
    → Holds max last log buffer
    → within now window (next_buffer max now buffer os) ≡ within now window (log ++ stamp now os)
within-Holds zero last now window log buffer os o p l h = absurd (omega arith)
within-Holds (suc max) last now window log buffer os o p l h =
    within-trim now window (suc max) (buffer ++ stamp now os) l
    ∙ sym (within-gone now last window (suc max) h.gone (buffer ++ stamp now os) o p l h.are_gone)
    ∙ ap (within now window) (
        sym (append_assoc h.gone buffer (stamp now os))
        ∙ ap (λ x. x ++ stamp now os) (sym h.splits))

-- The evaluator in another state.
abbrev pub with_state : Evaluator → ℕ → List TimedOperation → Dict ℕ → Evaluator
with_state e n buffer counts = record e { last_seen = n; buffer = buffer; sustain_counts = counts }

drop-length {ℓ} : {A : Type ℓ} (xs ys : List A) → drop (length xs) (xs ++ ys) ≡ ys
drop-length [] ys = refl
drop-length (x ∷ xs) ys = drop-length xs ys

pub take_in_lem :
    (e : Evaluator) (now : ℕ) (seen os : List Operation) (buffer : List TimedOperation)
    (counts : Dict ℕ)
    → take_in (with_state e (length seen) buffer counts) now (seen ++ os)
      ≡ with_state e (length (seen ++ os)) (next_buffer e.max_window_ms now buffer os) counts
unfolding take_in stamp
take_in_lem e now seen [] buffer counts =
    ground (arith, append-nil seen, append-nil buffer, next_buffer-if e.max_window_ms now buffer [])
take_in_lem e now seen (o ∷ os) buffer counts = ground (
  arith,
  length-append seen (o ∷ os),
  drop-length seen (o ∷ os),
  next_buffer-if e.max_window_ms now buffer (o ∷ os),
)
