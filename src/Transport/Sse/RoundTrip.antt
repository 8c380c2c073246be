-- ===== src/Transport/Sse/RoundTrip.antt =====
-- Messages written as a server writes them are read back, one by one.
use mathlib.Core.List.{append_assoc, append-nil}
use mcpdrill.Prelude.{
  ℕ, zero, suc, length, All, ◌≤◌, ◌≡◌, refl, sym, ap, subst, ◌⊎◌, inl, inr, ◌++◌, List, [], ◌∷◌,
  true, false, Option, none, some, Str, Str-discrete, codes, map, arith, Bool-cases,
}
use mcpdrill.Prelude.Int.{pos}
use mcpdrill.Transport.Sse.{
  SseDecoder, Partial, Read, event_read, read_event, read_from, take_line, set_field, split_field,
  has_content, finished, note_id, has_nul, empty_partial, join_lines, all_hex, after_prefix,
  is_event_rest, is_valid_event_id,
}

-- A message: its data is given line by line.
pub record Message : Type 0 where
  pub event : Str
  pub id : Str
  pub data_lines : List Str

abbrev pub data_line : Str → Str
data_line s = codes "data: " ++ s

-- The lines of a message, up to the empty one that ends it.
abbrev pub encode : Message → List Str
encode m =
    (codes "event: " ++ m.event) ∷ (codes "id: " ++ m.id) ∷ (map data_line m.data_lines ++ [] ∷ [])

abbrev pub partial_of : Message → Partial
partial_of m = record { event = m.event; id = m.id; retry = pos 0; data_lines = m.data_lines }

take_event : (p : Partial) (s : Str) → take_line p (codes "event: " ++ s) ≡ record p { event = s }
unfolding take_line split_field set_field Str-discrete
take_event p s = refl

take_id :
    (p : Partial) (s : Str)
    → has_nul s ≡ false
    → take_line p (codes "id: " ++ s) ≡ record p { id = s }
unfolding take_line split_field set_field Str-discrete
take_id p s h = rw h refl

take_data :
    (p : Partial) (s : Str)
    → take_line p (data_line s) ≡ record p { data_lines = p.data_lines ++ s ∷ [] }
unfolding take_line split_field set_field Str-discrete
take_data p s = refl

read_data :
    (ds : List Str) (p : Partial) (rest : List Str) (last : Option Str)
    → has_content (record p { data_lines = p.data_lines ++ ds }) ≡ true
    → read_from p (map data_line ds ++ [] ∷ rest) last
      ≡ (event_read (finished (record p { data_lines = p.data_lines ++ ds })), (rest, last))
unfolding read_from
read_data [] p rest last h =
    let full : has_content p ≡ true =
      subst (λ ds. has_content (record p { data_lines = ds }) ≡ true) (append-nil p.data_lines) h in
    rw (full, append-nil p.data_lines) refl
read_data (d ∷ ds) p rest last h =
    let p' : Partial = record p { data_lines = p.data_lines ++ d ∷ [] } in
    let assoc = append_assoc p.data_lines (d ∷ []) ds in
    let full = subst (λ x. has_content (record p { data_lines = x }) ≡ true) (sym assoc) h in
    rw (take_data p d) (
      subst
        (λ x.
          read_from p' (map data_line ds ++ [] ∷ rest) last
          ≡ (event_read (finished (record p { data_lines = x })), (rest, last)))
        assoc (read_data ds p' rest last full))

-- A message that a client can see: it has some content, and its id has no zero byte.
abbrev pub IsSendable : Message → Type 0
IsSendable m = (has_nul m.id ≡ false) × (has_content (partial_of m) ≡ true)

read_message :
    (m : Message) (rest : List Str) (last : Option Str)
    → IsSendable m
    → read_from empty_partial (encode m ++ rest) last
      ≡ (event_read (finished (partial_of m)), (rest, last))
unfolding read_from Str-discrete
read_message m rest last (no_nul, full) =
    let named : Partial = record empty_partial { event = m.event } in
    let both : Partial = record named { id = m.id } in
    rw
      (
        append_assoc (map data_line m.data_lines) ([] ∷ []) rest,
        take_event empty_partial m.event,
        take_id named m.id no_nul,
      )
      (read_data m.data_lines both rest last full)

-- The decoder after `n` calls of `ReadEvent`, and what they returned.
unfoldable pub read_many : ℕ → SseDecoder → SseDecoder × List Read
unfolding read_event
read_many zero d = (d, [])
read_many (suc n) d = let (d', r) = read_event d in let (d'', rs) = read_many n d' in (d'', r ∷ rs)

abbrev pub encode_all : List Message → List Str
encode_all [] = []
encode_all (m ∷ ms) = encode m ++ encode_all ms

-- The lines of the data with the end of a line, code 10, between them.
abbrev pub followed : List Str → Str
followed [] = []
followed (s ∷ ss) = (10 ∷ s) ++ followed ss

abbrev pub spaced : List Str → Str
spaced [] = []
spaced (s ∷ ss) = s ++ followed ss

join_lines-spaced : (ds : List Str) → join_lines ds ≡ spaced ds
join_lines-spaced [] = refl
join_lines-spaced (s ∷ []) = sym (append-nil s)
join_lines-spaced (s ∷ t ∷ ss) = ap (λ (x : Str). s ++ (10 ∷ x)) (join_lines-spaced (t ∷ ss))

-- What the client is to read of a message.
abbrev pub message_event : Message → Read
message_event m =
    event_read
      (record { event = m.event; data_text = spaced m.data_lines; id = m.id; retry = pos 0 })

-- One of 0-9 and a-f.
abbrev pub IsHex : ℕ → Type 0
IsHex c = ((48 ≤ c) × (c ≤ 57)) ⊎ ((97 ≤ c) × (c ≤ 102))

-- An id that a client resumes from: `evt_` and one or more of those.
abbrev pub IsEventId : Str → Type 0
IsEventId s = (c : ℕ) × (rest : Str) × (s ≡ codes "evt_" ++ c ∷ rest) × (IsHex c × All IsHex rest)

-- The id to resume from after some messages, from that before them.
abbrev pub LastId : List Message → Str → Str → Type 0
LastId [] id out = out ≡ id
LastId (m ∷ ms) id out =
    (IsEventId m.id × LastId ms m.id out) ⊎ ((IsEventId m.id → ⊥) × LastId ms id out)

all_hex-IsHex : (s : Str) → all_hex s ≡ true → All IsHex s
all_hex-IsHex [] h = tt
all_hex-IsHex (c ∷ s) h = (ground (arith, h), all_hex-IsHex s (ground (arith, h)))

IsHex-all_hex : (s : Str) → All IsHex s → all_hex s ≡ true
IsHex-all_hex [] h = refl
IsHex-all_hex (c ∷ s) (inl h, hs) = ground (arith, h, IsHex-all_hex s hs)
IsHex-all_hex (c ∷ s) (inr h, hs) = ground (arith, h, IsHex-all_hex s hs)

after_prefix_sound : (p s rest : Str) → after_prefix p s ≡ some rest → s ≡ p ++ rest
after_prefix_sound [] s rest e = cc
after_prefix_sound (c ∷ p) [] rest e = cc
after_prefix_sound (c ∷ p) (d ∷ s) rest e = ground (arith, after_prefix_sound p s rest)

valid-IsEventId :
    (s : Str) (o : Option Str)
    → after_prefix (codes "evt_") s ≡ o
    → is_event_rest o ≡ true
    → IsEventId s
valid-IsEventId s none e h = cc
valid-IsEventId s (some []) e h = cc
valid-IsEventId s (some (c ∷ rest)) e h =
    (c, rest, after_prefix_sound (codes "evt_") s (c ∷ rest) e, all_hex-IsHex (c ∷ rest) h)

is_valid_event_id-IsEventId : (s : Str) → is_valid_event_id s ≡ true → IsEventId s
unfolding is_valid_event_id
is_valid_event_id-IsEventId s h = valid-IsEventId s (after_prefix (codes "evt_") s) refl h

IsEventId-is_valid_event_id : (s : Str) → IsEventId s → is_valid_event_id s ≡ true
unfolding is_valid_event_id
IsEventId-is_valid_event_id s (c, rest, e, hex) = rw e (IsHex-all_hex (c ∷ rest) hex)

-- A decoder of an open stream.
abbrev pub stream : List Str → Option Str → Str → SseDecoder
stream lines last id = record { lines = lines; last = last; last_event_id = id; is_shut = false }

same_pair :
    {x y : SseDecoder} {a b : Read} {rs ss : List Read}
    → x ≡ y
    → a ≡ b
    → rs ≡ ss
    → ◌≡◌ {A = SseDecoder × List Read} (x, a ∷ rs) (y, b ∷ ss)
same_pair p q r i = (p i, q i ∷ r i)

read_then :
    (n : ℕ) (d d' d'' : SseDecoder) (r : Read) (rs : List Read)
    → read_event d ≡ (d', r)
    → read_many n d' ≡ (d'', rs)
    → read_many (suc n) d ≡ (d'', r ∷ rs)
unfolding read_many
read_then n d d' d'' r rs first later =
    let after : read_many n (read_event d).0 ≡ (d'', rs) =
      subst (λ x. read_many n x.0 ≡ (d'', rs)) (sym first) later in
    same_pair (ap (λ x. x.0) after) (ap (λ x. x.1) first) (ap (λ x. x.1) after)

read_nothing : (d : SseDecoder) → read_many zero d ≡ (d, [])
unfolding read_many
read_nothing d = refl

read_one :
    (m : Message) (rest : List Str) (last : Option Str) (id : Str)
    → IsSendable m
    → read_event (stream (encode m ++ rest) last id)
      ≡ (stream rest last (note_id (message_event m) id), message_event m)
unfolding read_event
read_one m rest last id h = rw (read_message m rest last h, join_lines-spaced m.data_lines) refl

noted :
    (m : Message) (ms : List Message) (id out : Str)
    → LastId ms (note_id (message_event m) id) out
    → LastId (m ∷ ms) id out
unfolding note_id
noted m ms id out h = elim (Bool-cases (is_valid_event_id m.id)) [
  | inl valid ↦ inl (is_valid_event_id-IsEventId m.id valid, rw valid at h)
  | inr other ↦ inr (λ form. let valid = IsEventId-is_valid_event_id m.id form in cc, rw other at h)
]

-- The messages of a server, each with content and an id without zero bytes, come out one by one in
-- the order in which they were written, with their events, ids and lines of data, and leave the rest
-- of the stream as it is; the id to resume from is the last one that is `evt_` and one or more
-- hexadecimal digits in lower case, and as before if there is none.
pub read_many-encode_all :
    (ms : List Message) (rest : List Str) (last : Option Str) (id : Str)
    → All IsSendable ms
    → (out : Str) × LastId ms id out
      × (read_many (length ms) (stream (encode_all ms ++ rest) last id)
          ≡ (stream rest last out, map message_event ms))
read_many-encode_all [] rest last id h = (id, refl, read_nothing (stream rest last id))
read_many-encode_all (m ∷ ms) rest last id (sendable, h) =
    let reassoc = append_assoc (encode m) (encode_all ms) rest in
    let id' = note_id (message_event m) id in
    let (out, is_last, later) = read_many-encode_all ms rest last id' h in
    let first =
      subst
        (λ x.
          read_event (stream x last id)
          ≡ (stream (encode_all ms ++ rest) last id', message_event m))
        (sym reassoc) (read_one m (encode_all ms ++ rest) last id sendable) in
    (
      out,
      noted m ms id out is_last,
      read_then (length ms) _ (stream (encode_all ms ++ rest) last id') _ (message_event m)
          (map message_event ms) first later,
    )
