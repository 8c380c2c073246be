-- ===== src/Transport/Sse.antt =====
-- internal/transport/sse_decoder.go: server-sent events. The stream is the lines that the reader
-- goroutine hands over, without their ends, and then what follows the last end of a line, which comes
-- with the end of the file. The stall of a stream and other errors of reading are left out.
pub mod RoundTrip
use mcpdrill.Prelude.{
  ℕ, zero, suc, ◌+◌, ◌*◌, ◌-◌, ◌++◌, List, [], ◌∷◌, Bool, true, false, not, ◌&&◌, ◌||◌, Option,
  none, some, leb, ltb, ◌==◌, if◌then◌else◌, Str, str_eq, codes,
}
use mcpdrill.Prelude.Int.{ℤ, pos, negsuc}

pub record SseEvent : Type 0 where
  pub event : Str
  pub data_text : Str
  pub id : Str
  pub retry : ℤ

pub record SseDecoder : Type 0 where
  pub lines : List Str
  pub last : Option Str
  pub last_event_id : Str
  pub is_shut : Bool

-- The event and the `dataLines` of a call of `ReadEvent`.
pub record Partial : Type 0 where
  pub event : Str
  pub id : Str
  pub retry : ℤ
  pub data_lines : List Str

pub data Read : Type 0 where
  event_read : SseEvent → Read
  end_of_file : Read
  stream_closed : Read

abbrev pub is_empty_list {ℓ} : {A : Type ℓ} → List A → Bool
is_empty_list [] = true
is_empty_list (x ∷ xs) = false

-- `evt_` and then one or more of 0-9 and a-f.
abbrev pub is_hex_digit : ℕ → Bool
is_hex_digit c = leb 48 c && leb c 57 || (leb 97 c && leb c 102)

abbrev pub all_hex : Str → Bool
all_hex [] = true
all_hex (c ∷ s) = is_hex_digit c && all_hex s

abbrev pub after_prefix : Str → Str → Option Str
after_prefix [] s = some s
after_prefix (c ∷ p) [] = none
after_prefix (c ∷ p) (d ∷ s) = if c == d then after_prefix p s else none

abbrev pub is_event_rest : Option Str → Bool
is_event_rest none = false
is_event_rest (some rest) = not (is_empty_list rest) && all_hex rest

unfoldable pub is_valid_event_id : Str → Bool
is_valid_event_id id = is_event_rest (after_prefix (codes "evt_") id)

-- The value of a line without its first space.
abbrev strip : Str → Str
strip [] = []
strip (c ∷ s) = if c == 32 then s else c ∷ s

-- The field of a line and its value, which are parted by the first colon.
unfoldable pub split_field : Str → Str × Str
split_field [] = ([], [])
split_field (c ∷ s) =
    let (field, value) = split_field s in if c == 58 then ([], strip s) else (c ∷ field, value)

-- `strconv.Atoi`
digits_from : ℕ → Str → Option ℕ
digits_from n [] = some n
digits_from n (c ∷ s) = if leb 48 c && leb c 57 then digits_from (n * 10 + (c - 48)) s else none

digits : Str → Option ℕ
unfolding digits_from
digits [] = none
digits (c ∷ s) = digits_from 0 (c ∷ s)

abbrev at_most_int : ℕ → Option ℤ
at_most_int n = if ltb n 9223372036854775808 then some (pos n) else none

abbrev at_least_int : ℕ → Option ℤ
at_least_int zero = some (pos zero)
at_least_int (suc n) = if ltb n 9223372036854775808 then some (negsuc n) else none

unfoldable pub atoi : Str → Option ℤ
unfolding digits
atoi [] = none
atoi (c ∷ s) =
    if c == 45
    then elim (digits s) [ none ↦ none | some n ↦ at_least_int n ]
    else elim (digits (if c == 43 then s else c ∷ s)) [ none ↦ none | some n ↦ at_most_int n ]

abbrev pub has_nul : Str → Bool
has_nul [] = false
has_nul (c ∷ s) = if c == 0 then true else has_nul s

-- The `switch` on the field.
unfoldable pub set_field : Partial → Str × Str → Partial
unfolding atoi
set_field p (field, value) =
    if str_eq field (codes "event")
    then record p { event = value }
    else if str_eq field (codes "data")
    then record p { data_lines = p.data_lines ++ value ∷ [] }
    else if str_eq field (codes "id")
    then (if has_nul value then p else record p { id = value })
    else if str_eq field (codes "retry")
    then elim (atoi value) [ none ↦ p | some n ↦ record p { retry = n } ]
    else p

abbrev pub is_comment : Str → Bool
is_comment [] = false
is_comment (c ∷ s) = c == 58

-- A line that is not empty.
unfoldable pub take_line : Partial → Str → Partial
unfolding split_field set_field
take_line p line = if is_comment line then p else set_field p (split_field line)

abbrev pub has_content : Partial → Bool
has_content p =
    not (is_empty_list p.data_lines) || (not (is_empty_list p.event) || not (is_empty_list p.id))

-- `strings.Join` with the end of a line.
abbrev pub join_lines : List Str → Str
join_lines [] = []
join_lines (s ∷ []) = s
join_lines (s ∷ t ∷ ss) = s ++ (10 ∷ join_lines (t ∷ ss))

abbrev pub finished : Partial → SseEvent
finished p = record {
  event = p.event;
  data_text = join_lines p.data_lines;
  id = p.id;
  retry = p.retry;
}

-- What the end of the file gives.
unfoldable pub at_end : Partial → Read
at_end p = if has_content p then event_read (finished p) else end_of_file

unfoldable pub last_line : Partial → Option Str → Read
unfolding take_line at_end
last_line p none = at_end p
last_line p (some line) =
    if is_comment line
    then end_of_file
    else at_end (if is_empty_list line then p else take_line p line)

-- The loop of `ReadEvent`: what it reads, and the lines and the last line that are left.
unfoldable pub read_from : Partial → List Str → Option Str → Read × (List Str × Option Str)
unfolding last_line take_line
read_from p [] last = (last_line p last, ([], none))
read_from p (line ∷ lines) last =
    let going_on = read_from (if is_empty_list line then p else take_line p line) lines last in
    if is_empty_list line && has_content p
    then (event_read (finished p), (lines, last))
    else going_on

abbrev pub empty_partial : Partial
empty_partial = record { event = []; id = []; retry = pos 0; data_lines = [] }

-- The id to resume from: that of an event read, if it is of the right form.
unfoldable pub note_id : Read → Str → Str
unfolding is_valid_event_id
note_id (event_read e) id = if is_valid_event_id e.id then e.id else id
note_id _ id = id

unfoldable pub read_event : SseDecoder → SseDecoder × Read
unfolding read_from note_id
read_event d =
    let (read, (lines, last)) = read_from empty_partial d.lines d.last in
    if d.is_shut then (d, stream_closed) else (
      record d { lines = lines; last = last; last_event_id = note_id read d.last_event_id },
      read,
    )

unfoldable pub close : SseDecoder → SseDecoder
close d = record d { is_shut = true }
