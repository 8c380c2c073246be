-- ===== src/Transport/Examples.antt =====
-- The decoder at concrete inputs.
use mcpdrill.Prelude.{Str, [], ◌∷◌, ◌++◌, ◌≡◌, refl, none, some, codes, Str-discrete}
use mcpdrill.Prelude.Int.{pos}
use mcpdrill.Transport.Sse.{
  event_read, read_event, read_from, take_line, split_field, set_field, note_id, atoi,
}
use mcpdrill.Transport.Sse.RoundTrip.{
  Message, encode_all, stream, read_many, message_event, LastId, read_many-encode_all,
}

abbrev progress : Message
progress = record {
  event = codes "message";
  id = codes "evt_1f";
  data_lines = codes "a: b" ∷ codes " c" ∷ [];
}

abbrev ping : Message
ping = record { event = codes "ping"; id = []; data_lines = [] }

-- The messages, and then a line that the end of the file cuts off.
read_many-encode_all_example :
    (out : Str) × LastId (progress ∷ ping ∷ []) [] out
    × (read_many 2 (stream (encode_all (progress ∷ ping ∷ []) ++ []) (some (codes "data: x")) [])
        ≡ (
          stream [] (some (codes "data: x")) out,
          message_event progress ∷ message_event ping ∷ [],
        ))
read_many-encode_all_example =
    read_many-encode_all (progress ∷ ping ∷ []) [] (some (codes "data: x")) []
      ((refl, refl), ((refl, refl), tt))

-- A comment, a line that no colon parts, and a time to wait before the next attempt.
raw_lines :
    (read_event (stream (codes ":keep" ∷ codes "retry: 250" ∷ codes "data" ∷ [] ∷ []) none [])).1
    ≡ event_read (record { event = []; data_text = []; id = []; retry = pos 250 })
unfolding read_event read_from take_line split_field set_field note_id atoi Str-discrete
raw_lines = refl
