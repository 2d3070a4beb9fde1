-- ===== src/Wyoming/Tests.antt =====
-- The wire theorems at concrete inputs, with a codec that shifts every number past the newline.
use ai_assistant_driver.Common.{
  ◌<◌, ◌≡◌, refl, Option, List, none, some, [], ◌∷◌, ◌++◌, length, Bytes, codes, ok, err, arith,
}
use ai_assistant_driver.Common.Int.{pos}
use ai_assistant_driver.Wyoming.Fixtures.{
  put_header, get_header, header_reads_back, put_int-ne, up-ne,
}
use ai_assistant_driver.Wyoming.{
  Event, Codec, Link, ReadError, newline, parts, write_event, read_event,
}
use ai_assistant_driver.Wyoming.Framing.{frame}
use ai_assistant_driver.Wyoming.Delivery.{Delivered, write_event-Delivered}
use ai_assistant_driver.Wyoming.Sequences.{
  write_events, read_events, as_read, read_events-write_events,
}
use ai_assistant_driver.Wyoming.Prefixes.{read_event_truncated}

abbrev get_json : Bytes → Option Bytes
get_json [] = none
get_json (c ∷ d) = some d

json_reads_back : (d b : Bytes) → some (b'{' ∷ d) ≡ some b → (0 < length b) × (get_json b ≡ some d)
json_reads_back d [] h = cc
json_reads_back d (c ∷ b) h = (omega arith, cc)

abbrev codec : Codec Bytes
codec = record {
  nil_data = [];
  marshal_data = λ d. some (b'{' ∷ d);
  unmarshal_data = get_json;
  marshal_header = put_header;
  unmarshal_header = get_header;
  data_round_trip = json_reads_back;
  header_round_trip = header_reads_back;
  header_line = λ h. (put_int-ne h.data_length, (put_int-ne h.payload_length, up-ne h.type));
}

abbrev chunk : Event Bytes
chunk = record { type = codes "audio-chunk"; json = codes "rate" }

abbrev up_link : Link
up_link = record { sent = 7 ∷ []; breaks = none }

-- It breaks in the second write.
abbrev weak_link : Link
weak_link = record { sent = []; breaks = some (1, 0) }

write_event-Delivered_example :
    Delivered
      (frame codec chunk (b'{' ∷ codes "rate") (1 ∷ 2 ∷ []))
      weak_link
      (write_event codec chunk (1 ∷ 2 ∷ []) weak_link)
write_event-Delivered_example =
    write_event-Delivered codec chunk (b'{' ∷ codes "rate") (1 ∷ 2 ∷ []) weak_link refl

abbrev two_events : List (Event Bytes × Bytes)
two_events = (chunk, 1 ∷ 2 ∷ []) ∷ (record chunk { json = codes "width" }, []) ∷ []

abbrev after_two : Link
after_two = (write_events codec two_events up_link).0

two_are_written : write_events codec two_events up_link ≡ (after_two, none)
unfolding write_events write_event
two_are_written = refl

read_events-write_events_example :
    (f : Bytes) × (after_two.sent ≡ up_link.sent ++ f)
    × (read_events codec 2 (f ++ 9 ∷ []) ≡ ok (as_read codec two_events, 9 ∷ []))
read_events-write_events_example =
    read_events-write_events codec two_events (9 ∷ []) up_link after_two two_are_written

abbrev front_part : Bytes
front_part = put_header (record { type = chunk.type; data_length = pos 5; payload_length = pos 2 })

-- Cut off before the newline.
read_event_truncated_example : (x : ReadError) × (read_event codec front_part ≡ err x)
unfolding parts
read_event_truncated_example =
    read_event_truncated codec chunk (b'{' ∷ codes "rate") (1 ∷ 2 ∷ []) newline front_part
      (b'{' ∷ codes "rate" ++ 1 ∷ 2 ∷ []) refl refl
