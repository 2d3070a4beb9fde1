-- ===== src/Wyoming/Framing.antt =====
-- What WriteEvent sends, ReadEvent reads back.
use ai_assistant_driver.Common.{
  ◌≡◌, ◌≢◌, refl, ap, ◌∙◌, Option, none, some, List, [], ◌∷◌, ◌++◌, if◌then◌else◌, length,
  take_append, drop_append, length-append, append-nil, append_assoc, Bytes, ok, All, is_nil, arith,
}
use ai_assistant_driver.Common.Int.{pos}
use ai_assistant_driver.Wyoming.{
  Event, Codec, newline, unless_nil, read_full, read_line, header_of, parts, read_data,
  read_payload, read_event,
}

-- The bytes of a frame.
abbrev pub concat : List Bytes → Bytes
concat [] = []
concat (b ∷ rest) = b ++ concat rest

abbrev pub frame : {D : Type 0} → Codec D → Event D → Bytes → Bytes → Bytes
frame codec event json payload = concat (parts codec event json payload)

abbrev pub payload_read : Bytes → Option Bytes
payload_read payload = if is_nil payload then none else some payload

read_line-newline :
    (line rest : Bytes)
    → All (λ c. c ≢ newline) line
    → read_line (line ++ newline ∷ rest) ≡ some (line, rest)
unfolding read_line
read_line-newline [] rest h = refl
read_line-newline (c ∷ line) rest (other, more) = ground (arith, read_line-newline line rest more)

read_full-append : (b rest : Bytes) → read_full (length b) (b ++ rest) ≡ some (b, rest)
unfolding read_full
read_full-append b rest =
    ground (arith, length-append b rest, take_append b rest, drop_append b rest)

module _ {D : Type 0} (codec : Codec D) where
  read_data-append :
      (d : D) (b rest : Bytes)
      → codec.marshal_data d ≡ some b
      → read_data codec (pos (length b)) (b ++ rest) ≡ ok (d, rest)
  unfolding read_data
  read_data-append d b rest e = ground (arith, codec.data_round_trip d b e, read_full-append b rest)

  read_payload-append :
      (b rest : Bytes) → read_payload codec (pos (length b)) (b ++ rest) ≡ ok (payload_read b, rest)
  unfolding read_payload
  read_payload-append [] rest = refl
  read_payload-append (c ∷ b) rest = ground (arith, read_full-append (c ∷ b) rest)

  concat_optional : (a b : Bytes) → concat (unless_nil a ++ unless_nil b) ≡ a ++ b
  concat_optional [] [] = refl
  concat_optional [] (y ∷ b) = append-nil (y ∷ b)
  concat_optional (x ∷ a) [] = refl
  concat_optional (x ∷ a) (y ∷ b) = ap (λ t. (x ∷ a) ++ t) (append-nil (y ∷ b))

  frame_lem :
      (e : Event D) (json payload rest : Bytes)
      → frame codec e json payload ++ rest
        ≡ codec.marshal_header (header_of codec e json payload)
          ++ newline ∷ (json ++ (payload ++ rest))
  unfolding parts
  frame_lem e json payload rest = rw concat_optional (
      append_assoc (codec.marshal_header _) (newline ∷ (json ++ payload)) rest
      ∙ ap (λ t. codec.marshal_header (header_of codec e json payload) ++ newline ∷ t)
          (append_assoc json payload rest))

  -- ReadEvent reads back the event of a frame, its payload or nil for an empty one, and leaves what
  -- follows the frame.
  pub read_event-frame :
      (e : Event D) (json payload rest : Bytes)
      → codec.marshal_data e.json ≡ some json
      → read_event codec (frame codec e json payload ++ rest) ≡ ok (e, payload_read payload, rest)
  unfolding read_event
  read_event-frame e json payload rest marshalled = rw (frame_lem e json payload rest) (
      ground (
        arith,
        read_line-newline (codec.marshal_header (header_of codec e json payload))
            (json ++ (payload ++ rest)) (codec.header_line _),
        codec.header_round_trip (header_of codec e json payload),
        read_data-append e.json json (payload ++ rest) marshalled,
        read_payload-append payload rest,
        header_is e json payload,
      ))
    where
      header_is :
          (e : Event D) (json payload : Bytes)
          → header_of codec e json payload ≡ record {
            type = e.type;
            data_length = pos (length json);
            payload_length = pos (length payload);
          }
      header_is e json payload = unfold header_of in refl
