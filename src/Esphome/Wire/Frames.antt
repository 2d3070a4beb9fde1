-- ===== src/Esphome/Wire/Frames.antt =====
-- Frames read back, one and many.
use ai_assistant_driver.Common.{
  ℕ, zero, suc, ◌+◌, ◌≤◌, ◌<◌, ◌^◌, ◌≡◌, refl, ◌∙◌, Bool, true, false, some, List, [], ◌∷◌, ◌++◌,
  append_assoc, ltb, length, length-append, All, take_append, drop_append, Bytes, ok, arith,
}
use ai_assistant_driver.Esphome.Wire.{
  end_of_file, put_uvarint, read_uvarint, known_types, one_of, Message, frame, read_body,
  read_raw_message, Router, route_message, read_loop, read_connection,
}
use ai_assistant_driver.Esphome.Wire.Varint.{read_uvarint-put_uvarint}

-- A message of a type the program knows, whose body is one of that type and has a length.
pub record IsReadable (parses : ℕ → Bytes → Bool) (m : Message) : Type 0 where
  pub known : one_of m.type_id known_types ≡ true
  pub typed : m.type_id < 2 ^ 64
  pub sized : length m.body < 2 ^ 64
  pub parsed : parses m.type_id m.body ≡ true

unfoldable pub frames : List Message → Bytes
frames [] = []
frames (m ∷ ms) = frame m ++ frames ms

unfoldable pub route_all : List Message → Router → Router
route_all [] r = r
route_all (m ∷ ms) r = route_all ms (route_message (some m) r)

module _ (parses : ℕ → Bytes → Bool) where
  read_body-append :
      (m : Message) (rest : Bytes)
      → IsReadable parses m
      → read_body parses (length m.body) m.type_id (m.body ++ rest) ≡ ok (some m, rest)
  unfolding read_body
  read_body-append m rest readable =
      let enough : ltb (length (m.body ++ rest)) (length m.body) ≡ false =
        ground (arith, length-append m.body rest) in
      rw enough (
        rw readable.known
          (rw (take_append m.body rest) (rw (drop_append m.body rest) (rw readable.parsed refl))))

  -- A frame that was written for a message is read back as the message, and what follows it is left.
  read_raw_message-frame :
      (m : Message) (rest : Bytes)
      → IsReadable parses m
      → read_raw_message parses (frame m ++ rest) ≡ ok (some m, rest)
  unfolding read_raw_message frame
  read_raw_message-frame m rest readable =
      let tail = put_uvarint m.type_id ++ m.body in
      let sizes : read_uvarint ((put_uvarint (length m.body) ++ tail) ++ rest)
          ≡ ok (length m.body, tail ++ rest) =
        rw (append_assoc (put_uvarint (length m.body)) tail rest)
          (read_uvarint-put_uvarint (length m.body) (tail ++ rest) readable.sized) in
      let types : read_uvarint (tail ++ rest) ≡ ok (m.type_id, m.body ++ rest) =
        rw (append_assoc (put_uvarint m.type_id) m.body rest)
          (read_uvarint-put_uvarint m.type_id (m.body ++ rest) readable.typed) in
      rw sizes (rw types (read_body-append m rest readable))

  frame-nonempty : (m : Message) → 1 ≤ length (frame m)
  unfolding frame
  frame-nonempty m = omega arith

  frames-many : (ms : List Message) → length ms ≤ length (frames ms)
  unfolding frames
  frames-many [] = omega arith
  frames-many (m ∷ ms) =
      omega (arith, frame-nonempty m, frames-many ms, length-append (frame m) (frames ms))

  read_loop_more :
      (f : ℕ) (m : Message) (rest stream : Bytes) (r : Router)
      → read_raw_message parses stream ≡ ok (some m, rest)
      → read_loop parses (suc f) stream r ≡ read_loop parses f rest (route_message (some m) r)
  unfolding read_loop
  read_loop_more f m rest stream r h = rw (read_loop, h) refl

  read_loop-frames :
      (ms : List Message) (f : ℕ) (r : Router)
      → All (IsReadable parses) ms
      → length ms < f
      → read_loop parses f (frames ms) r ≡ (route_all ms r, end_of_file)
  unfolding frames route_all read_loop read_raw_message
  read_loop-frames [] (suc f) r readable enough = refl
  read_loop-frames (m ∷ ms) (suc f) r (readable, rest) enough =
      read_loop_more f (m) (frames ms) (frame m ++ frames ms) r
        (read_raw_message-frame m (frames ms) readable)
      ∙ read_loop-frames ms f (route_message (some m) r) rest (omega arith)
  read_loop-frames ms zero r readable enough = absurd (omega arith)

  -- A connection on which frames of readable messages arrive routes each of the messages, in order,
  -- and ends at the end of the stream.
  pub read_connection-frames :
      (ms : List Message) (r : Router)
      → All (IsReadable parses) ms
      → read_connection parses (frames ms) r ≡ (route_all ms r, end_of_file)
  unfolding read_connection
  read_connection-frames ms r readable =
      read_loop-frames ms (length (frames ms) + 1) r readable (omega (arith, frames-many ms))
