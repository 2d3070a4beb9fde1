-- ===== src/Esphome/Wire.antt =====
-- internal/esphome/esphome_client.go: frames on the plain-text connection, and where a message goes.
-- A frame is a zero byte, the length of the data and the type, both as varints, and the data. The
-- protobuf bodies are left as bytes; `parses` is proto.Unmarshal, whose result only matters by type.

pub mod Varint
pub mod Frames
pub mod Requests
pub mod Routing
pub mod Arrivals
pub mod Connecting
pub mod Attempts
pub mod Sending
pub mod Sent
mod Tests
use ai_assistant_driver.Common.{
  ℕ, zero, suc, ◌+◌, ◌*◌, ◌/◌, ◌%◌, ◌^◌, Bool, true, false, ◌&&◌, ◌||◌, Option, none, some, List,
  [], ◌∷◌, ◌++◌, ltb, ◌==◌, if◌then◌else◌, length, take, drop, Bytes, Result, ok, err, bit_or,
  ◌>>=◌,
}
use ai_assistant_driver.Common.Channel.{try_send}

pub data WireError : Type 0 where
  end_of_file varint_too_long body_not_parsed : WireError

-- encoding/binary's PutUvarint: seven bits a byte, the lowest first, the top bit set on all but the
-- last; `k` bounds the bytes before the last, nine for a uint64.
unfoldable pub groups : ℕ → ℕ → Bytes
groups zero v = v ∷ []
groups (suc k) v =
    let rest = groups k (v / 128) in if ltb v 128 then v ∷ [] else (v % 128 + 128) ∷ rest

abbrev pub put_uvarint : ℕ → Bytes
put_uvarint v = groups 9 v

-- `x | uint64(b) << s`
abbrev pub or_shifted : ℕ → ℕ → ℕ → ℕ
or_shifted x b s = bit_or x (b * 2 ^ s % 2 ^ 64)

-- The loop of readUvarint; `b & 0x7f` is `b % 128`.
unfoldable pub uvarint_loop : Bytes → ℕ → ℕ → ℕ → Result WireError (ℕ × Bytes)
uvarint_loop [] i x s = err end_of_file
uvarint_loop (b ∷ rest) i x s =
    let more = uvarint_loop rest (i + 1) (or_shifted x (b % 128) s) (s + 7) in
    if ltb b 128
    then ok (or_shifted x b s, rest)
    else if ltb 10 i
    then err varint_too_long
    else more

unfoldable pub read_uvarint : Bytes → Result WireError (ℕ × Bytes)
unfolding uvarint_loop
read_uvarint stream = uvarint_loop stream 0 0 0

-- The types of getMessageForTypeID.
abbrev pub known_types : List ℕ
known_types =
    1 ∷ 2 ∷ 3 ∷ 4 ∷ 5 ∷ 6 ∷ 7 ∷ 8 ∷ 9 ∷ 10 ∷ 11 ∷ 19 ∷ 20 ∷ 28 ∷ 12 ∷ 21 ∷ 24 ∷ 26 ∷ 53 ∷ 63 ∷ 64
    ∷ 65 ∷ 89 ∷ 90 ∷ 91 ∷ 92 ∷ 106 ∷ []

unfoldable pub one_of : ℕ → List ℕ → Bool
one_of n [] = false
one_of n (m ∷ ms) = n == m || one_of n ms

pub record Message : Type 0 where
  pub type_id : ℕ
  pub body : Bytes

-- sendWithTypeID: the frame that is written.
unfoldable pub frame : Message → Bytes
frame m = 0 ∷ (put_uvarint (length m.body) ++ (put_uvarint m.type_id ++ m.body))

-- The body, once the length and the type are known; an unknown type gives the nil message.
unfoldable pub read_body :
    (ℕ → Bytes → Bool) → ℕ → ℕ → Bytes → Result WireError (Option Message × Bytes)
unfolding one_of
read_body parses size type_id stream =
    if ltb (length stream) size
    then err end_of_file
    else let body = take size stream in
      let rest = drop size stream in
      if one_of type_id known_types
      then (if parses type_id body
          then ok (some (record { type_id = type_id; body = body }), rest)
          else err body_not_parsed)
      else ok (none, rest)

-- readRawMessage
unfoldable pub read_raw_message :
    (ℕ → Bytes → Bool) → Bytes → Result WireError (Option Message × Bytes)
read_raw_message parses [] = err end_of_file
read_raw_message parses (preamble ∷ stream) = do
  (size, rest) ← read_uvarint stream
  (type_id, rest') ← read_uvarint rest
  read_body parses size type_id rest'

abbrev pub ping_request : ℕ
ping_request = 7

abbrev ping_response : ℕ
ping_response = 8

-- The pending requests by the type of their response, each with its channel of one; the channel of
-- ten messages; the frames that were written.
pub record Router : Type 0 where
  pub pending : List (ℕ × List Message)
  pub messages : List Message
  pub written : List Bytes

-- Delivers to the pending request of the type, if there is one.
unfoldable pub deliver : Message → List (ℕ × List Message) → Option (List (ℕ × List Message))
unfolding try_send
deliver m [] = none
deliver m ((t, waiting) ∷ rest) =
    if t == m.type_id
    then some ((t, try_send 1 m waiting) ∷ rest)
    else (elim (deliver m rest) [ none ↦ none | some rest' ↦ some ((t, waiting) ∷ rest') ])

-- routeMessage; `none` is the nil message of an unknown type.
unfoldable pub route_message : Option Message → Router → Router
unfolding deliver frame
route_message none r = r
route_message (some m) r =
    if m.type_id == ping_request
    then (record r {
      written = r.written ++ frame (record { type_id = ping_response; body = [] }) ∷ [];
    })
    else (elim (deliver m r.pending) [
      | some pending' ↦ record r { pending = pending' }
      | none ↦ record r { messages = try_send 10 m r.messages }
    ])

-- readLoop over what arrives until the connection ends: every message is routed. Each read takes at
-- least one byte, so a round for every byte and one more for the end are enough.
unfoldable pub read_loop : (ℕ → Bytes → Bool) → ℕ → Bytes → Router → Router × WireError
read_loop parses zero stream r = (r, end_of_file)
read_loop parses (suc f) stream r = elim (read_raw_message parses stream) [
  | err e ↦ (r, e)
  | ok (m, rest) ↦ read_loop parses f rest (route_message m r)
]

unfoldable pub read_connection : (ℕ → Bytes → Bool) → Bytes → Router → Router × WireError
unfolding read_loop
read_connection parses stream r = read_loop parses (length stream + 1) stream r
