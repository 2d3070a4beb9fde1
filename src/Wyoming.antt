-- ===== src/Wyoming.antt =====
-- internal/wyoming: events over a byte stream. A frame is a JSON header on a line of its own, then
-- as many bytes of JSON data and of payload as the header says.
-- `Codec` is encoding/json on headers and on event data, which has the type `D`; a connection is
-- what was sent on it, with the write at which it breaks, or what is still to be read from it.

pub mod Fixtures
mod Tests
pub mod Framing
pub mod Prefixes
pub mod Delivery
pub mod Events
pub mod Sequences
use ai_assistant_driver.Common.{
  ℕ, zero, suc, ◌-◌, ◌<◌, ◌≡◌, Bool, true, false, Option, none, some, List, [], ◌∷◌, ◌++◌, ltb,
  ◌==◌, if◌then◌else◌, length, take, drop, Bytes, Text, Result, ok, err, All, ◌≢◌, ◌>>=◌, is_nil,
}
use ai_assistant_driver.Common.Int.{ℤ, pos, pos_part, is_positive}

-- Event, without the `PayloadLength` that only a caller of ToJSON sees.
pub record Event (D : Type 0) : Type 0 where
  pub type : Text
  pub json : D

-- jsonEvent; its `Data` is never set.
pub record Header : Type 0 where
  pub type : Text
  pub data_length : ℤ
  pub payload_length : ℤ

abbrev pub newline : ℕ
newline = 10

-- `nil_data` is the nil map. JSON is not empty, and a marshalled header has no newline.
pub record Codec (D : Type 0) : Type 0 where
  pub nil_data : D
  pub marshal_data : D → Option Bytes
  pub unmarshal_data : Bytes → Option D
  pub marshal_header : Header → Bytes
  pub unmarshal_header : Bytes → Option Header
  pub data_round_trip :
      (d : D) (b : Bytes) → marshal_data d ≡ some b → (0 < length b) × (unmarshal_data b ≡ some d)
  pub header_round_trip : (h : Header) → unmarshal_header (marshal_header h) ≡ some h
  pub header_line : (h : Header) → All (λ c. c ≢ newline) (marshal_header h)

-- `breaks` is the number of writes that work, and what the next one still delivers.
pub record Link : Type 0 where
  pub sent : Bytes
  pub breaks : Option (ℕ × ℕ)

pub data WriteError : Type 0 where
  data_not_marshalled write_failed : WriteError

pub data ReadError : Type 0 where
  line_not_read header_not_parsed data_not_read data_not_parsed payload_not_read : ReadError

-- conn.Write: the link after it, and whether it worked.
unfoldable conn_write : Bytes → Link → Link × Bool
conn_write b link = elim link.breaks [
  | none ↦ (record link { sent = link.sent ++ b }, true)
  | some (zero, delivered) ↦ (record link { sent = link.sent ++ take delivered b }, false)
  | some (suc n, delivered) ↦ (record { sent = link.sent ++ b; breaks = some (n, delivered) }, true)
]

-- The writes in turn, up to the first that fails.
unfoldable pub write_all : List Bytes → Link → Link × Option WriteError
unfolding conn_write
write_all [] link = (link, none)
write_all (b ∷ rest) link =
    let (link', works) = conn_write b link in
    let later = write_all rest link' in if works then later else (link', some write_failed)

-- A part that is only written if it is not empty.
abbrev pub unless_nil : Bytes → List Bytes
unless_nil b = if is_nil b then [] else b ∷ []

-- The slice of a read, cut off by ReadFull: the bytes and the rest.
unfoldable pub read_full : ℕ → Bytes → Option (Bytes × Bytes)
read_full n stream = if ltb (length stream) n then none else some (take n stream, drop n stream)

cons_line : ℕ → Option (Bytes × Bytes) → Option (Bytes × Bytes)
cons_line c none = none
cons_line c (some (line, rest)) = some (c ∷ line, rest)

-- The bytes up to the next newline, which is dropped.
unfoldable pub read_line : Bytes → Option (Bytes × Bytes)
unfolding cons_line
read_line [] = none
read_line (c ∷ stream) =
    let more = cons_line c (read_line stream) in if c == newline then some ([], stream) else more

-- A value or the error.
abbrev pub or_fail {ℓ} : {E A : Type ℓ} → E → Option A → Result E A
or_fail e none = err e
or_fail e (some a) = ok a

module _ {D : Type 0} (codec : Codec D) where
  unfoldable pub header_of : Event D → Bytes → Bytes → Header
  header_of event json payload = record {
    type = event.type;
    data_length = pos (length json);
    payload_length = pos (length payload);
  }

  unfoldable pub parts : Event D → Bytes → Bytes → List Bytes
  unfolding header_of
  parts event json payload =
      codec.marshal_header (header_of event json payload)
      ∷ (newline ∷ [])
      ∷ (unless_nil json ++ unless_nil payload)

  -- WriteEvent
  unfoldable pub write_event : Event D → Bytes → Link → Link × Option WriteError
  unfolding parts write_all
  write_event event payload link = elim (codec.marshal_data event.json) [
    | none ↦ (link, some data_not_marshalled)
    | some json ↦ write_all (parts event json payload) link
  ]

  -- The data of the event, if the header announces any.
  unfoldable pub read_data : ℤ → Bytes → Result ReadError (D × Bytes)
  unfolding read_full
  read_data n stream =
      if is_positive n
      then (do
        (b, rest) ← or_fail data_not_read (read_full (pos_part n) stream)
        d ← or_fail data_not_parsed (codec.unmarshal_data b)
        ok (d, rest))
      else ok (codec.nil_data, stream)

  -- `none` is the nil slice.
  unfoldable pub read_payload : ℤ → Bytes → Result ReadError (Option Bytes × Bytes)
  unfolding read_full
  read_payload n stream =
      if is_positive n
      then (do
        (b, rest) ← or_fail payload_not_read (read_full (pos_part n) stream)
        ok (some b, rest))
      else ok (none, stream)

  -- ReadEvent on what the peer has sent, with what is left of it.
  unfoldable pub read_event : Bytes → Result ReadError (Event D × Option Bytes × Bytes)
  unfolding read_line read_data read_payload
  read_event stream = do
    (line, rest) ← or_fail line_not_read (read_line stream)
    header ← or_fail header_not_parsed (codec.unmarshal_header line)
    (json, rest') ← read_data header.data_length rest
    (payload, rest'') ← read_payload header.payload_length rest'
    ok (record { type = header.type; json = json }, payload, rest'')
