-- ===== src/Wyoming/Fixtures.antt =====
-- Codecs for the tests: headers that are shifted past the newline, and data from a table of known ones.
use ai_assistant_driver.Common.{
  ℕ, ◌+◌, ◌-◌, ◌*◌, ◌/◌, ◌%◌, ◌<◌, ◌≡◌, ◌≢◌, refl, ap, Option, none, some, List, [], ◌∷◌, length,
  Bytes, Text, text_eq, text_eq→eq, All, arith, ◌==◌, if◌then◌else◌, Bool, true, false, ◌&&◌, suc,
  zero, Bool-cases, inl, inr,
}
use ai_assistant_driver.Common.Int.{ℤ, pos, negsuc}
use ai_assistant_driver.Wyoming.{Header, Codec, newline}
use ai_assistant_driver.Wyoming.Events.{
  Datum, number, text, truth, Entries, Structs, AudioStartData, TranscriptData, SynthesizeData,
}

abbrev put_int : ℤ → ℕ
put_int (pos n) = 11 + 2 * n
put_int (negsuc n) = 12 + 2 * n

abbrev get_int : ℕ → ℤ
get_int c = if c % 2 == 1 then pos ((c - 11) / 2) else negsuc ((c - 12) / 2)

get_int-put_int : (n : ℤ) → get_int (put_int n) ≡ n
get_int-put_int (pos n) = ground arith
get_int-put_int (negsuc n) = ground arith

pub put_int-ne : (n : ℤ) → put_int n ≢ newline
put_int-ne (pos n) = omega arith
put_int-ne (negsuc n) = omega arith

abbrev pub up : Text → Bytes
up [] = []
up (c ∷ t) = (c + 11) ∷ up t

abbrev pub down : Bytes → Text
down [] = []
down (c ∷ t) = (c - 11) ∷ down t

down-up : (t : Text) → down (up t) ≡ t
down-up [] = refl
down-up (c ∷ t) = ground (arith, down-up t)

pub up-ne : (t : Text) → All (λ c. c ≢ newline) (up t)
up-ne [] = tt
up-ne (c ∷ t) = (omega arith, up-ne t)

abbrev pub put_header : Header → Bytes
put_header h = put_int h.data_length ∷ put_int h.payload_length ∷ up h.type

abbrev pub get_header : Bytes → Option Header
get_header (d ∷ p ∷ t) =
    some (record { type = down t; data_length = get_int d; payload_length = get_int p })
get_header _ = none

pub header_reads_back : (h : Header) → get_header (put_header h) ≡ some h
header_reads_back h =
    ground (arith, get_int-put_int h.data_length, get_int-put_int h.payload_length, down-up h.type)

abbrev datum_eq : Datum → Datum → Bool
datum_eq (number (pos m)) (number (pos n)) = m == n
datum_eq (text s) (text t) = text_eq s t
datum_eq (truth true) (truth true) = true
datum_eq (truth false) (truth false) = true
datum_eq _ _ = false

datum_eq→eq : (d e : Datum) → datum_eq d e ≡ true → d ≡ e
datum_eq→eq (number (pos m)) (number (pos n)) h = ap (λ k. number (pos k)) (ground arith)
datum_eq→eq (number (pos m)) (number (negsuc n)) h = cc
datum_eq→eq (number (negsuc m)) e h = cc
datum_eq→eq (number (pos m)) (text t) h = cc
datum_eq→eq (number (pos m)) (truth b) h = cc
datum_eq→eq (text s) (text t) h = ap text (text_eq→eq s t h)
datum_eq→eq (text s) (number n) h = cc
datum_eq→eq (text s) (truth b) h = cc
datum_eq→eq (truth true) (truth true) h = refl
datum_eq→eq (truth true) (truth false) h = cc
datum_eq→eq (truth false) (truth true) h = cc
datum_eq→eq (truth false) (truth false) h = refl
datum_eq→eq (truth true) (text t) h = cc
datum_eq→eq (truth true) (number n) h = cc
datum_eq→eq (truth false) (text t) h = cc
datum_eq→eq (truth false) (number n) h = cc

abbrev entries_eq : Entries → Entries → Bool
entries_eq [] [] = true
entries_eq ((k, d) ∷ es) ((l, e) ∷ fs) = text_eq k l && (datum_eq d e && entries_eq es fs)
entries_eq _ _ = false

entries_eq→eq : (es fs : Entries) → entries_eq es fs ≡ true → es ≡ fs
entries_eq→eq [] [] h = refl
entries_eq→eq [] (f ∷ fs) h = cc
entries_eq→eq (e ∷ es) [] h = cc
entries_eq→eq ((k, d) ∷ es) ((l, e) ∷ fs) h =
    let key : text_eq k l ≡ true = ground arith in
    let datum : datum_eq d e ≡ true = ground arith in
    let others : entries_eq es fs ≡ true = ground arith in
    cc (text_eq→eq k l key, datum_eq→eq d e datum, entries_eq→eq es fs others)

abbrev later : Option ℕ → Option ℕ
later none = none
later (some n) = some (suc n)

-- The place of the entries in a table, and the entries at a place.
abbrev index_of : Entries → List Entries → Option ℕ
index_of es [] = none
index_of es (k ∷ ks) = let rest = index_of es ks in if entries_eq k es then some 0 else later rest

abbrev entry_at : List Entries → ℕ → Option Entries
entry_at [] n = none
entry_at (k ∷ ks) zero = some k
entry_at (k ∷ ks) (suc n) = entry_at ks n

entry_at-later :
    (ks : List Entries) (k es : Entries) (o : Option ℕ) (n : ℕ)
    → ((m : ℕ) → o ≡ some m → entry_at ks m ≡ some es)
    → later o ≡ some n
    → entry_at (k ∷ ks) n ≡ some es
entry_at-later ks k es none n v h = cc
entry_at-later ks k es (some m) n v h = let e : suc m ≡ n = cc in rw (← e) (v m refl)

pub entry_at-index_of :
    (es : Entries) (ks : List Entries) (n : ℕ) → index_of es ks ≡ some n → entry_at ks n ≡ some es
entry_at-index_of es [] n h = cc
entry_at-index_of es (k ∷ ks) n h = elim (Bool-cases (entries_eq k es)) [
  | inl found ↦
      let e : 0 ≡ n = cc (rw (index_of, found) at h) in
      rw (← e) (ap some (entries_eq→eq k es found))
  | inr other ↦
      entry_at-later ks k es (index_of es ks) n (λ m. entry_at-index_of es ks m)
        (rw (index_of, other) at h)
]

abbrev put_entries : Option ℕ → Option Bytes
put_entries none = none
put_entries (some n) = some (n ∷ [])

abbrev get_entries : List Entries → Bytes → Option Entries
get_entries table (n ∷ []) = entry_at table n
get_entries table _ = none

pub entries_read_back :
    (table : List Entries) (es : Entries) (o : Option ℕ) (b : Bytes)
    → ((n : ℕ) → o ≡ some n → entry_at table n ≡ some es)
    → put_entries o ≡ some b
    → (0 < length b) × (get_entries table b ≡ some es)
entries_read_back table es none b v h = cc
entries_read_back table es (some n) b v h =
    let e : n ∷ [] ≡ b = cc in rw (← e) (omega arith, v n refl)

-- A codec that marshals the entries of a table only.
abbrev pub table_codec : List Entries → Codec Entries
table_codec table = record {
  nil_data = [];
  marshal_data = λ es. put_entries (index_of es table);
  unmarshal_data = get_entries table;
  marshal_header = put_header;
  unmarshal_header = get_header;
  data_round_trip =
      λ es b. entries_read_back table es (index_of es table) b (entry_at-index_of es table);
  header_round_trip = header_reads_back;
  header_line = λ h. (put_int-ne h.data_length, (put_int-ne h.payload_length, up-ne h.type));
}

abbrev audio_start_of : Option Entries → Option AudioStartData
audio_start_of (some ((k, number r) ∷ (l, number w) ∷ (m, number c) ∷ [])) =
    some (record { rate = r; width = w; channels = c })
audio_start_of _ = none

abbrev transcript_of : Option Entries → Option TranscriptData
transcript_of (some ((k, text t) ∷ (l, truth f) ∷ [])) = some (record { text = t; final = f })
transcript_of _ = none

abbrev synthesize_of : Option Entries → Option SynthesizeData
synthesize_of (some ((k, text t) ∷ [])) = some (record { text = t })
synthesize_of _ = none

-- The structs of any codec: its entries, field by field.
abbrev pub structs_of : (codec : Codec Entries) → Structs codec
structs_of codec = record {
  audio_start_data = λ b. audio_start_of (codec.unmarshal_data b);
  transcript_data = λ b. transcript_of (codec.unmarshal_data b);
  synthesize_data = λ b. synthesize_of (codec.unmarshal_data b);
  reads_audio_start = λ rate width channels b h. ap audio_start_of (codec.data_round_trip _ b h).1;
  reads_transcript = λ t final b h. ap transcript_of (codec.data_round_trip _ b h).1;
  reads_synthesize = λ t b h. ap synthesize_of (codec.data_round_trip _ b h).1;
}
