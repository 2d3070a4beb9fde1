-- ===== src/OpenWrt/Counters.antt =====
-- The traffic table of a system, read by getTrafficStats.
use ai_assistant_driver.Common.{
  ℕ, ◌^◌, ◌<◌, ◌≡◌, refl, some, List, [], ◌∷◌, ◌++◌, if◌then◌else◌, Text, codes, err, decimal,
}
use ai_assistant_driver.Common.Words.Joined.{
  Dense, NoNewline, blanks, Padding, join_columns, split_one,
}
use ai_assistant_driver.OpenWrt.{index_out_of_range, TrafficStats, Answers}
use ai_assistant_driver.OpenWrt.Local.{is_skipped, get_traffic_stats}

-- The eight counters of a direction in /proc/net/dev; the program reads the first three.
pub record Direction : Type 0 where
  pub bytes : ℕ
  pub packets : ℕ
  pub errors : ℕ
  pub dropped : ℕ
  pub fifo : ℕ
  pub framing : ℕ
  pub compressed : ℕ
  pub multicast : ℕ

pub record Counters : Type 0 where
  pub name : Text
  pub received : Direction
  pub sent : Direction

abbrev numbers_of : Direction → List Text
numbers_of d =
    decimal d.bytes
    ∷ decimal d.packets
    ∷ decimal d.errors
    ∷ decimal d.dropped
    ∷ decimal d.fifo
    ∷ decimal d.framing
    ∷ decimal d.compressed
    ∷ decimal d.multicast
    ∷ []

abbrev pub words_of : Counters → List Text
words_of c = (c.name ++ codes ":") ∷ (numbers_of c.received ++ numbers_of c.sent)

abbrev FitsWords : Direction → Type 0
FitsWords d = (d.bytes < 2 ^ 64) × (d.packets < 2 ^ 64) × (d.errors < 2 ^ 64)

abbrev IsCounters : Counters → Type 0
IsCounters c = Dense c.name × FitsWords c.received × FitsWords c.sent

-- A name with `lead` blanks in front, and the counters in columns, however they are padded.
unfoldable pub print_counters : (Text → ℕ) → Padding → List Counters → List Text
print_counters lead pads [] = []
print_counters lead pads (c ∷ cs) =
    blanks (lead c.name) (join_columns pads 0 (words_of c)) ∷ print_counters lead pads cs

unfoldable pub counted : List Counters → List TrafficStats
counted [] = []
counted (c ∷ cs) =
    let more = counted cs in
    if is_skipped c.name
    then more
    else record {
      interface = c.name;
      rx_bytes = c.received.bytes;
      tx_bytes = c.sent.bytes;
      rx_packets = c.received.packets;
      tx_packets = c.sent.packets;
      rx_errors = c.received.errors;
      tx_errors = c.sent.errors;
    }
      ∷ more

-- A table of fewer than two lines makes getTrafficStats panic.
get_traffic_stats_short :
    (a : Answers) (text : Text)
    → NoNewline text
    → a.net_dev ≡ some text
    → get_traffic_stats a ≡ err index_out_of_range
unfolding get_traffic_stats
get_traffic_stats_short a text one there = rw there (rw (split_one text one) refl)
