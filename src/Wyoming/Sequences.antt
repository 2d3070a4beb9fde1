-- ===== src/Wyoming/Sequences.antt =====
-- Several events in turn: what is written is read in the same order; and the data of an event that was
-- made at one end, read at the other.
use ai_assistant_driver.Common.{
  zero, suc, ℕ, ◌≡◌, refl, sym, ap, ◌∙◌, Option, none, some, List, [], ◌∷◌, ◌++◌, append_assoc,
  append-nil, length, Bytes, Result, ok, ◌>>=◌,
}
use ai_assistant_driver.Wyoming.{Event, Codec, Link, WriteError, ReadError, write_event, read_event}
use ai_assistant_driver.Wyoming.Framing.{payload_read}
use ai_assistant_driver.Wyoming.Delivery.{read_event-write_event}

module _ {D : Type 0} (codec : Codec D) where
  pub after_write :
      (Link → Link × Option WriteError) → Link × Option WriteError → Link × Option WriteError
  after_write rest (link, none) = rest link
  after_write rest (link, some e) = (link, some e)

  -- Events with their payloads, up to the first that cannot be written.
  unfoldable pub write_events : List (Event D × Bytes) → Link → Link × Option WriteError
  unfolding after_write
  write_events [] link = (link, none)
  write_events ((e, payload) ∷ es) link =
      after_write (write_events es) (write_event codec e payload link)

  -- As many events as are asked for, and what is left.
  unfoldable pub read_events : ℕ → Bytes → Result ReadError (List (Event D × Option Bytes) × Bytes)
  read_events zero stream = ok ([], stream)
  read_events (suc n) stream = do
    (e, payload, rest) ← read_event codec stream
    (es, rest') ← read_events n rest
    ok ((e, payload) ∷ es, rest')

  abbrev pub as_read : List (Event D × Bytes) → List (Event D × Option Bytes)
  as_read [] = []
  as_read ((e, payload) ∷ es) = (e, payload_read payload) ∷ as_read es

  pub split_write :
      (rest : Link → Link × Option WriteError) (r : Link × Option WriteError) (link' : Link)
      → after_write rest r ≡ (link', none)
      → (middle : Link) × (r ≡ (middle, none)) × (rest middle ≡ (link', none))
  unfolding after_write
  split_write rest (middle, none) link' h = (middle, refl, h)
  split_write rest (middle, some e) link' h = cc

  -- After writes that report no error, as many reads at the other end give the events in order, each with
  -- its payload, or nil for an empty one, and leave what comes behind them.
  pub read_events-write_events :
      (es : List (Event D × Bytes)) (rest : Bytes) (link link' : Link)
      → write_events es link ≡ (link', none)
      → (f : Bytes) × (link'.sent ≡ link.sent ++ f)
        × (read_events (length es) (f ++ rest) ≡ ok (as_read es, rest))
  unfolding write_events read_events
  read_events-write_events [] rest link link' wrote = (
    [],
    ap (λ (r : Link × Option WriteError). r.0.sent) (sym wrote) ∙ sym (append-nil link.sent),
    refl,
  )
  read_events-write_events ((e, payload) ∷ es) rest link link' wrote =
      let (middle, first, later) =
        split_write (write_events es) (write_event codec e payload link) link' wrote in
      let (g, sent_more, read_more) = read_events-write_events es rest middle link' later in
      let (f, sent_one, read_one) =
        read_event-write_event codec e payload (g ++ rest) link middle first in
      (
        f ++ g,
        sent_more ∙ ap (λ s. s ++ g) sent_one ∙ append_assoc link.sent f g,
        rw (append_assoc f g rest) (rw (read_one, read_more) refl),
      )
