-- ===== src/Wyoming/Delivery.antt =====
-- WriteEvent over a link that may break, and ReadEvent at the other end.
use mathlib.Core.Path.{subst}
use ai_assistant_driver.Common.{
  ℕ, zero, suc, ◌≡◌, refl, sym, ap, ◌∙◌, Option, none, some, List, [], ◌∷◌, ◌++◌, take, drop,
  append-nil, append_assoc, Bytes, ok, Option-cases, inl, inr,
}
use ai_assistant_driver.Wyoming.{
  Event, Codec, Link, WriteError, data_not_marshalled, write_all, parts, write_event, read_event,
}
use ai_assistant_driver.Wyoming.Framing.{concat, frame, payload_read, read_event-frame}

take-drop : (n : ℕ) (b : Bytes) → take n b ++ drop n b ≡ b
take-drop zero b = refl
take-drop (suc n) [] = refl
take-drop (suc n) (x ∷ b) = ap (λ t. x ∷ t) (take-drop n b)

-- What the writes of `bs` did to the link: all of it arrived, or they broke and a front part did.
abbrev pub Delivered : Bytes → Link → Link × Option WriteError → Type 0
Delivered whole link (link', none) = link'.sent ≡ link.sent ++ whole
Delivered whole link (link', some e) =
    (f : Bytes) × (g : Bytes) × (f ++ g ≡ whole) × (link'.sent ≡ link.sent ++ f)

deliver_more :
    (b whole : Bytes) (link link' : Link) (r : Link × Option WriteError)
    → link'.sent ≡ link.sent ++ b
    → Delivered whole link' r
    → Delivered (b ++ whole) link r
deliver_more b whole link link' (link'', none) e d =
    d ∙ ap (λ t. t ++ whole) e ∙ append_assoc link.sent b whole
deliver_more b whole link link' (link'', some x) e (f, g, split, d) = (
  b ++ f,
  g,
  append_assoc b f g ∙ ap (λ t. b ++ t) split,
  d ∙ ap (λ t. t ++ f) e ∙ append_assoc link.sent b f,
)

abbrev link_of : Bytes → Option (ℕ × ℕ) → Link
link_of sent breaks = record { sent = sent; breaks = breaks }

write_all-Delivered :
    (bs : List Bytes) (sent : Bytes) (breaks : Option (ℕ × ℕ))
    → Delivered (concat bs) (link_of sent breaks) (write_all bs (link_of sent breaks))
unfolding write_all
write_all-Delivered [] sent breaks = sym (append-nil sent)
write_all-Delivered (b ∷ bs) sent none =
    deliver_more b (concat bs) (link_of sent none) (link_of (sent ++ b) none)
      (write_all bs (link_of (sent ++ b) none)) refl (write_all-Delivered bs (sent ++ b) none)
write_all-Delivered (b ∷ bs) sent (some (zero, k)) = (
  take k b,
  drop k b ++ concat bs,
  sym (append_assoc (take k b) (drop k b) (concat bs)) ∙ ap (λ t. t ++ concat bs) (take-drop k b),
  refl,
)
write_all-Delivered (b ∷ bs) sent (some (suc n, k)) =
    deliver_more b (concat bs) (link_of sent (some (suc n, k))) (link_of (sent ++ b) (some (n, k)))
      (write_all bs (link_of (sent ++ b) (some (n, k)))) refl
      (write_all-Delivered bs (sent ++ b) (some (n, k)))

module _ {D : Type 0} (codec : Codec D) where
  write_event_marshalled :
      (e : Event D) (json payload : Bytes) (link : Link)
      → codec.marshal_data e.json ≡ some json
      → write_event codec e payload link ≡ write_all (parts codec e json payload) link
  unfolding write_event
  write_event_marshalled e json payload link marshalled = rw (marshalled, write_event)

  write_event_refused :
      (e : Event D) (payload : Bytes) (link : Link)
      → codec.marshal_data e.json ≡ none
      → write_event codec e payload link ≡ (link, some data_not_marshalled)
  unfolding write_event
  write_event_refused e payload link refused = rw (refused, write_event)

  -- What WriteEvent reports no error for could be marshalled.
  pub write_event-marshals :
      (e : Event D) (payload : Bytes) (link link' : Link)
      → write_event codec e payload link ≡ (link', none)
      → (json : Bytes) × (codec.marshal_data e.json ≡ some json)
  write_event-marshals e payload link link' wrote =
      elim (Option-cases (codec.marshal_data e.json)) [
        | inl refused ↦ absurd (cc (wrote, write_event_refused e payload link refused))
        | inr marshalled ↦ marshalled
      ]

  -- Wherever the link breaks: if WriteEvent reports no error, the whole frame of the event was sent;
  -- and if the data could be marshalled and an error is reported, a front part of the frame was.
  pub write_event-Delivered :
      (e : Event D) (json payload : Bytes) (link : Link)
      → codec.marshal_data e.json ≡ some json
      → Delivered (frame codec e json payload) link (write_event codec e payload link)
  write_event-Delivered e json payload link marshalled =
      subst (Delivered (frame codec e json payload) link)
        (sym (write_event_marshalled e json payload link marshalled))
        (write_all-Delivered (parts codec e json payload) link.sent link.breaks)

  -- After a WriteEvent that reports no error, ReadEvent at the other end gives the event, with its
  -- payload or nil for an empty one, from what was sent, and leaves what comes behind it.
  pub read_event-write_event :
      (e : Event D) (payload rest : Bytes) (link link' : Link)
      → write_event codec e payload link ≡ (link', none)
      → (f : Bytes) × (link'.sent ≡ link.sent ++ f)
        × (read_event codec (f ++ rest) ≡ ok (e, payload_read payload, rest))
  read_event-write_event e payload rest link link' wrote =
      let (json, marshalled) = write_event-marshals e payload link link' wrote in
      (
        frame codec e json payload,
        subst (Delivered (frame codec e json payload) link) wrote
            (write_event-Delivered e json payload link marshalled),
        read_event-frame codec e json payload rest marshalled,
      )
