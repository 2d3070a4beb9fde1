-- ===== src/Esphome/Wire/Routing.antt =====
-- Where messages go: to the request that waits for them, or to the channel.
use ai_assistant_driver.Common.{
  ℕ, ◌≡◌, ◌⊎◌, refl, Bool, true, false, Option, none, some, List, [], ◌∷◌, ◌++◌, ◌==◌,
  if◌then◌else◌, All, arith, Bool-cases, Option-cases, inl, inr,
}
use ai_assistant_driver.Common.Channel.{try_send}
use ai_assistant_driver.Esphome.Wire.{Message, Router, ping_request, deliver, route_message}
use ai_assistant_driver.Esphome.Wire.Requests.{
  without, register, waiting_for, route_each, deadline_exceeded, response, answer_of, send_frame,
  send_and_wait,
}

-- No request waits for the type.
abbrev pub NotAwaited : ℕ → List (ℕ × List Message) → Type 0
NotAwaited t pending = All (λ p. (p.0 == t) ≡ false) pending

pub deliver-NotAwaited :
    (m : Message) (pending : List (ℕ × List Message))
    → NotAwaited m.type_id pending
    → deliver m pending ≡ none
unfolding deliver
deliver-NotAwaited m [] h = refl
deliver-NotAwaited m ((t, waiting) ∷ pending) (ht, h) =
    rw (deliver, ht, deliver-NotAwaited m pending h) refl

-- Leaves the request for the type `t` waiting: a message of an unknown type, a ping, or a response of
-- another type.
unfoldable pub is_other : ℕ → Option Message → Bool
is_other t none = true
is_other t (some m) = if t == m.type_id then false else true

-- The request for `t` stands first, and its channel holds `got`.
record Awaits (t : ℕ) (got : List Message) (r : Router) : Type 0 where
  pub others : List (ℕ × List Message)
  pub first : r.pending ≡ (t, got) ∷ others

==_refl : (t : ℕ) → (t == t) ≡ true
==_refl t = ground arith

waiting_for-Awaits :
    (t : ℕ) (got : List Message) (r : Router) → Awaits t got r → waiting_for t r.pending ≡ got
unfolding waiting_for
waiting_for-Awaits t got r h = rw (h.first, waiting_for, ==_refl t) refl

deliver-first :
    (m : Message) (t : ℕ) (got : List Message) (others : List (ℕ × List Message))
    → (t == m.type_id) ≡ true
    → deliver m ((t, got) ∷ others) ≡ some ((t, try_send 1 m got) ∷ others)
unfolding deliver
deliver-first m t got others e = rw e refl

deliver-later :
    (m : Message) (t : ℕ) (got : List Message) (others : List (ℕ × List Message))
    → (t == m.type_id) ≡ false
    → (deliver m ((t, got) ∷ others) ≡ none)
      ⊎ ((others' : List (ℕ × List Message)) × (deliver m ((t, got) ∷ others)
            ≡ some ((t, got) ∷ others')))
unfolding deliver
deliver-later m t got others e = elim (Option-cases (deliver m others)) [
  | inl h ↦ inl (rw (e, h) refl)
  | inr (others', h) ↦ inr (others', rw (e, h) refl)
]

Awaits-pinged :
    (m : Message) (t : ℕ) (got : List Message) (r : Router)
    → (m.type_id == ping_request) ≡ true
    → Awaits t got r
    → Awaits t got (route_message (some m) r)
unfolding route_message
Awaits-pinged m t got r ping h = rw ping (record { others = h.others; first = h.first })

Awaits-given :
    (m : Message) (t : ℕ) (got : List Message) (r : Router)
    → (m.type_id == ping_request) ≡ false
    → (t == m.type_id) ≡ true
    → Awaits t got r
    → Awaits t (try_send 1 m got) (route_message (some m) r)
unfolding route_message
Awaits-given m t got r ping same h =
    rw (ping, h.first, deliver-first m t got h.others same)
      (record { others = h.others; first = refl })

Awaits-passed :
    (m : Message) (t : ℕ) (got : List Message) (r : Router)
    → (m.type_id == ping_request) ≡ false
    → (t == m.type_id) ≡ false
    → Awaits t got r
    → Awaits t got (route_message (some m) r)
unfolding route_message
Awaits-passed m t got r ping other h = elim (deliver-later m t got h.others other) [
  | inl none_of ↦ rw (ping, h.first, none_of) (record { others = h.others; first = h.first })
  | inr (others', found) ↦ rw (ping, h.first, found) (record { others = others'; first = refl })
]

Awaits-other :
    (om : Option Message) (t : ℕ) (got : List Message) (r : Router)
    → is_other t om ≡ true
    → Awaits t got r
    → Awaits t got (route_message om r)
unfolding route_message is_other
Awaits-other none t got r other h = h
Awaits-other (some m) t got r other h = elim (Bool-cases (m.type_id == ping_request)) [
  | inl ping ↦ Awaits-pinged m t got r ping h
  | inr ping ↦ Awaits-passed m t got r ping (ground arith) h
]

-- A channel of one that is full stays as it is.
Awaits-kept :
    (om : Option Message) (t : ℕ) (m : Message) (r : Router)
    → Awaits t (m ∷ []) r
    → Awaits t (m ∷ []) (route_message om r)
unfolding route_message try_send
Awaits-kept none t m r h = h
Awaits-kept (some m') t m r h = elim (Bool-cases (m'.type_id == ping_request)) [
  | inl ping ↦ Awaits-pinged m' t (m ∷ []) r ping h
  | inr ping ↦ elim (Bool-cases (t == m'.type_id)) [
    | inl same ↦ Awaits-given m' t (m ∷ []) r ping same h
    | inr other ↦ Awaits-passed m' t (m ∷ []) r ping other h
  ]
]

Awaits-others :
    (oms : List (Option Message)) (t : ℕ) (got : List Message) (r : Router)
    → All (λ om. is_other t om ≡ true) oms
    → Awaits t got r
    → Awaits t got (route_each oms r)
unfolding route_each
Awaits-others [] t got r others h = h
Awaits-others (om ∷ oms) t got r (o, others) h =
    Awaits-others oms t got (route_message om r) others (Awaits-other om t got r o h)

Awaits-rest :
    (oms : List (Option Message)) (t : ℕ) (m : Message) (r : Router)
    → Awaits t (m ∷ []) r
    → Awaits t (m ∷ []) (route_each oms r)
unfolding route_each
Awaits-rest [] t m r h = h
Awaits-rest (om ∷ oms) t m r h = Awaits-rest oms t m (route_message om r) (Awaits-kept om t m r h)

route_each-append :
    (xs ys : List (Option Message)) (r : Router)
    → route_each (xs ++ ys) r ≡ route_each ys (route_each xs r)
unfolding route_each
route_each-append [] ys r = refl
route_each-append (x ∷ xs) ys r = route_each-append xs ys (route_message x r)

register-Awaits : (t : ℕ) (r : Router) → Awaits t [] (register t r)
unfolding register
register-Awaits t r = record { others = without t r.pending; first = refl }

-- A request that was written gets the first message of the type it waits for that is routed after it
-- registered, whatever was routed before it registered and whatever else is routed in the wait; the
-- type is not the ping's, which is answered and not passed on.
pub send_and_wait_first :
    (q m : Message) (early others late : List (Option Message)) (r : Router)
    → All (λ om. is_other m.type_id om ≡ true) others
    → (m.type_id == ping_request) ≡ false
    → (send_and_wait true q m.type_id early (others ++ some m ∷ late) r).1 ≡ response m
unfolding send_and_wait route_each try_send answer_of
send_and_wait_first q m early others late r other ping =
    let t = m.type_id in
    let begun = register t (route_each early (send_frame q r)) in
    let waits : Awaits t [] (route_each others begun) =
      Awaits-others others t [] begun other (register-Awaits t _) in
    let given : Awaits t (m ∷ []) (route_message (some m) (route_each others begun)) =
      Awaits-given m t [] _ ping (==_refl t) waits in
    rw
      (
        route_each-append others (some m ∷ late) begun,
        waiting_for-Awaits t (m ∷ []) _ (Awaits-rest late t m _ given),
      )
      refl

-- A response that is routed after the request was written and before it registered, with no other
-- request waiting for its type, is put on the message channel, and the request runs into its
-- deadline if no other message of the type follows.
send_and_wait_early :
    (q m : Message) (others : List (Option Message)) (r : Router)
    → NotAwaited m.type_id r.pending
    → (m.type_id == ping_request) ≡ false
    → All (λ om. is_other m.type_id om ≡ true) others
    → ((send_and_wait true q m.type_id (some m ∷ []) others r).1 ≡ deadline_exceeded)
      × ((route_each (some m ∷ []) (send_frame q r)).messages ≡ try_send 10 m r.messages)
unfolding send_and_wait route_each answer_of route_message send_frame
send_and_wait_early q m others r awaited ping other =
    let t = m.type_id in
    let begun = register t (route_message (some m) (send_frame q r)) in
    let waits : Awaits t [] (route_each others begun) =
      Awaits-others others t [] begun other (register-Awaits t _) in
    (
      rw (waiting_for-Awaits t [] (route_each others begun) waits) refl,
      rw (ping, deliver-NotAwaited m r.pending awaited) refl,
    )
