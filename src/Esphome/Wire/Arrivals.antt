-- ===== src/Esphome/Wire/Arrivals.antt =====
-- internal/esphome/esphome_client.go: what the reader of the message channel gets of what arrives.
use ai_assistant_driver.Common.{
  ℕ, zero, suc, ◌≤◌, ◌≡◌, refl, sym, ap, ◌∙◌, Bool, true, false, some, List, [], ◌∷◌, ◌++◌, ◌==◌,
  if◌then◌else◌, length, take, All, append_assoc, append-nil, Bytes, arith, ltb, Bool-cases, inl,
  inr,
}
use ai_assistant_driver.Common.Channel.{try_send, try_send_room, length-try_send}
use ai_assistant_driver.Esphome.Wire.{
  Message, Router, end_of_file, ping_request, route_message, read_connection,
}
use ai_assistant_driver.Esphome.Wire.Frames.{IsReadable, frames, route_all, read_connection-frames}
use ai_assistant_driver.Esphome.Wire.Routing.{NotAwaited, deliver-NotAwaited}

-- The messages that are not pings.
unfoldable pub passed : List Message → List Message
passed [] = []
passed (m ∷ ms) = let rest = passed ms in if m.type_id == ping_request then rest else m ∷ rest

module _ {A : Type 0} where
  take_all : (n : ℕ) (xs : List A) → length xs ≤ n → take n xs ≡ xs
  take_all zero [] h = refl
  take_all zero (x ∷ xs) h = absurd (omega arith)
  take_all (suc n) [] h = refl
  take_all (suc n) (x ∷ xs) h = ap (λ t. x ∷ t) (take_all n xs (omega arith))

  take_full : (n : ℕ) (xs ys : List A) → length xs ≡ n → take n (xs ++ ys) ≡ xs
  take_full zero [] ys h = refl
  take_full zero (x ∷ xs) ys h = absurd (omega arith)
  take_full (suc n) [] ys h = absurd (omega arith)
  take_full (suc n) (x ∷ xs) ys h = ap (λ t. x ∷ t) (take_full n xs ys (omega arith))

  try_send_full : (n : ℕ) (x : A) (xs : List A) → length xs ≡ n → try_send n x xs ≡ xs
  unfolding try_send
  try_send_full n x xs h = ground arith

  -- Sending one more and then keeping n is keeping n of both.
  take-try_send :
      (n : ℕ) (x : A) (xs ys : List A)
      → length xs ≤ n
      → take n (try_send n x xs ++ ys) ≡ take n (xs ++ x ∷ ys)
  take-try_send n x xs ys h = elim (Bool-cases (ltb (length xs) n)) [
    | inl room ↦
        rw (try_send_room n x xs (ground arith)) (ap (take n) (append_assoc xs (x ∷ []) ys))
    | inr full ↦
        let exact : length xs ≡ n = ground arith in
        rw (try_send_full n x xs exact)
          (take_full n xs ys exact ∙ sym (take_full n xs (x ∷ ys) exact))
  ]

route_message-passed :
    (m : Message) (r : Router)
    → (m.type_id == ping_request) ≡ false
    → NotAwaited m.type_id r.pending
    → route_message (some m) r ≡ record r { messages = try_send 10 m r.messages }
unfolding route_message
route_message-passed m r other awaited = rw (other, deliver-NotAwaited m r.pending awaited) refl

route_message-ping :
    (m : Message) (r : Router)
    → (m.type_id == ping_request) ≡ true
    → let r' = route_message (some m) r in (r'.messages ≡ r.messages) × (r'.pending ≡ r.pending)
unfolding route_message
route_message-ping m r ping = rw ping (refl, refl)

-- No request waits for any of the messages.
abbrev NoneAwaited : List Message → List (ℕ × List Message) → Type 0
NoneAwaited ms pending = All (λ m. NotAwaited m.type_id pending) ms

route_all-passed :
    (ms : List Message) (r : Router)
    → length r.messages ≤ 10
    → NoneAwaited ms r.pending
    → (route_all ms r).messages ≡ take 10 (r.messages ++ passed ms)
unfolding route_all passed
route_all-passed [] r small awaited = rw append-nil (sym (take_all 10 r.messages small))
route_all-passed (m ∷ ms) r small (apart, awaited) = elim (Bool-cases (m.type_id == ping_request)) [
  | inl ping ↦
      let r' = route_message (some m) r in
      let (same_messages, same_pending) = route_message-ping m r ping in
      rw ping (
        route_all-passed ms r' (rw same_messages small) (rw same_pending awaited)
        ∙ ap (λ xs. take 10 (xs ++ passed ms)) same_messages)
  | inr other ↦
      let sent = try_send 10 m r.messages in
      rw (other, route_all, route_message-passed m r other apart)
        (route_all-passed ms (record r { messages = sent }) (length-try_send 10 m r.messages small)
            awaited
          ∙ take-try_send 10 m r.messages (passed ms) small)
]

-- From frames on the connection: if no request waits for any of the messages and nobody receives from
-- the channel meanwhile, the channel ends with the first ten of what it held and of the messages that
-- are not pings, in the order in which they came, what does not fit is lost, and reading ends with the
-- end of the connection.
pub read_connection-passed :
    (parses : ℕ → Bytes → Bool) (ms : List Message) (r : Router)
    → All (IsReadable parses) ms
    → length r.messages ≤ 10
    → NoneAwaited ms r.pending
    → let (r', end) = read_connection parses (frames ms) r in
      (r'.messages ≡ take 10 (r.messages ++ passed ms)) × (end ≡ end_of_file)
read_connection-passed parses ms r readable small awaited =
    rw (read_connection-frames parses ms r readable) (route_all-passed ms r small awaited, refl)
