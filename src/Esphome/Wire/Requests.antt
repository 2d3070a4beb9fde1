-- ===== src/Esphome/Wire/Requests.antt =====
-- internal/esphome/esphome_client.go: requests that wait for a response.
-- A request writes its message, registers, and then waits for the response or for ten seconds; the
-- read loop runs beside it, so what it routes may come before or after the registration.
use ai_assistant_driver.Common.{ℕ, Bool, Option, List, [], ◌∷◌, ◌++◌, ◌==◌, if◌then◌else◌}
use ai_assistant_driver.Esphome.Wire.{Message, frame, Router, route_message}

unfoldable pub without : ℕ → List (ℕ × List Message) → List (ℕ × List Message)
without t [] = []
without t ((u, waiting) ∷ pending) =
    let rest = without t pending in if u == t then rest else (u, waiting) ∷ rest

-- The pending request of a type, with an empty channel, in place of another of that type.
unfoldable pub register : ℕ → Router → Router
unfolding without
register t r = record r { pending = (t, []) ∷ without t r.pending }

unfoldable pub unregister : ℕ → Router → Router
unfolding without
unregister t r = record r { pending = without t r.pending }

-- What the channel of the pending request of a type holds.
unfoldable pub waiting_for : ℕ → List (ℕ × List Message) → List Message
waiting_for t [] = []
waiting_for t ((u, waiting) ∷ pending) =
    let later = waiting_for t pending in if u == t then waiting else later

-- What the read loop does beside a request, as it comes.
unfoldable pub route_each : List (Option Message) → Router → Router
route_each [] r = r
route_each (m ∷ ms) r = route_each ms (route_message m r)

-- The two ends of the wait: a response, or context.DeadlineExceeded.
pub data Answer : Type 0 where
  write_failed deadline_exceeded : Answer
  response : Message → Answer

unfoldable pub answer_of : List Message → Answer
answer_of [] = deadline_exceeded
answer_of (m ∷ ms) = response m

unfoldable pub send_frame : Message → Router → Router
unfolding frame
send_frame m r = record r { written = r.written ++ frame m ∷ [] }

-- sendAndWaitForResponse, with what arrives between the write and the registration, and what arrives
-- in the wait.
unfoldable pub send_and_wait :
    Bool → Message → ℕ → List (Option Message) → List (Option Message) → Router → Router × Answer
unfolding send_frame
send_and_wait works m t early late r =
    if works
    then (let r' = route_each late (register t (route_each early (send_frame m r))) in
        (unregister t r', answer_of (waiting_for t r'.pending)))
    else (r, write_failed)
