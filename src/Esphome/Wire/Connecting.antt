-- ===== src/Esphome/Wire/Connecting.antt =====
-- internal/esphome: how a connection to the device comes and goes: Connect and Close of
-- esphome_client.go, and the steps of Connect in client.go, which makes a new connection, greets the
-- device and asks it for its entities and states. The bodies of the requests are a parameter.
use ai_assistant_driver.Common.{Bool, true, false, Option, List, [], if◌then◌else◌, Bytes}
use ai_assistant_driver.Esphome.Wire.{Message, Router}
use ai_assistant_driver.Esphome.Wire.Requests.{Answer, response, send_frame, send_and_wait}

-- `has_api` is `apiConn != nil`, `is_open` that `conn` has been dialled and not closed, `reading` that
-- the read loop runs.
pub record EsphomeClient : Type 0 where
  pub has_api : Bool
  pub is_open : Bool
  pub reading : Bool
  pub closed : Bool
  pub lost_signals : Bool
  pub router : Router

unfoldable pub new_esphome_client : EsphomeClient
new_esphome_client = record {
  has_api = false;
  is_open = false;
  reading = false;
  closed = false;
  lost_signals = false;
  router = record { pending = []; messages = []; written = [] };
}

-- How far net.DialTimeout, connection.GetConnection and Handshake get.
pub data Dialling : Type 0 where
  dial_fails connection_fails handshake_fails connects : Dialling

-- Connect; false for an error. A failed handshake closes the connection, but the API connection stays.
unfoldable pub connect : Dialling → EsphomeClient → EsphomeClient × Bool
connect d c = if c.has_api then (c, true) else (elim d [
  | dial_fails ↦ (c, false)
  | connection_fails ↦ (record c { is_open = false }, false)
  | handshake_fails ↦ (record c { is_open = false; has_api = true }, false)
  | connects ↦ (record c { is_open = true; has_api = true; reading = true }, true)
])

-- The end of the read loop: a signal on a channel of one.
unfoldable pub end_reading : EsphomeClient → EsphomeClient
end_reading c = record c { reading = false; lost_signals = true }

-- Close waits for the read loop, which ends with the connection.
unfoldable pub close : EsphomeClient → EsphomeClient
close c = if c.closed then c else record c {
  closed = true;
  has_api = false;
  is_open = false;
  reading = false;
  router = record c.router { pending = [] };
}

-- A write on the API connection, whether it works.
unfoldable pub write : Bool → Message → EsphomeClient → EsphomeClient × Bool
unfolding send_frame
write works m c = if works then (record c { router = send_frame m c.router }, true) else (c, false)

abbrev pub is_response : Answer → Bool
is_response (response m) = true
is_response _ = false

-- Login, which nothing calls: the body of the request with the password, whether it is written, and
-- what is routed beside it.
unfoldable pub login :
    Bytes
    → Bool
    → List (Option Message)
    → List (Option Message)
    → EsphomeClient
    → EsphomeClient × Bool
unfolding send_and_wait
login body works early late c =
    let m : Message = record { type_id = 3; body = body } in
    let (r, answer) = send_and_wait works m 4 early late c.router in
    (record c { router = r }, is_response answer)

-- The bodies of the three requests.
pub record Bodies : Type 0 where
  pub hello : Bytes
  pub list_entities : Bytes
  pub subscribe_states : Bytes

-- What the network does in one attempt: dialling, the three writes, and what is routed beside the
-- greeting, before it registered and after; and whether the read loop ends before the attempt does,
-- behind the last message that it routed.
pub record Attempt : Type 0 where
  pub dialling : Dialling
  pub hello_written : Bool
  pub early : List (Option Message)
  pub late : List (Option Message)
  pub list_written : Bool
  pub states_written : Bool
  pub reading_ends : Bool

module _ (bodies : Bodies) where
  abbrev pub hello_request : Message
  hello_request = record { type_id = 1; body = bodies.hello }

  abbrev pub list_request : Message
  list_request = record { type_id = 11; body = bodies.list_entities }

  abbrev pub states_request : Message
  states_request = record { type_id = 20; body = bodies.subscribe_states }

  -- Hello
  unfoldable pub hello : Attempt → EsphomeClient → EsphomeClient × Bool
  unfolding send_and_wait
  hello a c =
      let (r, answer) = send_and_wait a.hello_written hello_request 2 a.early a.late c.router in
      (record c { router = r }, is_response answer)

  -- What the read loop has done to the connection when the attempt ends.
  abbrev pub after_reading : Bool → EsphomeClient → EsphomeClient
  after_reading ends c = if ends then end_reading c else c

  -- The step, and Close if it failed.
  abbrev pub or_close :
      EsphomeClient × Bool → (EsphomeClient → EsphomeClient × Bool) → EsphomeClient × Bool
  or_close (c, true) rest = rest c
  or_close (c, false) rest = (close c, false)

  -- Client.Connect from a client that is not connected: the new connection, and whether it is kept.
  unfoldable pub attempt : Attempt → EsphomeClient × Bool
  unfolding connect hello write end_reading
  attempt a =
      let (c, connected) = connect a.dialling new_esphome_client in
      if connected
      then (let (c', works) = or_close (hello a c) (λ c1.
            or_close (write a.list_written list_request c1)
              (λ c2. or_close (write a.states_written states_request c2) (λ c3. (c3, true)))) in
          (after_reading a.reading_ends c', works))
      else (c, false)
