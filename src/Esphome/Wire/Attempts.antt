-- ===== src/Esphome/Wire/Attempts.antt =====
-- When an attempt to connect works, and what it leaves behind.
use ai_assistant_driver.Common.{
  ◌≡◌, ◌↔◌, refl, Bool, true, false, not, Option, List, ◌∷◌, ◌++◌, arith, some, All, Bytes, ap,
}
use ai_assistant_driver.Esphome.Wire.{Message}
use ai_assistant_driver.Esphome.Wire.Requests.{send_and_wait}
use ai_assistant_driver.Esphome.Wire.Routing.{is_other, send_and_wait_first}
use ai_assistant_driver.Esphome.Wire.Connecting.{
  EsphomeClient, new_esphome_client, Dialling, dial_fails, connection_fails, handshake_fails,
  connects, list_request, states_request, or_close, connect, close, write, Bodies, Attempt,
  hello_request, hello, attempt, is_response, end_reading, after_reading,
}

-- After a failed handshake every Connect reports success, though the connection is closed and
-- nothing is read from it.
connect-handshake_fails :
    (later : Dialling) (c : EsphomeClient)
    → c.has_api ≡ false
    → c.reading ≡ false
    → ((connect handshake_fails c).1 ≡ false)
      × (connect later (connect handshake_fails c).0 ≡ ((connect handshake_fails c).0, true))
      × ((connect handshake_fails c).0.is_open ≡ false)
      × ((connect handshake_fails c).0.reading ≡ false)
unfolding connect
connect-handshake_fails later c fresh idle = ground arith

-- Open, and read, unless the read loop has ended and signalled it.
pub record IsLive (ends : Bool) (c : EsphomeClient) : Type 0 where
  pub is_open : c.is_open ≡ true
  pub reading : c.reading ≡ not ends
  pub signalled : c.lost_signals ≡ ends
  pub not_closed : c.closed ≡ false

pub record IsGone (c : EsphomeClient) : Type 0 where
  pub not_open : c.is_open ≡ false
  pub not_reading : c.reading ≡ false

after_reading-IsLive :
    (bodies : Bodies) (ends : Bool) (c : EsphomeClient)
    → IsLive false c
    → IsLive ends (after_reading bodies ends c)
unfolding end_reading
after_reading-IsLive bodies false c v = v
after_reading-IsLive bodies true c v = record {
  is_open = v.is_open;
  reading = refl;
  signalled = refl;
  not_closed = v.not_closed;
}

after_reading-IsGone :
    (bodies : Bodies) (ends : Bool) (c : EsphomeClient)
    → IsGone c
    → IsGone (after_reading bodies ends c)
unfolding end_reading
after_reading-IsGone bodies false c v = v
after_reading-IsGone bodies true c v = record { not_open = v.not_open; not_reading = refl }

module _ (bodies : Bodies) where
  -- The greeting's request gets an answer.
  abbrev pub IsGreeted : Attempt → Type 0
  IsGreeted a =
      is_response
        (send_and_wait a.hello_written (hello_request bodies) 2 a.early a.late
          new_esphome_client.router).1
      ≡ true

  -- What follows the greeting, from an open connection.
  abbrev requested : Bool → Bool → Bool → EsphomeClient → EsphomeClient × Bool
  requested greeted listed subscribed c =
      or_close bodies (c, greeted)
        (λ c1.
          or_close bodies (write listed (list_request bodies) c1) (λ c2.
            or_close bodies (write subscribed (states_request bodies) c2) (λ c3. (c3, true))))

  requested_iff :
      (greeted listed subscribed : Bool) (c : EsphomeClient)
      → IsLive false c
      → ((((requested greeted listed subscribed c).1 ≡ true)
            ↔ ((greeted ≡ true) × (listed ≡ true) × (subscribed ≡ true)))
          × ((requested greeted listed subscribed c).1 ≡ true
              → IsLive false (requested greeted listed subscribed c).0)
          × ((requested greeted listed subscribed c).1 ≡ false
              → IsGone (requested greeted listed subscribed c).0))
  unfolding write close
  requested_iff true true true c v = ground arith
  requested_iff true true false c v = ground arith
  requested_iff true false subscribed c v = ground arith
  requested_iff false listed subscribed c v = ground arith

  abbrev Works : Attempt → Type 0
  Works a =
      (a.dialling ≡ connects) × IsGreeted a × (a.list_written ≡ true) × (a.states_written ≡ true)

  attempt_cases :
      (d : Dialling) (a : Attempt)
      → d ≡ a.dialling
      → (((attempt bodies a).1 ≡ true) ↔ Works a)
        × ((attempt bodies a).1 ≡ true → IsLive a.reading_ends (attempt bodies a).0)
        × ((attempt bodies a).1 ≡ false → IsGone (attempt bodies a).0)
  unfolding attempt connect new_esphome_client hello
  attempt_cases dial_fails a e = rw (← e) (ground arith)
  attempt_cases connection_fails a e = rw (← e) (ground arith)
  attempt_cases handshake_fails a e = rw (← e) (ground arith)
  attempt_cases connects a e =
      let greeting =
        send_and_wait a.hello_written (hello_request bodies) 2 a.early a.late
          new_esphome_client.router in
      let c : EsphomeClient = record new_esphome_client {
        is_open = true;
        has_api = true;
        reading = true;
        router = greeting.0;
      } in
      let (exactly, live, gone) =
        requested_iff (is_response greeting.1) a.list_written a.states_written c
          (record { is_open = refl; reading = refl; signalled = refl; not_closed = refl }) in
      rw (← e) (
        (λ h. let (g, l, s) = exactly.0 h in (refl, g, l, s), λ (d, g, l, s). exactly.1 (g, l, s)),
        λ h. after_reading-IsLive bodies a.reading_ends _ (live h),
        λ h. after_reading-IsGone bodies a.reading_ends _ (gone h),
      )

  -- An attempt works exactly if the device is dialled, greeted and asked for both.
  attempt_iff :
      (a : Attempt)
      → (((attempt bodies a).1 ≡ true) ↔ (
          (a.dialling ≡ connects)
          × IsGreeted a
          × (a.list_written ≡ true)
          × (a.states_written ≡ true)))
        × ((attempt bodies a).1 ≡ true → IsLive a.reading_ends (attempt bodies a).0)
        × ((attempt bodies a).1 ≡ false → IsGone (attempt bodies a).0)
  attempt_iff a = attempt_cases a.dialling a refl

  -- If the device is dialled, the three writes work and a HelloResponse is routed after the greeting
  -- registered, whatever is routed before it registered and whatever else in the wait, the attempt
  -- works, and leaves an open connection that is read; or, if the read loop has ended meanwhile, one
  -- that is not read and signals its loss.
  pub attempt_greeted :
      (body : Bytes) (early others late : List (Option Message)) (ends : Bool)
      → All (λ om. is_other 2 om ≡ true) others
      → let (c, works) = attempt bodies (record {
        dialling = connects;
        hello_written = true;
        early = early;
        late = others ++ some (record { type_id = 2; body = body }) ∷ late;
        list_written = true;
        states_written = true;
        reading_ends = ends;
      }) in
        (works ≡ true) × IsLive ends c
  attempt_greeted body early others late ends other =
      let (exactly, live, gone) = attempt_iff _ in
      let works = exactly.1 (
        refl,
        ap is_response (
            send_and_wait_first (hello_request bodies) (record { type_id = 2; body = body }) early
              others late new_esphome_client.router other refl),
        refl,
        refl,
      ) in
      (works, live works)
