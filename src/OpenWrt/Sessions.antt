-- ===== src/OpenWrt/Sessions.antt =====
-- A login, and the calls after it.
use ai_assistant_driver.Common.{
  ◌≡◌, refl, ap, ◌∙◌, true, false, Option, none, some, is_nil, Text, Bytes, Result, ok, err, arith,
}
use ai_assistant_driver.OpenWrt.{Answers, NetworkStatus, Panic}
use ai_assistant_driver.OpenWrt.Requests.{Client, Exchange, login}
use ai_assistant_driver.OpenWrt.Arp.{with_token}
use ai_assistant_driver.OpenWrt.Local.{
  get_traffic_stats, get_local_interfaces, get_local_wifi_status,
}
use ai_assistant_driver.OpenWrt.Luci.{
  get_luci_interfaces, get_luci_wifi_status, get_luci_dhcp_leases,
}
use ai_assistant_driver.OpenWrt.Status.{
  get_network_status, get_local_network_status, get_router_network_status,
}
use ai_assistant_driver.OpenWrt.Web.{
  Web, uci, logged_in, token_of, client_of, requesting, answers_with, answers_of, network_status_on,
}

-- A login only sets the token.
login-token :
    (marshal : Text → Text → Result Text Bytes) (unmarshal : Bytes → Result Text Text)
    (post : Text → Bytes → Exchange) (c c' : Client)
    → login marshal unmarshal post c ≡ ok c'
    → record c { token = c'.token } ≡ c'
unfolding login
login-token marshal unmarshal post c c' h = ground arith

module _ (web : Web) (system : Answers) where
  local_answers :
      (token : Option Text) (c : Client)
      → get_local_network_status (answers_with web token c system) ≡ get_local_network_status system
  unfolding answers_with get_local_network_status get_traffic_stats get_local_interfaces
      get_local_wifi_status
  local_answers token c = refl

  router_answers :
      (post : Text → Bytes → Exchange) (token token' : Option Text) (c : Client)
      → get_router_network_status (answers_with (record web { post = post }) token c system)
        ≡ get_router_network_status (answers_with web token' c system)
  unfolding answers_with uci get_router_network_status get_traffic_stats get_local_interfaces
      get_local_wifi_status get_luci_interfaces get_luci_wifi_status get_luci_dhcp_leases
  router_answers post token token' c = refl

  status_without :
      (c : Client) (a : Answers)
      → with_token c.token a ≡ none
      → get_network_status c.token a ≡ (c.token, get_local_network_status a)
  unfolding get_network_status
  status_without c a h = rw (get_network_status, h) refl

  status_with :
      (c : Client) (token : Text) (a : Answers)
      → with_token c.token a ≡ some token
      → get_network_status c.token a ≡ (token, get_router_network_status a)
  unfolding get_network_status
  status_with c token a h = rw (get_network_status, h) refl

  on_status :
      (c : Client) (token : Text) (status : Result Panic NetworkStatus)
      → get_network_status c.token (answers_of web c system) ≡ (token, status)
      → network_status_on web c system ≡ (record c { token = token }, status)
  unfolding network_status_on
  on_status c token status h =
      ap (λ (r : Text × Result Panic NetworkStatus). (record c { token = r.0 }, r.1)) h

  -- The call where the login, if there is one, gives this client.
  requested_status :
      (c c' : Client)
      → with_token c.token (answers_of web c system) ≡ some c'.token
      → requesting web c ≡ c'
      → record c { token = c'.token } ≡ c'
      → network_status_on web c system
        ≡ (c', get_router_network_status (answers_with web none c' system))
  unfolding answers_of
  requested_status c c' given requests same =
      on_status c c'.token (get_router_network_status (answers_of web c system))
        (status_with c c'.token (answers_of web c system) given)
      ∙ ap (λ d. (d, get_router_network_status (answers_of web c system))) same
      ∙ ap
          (λ d. (
            c',
            get_router_network_status (answers_with web (token_of web (logged_in web c)) d system),
          ))
          requests
      ∙ ap (λ r. (c', r)) (router_answers web.post (token_of web (logged_in web c)) none c')

module _ (web : Web) (c : Client) (system : Answers) where
  not_given :
      (e : Text)
      → is_nil c.token ≡ true
      → logged_in web c ≡ err e
      → with_token c.token (answers_of web c system) ≡ none
  unfolding answers_of answers_with with_token
  not_given e fresh failed = rw fresh (ap (token_of web) failed)

  given :
      (c' : Client)
      → is_nil c.token ≡ true
      → logged_in web c ≡ ok c'
      → with_token c.token (answers_of web c system) ≡ some c'.token
  unfolding answers_of answers_with with_token
  given c' fresh worked = rw fresh (ap (token_of web) worked)

  kept_token : is_nil c.token ≡ false → with_token c.token (answers_of web c system) ≡ some c.token
  unfolding with_token
  kept_token kept = rw kept refl

  requesting_first :
      (c' : Client) → is_nil c.token ≡ true → logged_in web c ≡ ok c' → requesting web c ≡ c'
  requesting_first c' fresh worked = rw fresh (ap (client_of web c) worked)

  requesting_again : is_nil c.token ≡ false → requesting web c ≡ c
  requesting_again kept = rw kept refl

  -- Without a token, and if the login fails in any of its steps, the status is the local one, whatever
  -- requests would meet, and the client stays as it is.
  network_status_on-local :
      (e : Text)
      → is_nil c.token ≡ true
      → logged_in web c ≡ err e
      → network_status_on web c system ≡ (c, get_local_network_status system)
  unfolding answers_of
  network_status_on-local e fresh failed =
      on_status web system c c.token (get_local_network_status (answers_of web c system))
        (status_without web system c (answers_of web c system) (not_given e fresh failed))
      ∙ ap (λ r. (c, r))
          (local_answers web system (token_of web (logged_in web c)) (requesting web c))

-- A client without a token logs in, and where that gives one that is not empty, the status is the
-- router's, the client keeps the token, and the next call gives the same without a login, whatever the
-- router would answer to one then.
pub network_status_on-logged_in :
    (web : Web) (c c' : Client) (system : Answers) (post : Text → Bytes → Exchange)
    → is_nil c.token ≡ true
    → logged_in web c ≡ ok c'
    → is_nil c'.token ≡ false
    → (network_status_on web c system
        ≡ (c', get_router_network_status (answers_with web none c' system)))
      × (network_status_on (record web { post = post }) c' system
          ≡ (c', get_router_network_status (answers_with web none c' system)))
network_status_on-logged_in web c c' system post fresh worked kept = (
  requested_status web system c c' (given web c system c' fresh worked)
      (requesting_first web c system c' fresh worked)
      (login-token web.marshal_login web.unmarshal_token web.post c c' worked),
  requested_status (record web { post = post }) system c' c'
        (kept_token (record web { post = post }) c' system kept)
        (requesting_again (record web { post = post }) c' system kept) refl
      ∙ ap (λ r. (c', r)) (router_answers web system post none none c'),
)
