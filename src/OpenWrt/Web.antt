-- ===== src/OpenWrt/Web.antt =====
-- internal/tools/openwrt/client.go: the answers of the router as what its requests meet: the address of
-- each request, with the token of the login, and its body read as JSON.
use ai_assistant_driver.Common.{
  Option, none, some, List, ◌++◌, if◌then◌else◌, is_nil, Text, Bytes, codes, Result, ok, err,
}
use ai_assistant_driver.OpenWrt.{Answers, Device, NetworkStatus, Panic}
use ai_assistant_driver.OpenWrt.Json.{Members}
use ai_assistant_driver.OpenWrt.Requests.{Client, Exchange, login, make_request}
use ai_assistant_driver.OpenWrt.Arp.{DeviceError, get_connected_clients}
use ai_assistant_driver.OpenWrt.Status.{get_network_status}

-- What requests meet, and encoding/json on their bodies.
pub record Web : Type 0 where
  pub post : Text → Bytes → Exchange
  pub get : Text → Exchange
  pub marshal_login : Text → Text → Result Text Bytes
  pub unmarshal_token : Bytes → Result Text Text
  pub unmarshal_object : Bytes → Option Members

unfoldable uci_url : Client → Text → Text → Text
uci_url c method params =
    c.base_url
    ++ (codes "/cgi-bin/luci/rpc/uci?auth="
        ++ (c.token
            ++ (codes "&method=" ++ (method ++ (codes "&params=[" ++ (params ++ codes "]"))))))

abbrev read_object : (Bytes → Option Members) → Result Text Bytes → Option Members
read_object unmarshal (err e) = none
read_object unmarshal (ok body) = unmarshal body

module _ (web : Web) where
  -- A request for settings, and its body as a map.
  unfoldable pub uci : Client → Text → Text → Option Members
  unfolding uci_url make_request
  uci c method params =
      read_object web.unmarshal_object (make_request web.get (uci_url c method params))

  abbrev pub logged_in : Client → Result Text Client
  logged_in c = login web.marshal_login web.unmarshal_token web.post c

  abbrev pub token_of : Result Text Client → Option Text
  token_of (err e) = none
  token_of (ok c) = some c.token

  abbrev pub client_of : Client → Result Text Client → Client
  client_of c (err e) = c
  client_of c (ok c') = c'

  -- The client whose token the requests carry.
  abbrev pub requesting : Client → Client
  requesting c = if is_nil c.token then client_of c (logged_in c) else c

  -- The answers of the router to requests of a client, with what its login gives; the system's are given.
  unfoldable pub answers_with : Option Text → Client → Answers → Answers
  unfolding uci
  answers_with token c system = record system {
    login = token;
    uci_devices = uci c (codes "get") (codes "\"network\"");
    uci_network = uci c (codes "get_all") (codes "\"network\"");
    uci_wireless = uci c (codes "get_all") (codes "\"wireless\"");
    uci_dhcp = uci c (codes "get_all") (codes "\"dhcp\",\"@leanase\"");
  }

  unfoldable pub answers_of : Client → Answers → Answers
  unfolding answers_with login
  answers_of c system = answers_with (token_of (logged_in c)) (requesting c) system

  -- GetNetworkStatus and GetConnectedClients on the client.
  unfoldable pub network_status_on : Client → Answers → Client × Result Panic NetworkStatus
  unfolding get_network_status answers_of
  network_status_on c system =
      let (token, status) = get_network_status c.token (answers_of c system) in
      (record c { token = token }, status)

  unfoldable connected_clients_on :
      Client → Answers → Client × Result Panic (Result DeviceError (List Device))
  unfolding get_connected_clients answers_of
  connected_clients_on c system =
      let (token, devices) = get_connected_clients c.token (answers_of c system) in
      (record c { token = token }, devices)
