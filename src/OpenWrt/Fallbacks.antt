-- ===== src/OpenWrt/Fallbacks.antt =====
-- Which answers a status is made of.
use ai_assistant_driver.Common.{
  ◌≡◌, refl, ap, none, some, List, [], ◌∷◌, ◌++◌, Text, codes, Result, ok, err, All,
}
use ai_assistant_driver.OpenWrt.{
  Panic, type_assertion, TrafficStats, WifiStatus, NetworkStatus, Answers,
}
use ai_assistant_driver.OpenWrt.Json.{Members, value_of, as_string, string_or_empty}
use ai_assistant_driver.OpenWrt.Arp.{with_token}
use ai_assistant_driver.OpenWrt.Local.{get_traffic_stats}
use ai_assistant_driver.OpenWrt.Luci.{sections_of, get_luci_wifi_status, wifi_of, wifi_sections}
use ai_assistant_driver.OpenWrt.Status.{get_router_network_status, get_network_status}

abbrev HasDevice : Text × Members → Type 0
HasDevice s = (device : Text) × (as_string (value_of (codes "device") s.1) ≡ some device)

abbrev HasNoDevice : Text × Members → Type 0
HasNoDevice s = as_string (value_of (codes "device") s.1) ≡ none

wifi_of-HasDevice : (s : Text × Members) → HasDevice s → (w : WifiStatus) × (wifi_of s ≡ ok w)
unfolding wifi_of
wifi_of-HasDevice (name, m) (device, h) = (
  record {
    ssid = string_or_empty (codes "ssid") m;
    mode = string_or_empty (codes "mode") m;
    device = device;
  },
  rw (wifi_of, h) refl,
)

wifi_sections-HasDevice :
    (ss : List (Text × Members))
    → All HasDevice ss
    → (ws : List WifiStatus) × (wifi_sections ss ≡ ok ws)
unfolding wifi_sections
wifi_sections-HasDevice [] h = ([], refl)
wifi_sections-HasDevice (s ∷ ss) (h, hs) =
    let (w, one) = wifi_of-HasDevice s h in
    let (ws, more) = wifi_sections-HasDevice ss hs in (w ∷ ws, rw (one, more) refl)

wifi_sections_missing :
    (before after : List (Text × Members)) (s : Text × Members)
    → All HasDevice before
    → HasNoDevice s
    → wifi_sections (before ++ s ∷ after) ≡ err type_assertion
unfolding wifi_sections wifi_of
wifi_sections_missing [] after (name, m) h missing = rw (wifi_of, missing) refl
wifi_sections_missing (b ∷ before) after s (h, hs) missing =
    let (w, one) = wifi_of-HasDevice b h in
    rw (one, wifi_sections_missing before after s hs missing) refl

-- While the router is logged in to, GetNetworkStatus panics on a wireless interface without a device
-- name, whatever else the router and the system answer, if the traffic can be read.
get_network_status_missing :
    (a : Answers) (token token' : Text) (traffic : List TrafficStats)
    (before after : List (Text × Members)) (s : Text × Members)
    → with_token token a ≡ some token'
    → get_traffic_stats a ≡ ok traffic
    → sections_of (codes "wifi-iface_") a.uci_wireless ≡ before ++ s ∷ after
    → All HasDevice before
    → HasNoDevice s
    → get_network_status token a ≡ (token', err type_assertion)
unfolding get_network_status get_router_network_status get_luci_wifi_status
get_network_status_missing a token token' traffic before after s there counted found h missing =
    let wireless : get_luci_wifi_status a ≡ err type_assertion =
      rw found (wifi_sections_missing before after s h missing) in
    rw (get_network_status, there)
      (ap (λ (r : Result Panic NetworkStatus). (token', r)) (rw (counted, wireless) refl))
