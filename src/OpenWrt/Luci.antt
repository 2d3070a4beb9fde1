-- ===== src/OpenWrt/Luci.antt =====
-- internal/tools/openwrt/client.go: the status from the router's configuration.
use ai_assistant_driver.Common.{
  not, Option, none, some, List, [], ◌∷◌, if◌then◌else◌, Text, codes, has_prefix, Result, ok, err,
  ◌>>=◌,
}
use ai_assistant_driver.Common.Words.{trim_prefix}
use ai_assistant_driver.OpenWrt.{
  Panic, type_assertion, InterfaceStatus, WifiStatus, DhcpLease, Answers,
}
use ai_assistant_driver.OpenWrt.Json.{
  Members, no_members, member, value_of, as_string, as_object, string_or_empty, is_null,
}

-- `result["result"]`, if it is an object; an answer that cannot be had has none.
unfoldable pub result_of : Option Members → Option Members
unfolding as_object value_of
result_of none = none
result_of (some body) = as_object (value_of (codes "result") body)

-- The objects among the members whose names have the prefix, with their names.
unfoldable pub sections : Text → Members → List (Text × Members)
unfolding as_object
sections prefix no_members = []
sections prefix (member name value rest) =
    let more = sections prefix rest in
    if has_prefix name prefix
    then (elim (as_object value) [ none ↦ more | some m ↦ (name, m) ∷ more ])
    else more

abbrev pub sections_of : Text → Option Members → List (Text × Members)
sections_of prefix body = elim (result_of body) [ none ↦ [] | some m ↦ sections prefix m ]

unfoldable pub interface_of : Text × Members → InterfaceStatus
unfolding string_or_empty is_null value_of
interface_of (name, m) = record {
  name = trim_prefix name (codes "interface_");
  ip = string_or_empty (codes "ipaddr") m;
  netmask = string_or_empty (codes "netmask") m;
  gateway = string_or_empty (codes "gateway") m;
  up = not (is_null (value_of (codes ".type") m));
}

abbrev pub map_sections {ℓ} : {A : Type ℓ} → (Text × Members → A) → List (Text × Members) → List A
map_sections f [] = []
map_sections f (s ∷ ss) = f s ∷ map_sections f ss

unfoldable pub get_luci_interfaces : Answers → List InterfaceStatus
unfolding sections result_of interface_of
get_luci_interfaces a = map_sections interface_of (sections_of (codes "interface_") a.uci_network)

-- `ifaceMap["device"].(string)` panics without a string.
unfoldable pub wifi_of : Text × Members → Result Panic WifiStatus
unfolding string_or_empty value_of as_string
wifi_of (name, m) = elim (as_string (value_of (codes "device") m)) [
  | none ↦ err type_assertion
  | some device ↦ ok (record {
    ssid = string_or_empty (codes "ssid") m;
    mode = string_or_empty (codes "mode") m;
    device = device;
  })
]

unfoldable pub wifi_sections : List (Text × Members) → Result Panic (List WifiStatus)
unfolding wifi_of
wifi_sections [] = ok []
wifi_sections (s ∷ ss) = do wifi ← wifi_of s; more ← wifi_sections ss; ok (wifi ∷ more)

unfoldable pub get_luci_wifi_status : Answers → Result Panic (List WifiStatus)
unfolding wifi_sections sections result_of
get_luci_wifi_status a = wifi_sections (sections_of (codes "wifi-iface_") a.uci_wireless)

unfoldable pub lease_of : Text × Members → DhcpLease
unfolding string_or_empty
lease_of (name, m) = record {
  ip = string_or_empty (codes "ip") m;
  mac = string_or_empty (codes "mac") m;
  hostname = string_or_empty (codes "name") m;
  expires = [];
}

unfoldable pub get_luci_dhcp_leases : Answers → List DhcpLease
unfolding sections result_of lease_of
get_luci_dhcp_leases a = map_sections lease_of (sections_of (codes "host_") a.uci_dhcp)
