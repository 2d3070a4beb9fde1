-- ===== src/OpenWrt/Local.antt =====
-- internal/tools/openwrt/client.go: the status from the local system.
use ai_assistant_driver.Common.{
  ℕ, Bool, ◌||◌, Option, none, some, List, [], ◌∷◌, ◌++◌, ltb, if◌then◌else◌, length, get_or, drop,
  Text, codes, text_eq, has_prefix, Result, ok, err,
}
use ai_assistant_driver.Common.Words.{
  newline, split, fields, trim_space, trim_prefix, trim_suffix, parse_uint,
}
use ai_assistant_driver.OpenWrt.{
  Panic, index_out_of_range, TrafficStats, DhcpLease, WifiStatus, InterfaceStatus, LocalInterface,
  Answers,
}

-- The interfaces that are left out of the traffic.
unfoldable pub is_skipped : Text → Bool
is_skipped name =
    text_eq name (codes "lo") || has_prefix name (codes "br-") || has_prefix name (codes "docker")

unfoldable pub traffic_of : Text → List Text → TrafficStats
traffic_of name words = record {
  interface = name;
  rx_bytes = parse_uint (get_or words 1 []);
  tx_bytes = parse_uint (get_or words 9 []);
  rx_packets = parse_uint (get_or words 2 []);
  tx_packets = parse_uint (get_or words 10 []);
  rx_errors = parse_uint (get_or words 3 []);
  tx_errors = parse_uint (get_or words 11 []);
}

unfoldable pub traffic_lines : List Text → List TrafficStats
unfolding traffic_of is_skipped
traffic_lines [] = []
traffic_lines (line ∷ lines) =
    let words = fields line in
    let name = trim_suffix (get_or words 0 []) (codes ":") in
    let more = traffic_lines lines in
    if ltb (length words) 17 || is_skipped name then more else traffic_of name words ∷ more

-- `lines[2:]`, whatever there are.
unfoldable pub get_traffic_stats : Answers → Result Panic (List TrafficStats)
unfolding traffic_lines
get_traffic_stats a = elim a.net_dev [
  | none ↦ ok []
  | some text ↦
      let lines = split newline text in
      if ltb (length lines) 2 then err index_out_of_range else ok (traffic_lines (drop 2 lines))
]

unfoldable local_interfaces : (ℕ → Text) → List LocalInterface → List InterfaceStatus
local_interfaces netmask [] = []
local_interfaces netmask (i ∷ is) =
    let more = local_interfaces netmask is in
    if text_eq i.name (codes "lo") || has_prefix i.name (codes "br-")
    then more
    else record {
      name = i.name;
      ip = i.address;
      netmask = netmask i.prefix;
      gateway = [];
      up = text_eq i.state (codes "UP");
    }
      ∷ more

unfoldable pub get_local_interfaces : Answers → List InterfaceStatus
unfolding local_interfaces
get_local_interfaces a = elim a.ip_addr [ none ↦ [] | some is ↦ local_interfaces a.netmask is ]

-- The text behind a prefix, trimmed, if the line has it.
unfoldable pub behind : Text → Text → Text
behind prefix line = trim_space (trim_prefix line prefix)

-- The loop of getLocalWiFiStatus with the current device.
unfoldable pub wifi_lines : Text → List Text → List WifiStatus
unfolding behind
wifi_lines current [] = []
wifi_lines current (line ∷ lines) =
    let text = trim_space line in
    let current' =
      if has_prefix text (codes "Interface ") then behind (codes "Interface ") text else current in
    let more = wifi_lines current' lines in
    if has_prefix text (codes "ssid ")
    then record { ssid = behind (codes "ssid ") text; mode = codes "ap"; device = current' } ∷ more
    else more

unfoldable pub get_local_wifi_status : Answers → List WifiStatus
unfolding wifi_lines
get_local_wifi_status a = elim a.iw_dev [
  | none ↦ []
  | some text ↦ wifi_lines [] (split newline text)
]

unfoldable lease_lines : List Text → List DhcpLease
lease_lines [] = []
lease_lines (line ∷ lines) =
    let words = fields line in
    let more = lease_lines lines in
    if ltb (length words) 4
    then more
    else record {
      ip = get_or words 2 [];
      mac = get_or words 1 [];
      hostname = get_or words 3 [];
      expires = get_or words 0 [];
    }
      ∷ more

unfoldable pub leases_of : List (Option Text) → List DhcpLease
unfolding lease_lines
leases_of [] = []
leases_of (none ∷ files) = leases_of files
leases_of (some text ∷ files) = lease_lines (split newline text) ++ leases_of files

abbrev pub get_local_dhcp_leases : Answers → List DhcpLease
get_local_dhcp_leases a = leases_of a.lease_files
