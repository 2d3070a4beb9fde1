-- ===== src/OpenWrt/Tests.antt =====
-- The network tool at concrete inputs.
use mathlib.Core.List.Permᴰ
use ai_assistant_driver.Common.{
  ℕ, ◌-◌, length, ◌≡◌, refl, none, some, List, [], ◌∷◌, Text, Bytes, codes, ok, err, arith,
  has_prefix,
}
use ai_assistant_driver.Common.Words.{
  newline, split, trim_left, trim_right, trim_space, trim_prefix, trim_suffix,
}
use ai_assistant_driver.Common.Words.Joined.{join_lines, Padding}
use ai_assistant_driver.OpenWrt.{Answers}
use ai_assistant_driver.OpenWrt.Requests.{Client, Exchange, login}
use ai_assistant_driver.OpenWrt.Luci.{result_of}
use ai_assistant_driver.OpenWrt.Status.{get_router_network_status}
use ai_assistant_driver.OpenWrt.Web.{Web, logged_in, answers_with, network_status_on}
use ai_assistant_driver.OpenWrt.Sessions.{network_status_on-logged_in}
use ai_assistant_driver.OpenWrt.Json.{string, object, Members, no_members, member}
use ai_assistant_driver.OpenWrt.Reordered.{
  SameReports, other_order, get_router_network_status-Reordered,
}
use ai_assistant_driver.OpenWrt.Arp.{parse_arp}
use ai_assistant_driver.OpenWrt.Local.{wifi_lines, behind}
use ai_assistant_driver.OpenWrt.Devices.{Entry, print_table, listed, parse_arp-print_table}
use ai_assistant_driver.OpenWrt.Counters.{Direction, Counters, print_counters}

abbrev header : Text
header = codes "IP"

abbrev one_name : Text → List Text
one_name ip = codes "pi.lan." ∷ []

abbrev no_name : Text → List Text
no_name ip = []

abbrev pi : Entry
pi = record {
  ip = codes "10.0.0.2";
  hw_type = codes "0x1";
  flags = codes "0x2";
  mac = codes "aa:01";
  mask = codes "*";
  device = codes "eth0";
}

abbrev gone : Entry
gone = record pi { mac = codes "00:00:00:00:00:00" }

-- Columns of sixteen characters, aligned on the left as in /proc/net/arp.
abbrev left_aligned : Padding
left_aligned i w v = 16 - length w

-- Columns of eight characters, aligned on the right as in /proc/net/dev.
abbrev right_aligned : Padding
right_aligned i w v = 8 - length v

abbrev indent : Text → ℕ
indent name = 6 - length name

parse_arp-print_table_example :
    parse_arp one_name (print_table left_aligned header (pi ∷ gone ∷ []))
    ≡ ok (record { ip = codes "10.0.0.2"; mac = codes "aa:01"; hostname = codes "pi.lan" } ∷ [])
unfolding listed trim_right trim_suffix
parse_arp-print_table_example =
    parse_arp-print_table left_aligned one_name header (pi ∷ gone ∷ [])
      (record { starts = refl; ends = refl; one = ground arith }) (ground arith) (ground arith)

abbrev no_answers : Answers
no_answers = record {
  login = some (codes "t");
  uci_devices = none;
  uci_network = none;
  uci_wireless = none;
  uci_dhcp = none;
  arp_command = none;
  arp_table = none;
  net_dev = none;
  ip_addr = none;
  iw_dev = none;
  lease_files = [];
  lookup_addr = no_name;
  netmask = λ prefix. [];
}

abbrev numbers : Direction
numbers = record {
  bytes = 18446744073709551615;
  packets = 7;
  errors = 0;
  dropped = 0;
  fifo = 0;
  framing = 0;
  compressed = 0;
  multicast = 0;
}

abbrev eth : Counters
eth = record { name = codes "eth0"; received = numbers; sent = record numbers { bytes = 5 } }

abbrev loopback : Counters
loopback = record { name = codes "lo"; received = numbers; sent = numbers }

abbrev counting : Answers
counting = record no_answers {
  net_dev = some (
      join_lines (
        codes "Inter-" ∷ codes "face" ∷ print_counters indent right_aligned (loopback ∷ eth ∷ [])));
}

-- A wireless interface that names its network and no device.
abbrev nameless : Members
nameless = member (codes "ssid") (string (codes "home")) no_members

abbrev wireless : Answers
wireless = record no_answers {
  uci_wireless = some (
      member (codes "result") (object (member (codes "wifi-iface_0") (object nameless) no_members))
        no_members);
}

-- Two interfaces, and the same ones in the other order.
abbrev lan : Text
lan = codes "interface_lan"

abbrev wan : Text
wan = codes "interface_wan"

abbrev two_interfaces : Members
two_interfaces = member lan (object nameless) (member wan (object no_members) no_members)

abbrev as_interfaces : Members → Members
as_interfaces m = member (codes "result") (object m) no_members

abbrev interfaces_answered : Answers
interfaces_answered = record no_answers { uci_network = some (as_interfaces two_interfaces) }

abbrev other_interfaces : Members
other_interfaces = member wan (object no_members) (member lan (object nameless) no_members)

get_router_network_status-Reordered_example :
    SameReports (get_router_network_status interfaces_answered) (
      get_router_network_status
        (other_order interfaces_answered (some (as_interfaces other_interfaces)) none none))
unfolding result_of
get_router_network_status-Reordered_example =
    get_router_network_status-Reordered interfaces_answered (some (as_interfaces other_interfaces))
      none none (Permᴰ.swap refl refl) tt tt

wifi_is_read :
    wifi_lines [] (split newline (codes "phy#0\n  Interface wlan0\n    ssid my net\n"))
    ≡ record { ssid = codes "my net"; mode = codes "ap"; device = codes "wlan0" } ∷ []
unfolding wifi_lines split trim_space trim_left trim_right has_prefix behind trim_prefix
wifi_is_read = refl

abbrev client : Client
client = record {
  base_url = codes "http://10.0.0.1:80";
  username = codes "root";
  password = codes "pw";
  token = [];
}

abbrev client_in : Client
client_in = record client { token = codes "t" }

abbrev answered : Bytes → Exchange
answered body = record { made = ok tt; sent = ok tt; body = ok body }

abbrev web : Web
web = record {
  post = λ url body. answered (codes "t");
  get = λ url. answered (codes "{}");
  marshal_login = λ username password. ok username;
  unmarshal_token = λ body. ok body;
  unmarshal_object = λ body. some no_members;
}

abbrev refused : Text → Bytes → Exchange
refused url body = record { made = ok tt; sent = err (codes "refused"); body = ok [] }

it_logs_in : logged_in web client ≡ ok client_in
unfolding login
it_logs_in = refl

network_status_on-logged_in_example :
    (network_status_on web client counting
      ≡ (client_in, get_router_network_status (answers_with web none client_in counting)))
    × (network_status_on (record web { post = refused }) client_in counting
        ≡ (client_in, get_router_network_status (answers_with web none client_in counting)))
network_status_on-logged_in_example =
    network_status_on-logged_in web client client_in counting refused refl it_logs_in refl
