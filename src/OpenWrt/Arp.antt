-- ===== src/OpenWrt/Arp.antt =====
-- internal/tools/openwrt/client.go: devices from the ARP table.
use ai_assistant_driver.Common.{
  Bool, ◌||◌, Option, none, some, List, [], ◌∷◌, ltb, if◌then◌else◌, is_nil, length, get_or, drop,
  Text, codes, text_eq, Result, ok, err, ◌>>=◌,
}
use ai_assistant_driver.Common.Words.{newline, split, fields, trim_space, trim_suffix}
use ai_assistant_driver.OpenWrt.{Panic, index_out_of_range, Device, Answers}

abbrev no_mac : Text
no_mac = codes "00:00:00:00:00:00"

abbrev pub has_no_mac : Text → Bool
has_no_mac mac = text_eq mac no_mac || is_nil mac

-- `hostname[0]`, without its final dot.
unfoldable pub host_name : List Text → Result Panic Text
host_name [] = err index_out_of_range
host_name (name ∷ names) = ok (trim_suffix name (codes "."))

-- The loop of parseARP over the lines behind the first.
unfoldable pub parse_arp_lines : (Text → List Text) → List Text → Result Panic (List Device)
unfolding host_name
parse_arp_lines lookup_addr [] = ok []
parse_arp_lines lookup_addr (line ∷ lines) =
    let words = fields line in
    let ip = get_or words 0 [] in
    let mac = get_or words 3 [] in
    let more = parse_arp_lines lookup_addr lines in
    if ltb (length words) 4 || has_no_mac mac then more else (do
      hostname ← host_name (lookup_addr ip)
      devices ← more
      ok (record { ip = ip; mac = mac; hostname = hostname } ∷ devices))

unfoldable pub parse_arp : (Text → List Text) → Text → Result Panic (List Device)
unfolding parse_arp_lines
parse_arp lookup_addr table =
    let lines = split newline (trim_space table) in
    if ltb (length lines) 2 then ok [] else parse_arp_lines lookup_addr (drop 1 lines)

pub data DeviceError : Type 0 where
  login_failed no_arp_table no_uci_answer : DeviceError

-- arpTableLookup: an error if the file cannot be opened.
unfoldable arp_table_lookup : Answers → Result Panic (Result DeviceError (List Device))
unfolding parse_arp
arp_table_lookup a = elim a.arp_table [
  | none ↦ ok (err no_arp_table)
  | some table ↦ (do devices ← parse_arp a.lookup_addr table; ok (ok devices))
]

-- arpLookup; getDevices logs its error and goes on with no devices.
unfoldable arp_lookup : Answers → Result Panic (List Device)
unfolding parse_arp
arp_lookup a = elim a.arp_command [ none ↦ ok [] | some table ↦ parse_arp a.lookup_addr table ]

unfoldable get_devices_with :
    List Device → Answers → Result Panic (Result DeviceError (List Device))
get_devices_with [] a = arp_table_lookup a
get_devices_with (d ∷ ds) a = ok (ok (d ∷ ds))

-- getDevices; its own check of the token repeats that of GetConnectedClients, and after a login that
-- gave an empty token logs in again, with the same answer.
unfoldable get_devices : Answers → Result Panic (Result DeviceError (List Device))
unfolding arp_lookup get_devices_with
get_devices a = elim a.uci_devices [
  | none ↦ ok (err no_uci_answer)
  | some body ↦ (do devices ← arp_lookup a; get_devices_with devices a)
]

-- login, unless there is a token: the token after it.
unfoldable pub with_token : Text → Answers → Option Text
with_token token a = if is_nil token then a.login else some token

-- GetConnectedClients: the token after it, and the devices.
unfoldable pub get_connected_clients :
    Text → Answers → Text × Result Panic (Result DeviceError (List Device))
unfolding get_devices with_token arp_table_lookup
get_connected_clients token a = elim (with_token token a) [
  | none ↦ (token, arp_table_lookup a)
  | some token' ↦ (token', get_devices a)
]
