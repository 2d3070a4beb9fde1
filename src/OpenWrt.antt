-- ===== src/OpenWrt.antt =====
-- internal/tools/openwrt/client.go: what the tool reports of the network, from the answers of the
-- router and of the local system. A text that cannot be had is `none`; a JSON body that cannot be had
-- or is no object likewise. A map is the list of its members in the order of one iteration.
pub mod Json
pub mod Arp
pub mod Local
pub mod Luci
pub mod Status
pub mod Tables
pub mod Devices
pub mod Counters
pub mod Fallbacks
pub mod Requests
pub mod Web
pub mod Orders
pub mod Reordered
pub mod Sessions
pub mod Gateway
pub mod Tools
mod Tests
use ai_assistant_driver.Common.{ℕ, Bool, List, Option, Text, Result}
use ai_assistant_driver.OpenWrt.Json.{Members}

-- What ends the program in this file.
pub data Panic : Type 0 where
  index_out_of_range type_assertion : Panic

pub record Device : Type 0 where
  pub ip : Text
  pub mac : Text
  pub hostname : Text

pub record InterfaceStatus : Type 0 where
  pub name : Text
  pub ip : Text
  pub netmask : Text
  pub gateway : Text
  pub up : Bool

pub record TrafficStats : Type 0 where
  pub interface : Text
  pub rx_bytes : ℕ
  pub tx_bytes : ℕ
  pub rx_packets : ℕ
  pub tx_packets : ℕ
  pub rx_errors : ℕ
  pub tx_errors : ℕ

-- The fields that the program sets.
pub record WifiStatus : Type 0 where
  pub ssid : Text
  pub mode : Text
  pub device : Text

pub record DhcpLease : Type 0 where
  pub ip : Text
  pub mac : Text
  pub hostname : Text
  pub expires : Text

pub record NetworkStatus : Type 0 where
  pub interfaces : List InterfaceStatus
  pub traffic : List TrafficStats
  pub wifi : List WifiStatus
  pub dhcp_leases : List DhcpLease

-- An entry of `ip -j addr show`.
pub record LocalInterface : Type 0 where
  pub name : Text
  pub address : Text
  pub prefix : ℕ
  pub state : Text

-- The answers: the token of a login; the members of the three configurations; what commands print and
-- files hold; net.LookupAddr; net.CIDRMask with its print.
pub record Answers : Type 0 where
  pub login : Option Text
  pub uci_devices : Option Members
  pub uci_network : Option Members
  pub uci_wireless : Option Members
  pub uci_dhcp : Option Members
  pub arp_command : Option Text
  pub arp_table : Option Text
  pub net_dev : Option Text
  pub ip_addr : Option (List LocalInterface)
  pub iw_dev : Option Text
  pub lease_files : List (Option Text)
  pub lookup_addr : Text → List Text
  pub netmask : ℕ → Text
