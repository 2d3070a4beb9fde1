-- ===== src/OpenWrt/Status.antt =====
-- internal/tools/openwrt/client.go: GetNetworkStatus.
use ai_assistant_driver.Common.{none, some, List, [], ◌∷◌, Text, Result, ok, ◌>>=◌}
use ai_assistant_driver.OpenWrt.{Panic, NetworkStatus, Answers}
use ai_assistant_driver.OpenWrt.Arp.{with_token}
use ai_assistant_driver.OpenWrt.Local.{
  get_traffic_stats, get_local_interfaces, get_local_wifi_status, get_local_dhcp_leases,
}
use ai_assistant_driver.OpenWrt.Luci.{
  get_luci_interfaces, get_luci_wifi_status, get_luci_dhcp_leases,
}

unfoldable pub get_local_network_status : Answers → Result Panic NetworkStatus
get_local_network_status a = do
  traffic ← get_traffic_stats a
  ok (record {
    interfaces = get_local_interfaces a;
    traffic = traffic;
    wifi = get_local_wifi_status a;
    dhcp_leases = get_local_dhcp_leases a;
  })

-- A list, or the other one if it is empty.
unfoldable pub or_else {ℓ} : {A : Type ℓ} → List A → List A → List A
or_else [] ys = ys
or_else (x ∷ xs) ys = x ∷ xs

unfoldable pub get_router_network_status : Answers → Result Panic NetworkStatus
unfolding or_else
get_router_network_status a = do
  traffic ← get_traffic_stats a
  wifi ← get_luci_wifi_status a
  ok (record {
    interfaces = or_else (get_luci_interfaces a) (get_local_interfaces a);
    traffic = traffic;
    wifi = or_else wifi (get_local_wifi_status a);
    dhcp_leases = or_else (get_luci_dhcp_leases a) (get_local_dhcp_leases a);
  })

-- GetNetworkStatus: the token after it, and the status.
unfoldable pub get_network_status : Text → Answers → Text × Result Panic NetworkStatus
unfolding get_local_network_status get_router_network_status with_token
get_network_status token a = elim (with_token token a) [
  | none ↦ (token, get_local_network_status a)
  | some token' ↦ (token', get_router_network_status a)
]
