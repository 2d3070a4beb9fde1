-- ===== src/OpenWrt/Reordered.antt =====
-- The status of the router is the same, up to the order of its lists, in whatever order Go iterates
-- over the maps of the router's answers.
use mathlib.Core.List.{Permᴰ}
use mathlib.Core.List.Permᴰ
use ai_assistant_driver.Common.{
  ◌≡◌, refl, ◌∙◌, is_nil, Option, List, [], ◌∷◌, codes, Result, ok, err, ◌>>=◌,
}
use ai_assistant_driver.OpenWrt.{
  Panic, Answers, NetworkStatus, InterfaceStatus, WifiStatus, DhcpLease, TrafficStats,
}
use ai_assistant_driver.OpenWrt.Json.{Members}
use ai_assistant_driver.OpenWrt.Local.{
  get_traffic_stats, get_local_interfaces, get_local_wifi_status, get_local_dhcp_leases,
}
use ai_assistant_driver.OpenWrt.Luci.{
  result_of, interface_of, get_luci_interfaces, get_luci_wifi_status, lease_of,
  get_luci_dhcp_leases,
}
use ai_assistant_driver.OpenWrt.Status.{or_else, get_router_network_status}
use ai_assistant_driver.OpenWrt.Orders.{
  Reordered, SameLists, sections_of-Reordered, map_sections-Perm, wifi_sections-Perm,
}

is_nil-Perm {ℓ} : {A : Type ℓ} {xs ys : List A} → Permᴰ xs ys → is_nil xs ≡ is_nil ys
is_nil-Perm Permᴰ.nil = refl
is_nil-Perm (Permᴰ.cons e p) = refl
is_nil-Perm (Permᴰ.swap e f) = refl
is_nil-Perm (Permᴰ.trans p q) = is_nil-Perm p ∙ is_nil-Perm q

or_else-Perm {ℓ} :
    {A : Type ℓ} (xs ys zs : List A) → Permᴰ xs ys → Permᴰ (or_else xs zs) (or_else ys zs)
unfolding or_else
or_else-Perm [] [] zs p = Permᴰ.refl zs
or_else-Perm (x ∷ xs) (y ∷ ys) zs p = p
or_else-Perm [] (y ∷ ys) zs p = cc (is_nil-Perm p)
or_else-Perm (x ∷ xs) [] zs p = cc (is_nil-Perm p)

-- The same but for the order of the lists that come from maps.
pub record SameStatus (s t : NetworkStatus) : Type 0 where
  pub interfaces : Permᴰ s.interfaces t.interfaces
  pub traffic : s.traffic ≡ t.traffic
  pub wifi : Permᴰ s.wifi t.wifi
  pub dhcp_leases : Permᴰ s.dhcp_leases t.dhcp_leases

-- Both panic, or both give the same status in this sense.
abbrev pub SameReports : Result Panic NetworkStatus → Result Panic NetworkStatus → Type 0
SameReports (ok s) (ok t) = SameStatus s t
SameReports (err p) (err q) = Unit {0}
SameReports _ _ = ⊥

assembled :
    List InterfaceStatus
    → List DhcpLease
    → List WifiStatus
    → Result Panic (List TrafficStats)
    → Result Panic (List WifiStatus)
    → Result Panic NetworkStatus
unfolding or_else
assembled interfaces leases local traffic wifi = do
  t ← traffic
  w ← wifi
  ok (record { interfaces = interfaces; traffic = t; wifi = or_else w local; dhcp_leases = leases })

assembled-SameReports :
    (i j : List InterfaceStatus) (d e : List DhcpLease) (local : List WifiStatus)
    (traffic : Result Panic (List TrafficStats)) (v w : Result Panic (List WifiStatus))
    → Permᴰ i j
    → Permᴰ d e
    → SameLists v w
    → SameReports (assembled i d local traffic v) (assembled j e local traffic w)
unfolding assembled
assembled-SameReports i j d e local (err p) v w pi pd h = tt
assembled-SameReports i j d e local (ok t) (err p) (err q) pi pd h = tt
assembled-SameReports i j d e local (ok t) (ok v) (ok w) pi pd h = record {
  interfaces = pi;
  traffic = refl;
  wifi = or_else-Perm v w local h;
  dhcp_leases = pd;
}
assembled-SameReports i j d e local (ok t) (ok v) (err q) pi pd h = absurd h
assembled-SameReports i j d e local (ok t) (err p) (ok w) pi pd h = absurd h

status-assembled :
    (a : Answers)
    → get_router_network_status a
      ≡ assembled
          (or_else (get_luci_interfaces a) (get_local_interfaces a))
          (or_else (get_luci_dhcp_leases a) (get_local_dhcp_leases a))
          (get_local_wifi_status a)
          (get_traffic_stats a)
          (get_luci_wifi_status a)
unfolding get_router_network_status assembled
status-assembled a = refl

module _ (a : Answers) (network wireless dhcp : Option Members) where
  abbrev pub other_order : Answers
  other_order = record a { uci_network = network; uci_wireless = wireless; uci_dhcp = dhcp }

  -- If the maps of the router's three answers are iterated over in other orders, the status is the same
  -- up to the order of its interfaces, networks and leases, or both panic.
  pub get_router_network_status-Reordered :
      Reordered (result_of a.uci_network) (result_of network)
      → Reordered (result_of a.uci_wireless) (result_of wireless)
      → Reordered (result_of a.uci_dhcp) (result_of dhcp)
      → SameReports (get_router_network_status a) (get_router_network_status other_order)
  unfolding get_luci_interfaces get_luci_wifi_status get_luci_dhcp_leases get_traffic_stats
      get_local_interfaces get_local_wifi_status
  get_router_network_status-Reordered n w d =
      let interfaces =
        map_sections-Perm interface_of
          (sections_of-Reordered (codes "interface_") a.uci_network network n) in
      let leases =
        map_sections-Perm lease_of (sections_of-Reordered (codes "host_") a.uci_dhcp dhcp d) in
      let wifi =
        wifi_sections-Perm
          (sections_of-Reordered (codes "wifi-iface_") a.uci_wireless wireless w) in
      rw (status-assembled a, status-assembled other_order)
        (assembled-SameReports (or_else (get_luci_interfaces a) (get_local_interfaces a))
          (or_else (get_luci_interfaces other_order) (get_local_interfaces a))
          (or_else (get_luci_dhcp_leases a) (get_local_dhcp_leases a))
          (or_else (get_luci_dhcp_leases other_order) (get_local_dhcp_leases a))
          (get_local_wifi_status a) (get_traffic_stats a) (get_luci_wifi_status a)
          (get_luci_wifi_status other_order)
          (or_else-Perm (get_luci_interfaces a) (get_luci_interfaces other_order)
            (get_local_interfaces a) interfaces)
          (or_else-Perm (get_luci_dhcp_leases a) (get_luci_dhcp_leases other_order)
            (get_local_dhcp_leases a) leases)
          wifi)
