-- ===== src/OpenWrt/Tools.antt =====
-- internal/tools/openwrt/clients_tool.go and network_status_tool.go: what the language model is told
-- of the two tools of the router, and what they do; json.Marshal and the client's methods, where they
-- do not panic, are parameters.
use ai_assistant_driver.Common.{some, List, Text, codes, Result}
use ai_assistant_driver.Llm.{Tool}
use ai_assistant_driver.Llm.Schema.{no_fields}
use ai_assistant_driver.Llm.Reports.{report_of}
use ai_assistant_driver.OpenWrt.{Device, NetworkStatus}

module _ {W : Type 0} where
  unfoldable pub clients_tool :
      (List Device → Result Text Text) → (W → W × Result Text (List Device)) → Tool W
  unfolding report_of
  clients_tool marshal get_connected_clients = record {
    name = codes "get_router_clients";
    description =
        codes
          "Get all devices connected to the OpenWrt router. Returns a list of connected clients including their IP address, MAC address, and hostname if available.";
    parameters = some no_fields;
    execute = report_of marshal get_connected_clients;
  }

  unfoldable pub network_status_tool :
      (NetworkStatus → Result Text Text) → (W → W × Result Text NetworkStatus) → Tool W
  unfolding report_of
  network_status_tool marshal get_network_status = record {
    name = codes "get_router_network_status";
    description =
        codes
          "Get comprehensive network status from the OpenWrt router including interface status, traffic statistics, WiFi information, and DHCP leases.";
    parameters = some no_fields;
    execute = report_of marshal get_network_status;
  }
