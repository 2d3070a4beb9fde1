-- ===== src/Setup/Tools.antt =====
-- What a call of the language model runs, with the tools that the set-up registered.
use ai_assistant_driver.Common.{
  ◌≡◌, refl, ap, ◌∙◌, Bool, true, false, Option, none, some, [], if◌then◌else◌, Text, text_eq,
  codes, Result,
}
use ai_assistant_driver.Common.Maps.{text_key, find}
use ai_assistant_driver.Config.{Config}
use ai_assistant_driver.Llm.{Tool, ToolCall, Arguments, execute}
use ai_assistant_driver.Llm.Reports.{report_of}
use ai_assistant_driver.Llm.Execution.{find-register, run_found, execute_of, execute-run_found}
use ai_assistant_driver.OpenWrt.Tools.{clients_tool, network_status_tool}
use ai_assistant_driver.Weather.Tool.{weather_tool}
use ai_assistant_driver.Speedtest.{speedtest_tool}
use ai_assistant_driver.Setup.Services.{
  ToolMethods, router_of, place_of, registered_tools, new_tool_executor,
}

module _ {N W : Type 0} (m : ToolMethods N W) (routes : Option Text) (cfg : Config N) where
  abbrev four : Bool → Bool → Bool → Bool → {A : Type 0} → A → A → A → A → Option A
  four s w n c a1 a2 a3 a4 =
      if s
      then some a1
      else if w
      then some a2
      else if n
      then some a3
      else if c
      then some a4
      else none

  -- The method behind a name, and what is made of its answer.
  abbrev method_of : Text → Option (Arguments → W → W × Result Text Text)
  method_of name =
      four (text_eq (codes "get_speedtest") name) (text_eq (codes "get_weather") name)
        (text_eq (codes "get_router_network_status") name)
        (text_eq (codes "get_router_clients") name) (report_of m.marshal_speedtest m.get_speedtest)
        (report_of m.marshal_weather (m.get_weather (place_of m cfg)))
        (report_of m.marshal_status (m.get_network_status (router_of m routes cfg)))
        (report_of m.marshal_devices (m.get_connected_clients (router_of m routes cfg)))

  by_tests :
      (s w n c : Bool) (a1 a2 a3 a4 : Tool W)
      → execute_of (four s w n c a1 a2 a3 a4)
        ≡ four s w n c a1.execute a2.execute a3.execute a4.execute
  by_tests true w n c a1 a2 a3 a4 = refl
  by_tests false true n c a1 a2 a3 a4 = refl
  by_tests false false true c a1 a2 a3 a4 = refl
  by_tests false false false true a1 a2 a3 a4 = refl
  by_tests false false false false a1 a2 a3 a4 = refl

  find-new_tool_executor :
      (name : Text) → execute_of (find name (new_tool_executor m routes cfg)) ≡ method_of name
  unfolding new_tool_executor registered_tools clients_tool network_status_tool weather_tool
      speedtest_tool find
  find-new_tool_executor name =
      ap execute_of (find-register name (registered_tools m routes cfg) [])
      ∙ by_tests (text_eq (codes "get_speedtest") name) (text_eq (codes "get_weather") name)
          (text_eq (codes "get_router_network_status") name)
          (text_eq (codes "get_router_clients") name)
          (speedtest_tool m.marshal_speedtest m.get_speedtest)
          (weather_tool m.marshal_weather (m.get_weather (place_of m cfg)))
          (network_status_tool m.marshal_status (m.get_network_status (router_of m routes cfg)))
          (clients_tool m.marshal_devices (m.get_connected_clients (router_of m routes cfg)))

  -- A call by one of the four names runs the method of that name, on the client made from the
  -- configuration, and gives its answer as JSON or its error; a call by any other name changes nothing
  -- and gives an error that names it.
  execute-new_tool_executor :
      (call : ToolCall) (w : W)
      → execute (new_tool_executor m routes cfg) call w ≡ run_found (method_of call.name) call w
  execute-new_tool_executor call w =
      execute-run_found (new_tool_executor m routes cfg) call w
      ∙ ap (λ found. run_found found call w) (find-new_tool_executor call.name)
