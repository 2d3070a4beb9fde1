-- ===== src/Setup/Services.antt =====
-- cmd/ai-assistant-driver/setup.go: the services that the set-up makes from the configuration, and the
-- tools it registers. The clients' methods, where they do not panic, and encoding/json are parameters.
use ai_assistant_driver.Common.{
  false, none, ◌&&◌, Option, List, [], ◌∷◌, ◌++◌, if◌then◌else◌, is_nil, Text, codes, Result, ok,
  err,
}
use ai_assistant_driver.Common.Int.{ℤ, pos, is_zero}
use ai_assistant_driver.Config.{Config, ConversationalConfig, VadConfig, LlmConfig}
use ai_assistant_driver.Vad.Arithmetic.{Float}
use ai_assistant_driver.Vad.{new_detector, with_threshold_ratio, with_min_silence_ms}
use ai_assistant_driver.Stt.{SttTranscriber, Network, language_or_default}
use ai_assistant_driver.Llm.{Tool, ToolExecutor, register}
use ai_assistant_driver.Llm.Ollama.{Api, OllamaClient}
use ai_assistant_driver.OpenWrt.{Device, NetworkStatus}
use ai_assistant_driver.OpenWrt.Requests.{signed_decimal}
use ai_assistant_driver.OpenWrt.Requests
use ai_assistant_driver.OpenWrt.Tools.{clients_tool, network_status_tool}
use ai_assistant_driver.Weather.Data.{WeatherData}
use ai_assistant_driver.Weather
use ai_assistant_driver.Weather.Tool.{weather_tool}
use ai_assistant_driver.Speedtest.{SpeedtestResult, speedtest_tool}

-- The address that the transcriber dials, and the transcriber.
pub record SttService (N : Type 0) : Type 0 where
  pub host : Text
  pub port : ℤ
  pub transcriber : SttTranscriber N

abbrev default_stt_port : ℤ
default_stt_port = pos 10300

-- The error of newSTTTranscriber.
abbrev stt_required : Text
stt_required = codes "STT configuration is required. Please set STT_HOST and STT_PORT"

module _ (F : Float) where
  open F use {Num}

  -- stt.NewTranscriber
  unfoldable pub new_transcriber : Network → ConversationalConfig → VadConfig Num → SttService Num
  unfolding new_detector with_threshold_ratio with_min_silence_ms language_or_default
  new_transcriber net cfg vad = record {
    host = if is_nil cfg.host then codes "localhost" else cfg.host;
    port = if is_zero cfg.port then default_stt_port else cfg.port;
    transcriber = record {
      client = none;
      language = language_or_default cfg.language;
      vad_detector = new_detector F (
          with_threshold_ratio F vad.threshold_ratio
          ∷ with_min_silence_ms F vad.min_silence_ms
          ∷ []);
      closed = false;
      audio_sent = false;
      transcribe_sent = false;
      network = net;
    };
  }

  -- newSTTTranscriber
  unfoldable pub new_stt_transcriber : Network → Config Num → Result Text (SttService Num)
  unfolding new_transcriber
  new_stt_transcriber net cfg =
      if is_nil cfg.conversational.host && is_zero cfg.conversational.port
      then err stt_required
      else ok (new_transcriber net cfg.conversational cfg.vad)

-- newLLMClient; `api_client` is api.NewClient for a host and a port.
unfoldable pub new_llm_client : {W : Type 0} → (Text → Api W) → LlmConfig → OllamaClient W
new_llm_client api_client cfg = record {
  api = api_client (cfg.host ++ (codes ":" ++ signed_decimal cfg.port));
  model = cfg.model;
  system_message = cfg.system_message;
}

-- The methods that the tools call, of the clients that the set-up makes, and json.Marshal on what they
-- give. `N` is float64.
pub record ToolMethods (N W : Type 0) : Type 0 where
  pub get_connected_clients : Requests.Client → W → W × Result Text (List Device)
  pub get_network_status : Requests.Client → W → W × Result Text NetworkStatus
  pub get_weather : Weather.Client N → W → W × Result Text (WeatherData N)
  pub get_speedtest : W → W × Result Text (SpeedtestResult N)
  pub marshal_devices : List Device → Result Text Text
  pub marshal_status : NetworkStatus → Result Text Text
  pub marshal_weather : WeatherData N → Result Text Text
  pub marshal_speedtest : SpeedtestResult N → Result Text Text

-- RegisterTool
abbrev register_tool : {W : Type 0} → Tool W → List (Tool W) → List (Tool W)
register_tool tool global_tools = global_tools ++ tool ∷ []

module _ {N W : Type 0} (m : ToolMethods N W) where
  unfoldable pub router_of : Option Text → Config N → Requests.Client
  unfolding Requests.new_client
  router_of routes cfg =
      Requests.new_client routes cfg.open_wrt.host cfg.open_wrt.port cfg.open_wrt.username
        cfg.open_wrt.password

  abbrev pub place_of : Config N → Weather.Client N
  place_of cfg = record { latitude = cfg.weather.latitude; longitude = cfg.weather.longitude }

  -- The three calls of Register, on the list of all tools, which is empty before.
  unfoldable pub registered_tools : Option Text → Config N → List (Tool W)
  unfolding router_of
  registered_tools routes cfg =
      let router = router_of routes cfg in
      register_tool (speedtest_tool m.marshal_speedtest m.get_speedtest) (
        register_tool (weather_tool m.marshal_weather (m.get_weather (place_of cfg))) (
          register_tool (network_status_tool m.marshal_status (m.get_network_status router))
            (register_tool (clients_tool m.marshal_devices (m.get_connected_clients router)) [])))

  -- newToolExecutor; the list is not empty, and registering none would change nothing.
  unfoldable pub new_tool_executor : Option Text → Config N → ToolExecutor W
  unfolding registered_tools register
  new_tool_executor routes cfg = register (registered_tools routes cfg) []
