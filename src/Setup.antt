-- ===== src/Setup.antt =====
-- cmd/ai-assistant-driver: setup.go, and main.go up to the end of main: what is made in which order,
-- what is left for the shutdown, and what a failure does. Everything that answers from outside is one
-- record. Services has what is made from the configuration alone.
pub mod Services
pub mod Stages
pub mod Releases
pub mod Tools
mod Tests
use ai_assistant_driver.Common.{
  ℕ, Bool, true, false, Option, none, some, List, [], ◌∷◌, ◌++◌, if◌then◌else◌, Text, Bytes, Result,
  ok, err,
}
use ai_assistant_driver.Common.Int.{pos, negsuc}
use ai_assistant_driver.Config.{Config, LoadError, load}
use ai_assistant_driver.Vad.Arithmetic.{Float}
use ai_assistant_driver.Shutdown.{Manager, added}
use ai_assistant_driver.Shutdown
use ai_assistant_driver.Esphome.Wire.Connecting.{Bodies, Attempt, attempt}
use ai_assistant_driver.Esphome.Client.{Client, new_client}
use ai_assistant_driver.Esphome.Client.Commands.{subscribe}
use ai_assistant_driver.Esphome.Client.Retry.{
  Round, cancelled, works, cancelled_waiting, fails, Outcome, is_connected, is_cancelled,
  still_trying, default_reconnect_config, connect_with_retry,
}
use ai_assistant_driver.Stt.{Network}
use ai_assistant_driver.Tts.{WyomingSynthesizer, new_synthesizer}
use ai_assistant_driver.History
use ai_assistant_driver.Http.{
  Server, new_server, set_api_key, set_controller, set_tts_synthesizer, detect_outbound_ip, start,
}
use ai_assistant_driver.Llm.{ToolExecutor}
use ai_assistant_driver.Llm.Ollama.{Api, OllamaClient}
use ai_assistant_driver.Setup.Services.{
  SttService, new_stt_transcriber, new_llm_client, ToolMethods, new_tool_executor,
}

-- What has a Close that main adds to the shutdown; the number of the function that it adds.
pub data Resource : Type 0 where
  device transcriber http_server : Resource

abbrev pub close_of : Resource → ℕ
close_of device = 0
close_of transcriber = 1
close_of http_server = 2

pub record Startup : Type 0 where
  pub opened : List Resource
  pub closed : List Resource
  pub manager : Manager

pub data SetupError : Type 0 where
  device_not_connected device_not_subscribed server_not_started : SetupError
  stt_failed : Text → SetupError

-- What the controller runs with.
pub record Assembly (N W : Type 0) : Type 0 where
  pub client : Client
  pub stt : SttService N
  pub llm : OllamaClient W
  pub synthesizer : WyomingSynthesizer
  pub history : History.Manager
  pub executor : ToolExecutor W
  pub server : Server

-- How main ends before the controller runs: os.Exit(1); a failure, after which it cancels, waits for
-- Done and returns; or still in the loop that connects.
pub data Ending : Type 0 where
  exits : LoadError → Ending
  stops : SetupError → Ending
  still_connecting : Ending

-- A round of ConnectWithRetry: the context is done, or an attempt, and whether the context is done in
-- the wait after it.
pub data Try : Type 0 where
  cancel : Try
  try : Attempt → (cancelled_after : Bool) → Try

unfoldable round_of : Bodies → Try → Round
round_of bodies cancel = cancelled
round_of bodies (try a cancelled_after) =
    if (attempt bodies a).1 then works else if cancelled_after then cancelled_waiting else fails

unfoldable pub rounds_of : Bodies → List Try → List Round
unfolding round_of
rounds_of bodies [] = []
rounds_of bodies (t ∷ ts) = round_of bodies t ∷ rounds_of bodies ts

-- The environment; the device, as it answers attempts and sends; the network of the recognizer; the
-- file of the history; the routes; whether a port can be listened on, and the address outwards.
pub record Outside (N W : Type 0) : Type 0 where
  pub environment : Config N → Result Text (Config N)
  pub bodies : Bodies
  pub tries : List Try
  pub sends : List Bool
  pub network : Network
  pub history_file : Option Bytes
  pub routes : Option Text
  pub listens : Bool
  pub outbound_ip : Option Text
  pub api_client : Text → Api W
  pub methods : ToolMethods N W

-- A step of main: the state after it, and its value or how main ends.
abbrev pub Stage : Type 0 → Type 0
Stage A = Startup → Startup × Result Ending A

infixl 5 ◌>>=◌
abbrev pub ◌>>=◌ : {A B : Type 0} → Stage A → (A → Stage B) → Stage B
◌>>=◌ m f s = let (s', r) = m s in elim r [ err e ↦ (s', err e) | ok a ↦ f a s' ]

abbrev pub gives : {A : Type 0} → A → Stage A
gives a s = (s, ok a)

abbrev fails_with : {A : Type 0} → Ending → Stage A
fails_with e s = (s, err e)

abbrev pub opens : Resource → Stage (Unit {0})
opens r s = (record s { opened = s.opened ++ r ∷ [] }, ok tt)

abbrev pub closes : Resource → Stage (Unit {0})
closes r s = (record s { closed = s.closed ++ r ∷ [] }, ok tt)

-- `shutdownMgr.Add(func() { x.Close() })`
abbrev pub adds : Resource → Stage (Unit {0})
adds r s = (record s { manager = Shutdown.add (added (close_of r)) s.manager }, ok tt)

-- loadConfiguration
unfoldable pub load_configuration : {N : Type 0} → Result LoadError (Config N) → Stage (Config N)
load_configuration (err e) = fails_with (exits e)
load_configuration (ok cfg) = gives cfg

-- The client that Connect leaves, for the sends that follow.
abbrev pub connected_client : List Bool → Client
connected_client sends = record new_client { connected = true; attached = true; sends = sends }

subscribed : Client × Bool → Stage Client
subscribed (c, true) = gives c
subscribed (c, false) = do closed ← closes device; fails_with (stops device_not_subscribed)

-- connectToESPHome: a client that cannot subscribe is closed.
unfoldable pub connect_to_esphome : Outcome → List Bool → Stage Client
unfolding subscribed subscribe new_client
connect_to_esphome is_connected sends = do
  made ← opens device
  subscribed (subscribe (connected_client sends))
connect_to_esphome is_cancelled sends = fails_with (stops device_not_connected)
connect_to_esphome still_trying sends = fails_with still_connecting

transcribing : {A : Type 0} → Result Text A → Stage A
transcribing (err e) = fails_with (stops (stt_failed e))
transcribing (ok stt) = do made ← opens transcriber; gives stt

serving : Server × Bool → Stage Server
serving (s, true) = do made ← opens http_server; gives s
serving (s, false) = fails_with (stops server_not_started)

-- newHTTPServer; net.Listen refuses a negative port.
unfoldable pub new_http_server : {N : Type 0} → Bool → Option Text → Config N → Server × Bool
unfolding start new_server detect_outbound_ip
new_http_server listens outbound_ip cfg =
    let made = λ (port : ℕ). set_controller true (
      set_api_key cfg.api.api_key
        (set_tts_synthesizer true (new_server cfg.conversational.http_host port))) in
    elim cfg.conversational.http_port [
      | pos port ↦ start listens (detect_outbound_ip outbound_ip) (made port)
      | negsuc n ↦ (made 0, false)
    ]

module _ (F : Float) {W : Type 0} (codec : History.Codec) (ratio origin : F.Num) where
  open F use {Num}

  -- main, up to where it waits for Done.
  unfoldable pub main : Outside Num W → Startup × Result Ending (Assembly Num W)
  unfolding load_configuration connect_to_esphome transcribing serving new_http_server
      new_stt_transcriber new_llm_client new_tool_executor new_synthesizer
  main o =
      (do
        cfg ← load_configuration (load o.environment ratio origin)
        client ←
            connect_to_esphome
              (connect_with_retry default_reconnect_config (rounds_of o.bodies o.tries)).1 o.sends
        added_device ← adds device
        stt ← transcribing (new_stt_transcriber F o.network cfg)
        added_transcriber ← adds transcriber
        server ← serving (new_http_server o.listens o.outbound_ip cfg)
        added_server ← adds http_server
        gives (record {
          client = client;
          stt = stt;
          llm = new_llm_client o.api_client cfg.llm;
          synthesizer = new_synthesizer cfg.conversational;
          history = History.new_conversation_manager codec true o.history_file;
          executor = new_tool_executor o.methods o.routes cfg;
          server = server;
        }))
        (record { opened = []; closed = []; manager = Shutdown.new })
