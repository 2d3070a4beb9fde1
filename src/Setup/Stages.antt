-- ===== src/Setup/Stages.antt =====
-- When the controller runs.
use ai_assistant_driver.Common.{
  ◌≡◌, ◌↔◌, ap, ◌∙◌, true, false, ◌&&◌, is_nil, ok, err, arith, ◌≢◌, Result-cases, inl, inr,
}
use ai_assistant_driver.Common.Int.{is_zero}
use ai_assistant_driver.Config.{Config, LoadError, load}
use ai_assistant_driver.Vad.Arithmetic.{Float}
use ai_assistant_driver.History
use ai_assistant_driver.Esphome.Client.Commands.{subscribe}
use ai_assistant_driver.Esphome.Client.Retry.{
  is_connected, default_reconnect_config, connect_with_retry,
}
use ai_assistant_driver.Setup.Services.{
  new_transcriber, new_stt_transcriber, new_llm_client, new_tool_executor,
}
use ai_assistant_driver.Tts.{new_synthesizer}
use ai_assistant_driver.Setup.{
  Outside, Assembly, main, rounds_of, connected_client, load_configuration, connect_to_esphome,
  transcribing, serving, subscribed, new_http_server,
}

module _ (F : Float) {W : Type 0} (codec : History.Codec) (ratio origin : F.Num) where
  open F use {Num}

  -- What the controller runs with, once the configuration is loaded.
  abbrev pub assembly_of : Outside Num W → Config Num → Assembly Num W
  assembly_of o cfg = record {
    client = (subscribe (connected_client o.sends)).0;
    stt = new_transcriber F o.network cfg.conversational cfg.vad;
    llm = new_llm_client o.api_client cfg.llm;
    synthesizer = new_synthesizer cfg.conversational;
    history = History.new_conversation_manager codec true o.history_file;
    executor = new_tool_executor o.methods o.routes cfg;
    server = (new_http_server o.listens o.outbound_ip cfg).0;
  }

  -- The device is connected and the subscription sent, the recognizer has a host or a port, and the
  -- server can listen.
  pub record IsReady (o : Outside Num W) (cfg : Config Num) : Type 0 where
    pub loaded : load o.environment ratio origin ≡ ok cfg
    pub connected :
        (connect_with_retry default_reconnect_config (rounds_of o.bodies o.tries)).1 ≡ is_connected
    pub subscribes : (subscribe (connected_client o.sends)).1 ≡ true
    pub has_address : (is_nil cfg.conversational.host && is_zero cfg.conversational.port) ≡ false
    pub listening : (new_http_server o.listens o.outbound_ip cfg).1 ≡ true

  main_ready :
      (o : Outside Num W) (cfg : Config Num)
      → IsReady o cfg
      → (main F codec ratio origin o).1 ≡ ok (assembly_of o cfg)
  unfolding main load_configuration connect_to_esphome transcribing serving subscribed
      new_stt_transcriber
  main_ready o cfg r = ground arith

  main_assembled :
      (o : Outside Num W) (cfg : Config Num) (assembly : Assembly Num W)
      → load o.environment ratio origin ≡ ok cfg
      → (main F codec ratio origin o).1 ≡ ok assembly
      → IsReady o cfg
  unfolding main load_configuration connect_to_esphome transcribing serving subscribed
      new_stt_transcriber
  main_assembled o cfg assembly loaded made = record {
    loaded = loaded;
    connected = ground arith;
    subscribes = ground arith;
    has_address = ground arith;
    listening = ground arith;
  }

  main_unloaded :
      (o : Outside Num W) (e : LoadError) (assembly : Assembly Num W)
      → load o.environment ratio origin ≡ err e
      → (main F codec ratio origin o).1 ≢ ok assembly
  unfolding main load_configuration
  main_unloaded o e assembly failed = λ h. ground arith

  -- The set-up ends in an assembly exactly if the configuration loads, the device is connected, the
  -- subscription is sent, the recognizer has a host or a port, and the server can listen; the assembly is
  -- then the one that is made of this configuration.
  pub main_iff :
      (o : Outside Num W) (assembly : Assembly Num W)
      → ((main F codec ratio origin o).1 ≡ ok assembly)
        ↔ ((cfg : Config Num) × IsReady o cfg × (assembly_of o cfg ≡ assembly))
  main_iff o assembly = (
    λ made. elim (Result-cases (load o.environment ratio origin)) [
      | inl (e, failed) ↦ absurd (main_unloaded o e assembly failed made)
      | inr (cfg, loaded) ↦
          let ready = main_assembled o cfg assembly loaded made in
          (cfg, ready, cc (main_ready o cfg ready, made))
    ],
    λ (cfg, ready, same). main_ready o cfg ready ∙ ap ok same,
  )
