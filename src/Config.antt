-- ===== src/Config.antt =====
-- internal/config/config.go: the defaults, what must be set, the log level.
-- env.Parse is a parameter: it overwrites the fields whose variables are set, or fails. `F` is
-- float64. Reading a .env file only adds variables, and its errors are ignored.
use ai_assistant_driver.Common.{
  Bool, true, false, ◌||◌, [], List, ◌∷◌, if◌then◌else◌, is_nil, Text, text_eq, codes, Result, ok,
  err,
}
use ai_assistant_driver.Common.Int.{ℤ, pos}
pub mod Required
mod Tests

pub record ConversationalConfig : Type 0 where
  pub host : Text
  pub port : ℤ
  pub language : Text
  pub storage_path : Text
  pub history_storage_path : Text
  pub synthesizer_host : Text
  pub synthesizer_port : ℤ
  pub synthesizer_language : Text
  pub http_host : Text
  pub http_port : ℤ

pub record VadConfig (F : Type 0) : Type 0 where
  pub threshold_ratio : F
  pub min_silence_ms : ℤ

pub record LlmConfig : Type 0 where
  pub host : Text
  pub port : ℤ
  pub model : Text
  pub system_message : Text

pub record OpenWrtConfig : Type 0 where
  pub host : Text
  pub port : ℤ
  pub username : Text
  pub password : Text

pub record WeatherConfig (F : Type 0) : Type 0 where
  pub latitude : F
  pub longitude : F

pub record ApiConfig : Type 0 where
  pub enabled : Bool
  pub api_key : Text

pub record Config (F : Type 0) : Type 0 where
  pub esphome_address : Text
  pub log_level : Text
  pub conversational : ConversationalConfig
  pub vad : VadConfig F
  pub llm : LlmConfig
  pub open_wrt : OpenWrtConfig
  pub weather : WeatherConfig F
  pub api : ApiConfig

pub data LoadError : Type 0 where
  not_parsed : Text → LoadError
  esphome_address_required llm_model_required : LoadError

-- What Load starts from; `ratio` is 2.5 and `origin` is 0.
abbrev pub defaults : {F : Type 0} → F → F → Config F
defaults ratio origin = record {
  esphome_address = [];
  log_level = codes "info";
  conversational = record {
    host = codes "localhost";
    port = pos 10300;
    language = codes "en";
    storage_path = codes "data/tts";
    history_storage_path = codes "data/history";
    synthesizer_host = codes "localhost";
    synthesizer_port = pos 10200;
    synthesizer_language = codes "en";
    http_host = codes "0.0.0.0";
    http_port = pos 8080;
  };
  vad = record { threshold_ratio = ratio; min_silence_ms = pos 1000 };
  llm = record { host = codes "localhost"; port = pos 11434; model = []; system_message = [] };
  open_wrt = record {
    host = [];
    port = pos 80;
    username = codes "root";
    password = codes "password";
  };
  weather = record { latitude = origin; longitude = origin };
  api = record { enabled = true; api_key = [] };
}

-- The two values that must be there.
unfoldable pub required : {F : Type 0} → Config F → Result LoadError (Config F)
required cfg =
    if is_nil cfg.esphome_address
    then err esphome_address_required
    else if is_nil cfg.llm.model
    then err llm_model_required
    else ok cfg

-- Load, given what env.Parse makes of a configuration.
unfoldable pub load :
    {F : Type 0} → (Config F → Result Text (Config F)) → F → F → Result LoadError (Config F)
unfolding required
load parse ratio origin = elim (parse (defaults ratio origin)) [
  | err e ↦ err (not_parsed e)
  | ok cfg ↦ required cfg
]

pub data Level : Type 0 where
  debug info warn error : Level

unfoldable pub get_log_level : {F : Type 0} → Config F → Level
get_log_level cfg =
    if text_eq cfg.log_level (codes "debug")
    then debug
    else if text_eq cfg.log_level (codes "info")
    then info
    else if text_eq cfg.log_level (codes "warn")
    then warn
    else if text_eq cfg.log_level (codes "error")
    then error
    else info
