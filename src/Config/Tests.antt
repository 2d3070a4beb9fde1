-- ===== src/Config/Tests.antt =====
-- A configuration from an environment that sets the two required variables and the log level.
use ai_assistant_driver.Common.{◌≡◌, ℕ, refl, Text, codes, Result, ok}
use ai_assistant_driver.Config.{Config, defaults, load, get_log_level, debug}

abbrev environment : Config ℕ → Result Text (Config ℕ)
environment cfg = ok (record cfg {
  esphome_address = codes "192.168.1.7:6053";
  log_level = codes "debug";
  llm = record cfg.llm { model = codes "llama3.2" };
})

abbrev loaded : Config ℕ
loaded = record (defaults {F = ℕ} 25 0) {
  esphome_address = codes "192.168.1.7:6053";
  log_level = codes "debug";
  llm = record (defaults {F = ℕ} 25 0).llm { model = codes "llama3.2" };
}

is_loaded : load environment 25 0 ≡ ok loaded
unfolding load
is_loaded = refl

logs_debug : get_log_level loaded ≡ debug
unfolding get_log_level
logs_debug = refl
