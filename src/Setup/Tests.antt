-- ===== src/Setup/Tests.antt =====
-- A set-up that comes to the end, in whole thousandths: the second attempt reaches the device. The world
-- counts the calls of the tools.
use ai_assistant_driver.Common.{
  ℕ, ◌+◌, Option, Bytes, ◌≡◌, ◌↔◌, refl, true, false, none, some, List, [], ◌∷◌, ◌++◌, map, Text,
  codes, Result, ok, err,
}
use ai_assistant_driver.Config.{Config, defaults, load}
use ai_assistant_driver.Vad.Arithmetic.{thousandths}
use ai_assistant_driver.History
use ai_assistant_driver.Shutdown.{
  Func, stop, close_done, added, Process, process, start_of, Steps, step, add_next, cancel, begin,
  run_next, main_returns, here, add_all, new, add,
}
use ai_assistant_driver.Shutdown.Order.{after_new}
use ai_assistant_driver.Esphome.Wire.Connecting.{
  Attempt, dial_fails, connects, attempt, new_esphome_client,
}
use ai_assistant_driver.Esphome.Wire.Requests.{register, waiting_for, answer_of, route_each}
use ai_assistant_driver.Esphome.Wire.{route_message}
use ai_assistant_driver.Esphome.Client.Retry.{connect_with_retry}
use ai_assistant_driver.Setup.Services.{ToolMethods}
use ai_assistant_driver.Setup.{Outside, try, main, rounds_of, close_of}
use ai_assistant_driver.Setup.Stages.{IsReady, assembly_of, main_iff}
use ai_assistant_driver.Setup.Releases.{left_open, main_releases, main_releases_all}

never :
    (s : History.Storage) (b : Bytes)
    → ◌≡◌ {A = Option Bytes} none (some b)
    → ◌≡◌ {A = Option History.Storage} none (some s)
never s b h = cc

abbrev no_codec : History.Codec
no_codec = record { marshal = λ s. none; unmarshal = λ b. none; unmarshal-marshal = never }

abbrev environment : Config ℕ → Result Text (Config ℕ)
environment cfg = ok (record cfg {
  esphome_address = codes "192.168.1.7:6053";
  llm = record cfg.llm { model = codes "llama3.2" };
})

abbrev configured : Config ℕ
configured = record (defaults {F = ℕ} 2500 0) {
  esphome_address = codes "192.168.1.7:6053";
  llm = record (defaults {F = ℕ} 2500 0).llm { model = codes "llama3.2" };
}

abbrev methods : ToolMethods ℕ ℕ
methods = record {
  get_connected_clients = λ c w. (w + 1, ok []);
  get_network_status = λ c w. (w + 1, err (codes "no router"));
  get_weather = λ c w. (w + 1, err (codes "no forecast"));
  get_speedtest = λ w. (w + 1, ok (record { download_speed_mbps = 4000; latency_ms = 12 }));
  marshal_devices = λ ds. ok (codes "null");
  marshal_status = λ s. ok (codes "{}");
  marshal_weather = λ d. ok (codes "{}");
  marshal_speedtest = λ r. ok (codes "{4}");
}

abbrev no_device : Attempt
no_device = record {
  dialling = dial_fails;
  hello_written = true;
  early = [];
  late = [];
  list_written = true;
  states_written = true;
  reading_ends = false;
}

abbrev greeted : Attempt
greeted = record no_device {
  dialling = connects;
  late = some (record { type_id = 2; body = [] }) ∷ [];
}

abbrev outside : Outside ℕ ℕ
outside = record {
  environment = environment;
  bodies = record { hello = []; list_entities = []; subscribe_states = [] };
  tries = try no_device false ∷ try greeted false ∷ [];
  sends = [];
  network = record { dials = []; writes = []; next_connection = 0; log = [] };
  history_file = none;
  routes = none;
  listens = true;
  outbound_ip = some (codes "192.168.1.2");
  api_client = λ address request w. (w, ([], none));
  methods = methods;
}

-- The port is taken.
abbrev port_taken : Outside ℕ ℕ
port_taken = record outside { listens = false }

main_iff_example :
    ((main thousandths no_codec 2500 0 outside).1
      ≡ ok (assembly_of thousandths no_codec 2500 0 outside configured))
    ↔ ((cfg : Config ℕ) × IsReady thousandths no_codec 2500 0 outside cfg
        × (assembly_of thousandths no_codec 2500 0 outside cfg
            ≡ assembly_of thousandths no_codec 2500 0 outside configured))
main_iff_example =
    main_iff thousandths no_codec 2500 0 outside
      (assembly_of thousandths no_codec 2500 0 outside configured)

comes_to_the_end :
    (main thousandths no_codec 2500 0 outside).1
    ≡ ok (assembly_of thousandths no_codec 2500 0 outside configured)
unfolding main load connect_with_retry rounds_of attempt new_esphome_client answer_of waiting_for
    route_each route_message register
comes_to_the_end = refl

port_taken_manager :
    (main thousandths no_codec 2500 0 port_taken).0.manager ≡ add_all (0 ∷ 1 ∷ []) new
unfolding main load connect_with_retry rounds_of attempt new_esphome_client answer_of waiting_for
    route_each route_message register add_all new add
port_taken_manager = refl

-- Main has added both closings, and the shutdown has not begun.
abbrev set_up : Process
set_up = process [] (stop ∷ close_done ∷ added 0 ∷ added 1 ∷ []) false none false false []

-- All four functions have run.
abbrev all_run : Process
all_run =
    process [] (stop ∷ close_done ∷ added 0 ∷ added 1 ∷ []) true (some []) true false
      (stop ∷ close_done ∷ added 0 ∷ added 1 ∷ [])

-- A signal came before the second closing was added, which did not run.
abbrev cut_short : Process
cut_short =
    process [] (stop ∷ close_done ∷ added 0 ∷ added 1 ∷ []) true (some []) true false
      (stop ∷ close_done ∷ added 0 ∷ [])

adds_both : Steps (start_of (add_all (0 ∷ 1 ∷ []) new)) set_up
unfolding add_all new add
adds_both =
    step (add_next (added 0) (added 1 ∷ []) (stop ∷ close_done ∷ []) false none false [])
      (step (add_next (added 1) [] (stop ∷ close_done ∷ added 0 ∷ []) false none false []) (here _))

shuts_down : Steps set_up all_run
shuts_down =
    let funcs = stop ∷ close_done ∷ added 0 ∷ added 1 ∷ [] in
    step (cancel [] funcs false none false []) (
      step (begin [] funcs false []) (
        step (run_next [] funcs true stop (close_done ∷ added 0 ∷ added 1 ∷ []) false []) (
          step (run_next [] funcs true close_done (added 0 ∷ added 1 ∷ []) false (stop ∷ [])) (
            step (run_next [] funcs true (added 0) (added 1 ∷ []) true (stop ∷ close_done ∷ [])) (
              step (run_next [] funcs true (added 1) [] true (stop ∷ close_done ∷ added 0 ∷ []))
                (here _))))))

-- The process ends once Done is closed, with both closings left to run.
ends_early : Steps set_up (
    process []
      (stop ∷ close_done ∷ added 0 ∷ added 1 ∷ [])
      true
      (some (added 0 ∷ added 1 ∷ []))
      true
      true
      (stop ∷ close_done ∷ []))
ends_early =
    let funcs = stop ∷ close_done ∷ added 0 ∷ added 1 ∷ [] in
    step (cancel [] funcs false none false []) (
      step (begin [] funcs false []) (
        step (run_next [] funcs true stop (close_done ∷ added 0 ∷ added 1 ∷ []) false []) (
          step (run_next [] funcs true close_done (added 0 ∷ added 1 ∷ []) false (stop ∷ [])) (
            step (main_returns funcs true (some (added 0 ∷ added 1 ∷ [])) (stop ∷ close_done ∷ []))
              (here _)))))

is_cut_short : Steps (start_of (add_all (0 ∷ 1 ∷ []) new)) cut_short
unfolding add_all new add
is_cut_short =
    let early = stop ∷ close_done ∷ added 0 ∷ [] in
    let all = stop ∷ close_done ∷ added 0 ∷ added 1 ∷ [] in
    step (add_next (added 0) (added 1 ∷ []) (stop ∷ close_done ∷ []) false none false []) (
      step (cancel (added 1 ∷ []) early false none false []) (
        step (begin (added 1 ∷ []) early false []) (
          step (add_next (added 1) [] early true (some early) false []) (
            step (run_next [] all true stop (close_done ∷ added 0 ∷ []) false []) (
              step (run_next [] all true close_done (added 0 ∷ []) false (stop ∷ [])) (
                step (run_next [] all true (added 0) [] true (stop ∷ close_done ∷ []))
                  (here _)))))))

main_releases_example :
    (missed : List Func) × (cut_short.manager.ran ++ missed
      ≡ after_new (map close_of (left_open (main thousandths no_codec 2500 0 port_taken).0)))
main_releases_example =
    main_releases thousandths no_codec 2500 0 port_taken {p = cut_short}
      (rw port_taken_manager is_cut_short) refl

main_releases_all_example :
    all_run.manager.ran
    ≡ after_new (map close_of (left_open (main thousandths no_codec 2500 0 port_taken).0))
main_releases_all_example =
    main_releases_all thousandths no_codec 2500 0 port_taken (rw port_taken_manager adds_both) refl
      refl shuts_down refl
