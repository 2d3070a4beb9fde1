-- ===== src/Http.antt =====
-- internal/http: the server that the device fetches audio from, and the API on the controller. A
-- request comes with its path cleaned, its method and its body, or `none` for a body that cannot be
-- read; JSON is decoded by a parameter. The controller may be missing.
pub mod Handlers
pub mod Audio
pub mod Guards
pub mod Problem
mod Tests
use ai_assistant_driver.Common.{
  ℕ, ◌+◌, Bool, true, false, Option, none, some, List, [], ◌∷◌, ◌++◌, ◌==◌, is_nil, if◌then◌else◌,
  Text, Bytes, codes, decimal, text_eq, Result, ok, err,
}
use ai_assistant_driver.Common.Maps.{text_key, put, remove}

-- `serving` is that the goroutine of Start accepts connections, which net/http ends on Shutdown.
pub record Server : Type 0 where
  pub host : Text
  pub port : ℕ
  pub files : List (Text × Text)
  pub started : Bool
  pub bound_ip : Text
  pub api_key : Text
  pub has_controller : Bool
  pub has_synthesizer : Bool
  pub serving : Bool

unfoldable pub new_server : Text → ℕ → Server
new_server host port = record {
  host = host;
  port = port;
  files = [];
  started = false;
  bound_ip = [];
  api_key = [];
  has_controller = false;
  has_synthesizer = false;
  serving = false;
}

abbrev pub set_api_key : Text → Server → Server
set_api_key key s = record s { api_key = key }

abbrev pub set_controller : Bool → Server → Server
set_controller given s = record s { has_controller = given }

abbrev pub set_tts_synthesizer : Bool → Server → Server
set_tts_synthesizer given s = record s { has_synthesizer = given }

-- detectOutboundIP, given the local address of the connection to 8.8.8.8, if it can be dialled.
unfoldable pub detect_outbound_ip : Option Text → Text
detect_outbound_ip none = codes "127.0.0.1"
detect_outbound_ip (some ip) = ip

-- Start, given whether the port can be listened on and the address that detectOutboundIP finds.
unfoldable pub start : Bool → Text → Server → Server × Bool
start listens outbound_ip s =
    if s.started
    then (s, true)
    else (let s' = record s { port = if s.port == 0 then 8080 else s.port } in
        if listens
        then (
          record s' {
            started = true;
            bound_ip =
                if is_nil s.host
                then outbound_ip
                else if text_eq s.host (codes "0.0.0.0")
                then outbound_ip
                else s.host;
            serving = true;
          },
          true,
        )
        else (s', false))

-- Close, given whether Shutdown of net/http works in its five seconds; the server stays `started`.
unfoldable pub close : Bool → Server → Server × Bool
close shuts_down s = if s.started then (record s { serving = false }, shuts_down) else (s, true)

-- URL
unfoldable pub url : Server → Text
url s = codes "http://" ++ (s.bound_ip ++ (codes ":" ++ decimal s.port))

abbrev pub slash : ℕ
slash = b'/'

unfoldable pub trim_slashes : Text → Text
trim_slashes [] = []
trim_slashes (c ∷ s) =
    let kept = trim_slashes s in
    if is_nil kept then (if c == slash then [] else c ∷ []) else c ∷ kept

-- The text behind the last slash.
unfoldable pub after_slash : Text → Text → Text
after_slash part [] = part
after_slash part (c ∷ s) = after_slash (if c == slash then [] else part ++ c ∷ []) s

-- filepath.Base
unfoldable pub base : Text → Text
unfolding trim_slashes after_slash
base path =
    if is_nil path
    then codes "."
    else (let name = after_slash [] (trim_slashes path) in if is_nil name then codes "/" else name)

abbrev pub audio_prefix : Text
audio_prefix = codes "/api/tts/audio/"

-- ServeWAV; `none` if the server could not be started.
unfoldable pub serve_wav : Bool → Text → Text → Server → Server × Option Text
unfolding start base url put
serve_wav listens outbound_ip path s =
    let (s', works) = start listens outbound_ip s in
    let name = base path in
    if works
    then (record s' { files = put name path s'.files }, some (url s' ++ (audio_prefix ++ name)))
    else (s', none)

-- The cleanup function of ServeWAV; the removal of the file itself is left to the system.
unfoldable pub clean_up : Text → Server → Server
unfolding remove base
clean_up path s = record s { files = remove (base path) s.files }

pub data Method : Type 0 where
  get post other_method : Method

pub record Request : Type 0 where
  pub method : Method
  pub path : Text
  pub body : Option Bytes

-- A problem with its status and detail, the JSON that a handler writes, or a file.
pub data Response : Type 0 where
  problem : (status : ℕ) (detail : Text) → Response
  conflict : (phase : Text) (allowed : List Text) → Response
  status_report : (phase transcript llm_response : Text) → Response
  success : (message : Text) → Response
  serve_file : (path : Text) → Response
  not_routed : Response
