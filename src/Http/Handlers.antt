-- ===== src/Http/Handlers.antt =====
-- internal/http/handlers.go
use ai_assistant_driver.Common.{
  Bool, true, false, Option, none, some, [], ◌∷◌, ◌++◌, is_nil, if◌then◌else◌, Text, Bytes, codes,
  text_eq, has_prefix,
}
use ai_assistant_driver.Controller.{idle, Config, Controller}
use ai_assistant_driver.Controller.Handlers.{phase_eq}
use ai_assistant_driver.Controller.Triggers.{
  phase_name, trigger_listening, may_speak, TtsError, invalid_phase, synthesis_failed, trigger_tts,
  control_light,
}
use ai_assistant_driver.Common.Maps.{text_key, find}
use ai_assistant_driver.Http.{
  Server, base, audio_prefix, Method, get, post, Request, Response, problem, conflict,
  status_report, success, serve_file, not_routed,
}

-- json.Unmarshal into the two request types; a request for lights by its action.
pub record Decoder : Type 0 where
  pub tts_text : Bytes → Option Text
  pub light_action : Bytes → Option Text

abbrev pub answer_file : Option Text → Response
answer_file none = problem 404 (codes "Audio file not found")
answer_file (some path) = serve_file path

unfoldable pub handle_audio : Request → Server → Response
handle_audio r s = answer_file (find (base r.path) s.files)

abbrev is_get : Method → Bool
is_get get = true
is_get _ = false

abbrev pub is_post : Method → Bool
is_post post = true
is_post _ = false

abbrev pub no_controller : Response
no_controller = problem 500 (codes "Controller not configured")

-- The error that TriggerTTS wraps, as `%v` prints it.
unfoldable tts_detail : TtsError → Text
unfolding phase_name
tts_detail (invalid_phase phase) =
    codes "TTS failed: invalid phase for operation: cannot trigger TTS in "
    ++ (phase_name phase ++ codes " phase")
tts_detail (synthesis_failed e) = codes "TTS failed: TTS synthesis failed: " ++ e

module _ {W : Type 0} where
  unfoldable pub handle_status : Request → Server → Controller W → Response
  unfolding phase_name
  handle_status r s c =
      if is_get r.method
      then (if s.has_controller
          then status_report (phase_name c.phase) c.transcript c.llm_response
          else no_controller)
      else problem 405 (codes "GET method is required")

  unfoldable pub handle_listen : Request → Server → Controller W → Controller W × Response
  unfolding trigger_listening phase_name
  handle_listen r s c =
      if is_post r.method
      then (if s.has_controller
          then (if phase_eq c.phase idle
              then (let (c', works) = trigger_listening c in
                  (
                    c',
                    if works
                        then success (codes "Listening activated")
                        else problem 500 (codes "Failed to start listening"),
                  ))
              else (c, conflict (phase_name c.phase) (codes "idle" ∷ [])))
          else (c, no_controller))
      else (c, problem 405 (codes "POST method is required"))

module _ {W : Type 0} (cfg : Config W) (decoder : Decoder) where
  unfoldable pub tts_of_text : Text → Controller W → Controller W × Response
  unfolding trigger_tts tts_detail
  tts_of_text [] c = (c, problem 400 (codes "Text is required"))
  tts_of_text (b ∷ text) c =
      let (c', failed) = trigger_tts cfg (b ∷ text) c in
      (
        c',
        elim failed [ none ↦ success (codes "TTS queued") | some e ↦ problem 500 (tts_detail e) ],
      )

  unfoldable pub tts_of_body : Option Bytes → Controller W → Controller W × Response
  unfolding tts_of_text
  tts_of_body none c = (c, problem 400 (codes "Failed to read request body"))
  tts_of_body (some body) c = elim (decoder.tts_text body) [
    | none ↦ (c, problem 400 (codes "Invalid JSON"))
    | some text ↦ tts_of_text text c
  ]

  unfoldable pub handle_tts : Request → Server → Controller W → Controller W × Response
  unfolding tts_of_body phase_name
  handle_tts r s c =
      if is_post r.method
      then (if s.has_controller
          then (if may_speak c.phase
              then tts_of_body r.body c
              else (c, conflict (phase_name c.phase) (codes "idle" ∷ codes "reply" ∷ [])))
          else (c, no_controller))
      else (c, problem 405 (codes "POST method is required"))

  -- The body is decoded before the action is looked at; the light itself is never controlled.
  unfoldable pub lights_of_body : Option Bytes → Controller W → Controller W × Response
  unfolding control_light
  lights_of_body none c = (c, problem 400 (codes "Failed to read request body"))
  lights_of_body (some body) c = elim (decoder.light_action body) [
    | none ↦ (c, problem 400 (codes "Invalid JSON"))
    | some action ↦
        if is_nil action
        then (c, problem 400 (codes "Action is required"))
        else (control_light action c, success (codes "Light " ++ action))
  ]

  unfoldable pub handle_lights : Request → Server → Controller W → Controller W × Response
  unfolding lights_of_body
  handle_lights r s c =
      if is_post r.method
      then (if s.has_controller then lights_of_body r.body c else (c, no_controller))
      else (c, problem 405 (codes "POST method is required"))

  -- The routes of newMux, as http.ServeMux chooses among them for a clean path: the subtree of the
  -- audio files, and four paths.
  unfoldable pub respond : Request → Server → Controller W → Controller W × Response
  respond r s c =
      if has_prefix r.path audio_prefix
      then (c, handle_audio r s)
      else if text_eq r.path (codes "/api/status")
      then (c, handle_status r s c)
      else if text_eq r.path (codes "/api/tts")
      then handle_tts r s c
      else if text_eq r.path (codes "/api/listen")
      then handle_listen r s c
      else if text_eq r.path (codes "/api/lights")
      then handle_lights r s c
      else (c, not_routed)
