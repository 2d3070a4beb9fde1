-- ===== src/Http/Guards.antt =====
-- What a request can do to the controller, and when it does.
use ai_assistant_driver.Common.{
  ◌≡◌, refl, ap, ◌∙◌, sym, Bool, true, false, Option, none, some, [], ◌∷◌, ◌++◌, is_nil,
  if◌then◌else◌, Text, Bytes, codes, text_eq, has_prefix, ok, arith, Bool-cases, Option-cases,
  Result-cases, inl, inr, ◌⊎◌,
}
use ai_assistant_driver.Controller.{Phase, idle, listening, thinking, reply, Config, Controller}
use ai_assistant_driver.Controller.Handlers.{phase_eq}
use ai_assistant_driver.Controller.Settled.{IsSettled}
use ai_assistant_driver.Controller.Triggers.{
  phase_name, may_speak, trigger_tts, trigger_listening, control_light,
}
use ai_assistant_driver.Esphome.Command.{bare, voice_assistant_start}
use ai_assistant_driver.Http.{
  audio_prefix, Server, Request, Response, problem, conflict, success, not_routed,
}
use ai_assistant_driver.Http.Handlers.{
  is_post, no_controller, handle_audio, handle_status, Decoder, tts_of_text, tts_of_body,
  handle_tts, handle_listen, lights_of_body, handle_lights, respond,
}

-- What no request changes, and the commands that it can add.
pub data IsServed {W : Type 0} (c : Controller W) (r : Controller W × Response) : Type 0 where
  served :
      (r.0.commands ≡ c.commands)
        ⊎ ((c.phase ≡ idle) × (r.0.commands ≡ c.commands ++ bare voice_assistant_start ∷ []))
      → r.0.phase ≡ c.phase
      → r.0.transcript ≡ c.transcript
      → r.0.llm_response ≡ c.llm_response
      → r.0.tts_cleanup ≡ c.tts_cleanup
      → r.0.errors ≡ c.errors
      → IsServed c r

idle_phase : (p : Phase) → phase_eq p idle ≡ true → p ≡ idle
idle_phase idle h = refl
idle_phase listening h = cc
idle_phase thinking h = cc
idle_phase reply h = cc

module _ {W : Type 0} where
  unchanged : (c : Controller W) (response : Response) → IsServed c (c, response)
  unchanged c response = served (inl refl) refl refl refl refl refl

  IsServed-if :
      (test : Bool) (c : Controller W) (x y : Controller W × Response)
      → IsServed c x
      → IsServed c y
      → IsServed c (if test then x else y)
  IsServed-if true c x y hx hy = hx
  IsServed-if false c x y hx hy = hy

  listening_started :
      (c : Controller W)
      → IsServed c (
          if phase_eq c.phase idle
          then (let (c', works) = trigger_listening c in
              (
                c',
                if works
                    then success (codes "Listening activated")
                    else problem 500 (codes "Failed to start listening"),
              ))
          else (c, conflict (phase_name c.phase) (codes "idle" ∷ [])))
  unfolding trigger_listening
  listening_started c = elim (Bool-cases (phase_eq c.phase idle)) [
    | inl is_idle ↦
        rw is_idle (served (inr (idle_phase c.phase is_idle, refl)) refl refl refl refl refl)
    | inr busy ↦ rw busy (unchanged c _)
  ]

  handle_listen-IsServed :
      (r : Request) (s : Server) (c : Controller W) → IsServed c (handle_listen r s c)
  unfolding handle_listen
  handle_listen-IsServed r s c =
      IsServed-if _ c _ _ (IsServed-if _ c _ _ (listening_started c) (unchanged c _))
        (unchanged c _)

module _ {W : Type 0} (cfg : Config W) (decoder : Decoder) where
  tts_of_text-IsServed :
      (text : Text) (c : Controller W) → IsServed c (tts_of_text cfg decoder text c)
  unfolding tts_of_text trigger_tts
  tts_of_text-IsServed [] c = unchanged c _
  tts_of_text-IsServed (b ∷ text) c = elim (Bool-cases (may_speak c.phase)) [
    | inl may ↦ rw may (served (inl refl) refl refl refl refl refl)
    | inr may_not ↦ rw may_not (unchanged c _)
  ]

  tts_of_body-IsServed :
      (body : Option Bytes) (c : Controller W) → IsServed c (tts_of_body cfg decoder body c)
  unfolding tts_of_body
  tts_of_body-IsServed none c = unchanged c _
  tts_of_body-IsServed (some body) c = elim (Option-cases (decoder.tts_text body)) [
    | inl refused ↦ rw (tts_of_body, refused) (unchanged c _)
    | inr (text, decoded) ↦ rw (tts_of_body, decoded) (tts_of_text-IsServed text c)
  ]

  handle_tts-IsServed :
      (r : Request) (s : Server) (c : Controller W) → IsServed c (handle_tts cfg decoder r s c)
  unfolding handle_tts
  handle_tts-IsServed r s c =
      let busy : Response = conflict (phase_name c.phase) (codes "idle" ∷ codes "reply" ∷ []) in
      IsServed-if (is_post r.method) c _ _
        (IsServed-if s.has_controller c _ _
          (IsServed-if (may_speak c.phase) c _ _ (tts_of_body-IsServed r.body c) (unchanged c busy))
          (unchanged c no_controller))
        (unchanged c (problem 405 (codes "POST method is required")))

  lights_of_body-IsServed :
      (body : Option Bytes) (c : Controller W) → IsServed c (lights_of_body cfg decoder body c)
  unfolding lights_of_body control_light
  lights_of_body-IsServed none c = unchanged c _
  lights_of_body-IsServed (some body) c = elim (Option-cases (decoder.light_action body)) [
    | inl refused ↦ rw (lights_of_body, refused) (unchanged c _)
    | inr (action, decoded) ↦
        rw (lights_of_body, decoded)
          (IsServed-if (is_nil action) c _ _ (unchanged c _) (unchanged c _))
  ]

  handle_lights-IsServed :
      (r : Request) (s : Server) (c : Controller W) → IsServed c (handle_lights cfg decoder r s c)
  unfolding handle_lights
  handle_lights-IsServed r s c =
      IsServed-if _ c _ _ (IsServed-if _ c _ _ (lights_of_body-IsServed r.body c) (unchanged c _))
        (unchanged c _)

  -- A request never changes the phase, the transcript, the response, the cleanup function or the
  -- errors. It adds no command but the start of the voice assistant, and that only in the idle phase.
  pub respond-IsServed :
      (r : Request) (s : Server) (c : Controller W) → IsServed c (respond cfg decoder r s c)
  unfolding respond
  respond-IsServed r s c =
      IsServed-if (has_prefix r.path audio_prefix) c _ _ (unchanged c (handle_audio r s)) (
        IsServed-if (text_eq r.path (codes "/api/status")) c _ _ (unchanged c (handle_status r s c))
          (IsServed-if (text_eq r.path (codes "/api/tts")) c _ _ (handle_tts-IsServed r s c) (
            IsServed-if (text_eq r.path (codes "/api/listen")) c _ _ (handle_listen-IsServed r s c)
              (IsServed-if (text_eq r.path (codes "/api/lights")) c _ _
                (handle_lights-IsServed r s c) (unchanged c not_routed)))))

  -- Whatever a request does, a controller between phases is still one.
  respond-IsSettled :
      (r : Request) (s : Server) (c : Controller W)
      → IsSettled c
      → IsSettled (respond cfg decoder r s c).0
  respond-IsSettled r s c h = settled _ (respond-IsServed r s c)
    where
      settled : (answer : Controller W × Response) → IsServed c answer → IsSettled answer.0
      settled answer (served sent phase transcript response cleanup errors) = record {
        between_phases = rw phase h.between_phases;
        no_cleanup = cleanup ∙ h.no_cleanup;
        errors_bounded = rw errors h.errors_bounded;
      }

  tts_of_text_success :
      (text : Text) (c : Controller W) (message : Text)
      → (tts_of_text cfg decoder text c).1 ≡ success message
      → (is_nil text ≡ false)
        × ((audio : Bytes) × ((cfg.services.synthesize text c.world).1 ≡ ok audio))
  unfolding tts_of_text trigger_tts
  tts_of_text_success [] c message h = cc
  tts_of_text_success (b ∷ text) c message h = (
    refl,
    elim (Result-cases (cfg.services.synthesize (b ∷ text) c.world).1) [
      | inl (e, failed) ↦ absurd (ground (arith, failed))
      | inr (audio, spoken) ↦ (audio, spoken)
    ],
  )

  tts_of_body-decoded :
      (b : Bytes) (text : Text) (c : Controller W)
      → decoder.tts_text b ≡ some text
      → tts_of_body cfg decoder (some b) c ≡ tts_of_text cfg decoder text c
  unfolding tts_of_body tts_of_text
  tts_of_body-decoded b text c decoded = rw (tts_of_body, decoded) refl

  tts_of_body_success :
      (body : Option Bytes) (c : Controller W) (message : Text)
      → (tts_of_body cfg decoder body c).1 ≡ success message
      → (b : Bytes) × (text : Text) × (audio : Bytes) × (body ≡ some b)
        × (decoder.tts_text b ≡ some text)
        × (is_nil text ≡ false)
        × ((cfg.services.synthesize text c.world).1 ≡ ok audio)
  unfolding tts_of_body
  tts_of_body_success none c message h = cc
  tts_of_body_success (some b) c message h = elim (Option-cases (decoder.tts_text b)) [
    | inl refused ↦ absurd (ground (arith, refused))
    | inr (text, decoded) ↦
        let h' : (tts_of_text cfg decoder text c).1 ≡ success message =
          ap (λ (x : Controller W × Response). x.1) (sym (tts_of_body-decoded b text c decoded))
          ∙ h in
        let (full, (audio, spoken)) = tts_of_text_success text c message h' in
        (b, text, audio, refl, decoded, full, spoken)
  ]

  -- Speech is queued only by a POST with a controller in the idle or the reply phase, whose body is
  -- read and decoded to a text that is not empty, and that is synthesized.
  handle_tts_success :
      (r : Request) (s : Server) (c : Controller W) (message : Text)
      → (handle_tts cfg decoder r s c).1 ≡ success message
      → (is_post r.method ≡ true)
        × (s.has_controller ≡ true)
        × (may_speak c.phase ≡ true)
        × ((body : Bytes) × (text : Text) × (audio : Bytes) × (r.body ≡ some body)
            × (decoder.tts_text body ≡ some text)
            × (is_nil text ≡ false)
            × ((cfg.services.synthesize text c.world).1 ≡ ok audio))
  unfolding handle_tts
  handle_tts_success r s c message h = elim (Bool-cases (is_post r.method)) [
    | inr other ↦ absurd (cc)
    | inl posted ↦ elim (Bool-cases s.has_controller) [
      | inr missing ↦ absurd (ground arith)
      | inl there ↦ elim (Bool-cases (may_speak c.phase)) [
        | inr busy ↦ absurd (ground arith)
        | inl may ↦ (posted, there, may, tts_of_body_success r.body c message (ground arith))
      ]
    ]
  ]
