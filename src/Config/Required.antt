-- ===== src/Config/Required.antt =====
-- When a configuration is loaded.
use ai_assistant_driver.Common.{
  ◌≡◌, ◌≢◌, ◌↔◌, refl, sym, ap, ◌∙◌, List, [], ◌∷◌, is_nil, true, false, Text, Result, ok, err,
  Result-cases, inl, inr, Bool-cases,
}
use ai_assistant_driver.Config.{
  Config, LoadError, defaults, required, load, not_parsed, esphome_address_required,
  llm_model_required,
}

nonempty : {A : Type 0} (xs : List A) → xs ≢ [] → is_nil xs ≡ false
nonempty [] h = absurd (h refl)
nonempty (x ∷ xs) h = refl

not_empty : {A : Type 0} (xs : List A) → is_nil xs ≡ false → xs ≢ []
not_empty [] h = cc
not_empty (x ∷ xs) h = λ e. cc

module _ {F : Type 0} where
  required_given :
      (cfg : Config F) → cfg.esphome_address ≢ [] → cfg.llm.model ≢ [] → required cfg ≡ ok cfg
  unfolding required
  required_given cfg a m = rw (nonempty cfg.esphome_address a, nonempty cfg.llm.model m) refl

  required_missing_address :
      (cfg : Config F)
      → is_nil cfg.esphome_address ≡ true
      → required cfg ≡ err esphome_address_required
  unfolding required
  required_missing_address cfg a = rw a refl

  required_missing_model :
      (cfg : Config F)
      → is_nil cfg.esphome_address ≡ false
      → is_nil cfg.llm.model ≡ true
      → required cfg ≡ err llm_model_required
  unfolding required
  required_missing_model cfg a m = rw (a, m) refl

  required_gives :
      (cfg cfg' : Config F)
      → required cfg ≡ ok cfg'
      → (cfg ≡ cfg') × (cfg.esphome_address ≢ []) × (cfg.llm.model ≢ [])
  unfolding required
  required_gives cfg cfg' h = elim (Bool-cases (is_nil cfg.esphome_address)) [
    | inl a ↦ absurd (cc (sym (required_missing_address cfg a) ∙ h))
    | inr a ↦ elim (Bool-cases (is_nil cfg.llm.model)) [
      | inl m ↦ absurd (cc (sym (required_missing_model cfg a m) ∙ h))
      | inr m ↦
          let address = not_empty cfg.esphome_address a in
          let model = not_empty cfg.llm.model m in
          (cc (sym (required_given cfg address model) ∙ h), address, model)
    ]
  ]

  loaded :
      (parse : Config F → Result Text (Config F)) (ratio origin : F) (cfg : Config F)
      → load parse ratio origin ≡ ok cfg
      → (parse (defaults ratio origin) ≡ ok cfg) × (cfg.esphome_address ≢ []) × (cfg.llm.model ≢ [])
  unfolding load
  loaded parse ratio origin cfg h = elim (Result-cases (parse (defaults ratio origin))) [
    | inl (e, failed) ↦ absurd (cc (sym (ap after failed) ∙ h))
    | inr (found, parsed) ↦
        let (same, address, model) = required_gives found cfg (sym (ap after parsed) ∙ h) in
        rw (← same) (parsed, address, model)
  ]
    where
      after : Result Text (Config F) → Result LoadError (Config F)
      after r = elim r [ err e ↦ err (not_parsed e) | ok cfg ↦ required cfg ]

  -- Load gives a configuration exactly if it is what the environment makes of the defaults and the
  -- device's address and the model's name are not empty; what it gives is then that configuration.
  load_iff :
      (parse : Config F → Result Text (Config F)) (ratio origin : F) (cfg : Config F)
      → (load parse ratio origin ≡ ok cfg) ↔ (
          (parse (defaults ratio origin) ≡ ok cfg)
          × (cfg.esphome_address ≢ [])
          × (cfg.llm.model ≢ []))
  unfolding load
  load_iff parse ratio origin cfg =
      (loaded parse ratio origin cfg, λ h. rw (load, h.0) (required_given cfg h.1 h.2))
