-- ===== src/Phases/Rounds.antt =====
-- The tool loop of the thinking phase against the exchange that it is meant to hold.
use ai_assistant_driver.Common.{
  ℕ, zero, suc, ◌≤◌, ◌≡◌, refl, ap, ◌∙◌, sym, true, false, Option, none, some, List, [], ◌∷◌, Text,
  Result, ok, err, arith, ◌↔◌,
}
use ai_assistant_driver.Llm.{ToolExecutor, ToolCall, execute_all, get_tools}
use ai_assistant_driver.Phases.{Services}
use ai_assistant_driver.Phases.Thinking.{
  error_response, asks_for_tools, build_context, after_chat, tool_loop,
}

ends_equal :
    {W : Type 0} {v w : W} {s t : Text}
    → ◌≡◌ {A = W × Option Text} (w, some s) (v, some t)
    → (w ≡ v) × (s ≡ t)
ends_equal e = (ap (λ p. p.0) e, cc (ap (λ p. p.1) e))

module _ {W : Type 0} (s : Services W) (executor : ToolExecutor W) where
  -- The model's next answer after the tools have run on what it asked for, in the world that they
  -- left, with their results behind the context.
  abbrev pub next_context : Text → List ToolCall → W → Text
  next_context context calls w = build_context context calls (execute_all executor calls w).1

  abbrev ask_again : Text → List ToolCall → W → W × Result Text (Text × List ToolCall)
  ask_again context calls w =
      s.chat [] (next_context context calls w) (get_tools executor) (execute_all executor calls w).0

  -- An exchange from an answer to the final text, by its number of rounds of tools: an answer with text
  -- or without calls ends it, and only one with calls and no text is followed by a round.
  pub data Exchange (v : W) (final : Text) : ℕ → Text → Text → List ToolCall → W → Type 0 where
    said :
        (context : Text) (c : ℕ) (text : Text) (calls : List ToolCall) (w : W)
        → w ≡ v
        → c ∷ text ≡ final
        → Exchange v final zero context (c ∷ text) calls w
    asked_nothing :
        (context response : Text) (w : W)
        → w ≡ v
        → response ≡ final
        → Exchange v final zero context response [] w
    refused :
        (context : Text) (call : ToolCall) (calls : List ToolCall) (w : W) (e : Text)
        → ask_again context (call ∷ calls) w ≡ (v, err e)
        → final ≡ error_response
        → Exchange v final (suc zero) context [] (call ∷ calls) w
    round :
        (n : ℕ) (context : Text) (call : ToolCall) (calls : List ToolCall) (w w' : W)
        (response' : Text) (calls' : List ToolCall)
        → ask_again context (call ∷ calls) w ≡ (w', ok (response', calls'))
        → Exchange v final n (next_context context (call ∷ calls) w) response' calls' w'
        → Exchange v final (suc n) context [] (call ∷ calls) w

  loop_done :
      (fuel : ℕ) (context response : Text) (calls : List ToolCall) (w : W)
      → asks_for_tools response calls ≡ false
      → tool_loop s executor fuel context response calls w ≡ (w, some response)
  unfolding tool_loop
  loop_done zero context response calls w e = rw e
  loop_done (suc fuel) context response calls w e = rw (e, tool_loop)

  loop_spent :
      (context response : Text) (calls : List ToolCall) (w : W)
      → asks_for_tools response calls ≡ true
      → (tool_loop s executor 0 context response calls w).1 ≡ none
  unfolding tool_loop
  loop_spent context response calls w asks = rw (asks, tool_loop)

  loop_round :
      (fuel : ℕ) (context response : Text) (calls : List ToolCall) (w : W)
      (answer : W × Result Text (Text × List ToolCall))
      → asks_for_tools response calls ≡ true
      → ask_again context calls w ≡ answer
      → tool_loop s executor (suc fuel) context response calls w
        ≡ after_chat (tool_loop s executor fuel) (next_context context calls w) answer
  unfolding tool_loop
  loop_round fuel context response calls w answer asks a =
      rw (asks, tool_loop)
        (ap (after_chat (tool_loop s executor fuel) (next_context context calls w)) a)

  -- An exchange of n rounds is what the loop computes with any fuel from n on.
  tool_loop_complete :
      (v : W) (final : Text) (n fuel : ℕ) (context response : Text) (calls : List ToolCall) (w : W)
      → n ≤ fuel
      → Exchange v final n context response calls w
      → tool_loop s executor fuel context response calls w ≡ (v, some final)
  unfolding after_chat
  tool_loop_complete v final zero fuel context response calls w h (said _ c text _ _ same is) =
      loop_done fuel context (c ∷ text) calls w (ground arith) ∙ cc
  tool_loop_complete v final zero fuel context response calls w h (asked_nothing _ _ _ same is) =
      loop_done fuel context response [] w refl ∙ cc
  tool_loop_complete v final (suc n) zero context response calls w h e = absurd (omega arith)
  tool_loop_complete v final (suc zero) (suc fuel) context response calls w h
        (refused _ call rest _ e a is) =
      loop_round fuel context [] (call ∷ rest) w (v, err e) refl a ∙ cc
  tool_loop_complete v final (suc n) (suc fuel) context response calls w h
        (round _ _ call rest _ w' response' calls' a more) =
      loop_round fuel context [] (call ∷ rest) w (w', ok (response', calls')) refl a
      ∙ tool_loop_complete v final n fuel _ response' calls' w' (omega arith) more

  -- The loop has come to its end.
  done_sound :
      (v w : W) (final response : Text) (fuel : ℕ) (context : Text) (calls : List ToolCall)
      → asks_for_tools response calls ≡ false
      → tool_loop s executor fuel context response calls w ≡ (v, some final)
      → (w ≡ v) × (response ≡ final)
  done_sound v w final response fuel context calls done e =
      ends_equal (sym (loop_done fuel context response calls w done) ∙ e)

  round_sound :
      (fuel : ℕ) (v : W) (final context : Text) (call : ToolCall) (calls : List ToolCall) (w : W)
      (answer : W × Result Text (Text × List ToolCall))
      → ask_again context (call ∷ calls) w ≡ answer
      → after_chat (tool_loop s executor fuel) (next_context context (call ∷ calls) w) answer
        ≡ (v, some final)
      → ((context' response' : Text) (calls' : List ToolCall) (w' : W)
          → tool_loop s executor fuel context' response' calls' w' ≡ (v, some final)
          → (n : ℕ) × (n ≤ fuel) × Exchange v final n context' response' calls' w')
      → (n : ℕ) × (n ≤ suc fuel) × Exchange v final n context [] (call ∷ calls) w
  unfolding after_chat
  round_sound fuel v final context call calls w (w', err e) a same ih = (
    1,
    omega arith,
    refused context call calls w e (a ∙ ap (λ u. (u, err e)) (ends_equal same).0)
        (sym (ends_equal same).1),
  )
  round_sound fuel v final context call calls w (w', ok (response', calls')) a same ih =
      let (n, fits, more) = ih (next_context context (call ∷ calls) w) response' calls' w' same in
      (suc n, omega arith, round n context call calls w w' response' calls' a more)

  -- What the loop returns is the end of an exchange whose rounds the fuel covered.
  tool_loop_sound :
      (fuel : ℕ) (v : W) (final context response : Text) (calls : List ToolCall) (w : W)
      → tool_loop s executor fuel context response calls w ≡ (v, some final)
      → (n : ℕ) × (n ≤ fuel) × Exchange v final n context response calls w
  tool_loop_sound fuel v final context (c ∷ text) calls w e =
      let (same, is) = done_sound v w final (c ∷ text) fuel context calls (ground arith) e in
      (0, omega arith, said context c text calls w same is)
  tool_loop_sound fuel v final context [] [] w e =
      let (same, is) = done_sound v w final [] fuel context [] refl e in
      (0, omega arith, asked_nothing context [] w same is)
  tool_loop_sound zero v final context [] (call ∷ calls) w e =
      absurd (stuck (sym (loop_spent context [] (call ∷ calls) w refl) ∙ ap (λ p. p.1) e))
    where
      stuck : ◌≡◌ {A = Option Text} none (some final) → ⊥
      stuck h = cc
  tool_loop_sound (suc fuel) v final context [] (call ∷ calls) w e =
      round_sound fuel v final context call calls w (ask_again context (call ∷ calls) w) refl
        (sym (loop_round fuel context [] (call ∷ calls) w _ refl refl) ∙ e)
        (tool_loop_sound fuel v final)

  pub tool_loop_iff :
      (v : W) (final : Text) (fuel : ℕ) (context response : Text) (calls : List ToolCall) (w : W)
      → (tool_loop s executor fuel context response calls w ≡ (v, some final))
        ↔ ((n : ℕ) × (n ≤ fuel) × Exchange v final n context response calls w)
  tool_loop_iff v final fuel context response calls w = (
    tool_loop_sound fuel v final context response calls w,
    λ (n, fits, e). tool_loop_complete v final n fuel context response calls w fits e,
  )

  -- A model that always answers with calls and no text keeps the loop going: no fuel is enough.
  tool_loop_endless :
      ((prompt context : Text) (w : W)
        → (w' : W) × (call : ToolCall) × (calls : List ToolCall) × (s.chat prompt context
              (get_tools executor)
              w
            ≡ (w', ok ([], call ∷ calls))))
      → (fuel : ℕ) (context : Text) (call : ToolCall) (calls : List ToolCall) (w : W)
      → (tool_loop s executor fuel context [] (call ∷ calls) w).1 ≡ none
  unfolding after_chat
  tool_loop_endless never zero context call calls w = unfold tool_loop in refl
  tool_loop_endless never (suc fuel) context call calls w =
      let (w', call', calls', a) =
        never [] (next_context context (call ∷ calls) w)
          (execute_all executor (call ∷ calls) w).0 in
      rw (loop_round fuel context [] (call ∷ calls) w (w', ok ([], call' ∷ calls')) refl a)
        (tool_loop_endless never fuel _ call' calls' w')
