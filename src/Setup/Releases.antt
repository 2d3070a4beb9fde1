-- ===== src/Setup/Releases.antt =====
-- What is left open when the set-up ends, and when it is closed.
use ai_assistant_driver.Common.{
  ◌≡◌, Bool, true, false, none, some, List, [], ◌∷◌, ◌++◌, map, if◌then◌else◌, arith,
}
use ai_assistant_driver.Vad.Arithmetic.{Float}
use ai_assistant_driver.History
use ai_assistant_driver.Shutdown
use ai_assistant_driver.Shutdown.{Func, Process, start_of, Steps, add_all}
use ai_assistant_driver.Shutdown.Order.{after_new, Steps-ran, Steps-ran_all}
use ai_assistant_driver.Setup.{
  Resource, device, transcriber, http_server, close_of, Startup, Outside, main, load_configuration,
  connect_to_esphome, transcribing, serving, subscribed,
}

abbrev pub same : Resource → Resource → Bool
same device device = true
same transcriber transcriber = true
same http_server http_server = true
same _ _ = false

abbrev pub without : Resource → List Resource → List Resource
without r [] = []
without r (q ∷ qs) = if same r q then qs else q ∷ without r qs

-- What was opened and not closed.
abbrev open_after : List Resource → List Resource → List Resource
open_after opened [] = opened
open_after opened (r ∷ closed) = open_after (without r opened) closed

abbrev pub left_open : Startup → List Resource
left_open s = open_after s.opened s.closed

module _ (F : Float) {W : Type 0} (codec : History.Codec) (ratio origin : F.Num) where
  open F use {Num}

  main_manager :
      (o : Outside Num W)
      → (main F codec ratio origin o).0.manager
        ≡ add_all (map close_of (left_open (main F codec ratio origin o).0)) Shutdown.new
  unfolding main load_configuration connect_to_esphome transcribing serving subscribed add_all
      Shutdown.add
  main_manager o = ground arith

  added_by_main :
      (o : Outside Num W) {p : Process}
      → Steps (start_of (main F codec ratio origin o).0.manager) p
      → Steps
          (start_of
            (add_all (map close_of (left_open (main F codec ratio origin o).0)) Shutdown.new))
          p
  added_by_main o steps = rw (main_manager o) at steps

  -- However the set-up ends, whatever answers from outside, and whenever the context is cancelled, which
  -- may be before main has added everything: when the shutdown has run all that it took, that is a front
  -- part, in order, of the two functions of New and then, for all that main opened and did not close
  -- itself, in the order of opening, the one that closes it.
  pub main_releases :
      (o : Outside Num W) {p : Process}
      → Steps (start_of (main F codec ratio origin o).0.manager) p
      → p.manager.snapshot ≡ some []
      → (missed : List Func) × (p.manager.ran ++ missed
          ≡ after_new (map close_of (left_open (main F codec ratio origin o).0)))
  main_releases o steps finished =
      Steps-ran (map close_of (left_open (main F codec ratio origin o).0)) (added_by_main o steps)
        finished

  -- However the set-up ends, and whatever answers from outside: if the shutdown takes its list only after
  -- main has added everything, then, when it has run all that it took, it has run the two functions of
  -- New and then, for all that main opened and did not close itself, in the order of opening, the one
  -- that closes it; each once, and nothing else.
  pub main_releases_all :
      (o : Outside Num W) {p q : Process}
      → Steps (start_of (main F codec ratio origin o).0.manager) p
      → p.to_add ≡ []
      → p.manager.snapshot ≡ none
      → Steps p q
      → q.manager.snapshot ≡ some []
      → q.manager.ran ≡ after_new (map close_of (left_open (main F codec ratio origin o).0))
  main_releases_all o before nothing untaken after finished =
      Steps-ran_all (map close_of (left_open (main F codec ratio origin o).0))
        (added_by_main o before) nothing untaken after finished
