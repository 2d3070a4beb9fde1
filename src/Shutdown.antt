-- ===== src/Shutdown.antt =====
-- internal/shutdown/shutdown.go, beside cmd/ai-assistant-driver/main.go, which adds functions while it
-- sets up, and returns once Done is closed. The context may be cancelled at any time, by a signal or by
-- main; the goroutine of New then takes the list as it is and runs it.
pub mod Order
use ai_assistant_driver.Common.{
  ℕ, zero, suc, Bool, true, false, Option, none, some, List, [], ◌∷◌, ◌++◌, drop, map,
}

-- The two functions of New, and the functions that main adds, by their number.
pub data Func : Type 0 where
  stop close_done : Func
  added : (n : ℕ) → Func

-- `snapshot` is what the goroutine has still to run of the list that it took, once it has taken it;
-- `done` is set when its channel is closed; `ran` is what has run, in order.
pub record Manager : Type 0 where
  pub funcs : List Func
  pub cancelled : Bool
  pub snapshot : Option (List Func)
  pub done : Bool
  pub exited : Bool
  pub ran : List Func

unfoldable pub new : Manager
new = record {
  funcs = stop ∷ close_done ∷ [];
  cancelled = false;
  snapshot = none;
  done = false;
  exited = false;
  ran = [];
}

unfoldable pub add : Func → Manager → Manager
add f m = record m { funcs = m.funcs ++ f ∷ [] }

abbrev pub closes : Func → Bool → Bool
closes close_done done = true
closes _ done = done

-- The process: what main has still to add, and the manager.
pub record Process : Type 0 where
  pub to_add : List Func
  pub manager : Manager

-- The start of a process in which main adds, one after the other, what this manager has got.
abbrev pub start_of : Manager → Process
start_of m = record { to_add = drop 2 m.funcs; manager = new }

abbrev pub process :
    List Func → List Func → Bool → Option (List Func) → Bool → Bool → List Func → Process
process to_add funcs cancelled snapshot done exited ran = record {
  to_add = to_add;
  manager = record {
    funcs = funcs;
    cancelled = cancelled;
    snapshot = snapshot;
    done = done;
    exited = exited;
    ran = ran;
  };
}

-- One step: main adds a function; the context is cancelled; the goroutine takes the list, or runs the
-- next function of it; main, which has added everything and waits on Done, returns, and the process ends
-- whatever is left to run.
pub data Step : Process → Process → Type 0 where
  add_next :
      (f : Func) (to_add funcs : List Func) (cancelled : Bool) (snapshot : Option (List Func))
      (done : Bool) (ran : List Func)
      → Step
          (process (f ∷ to_add) funcs cancelled snapshot done false ran)
          (process to_add (funcs ++ f ∷ []) cancelled snapshot done false ran)
  cancel :
      (to_add funcs : List Func) (cancelled : Bool) (snapshot : Option (List Func)) (done : Bool)
      (ran : List Func)
      → Step
          (process to_add funcs cancelled snapshot done false ran)
          (process to_add funcs true snapshot done false ran)
  begin :
      (to_add funcs : List Func) (done : Bool) (ran : List Func)
      → Step
          (process to_add funcs true none done false ran)
          (process to_add funcs true (some funcs) done false ran)
  run_next :
      (to_add funcs : List Func) (cancelled : Bool) (f : Func) (rest : List Func) (done : Bool)
      (ran : List Func)
      → Step
          (process to_add funcs cancelled (some (f ∷ rest)) done false ran)
          (process to_add funcs cancelled (some rest) (closes f done) false (ran ++ f ∷ []))
  main_returns :
      (funcs : List Func) (cancelled : Bool) (snapshot : Option (List Func)) (ran : List Func)
      → Step
          (process [] funcs cancelled snapshot true false ran)
          (process [] funcs cancelled snapshot true true ran)

pub data Steps : Process → Process → Type 0 where
  here : (p : Process) → Steps p p
  step : {a b c : Process} → Step a b → Steps b c → Steps a c

unfoldable pub add_all : List ℕ → Manager → Manager
unfolding add
add_all [] m = m
add_all (n ∷ ns) m = add_all ns (add (added n) m)
