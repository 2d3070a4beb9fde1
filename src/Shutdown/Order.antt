-- ===== src/Shutdown/Order.antt =====
-- When the added functions run, against when they are added and when the process may end.
use ai_assistant_driver.Common.{
  ℕ, ◌≡◌, refl, sym, ap, ◌∙◌, false, Option, none, some, List, [], ◌∷◌, ◌++◌, append_assoc,
  append-nil, map,
}
use ai_assistant_driver.Shutdown.{
  Func, stop, close_done, added, Manager, new, Process, process, start_of, Step, add_next, cancel,
  begin, run_next, main_returns, Steps, here, step, add_all,
}

abbrev pub after_new : List ℕ → List Func
after_new ns = stop ∷ close_done ∷ map added ns

abbrev with_funcs : List Func → Manager
with_funcs funcs = (process [] funcs false none false false []).manager

add_all_funcs :
    (ns : List ℕ) (funcs : List Func)
    → add_all ns (with_funcs funcs) ≡ with_funcs (funcs ++ map added ns)
unfolding add_all
add_all_funcs [] funcs = ap with_funcs (sym (append-nil funcs))
add_all_funcs (n ∷ ns) funcs =
    add_all_funcs ns (funcs ++ added n ∷ [])
    ∙ ap with_funcs (append_assoc funcs (added n ∷ []) (map added ns))

pub add_all-new : (ns : List ℕ) → add_all ns new ≡ with_funcs (after_new ns)
unfolding new
add_all-new ns = add_all_funcs ns (stop ∷ close_done ∷ [])

-- What has run and is left to run of the list that the goroutine took is a front part of all functions.
abbrev Promised : List Func → Option (List Func) → List Func → Type 0
Promised all none ran = ran ≡ []
Promised all (some left) ran = (missed : List Func) × (ran ++ (left ++ missed) ≡ all)

abbrev InOrder : List Func → Process → Type 0
InOrder all p = (p.manager.funcs ++ p.to_add ≡ all) × Promised all p.manager.snapshot p.manager.ran

Step-InOrder : (all : List Func) {p q : Process} → Step p q → InOrder all p → InOrder all q
Step-InOrder all (add_next f to_add funcs c s d ran) (e, h) =
    (append_assoc funcs (f ∷ []) to_add ∙ e, h)
Step-InOrder all (cancel to_add funcs c s d ran) v = v
Step-InOrder all (begin to_add funcs d ran) (e, h) =
    (e, (to_add, ap (λ r. r ++ (funcs ++ to_add)) h ∙ e))
Step-InOrder all (run_next to_add funcs c f rest d ran) (e, (missed, h)) =
    (e, (missed, append_assoc ran (f ∷ []) (rest ++ missed) ∙ h))
Step-InOrder all (main_returns funcs c s ran) v = v

Steps-InOrder : (all : List Func) {p q : Process} → Steps p q → InOrder all p → InOrder all q
Steps-InOrder all (here p) v = v
Steps-InOrder all (step s rest) v = Steps-InOrder all rest (Step-InOrder all s v)

-- Nothing is left to add, and what was taken is everything.
abbrev Taken : List Func → Option (List Func) → List Func → Type 0
Taken all none ran = ran ≡ []
Taken all (some left) ran = ran ++ left ≡ all

abbrev Complete : List Func → Process → Type 0
Complete all p =
    (p.to_add ≡ []) × (p.manager.funcs ≡ all) × Taken all p.manager.snapshot p.manager.ran

Step-Complete : (all : List Func) {p q : Process} → Step p q → Complete all p → Complete all q
Step-Complete all (add_next f to_add funcs c s d ran) (nothing, e, h) = absurd cc
Step-Complete all (cancel to_add funcs c s d ran) v = v
Step-Complete all (begin to_add funcs d ran) (nothing, e, h) =
    (nothing, e, ap (λ r. r ++ funcs) h ∙ e)
Step-Complete all (run_next to_add funcs c f rest d ran) (nothing, e, h) =
    (nothing, e, append_assoc ran (f ∷ []) rest ∙ h)
Step-Complete all (main_returns funcs c s ran) v = v

Steps-Complete : (all : List Func) {p q : Process} → Steps p q → Complete all p → Complete all q
Steps-Complete all (here p) v = v
Steps-Complete all (step s rest) v = Steps-Complete all rest (Step-Complete all s v)

start-InOrder : (ns : List ℕ) → InOrder (after_new ns) (start_of (add_all ns new))
start-InOrder ns = rw (add_all-new ns) (unfold new in (refl, refl))

-- However the steps mix: when the goroutine has run all that it took, that is a front part of the
-- functions, in the order in which they are added, after the two of New.
pub Steps-ran :
    (ns : List ℕ) {p : Process}
    → Steps (start_of (add_all ns new)) p
    → p.manager.snapshot ≡ some []
    → (missed : List Func) × (p.manager.ran ++ missed ≡ after_new ns)
Steps-ran ns {p} steps finished =
    rw finished at (Steps-InOrder (after_new ns) steps (start-InOrder ns)).1

-- If the goroutine has not taken the list before everything is added, it runs all of it.
pub Steps-ran_all :
    (ns : List ℕ) {p q : Process}
    → Steps (start_of (add_all ns new)) p
    → p.to_add ≡ []
    → p.manager.snapshot ≡ none
    → Steps p q
    → q.manager.snapshot ≡ some []
    → q.manager.ran ≡ after_new ns
Steps-ran_all ns {p} {q} before nothing untaken after finished =
    let (e, h) = Steps-InOrder (after_new ns) before (start-InOrder ns) in
    let all_added : p.manager.funcs ≡ after_new ns =
      sym (append-nil p.manager.funcs) ∙ ap (λ fs. p.manager.funcs ++ fs) (sym nothing) ∙ e in
    let none_ran : p.manager.ran ≡ [] = rw untaken at h in
    let complete : Complete (after_new ns) p = (nothing, all_added, rw untaken none_ran) in
    let (_, _, taken) = Steps-Complete (after_new ns) after complete in
    sym (append-nil q.manager.ran) ∙ (rw finished at taken)
