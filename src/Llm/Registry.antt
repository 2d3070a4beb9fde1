-- ===== src/Llm/Registry.antt =====
-- The executor's tools as a table: what it does depends on what the names find, and not on the order in
-- which tools of different names were registered.
use mathlib.Core.Quot
use mathlib.Core.Quot.{Quot}
use mathlib.Core.List.{Permᴰ}
use mathlib.Core.List.Permᴰ
use ai_assistant_driver.Common.{◌≡◌, refl, ap, ◌∙◌, sym, List, [], ◌∷◌, map, Text}
use ai_assistant_driver.Common.Maps.{
  text_key, find, put, SameEntries, Distinct, put_each, put_each-Perm, Table,
}
use ai_assistant_driver.Llm.{Tool, ToolCall, ToolExecutor, register, run_tool, execute, execute_all}

module _ {W : Type 0} where
  -- The executor up to the order and the hidden entries of its map.
  abbrev pub registry : ToolExecutor W → Table Text (Tool W)
  registry = Quot.mk

  abbrev pub entries : List (Tool W) → List (Text × Tool W)
  entries = map (λ tool. (tool.name, tool))

  -- No two tools of one name.
  abbrev pub HaveNames : List (Tool W) → Type 0
  HaveNames tools = Distinct (entries tools)

  register-put_each :
      (ts : List (Tool W)) (tools : ToolExecutor W)
      → register ts tools ≡ put_each (entries ts) tools
  unfolding register put_each
  register-put_each [] tools = refl
  register-put_each (t ∷ ts) tools = register-put_each ts (put t.name t tools)

  -- ExecuteAll reads the map by its names only.
  execute_all-SameEntries :
      (m n : ToolExecutor W) (calls : List ToolCall) (w : W)
      → SameEntries m n
      → execute_all m calls w ≡ execute_all n calls w
  unfolding execute_all execute
  execute_all-SameEntries m n [] w same = refl
  execute_all-SameEntries m n (call ∷ rest) w same =
      let first = ap (λ found. run_tool found call w) (same call.name) in
      let later = execute_all-SameEntries m n rest (run_tool (find call.name n) call w).0 same in
      rw first (rw later refl)

  register-SameEntries :
      {ts us : List (Tool W)}
      → Permᴰ ts us
      → HaveNames ts
      → (tools : ToolExecutor W) → SameEntries (register ts tools) (register us tools)
  register-SameEntries {ts} {us} p distinct tools k =
      ap (find k) (register-put_each ts tools)
      ∙ put_each-Perm (Permᴰ.map (λ tool. (tool.name, tool)) p) distinct tools k
      ∙ ap (find k) (sym (register-put_each us tools))

  -- Tools of different names give the same registry in whatever order they are registered, and every
  -- list of calls the same results and effects.
  pub register-Perm :
      {ts us : List (Tool W)}
      → Permᴰ ts us
      → HaveNames ts
      → (tools : ToolExecutor W)
      → (registry (register ts tools) ≡ registry (register us tools))
        × ((calls : List ToolCall) (w : W)
            → execute_all (register ts tools) calls w ≡ execute_all (register us tools) calls w)
  register-Perm {ts} {us} p distinct tools =
      let same = register-SameEntries p distinct tools in
      (
        Quot.sound same,
        λ calls w. execute_all-SameEntries (register ts tools) (register us tools) calls w same,
      )
