-- ===== src/Graph/Tools.antt =====
-- relative_graph.py: `_compile_tools`, which adds the pickaxes that the base items are mined with, and
-- `compile`. `none` is a `KeyError`, or fuel that ran out. The texts that `_pretty_result` makes are
-- left as the ordered items with their quantities.
use aaai.Prelude.{
  ℕ, ◌+◌, String, Bool, not, ◌&&◌, ◌||◌, Option, none, some, List, [], ◌∷◌, ◌==◌, if◌then◌else◌,
  or_else, Dict, get, put, contains, is_nil, length, leb,
}
use aaai.Prelude.Int.{ℤ, pos, leb_ℤ, ltb_ℤ}
use aaai.Text.{codes, same_codes}
use aaai.Contract.Extract.{is_listed}
use aaai.Graph.{Recipe}
use aaai.Graph.Steps.{
  CompileState, Outcome, running, returned, key_error, out_of_fuel, compile_steps, empty_state,
}
use aaai.Graph.Sort.{sorted, order_of, count_edges}
use aaai.Graph.Summary.{◌>>=◌, has_word, dict_update, merge_graph, compile_base, pop}

-- The state after a call that ended.
unfoldable pub state_of : Outcome → Option CompileState
state_of (running st) = some st
state_of (returned st) = some st
state_of (key_error k) = none
state_of out_of_fuel = none

-- A summary of counts as one of integers.
unfoldable pub as_integers : Dict ℕ → Dict ℤ
as_integers [] = []
as_integers ((k, n) ∷ d) = (k, pos n) ∷ as_integers d

-- `need_item` of a base item, the best tool first; `none` where the loop goes on.
unfoldable pub needed_tools : Dict ℕ → String → Option (List String)
needed_tools inventory base =
    if has_word "log" base
    then none
    else if has_word "cobblestone" base || has_word "coal" base
    then (if contains inventory "stone_pickaxe" then none else some ("wooden_pickaxe" ∷ []))
    else if has_word "iron" base
    then some (
        if contains inventory "stone_pickaxe"
        then "stone_pickaxe" ∷ []
        else "stone_pickaxe" ∷ "wooden_pickaxe" ∷ [])
    else if has_word "gold" base || has_word "diamond" base || has_word "redstone" base
    then some (
        if contains inventory "iron_pickaxe"
        then "iron_pickaxe" ∷ []
        else if contains inventory "stone_pickaxe"
        then "iron_pickaxe" ∷ "stone_pickaxe" ∷ []
        else "iron_pickaxe" ∷ "stone_pickaxe" ∷ "wooden_pickaxe" ∷ [])
    else none

unfoldable pub high_level_item : String → Option String
high_level_item tool =
    if has_word "wooden" tool
    then some "cobblestone"
    else if has_word "stone" tool
    then some "iron_ore"
    else none

-- `graph[u][v] = 1`, of a node that is there
unfoldable pub set_edge : String → String → Dict (Dict ℕ) → Option (Dict (Dict ℕ))
set_edge u v graph = elim (get graph u) [ none ↦ none | some es ↦ some (put graph u (put es v 1)) ]

-- The graph, the summary and the tools that are there.
pub record ToolState : Type 0 where
  pub sub_graph : Dict (Dict ℕ)
  pub summary : Dict ℤ
  pub tools : List String

-- `item is the same as max_level_tool`, else the item of the next level; a tool of no level has none.
unfoldable pub mined_by : String → String → String → Option String
unfolding high_level_item
mined_by tool best base = if tool == best then some base else high_level_item tool

module _ (fuel : ℕ) (recipes : Dict Recipe) (number_graph : Dict (Dict ℕ))
    (inventory : Dict ℕ) where
  -- One tool: it is compiled on its own, and merged into the plan.
  unfoldable pub add_tool : String → String → String → ToolState → Option ToolState
  unfolding state_of as_integers mined_by set_edge
  add_tool best base tool st = if is_listed tool st.tools then some st else do
    made ← state_of (compile_steps fuel recipes tool 1 [] (empty_state inventory))
    (_, quantities) ← compile_base recipes number_graph (as_integers made.summary)
    mined ← mined_by tool best base
    graph ← set_edge tool mined made.sub_graph
    summary ← dict_update quantities st.summary
    some (record {
      sub_graph = merge_graph graph st.sub_graph;
      summary = summary;
      tools = tool ∷ st.tools;
    })

  -- The tools of a base item, the simplest first.
  unfoldable pub add_tools : String → String → List String → ToolState → Option ToolState
  unfolding add_tool
  add_tools best base [] st = some st
  add_tools best base (tool ∷ better) st = do
    simpler ← add_tools best base better st
    add_tool best base tool simpler

  -- The edge from the best tool to the base item.
  unfoldable pub link_tool : String → String → ToolState → Option ToolState
  unfolding set_edge
  link_tool best base st =
      if not (contains st.sub_graph best) && contains inventory best
      then some st
      else do graph ← set_edge best base st.sub_graph; some (record st { sub_graph = graph })

  unfoldable pub tools_for : String → List String → ToolState → Option ToolState
  unfolding add_tools link_tool
  tools_for base [] st = some st
  tools_for base (best ∷ simpler) st = do
    made ← add_tools best base (best ∷ simpler) st
    link_tool best base made

  unfoldable pub base_round : String → ℤ → ToolState → Option ToolState
  unfolding tools_for needed_tools
  base_round base number st =
      if leb_ℤ number (pos (or_else (get inventory base) 0)) && contains inventory base
      then some st
      else tools_for base (or_else (needed_tools inventory base) []) st

  unfoldable pub base_rounds : Dict ℤ → ToolState → Option ToolState
  unfolding base_round
  base_rounds [] st = some st
  base_rounds ((base, number) ∷ rest) st = do st1 ← base_round base number st; base_rounds rest st1

-- `has_tools`
unfoldable pub tools_in : Dict ℕ → List String → List String
tools_in inventory [] = []
tools_in inventory (t ∷ ts) =
    let rest = tools_in inventory ts in if contains inventory t then t ∷ rest else rest

unfoldable pub compile_tools :
    ℕ → Dict Recipe → Dict (Dict ℕ) → Dict ℕ → Dict (Dict ℕ) → Dict ℤ → Dict ℤ → Option ToolState
unfolding base_rounds tools_in
compile_tools fuel recipes number_graph inventory sub_graph summary base =
    base_rounds fuel recipes number_graph inventory base (record {
      sub_graph = sub_graph;
      summary = summary;
      tools = tools_in inventory ("wooden_pickaxe" ∷ "stone_pickaxe" ∷ "iron_pickaxe" ∷ []);
    })

-- `if station in self.cur_inventory:` the station leaves the plan.
unfoldable pub drop_station {ℓ} : {V : Type ℓ} → Dict ℕ → String → Dict V → Dict V
drop_station inventory station d = if contains inventory station then pop station d else d

unfoldable pub drop_stations {ℓ} : {V : Type ℓ} → Dict ℕ → Dict V → Dict V
unfolding drop_station
drop_stations inventory d =
    drop_station inventory "crafting_table" (drop_station inventory "furnace" d)

-- The quantity of each item of the order; `none` within is the text `??`.
unfoldable pub with_quantities : Dict ℤ → List String → Option (List (String × Option ℤ))
with_quantities summary [] = some []
with_quantities summary (item ∷ items) = do
  n ← get summary item
  rest ← with_quantities summary items
  some ((item, if ltb_ℤ (pos 0) n then some n else none) ∷ rest)

unfoldable pub pretty_result : Dict ℤ → Dict (Dict ℕ) → Option (List (String × Option ℤ))
unfolding with_quantities
pretty_result summary sub_graph = elim (order_of (length (count_edges [] sub_graph)) sub_graph) [
  | sorted order ↦ with_quantities summary order
  | _ ↦ none
]

-- `compile` after its first call of `_compile_steps`.
unfoldable pub plan_with_tools :
    ℕ
    → Dict Recipe
    → Dict (Dict ℕ)
    → Dict ℕ
    → Dict (Dict ℕ)
    → Dict ℤ
    → Option (List (String × Option ℤ))
unfolding compile_tools drop_stations pretty_result
plan_with_tools fuel recipes number_graph inventory sub_graph summary = do
  (base, with_base) ← compile_base recipes number_graph summary
  tooled ← compile_tools fuel recipes number_graph inventory sub_graph with_base base
  (_, all) ← compile_base recipes number_graph tooled.summary
  pretty_result (drop_stations inventory all) (drop_stations inventory tooled.sub_graph)

unfoldable pub plan_from :
    ℕ
    → Dict Recipe
    → Dict (Dict ℕ)
    → String
    → ℕ
    → Dict ℕ
    → Dict (Dict ℕ)
    → Dict ℤ
    → Option (List (String × Option ℤ))
unfolding plan_with_tools pretty_result
plan_from fuel recipes number_graph item number inventory sub_graph summary =
    if contains recipes item && leb (length summary) 1 && not (is_nil summary)
    then pretty_result summary sub_graph
    else plan_with_tools fuel recipes number_graph inventory sub_graph
        (if is_nil summary then (item, pos number) ∷ [] else summary)

-- `k.endswith(suffix)`, on the codes of both
ends_in : List ℕ → List ℕ → Bool
ends_in suffix [] = is_nil suffix
ends_in suffix (c ∷ cs) = let rest = ends_in suffix cs in same_codes suffix (c ∷ cs) || rest

ends_with : String → String → Bool
unfolding ends_in
ends_with suffix k = ends_in (codes suffix) (codes k)

-- One item of the inventory, under its general name.
general_entry : String → ℕ → Dict ℕ → Dict ℕ
unfolding ends_with
general_entry k v d =
    if ends_with "_planks" k
    then put d "planks" (or_else (get d "planks") 0 + v)
    else if ends_with "_log" k
    then put d "logs" (or_else (get d "logs") 0 + v)
    else if k == "coal"
    then put d "coals" v
    else put d k v

unfoldable pub general_inventory : Dict ℕ → Dict ℕ → Dict ℕ
unfolding general_entry
general_inventory [] d = d
general_inventory ((k, v) ∷ rest) d = general_inventory rest (general_entry k v d)

-- `compile`, on `cur_inventory` as it is under the general names.
compile_inventory :
    ℕ → Dict Recipe → Dict (Dict ℕ) → String → ℕ → Dict ℕ → Option (List (String × Option ℤ))
unfolding plan_from drop_stations state_of as_integers
compile_inventory fuel recipes number_graph item number inventory = do
  made ← state_of (compile_steps fuel recipes item number [] (empty_state inventory))
  plan_from fuel recipes number_graph item number inventory (drop_stations inventory made.sub_graph)
      (drop_stations inventory (as_integers made.summary))

unfoldable pub compile :
    ℕ → Dict Recipe → Dict (Dict ℕ) → String → ℕ → Dict ℕ → Option (List (String × Option ℤ))
unfolding compile_inventory general_inventory
compile fuel recipes number_graph item number inventory =
    compile_inventory fuel recipes number_graph item number (general_inventory inventory [])
