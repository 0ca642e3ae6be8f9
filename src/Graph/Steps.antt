-- ===== src/Graph/Steps.antt =====
-- relative_graph.py, `_compile_steps`: an item is expanded to its ingredients, with the dictionaries
-- that the recursion shares as a state. A step is recorded by the values that its text shows. A call
-- takes fuel; a `KeyError` of the inventory is a result.
pub mod Progress
pub mod Total
use aaai.Prelude.{
  ℕ, zero, suc, ◌+◌, ◌-◌, ◌*◌, String, Bool, true, false, ◌||◌, Option, none, some, List, [], ◌∷◌,
  ◌++◌, ◌==◌, leb, nat_eq, Dict, get, put, contains, or_else, if◌then◌else◌,
}
use aaai.Text.{codes, occurs}
use aaai.Contract.Extract.{is_listed}
use aaai.Graph.{Recipe, get_recipe, is_station, runs_for}

pub record CraftStep : Type 0 where
  pub runs : ℕ
  pub item : String
  pub made : ℕ
  pub ingredients : Dict ℕ

pub record CompileState : Type 0 where
  pub steps : List CraftStep
  pub summary : Dict ℕ
  pub sub_graph : Dict (Dict ℕ)
  pub in_degree : Dict ℕ
  pub cur_inventory : Dict ℕ
  pub blocked : List String

-- How a call goes on or ends: `returned` is a `return` before the end of the body.
pub data Outcome : Type 0 where
  running returned : CompileState → Outcome
  key_error : String → Outcome
  out_of_fuel : Outcome

infixl 5 ◌>>=◌
abbrev pub ◌>>=◌ : Outcome → (CompileState → Outcome) → Outcome
running st >>= f = f st
returned st >>= f = returned st
key_error k >>= f = key_error k
out_of_fuel >>= f = out_of_fuel

-- What a caller sees of a call that ended.
abbrev pub called : Outcome → Outcome
called (returned st) = running st
called (running st) = running st
called (key_error k) = key_error k
called out_of_fuel = out_of_fuel

-- `blocked.add(item)`
unfoldable pub block : String → CompileState → CompileState
block item st = record st {
  blocked = if is_listed item st.blocked then st.blocked else item ∷ st.blocked;
}

-- `summary[item] = summary.get(item, 0) + quantity`
unfoldable pub add_summary : String → ℕ → CompileState → CompileState
add_summary item quantity st = record st {
  summary = put st.summary item (or_else (get st.summary item) 0 + quantity);
}

-- `if item not in sub_graph: sub_graph[item] = {}`
unfoldable pub ensure_node : String → CompileState → CompileState
ensure_node item st = record st {
  sub_graph = if contains st.sub_graph item then st.sub_graph else put st.sub_graph item [];
}

unfoldable pub ensure_degree : String → CompileState → CompileState
ensure_degree item st = record st {
  in_degree = if contains st.in_degree item then st.in_degree else put st.in_degree item 0;
}

-- `in_degree[item] += 1` and `sub_graph[ingredient][item] = 1`
unfoldable pub add_edge : String → String → CompileState → CompileState
unfolding ensure_node
add_edge ingredient item st =
    let made = ensure_node ingredient st in
    record made {
      in_degree = put made.in_degree item (or_else (get made.in_degree item) 0 + 1);
      sub_graph =
          put made.sub_graph ingredient (put (or_else (get made.sub_graph ingredient) []) item 1);
    }

-- `if 'logs' in ingredient: ingredient = 'logs'`
unfoldable pub as_logs : String → String
as_logs ingredient = if occurs (codes "logs") (codes ingredient) then "logs" else ingredient

abbrev pub stock : CompileState → String → ℕ
stock st ingredient = or_else (get st.cur_inventory ingredient) 0

-- `cur_inventory[ingredient] -= n`, of a value that is no less
unfoldable pub take_stock : String → ℕ → CompileState → Outcome
take_stock ingredient n st = elim (get st.cur_inventory ingredient) [
  | none ↦ key_error ingredient
  | some have ↦ running (record st { cur_inventory = put st.cur_inventory ingredient (have - n) })
]

-- `if ingredient_having_num: cur_inventory[ingredient] -= ingredient_having_num`
unfoldable pub drain_stock : String → CompileState → Outcome
unfolding take_stock
drain_stock ingredient st =
    if nat_eq (stock st ingredient) 0
    then running st
    else take_stock ingredient (stock st ingredient) st

-- The quantity of a base item is counted by its user.
unfoldable pub count_base : Dict Recipe → String → ℕ → CompileState → CompileState
unfolding add_summary
count_base graph ingredient quantity st = elim (get_recipe graph ingredient) [
  | none ↦ add_summary ingredient quantity st
  | some r ↦ st
]

module _ (self : String → ℕ → CompileState → Outcome) (graph : Dict Recipe) (item : String) where
  -- The end of the round, after the recursive call.
  unfoldable pub after_call : String → ℕ → CompileState → Outcome
  unfolding block count_base
  after_call ingredient missing st =
      if is_listed ingredient st.blocked
      then returned (block item st)
      else running (count_base graph ingredient missing st)

  -- The rest of a round for an ingredient of which too little is there.
  unfoldable pub expand : String → ℕ → CompileState → Outcome
  unfolding add_edge drain_stock after_call
  expand ingredient needed st =
      let missing = needed - stock st ingredient in
      drain_stock ingredient (add_edge ingredient item st)
      >>= (λ st1. called (self ingredient missing st1))
      >>= after_call ingredient missing

  -- One round of the loop over the ingredients.
  unfoldable pub compile_ingredient : ℕ → String → ℕ → CompileState → Outcome
  unfolding as_logs take_stock expand
  compile_ingredient runs name qty st =
      let ingredient = as_logs name in
      let needed = qty * runs in
      if leb needed (stock st ingredient)
      then take_stock ingredient (if is_station ingredient then 0 else needed) st
      else expand ingredient needed st

  unfoldable pub compile_ingredients : ℕ → Dict ℕ → CompileState → Outcome
  unfolding compile_ingredient
  compile_ingredients runs [] st = running st
  compile_ingredients runs ((name, qty) ∷ rest) st =
      compile_ingredient runs name qty st >>= λ st1. compile_ingredients runs rest st1

  -- The loop and the step behind it.
  unfoldable pub craft : Recipe → ℕ → CompileState → Outcome
  unfolding compile_ingredients ensure_degree
  craft r quantity st =
      let runs = runs_for quantity r.output_qty in
      compile_ingredients runs r.ingredients (ensure_degree item st) >>= λ st1.
      returned (record st1 {
        steps =
            st1.steps
            ++ record {
              runs = runs;
              item = item;
              made = runs * r.output_qty;
              ingredients = r.ingredients;
            }
              ∷ [];
      })

  -- An item with a recipe: of a crafting table or a furnace one is made, and once.
  unfoldable pub compile_recipe : Recipe → ℕ → CompileState → Outcome
  unfolding craft add_summary
  compile_recipe r quantity st =
      let counted = add_summary item 0 st in
      if is_station item
      then (if contains st.cur_inventory item || nat_eq (or_else (get counted.summary item) 0) 1
          then returned counted
          else craft r 1 (record counted { summary = put counted.summary item 1 }))
      else craft r quantity (add_summary item quantity counted)

  unfoldable pub compile_item : ℕ → CompileState → Outcome
  unfolding compile_recipe ensure_node
  compile_item quantity st = elim (get_recipe graph item) [
    | none ↦ returned (ensure_node item st)
    | some r ↦ compile_recipe r quantity (ensure_node item st)
  ]

unfoldable pub compile_steps : ℕ → Dict Recipe → String → ℕ → List String → CompileState → Outcome
unfolding compile_item add_summary block
compile_steps zero graph item quantity path st = out_of_fuel
compile_steps (suc fuel) graph item quantity path st =
    if is_listed item path || is_listed item st.blocked
    then returned (add_summary item quantity (block item st))
    else compile_item (λ i n s. compile_steps fuel graph i n (path ++ item ∷ []) s) graph item
        quantity st

abbrev pub empty_state : Dict ℕ → CompileState
empty_state inventory = record {
  steps = [];
  summary = [];
  sub_graph = [];
  in_degree = [];
  cur_inventory = inventory;
  blocked = [];
}
