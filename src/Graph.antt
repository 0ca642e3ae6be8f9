-- ===== src/Graph.antt =====
-- src/optimus1/memories/relative_graph.py: `KnowledgeGraph`, the crafting recipes and their compilation
-- to an ordered list of sub-goals.
pub mod Keys
pub mod Steps
pub mod Sort
pub mod Plan
pub mod Summary
pub mod Tools
use aaai.Prelude.{
  ℕ, ◌+◌, ◌-◌, ◌*◌, ◌/◌, String, Bool, true, false, ◌||◌, Option, none, some, ◌==◌, List, [], ◌∷◌,
  Dict, get, put, contains, if◌then◌else◌,
}

-- An entry of `self.graph`.
pub record Recipe : Type 0 where
  pub ingredients : Dict ℕ
  pub output_qty : ℕ

-- `add_recipe` and `get_recipe`
unfoldable pub add_recipe : Dict Recipe → String → Dict ℕ → ℕ → Dict Recipe
add_recipe graph product ingredients output_qty =
    put graph product (record { ingredients = ingredients; output_qty = output_qty })

abbrev pub get_recipe : Dict Recipe → String → Option Recipe
get_recipe graph item = get graph item

-- `item in ["crafting_table", "furnace"]`
unfoldable pub is_station : String → Bool
is_station item = item == "crafting_table" || item == "furnace"

-- `(quantity + produced_qty - 1) // produced_qty`
unfoldable pub runs_for : ℕ → ℕ → ℕ
runs_for quantity produced = (quantity + produced - 1) / produced
