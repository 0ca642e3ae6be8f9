-- ===== src/Tests/Plans.antt =====
-- The theorems on the compilation of recipes and the order of the sub-goals at concrete recipes.
use aaai.Prelude.{ℕ, ◌≡◌, refl, String, true, List, [], ◌∷◌, Dict, arith, eq_iff, get, keys, length}
use aaai.Contract.Extract.{is_listed}
use aaai.Graph.{Recipe}
use aaai.Graph.Steps.{compile_steps, empty_state}
use aaai.Graph.Steps.Progress.{IsProgress, Yields, IsClosed}
use aaai.Graph.Steps.Total.{unvisited, compile_steps-Yields}
use aaai.Graph.Sort.{sorted, order_of, count_edges}
use aaai.Graph.Sort.Order.{IsTopological, order_of-IsTopological}
use aaai.Graph.Plan.{IsSorted, compile_steps-IsSorted}

-- Among the recipes are two that are made of each other.
abbrev recipes : Dict Recipe
recipes =
    ("planks", record { ingredients = ("logs", 1) ∷ []; output_qty = 4 })
    ∷ ("stick", record { ingredients = ("planks", 2) ∷ []; output_qty = 4 })
    ∷ ("emerald", record { ingredients = ("emerald_block", 1) ∷ []; output_qty = 9 })
    ∷ ("emerald_block", record { ingredients = ("emerald", 9) ∷ []; output_qty = 1 })
    ∷ []

abbrev plan : Dict (Dict ℕ)
plan = ("stick", []) ∷ ("planks", ("stick", 1) ∷ []) ∷ ("logs", ("planks", 1) ∷ []) ∷ []

plan-IsClosed : IsClosed plan
unfolding get
plan-IsClosed u v h = ground (
  arith,
  eq_iff "stick" u,
  eq_iff "planks" u,
  eq_iff "logs" u,
  eq_iff "stick" v,
  eq_iff "planks" v,
  eq_iff "logs" v,
)

compile_steps-Yields_example :
    Yields
      (IsProgress (empty_state (("stick", 2) ∷ [])))
      (compile_steps 5 recipes "emerald" 3 [] (empty_state (("stick", 2) ∷ [])))
unfolding unvisited is_listed
compile_steps-Yields_example =
    compile_steps-Yields 5 recipes "emerald" 3 [] (empty_state (("stick", 2) ∷ [])) (omega arith)
      (omega arith) (omega arith)

order_of-IsTopological_example :
    (order : List String) × (order_of 3 plan ≡ sorted order) × IsTopological plan order
unfolding keys aaai.Prelude.put
order_of-IsTopological_example =
    order_of-IsTopological 3 plan (unfold is_listed in (refl, (refl, (refl, tt)))) plan-IsClosed
      (unfold count_edges in omega arith)

compile_steps-IsSorted_example :
    Yields IsSorted (compile_steps 5 recipes "stick" 5 [] (empty_state []))
compile_steps-IsSorted_example =
    compile_steps-IsSorted 5 recipes "stick" 5 [] (omega arith) (omega arith) (omega arith)
