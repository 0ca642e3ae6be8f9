-- ===== src/Graph/Plan.antt =====
-- relative_graph.py: `_compile_steps` from an empty plan, and `_topo_sort` on the graph that it makes.
use aaai.Prelude.{◌≡◌, ℕ, ◌≤◌, ◌<◌, String, List, [], ◌∷◌, Dict, get, keys, length, arith}
use aaai.Graph.{Recipe}
use aaai.Graph.Steps.{
  CompileState, Outcome, running, returned, key_error, out_of_fuel, compile_steps, empty_state,
}
use aaai.Graph.Steps.Progress.{IsProgress, Yields}
use aaai.Graph.Steps.Total.{AreMaking, unvisited, compile_steps-Yields}
use aaai.Graph.Sort.{sorted, order_of, count_edges}
use aaai.Graph.Sort.Order.{IsTopological, order_of-IsTopological}

unvisited-le-length :
    (graph : Dict Recipe) (path : List String) → unvisited graph path ≤ length graph
unfolding unvisited
unvisited-le-length [] path = omega arith
unvisited-le-length ((k, r) ∷ graph) path = ground (arith, unvisited-le-length graph path)

-- The sub-goals of a plan are sorted.
abbrev pub IsSorted : CompileState → Type 0
IsSorted st =
    (order : List String) × (order_of (length (count_edges [] st.sub_graph)) st.sub_graph
      ≡ sorted order)
    × IsTopological st.sub_graph order

-- A positive quantity of any item, on any graph of recipes whose quantities are positive, from any
-- inventory, with fuel beyond the number of recipes: the compilation ends with no `KeyError`, and
-- sorting its dependency graph ends with no `KeyError` in a topological order of that graph.
pub compile_steps-IsSorted :
    (fuel : ℕ) (graph : Dict Recipe) (item : String) (quantity : ℕ) (inventory : Dict ℕ)
    → AreMaking graph
    → 0 < quantity
    → length graph < fuel
    → Yields IsSorted (compile_steps fuel graph item quantity [] (empty_state inventory))
compile_steps-IsSorted fuel graph item quantity inventory m h f = sorts _ (
    compile_steps-Yields fuel graph item quantity [] (empty_state inventory) m h
      (let least = unvisited-le-length graph [] in omega arith))
  where
    sort_state : (st : CompileState) → IsProgress (empty_state inventory) st → IsSorted st
    sort_state st p =
        order_of-IsTopological _ st.sub_graph (p.distinct (unfold keys in tt))
          (p.closed λ u v e. absurd (unfold get in cc)) (omega arith)

    sorts : (o : Outcome) → Yields (IsProgress (empty_state inventory)) o → Yields IsSorted o
    sorts (running st) p = sort_state st p
    sorts (returned st) p = sort_state st p
    sorts (key_error _) e = elim e [ ]
    sorts out_of_fuel e = elim e [ ]
