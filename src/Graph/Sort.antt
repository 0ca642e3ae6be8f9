-- ===== src/Graph/Sort.antt =====
-- relative_graph.py, `_topo_sort` and the in-degrees that `_pretty_result` counts for it: the nodes are
-- listed from the ones without incoming edges, over a queue. A `KeyError` is a result.
pub mod Ends
pub mod Degrees
pub mod Exact
pub mod Listing
pub mod Round
pub mod Start
pub mod Order
use aaai.Prelude.{
  ℕ, zero, suc, ◌+◌, String, Bool, true, false, not, ◌&&◌, Option, none, some, List, [], ◌∷◌, ◌++◌,
  ◌==◌, Dict, get, put, keys, or_else, if◌then◌else◌, length, filter_by,
}
use aaai.Prelude.Int.{ℤ, pos, negsuc}

-- `n + 1` and `n - 1`
unfoldable pub increment : ℤ → ℤ
increment (pos n) = pos (suc n)
increment (negsuc zero) = pos 0
increment (negsuc (suc n)) = negsuc n

unfoldable pub decrement : ℤ → ℤ
decrement (pos zero) = negsuc 0
decrement (pos (suc n)) = pos n
decrement (negsuc n) = negsuc (suc n)

unfoldable pub is_zero : ℤ → Bool
is_zero (pos zero) = true
is_zero _ = false

-- `if k not in in_degree: in_degree[k] = 0`
unfoldable pub ensure_zero : Dict ℤ → String → Dict ℤ
ensure_zero in_degree k = put in_degree k (or_else (get in_degree k) (pos 0))

-- The same, then `in_degree[k] += 1`
unfoldable pub count_target : Dict ℤ → String → Dict ℤ
count_target in_degree k = put in_degree k (increment (or_else (get in_degree k) (pos 0)))

unfoldable pub count_targets : Dict ℤ → List String → Dict ℤ
unfolding count_target
count_targets in_degree [] = in_degree
count_targets in_degree (k ∷ ks) = count_targets (count_target in_degree k) ks

unfoldable pub count_edges : Dict ℤ → Dict (Dict ℕ) → Dict ℤ
unfolding ensure_zero count_targets
count_edges in_degree [] = in_degree
count_edges in_degree ((u, v) ∷ sub_graph) =
    count_edges (count_targets (ensure_zero in_degree u) (keys v)) sub_graph

-- `v == 0 and k != ""`
unfoldable pub is_ready : String → ℤ → Bool
is_ready k v = is_zero v && not (k == "")

unfoldable pub first_queue : Dict ℤ → List String
unfolding is_ready
first_queue [] = []
first_queue ((k, v) ∷ in_degree) =
    let rest = first_queue in_degree in if is_ready k v then k ∷ rest else rest

-- The loop over the targets of a node, on the queue and the in-degrees; `none` is a `KeyError`.
unfoldable pub relax : List String → List String → Dict ℤ → Option (List String × Dict ℤ)
unfolding is_ready
relax [] queue in_degree = some (queue, in_degree)
relax (k ∷ ks) queue in_degree = elim (get in_degree k) [
  | none ↦ none
  | some v ↦
      relax ks (if is_ready k (decrement v) then queue ++ k ∷ [] else queue)
        (put in_degree k (decrement v))
]

pub data Sorting : Type 0 where
  sorted : List String → Sorting
  key_error : Sorting
  out_of_fuel : Sorting

-- The body of the loop, for the node that the queue gave out.
unfoldable pub visit : Dict (Dict ℕ) → String → List String → Dict ℤ → Option (List String × Dict ℤ)
visit sub_graph cur queue in_degree = elim (get sub_graph cur) [
  | none ↦ none
  | some v ↦ relax (keys v) queue in_degree
]

unfoldable pub sort_loop : ℕ → Dict (Dict ℕ) → List String → Dict ℤ → List String → Sorting
sort_loop fuel sub_graph [] in_degree res = sorted res
sort_loop zero sub_graph (cur ∷ queue) in_degree res = out_of_fuel
sort_loop (suc fuel) sub_graph (cur ∷ queue) in_degree res =
    elim (visit sub_graph cur queue in_degree) [
      | none ↦ key_error
      | some (queue', in_degree') ↦ sort_loop fuel sub_graph queue' in_degree' (res ++ cur ∷ [])
    ]

unfoldable pub topo_sort : ℕ → Dict (Dict ℕ) → Dict ℤ → Sorting
topo_sort fuel sub_graph in_degree = sort_loop fuel sub_graph (first_queue in_degree) in_degree []

-- `order` in `_pretty_result`, where no in-degrees are handed over
unfoldable pub order_of : ℕ → Dict (Dict ℕ) → Sorting
order_of fuel sub_graph = topo_sort fuel sub_graph (count_edges [] sub_graph)
