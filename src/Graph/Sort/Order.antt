-- ===== src/Graph/Sort/Order.antt =====
-- relative_graph.py, `_topo_sort` on the in-degrees that `_pretty_result` counts.
use aaai.Prelude.{
  ◌≡◌, refl, ◌∙◌, ℕ, zero, suc, ◌+◌, ◌≤◌, String, true, false, some, List, [], ◌∷◌, ◌++◌, ◌==◌,
  Dict, get, keys, contains, arith, Bool-cases, Option-cases, inl, inr, length, ltb,
}
use aaai.Prelude.Int.{ℤ}
use aaai.Contract.Extract.{is_listed}
use aaai.Buckets.Disjoint.{IsDistinct}
use aaai.Graph.Steps.Progress.{targets, IsClosed}
use aaai.Graph.Sort.Degrees.{remaining, remaining_pos}
use aaai.Graph.Sort.Ends.{positives, relax_measure, first_queue_measure}
use aaai.Graph.Sort.{sorted, relax, visit, sort_loop, topo_sort, order_of, first_queue, count_edges}
use aaai.Graph.Sort.Listing.{before}
use aaai.Graph.Sort.Start.{start-IsRound}
use aaai.Graph.Sort.Round.{is_edge, IsRound, relaxed, next-IsRound, cur_lem}

-- A list of nodes in an order of the graph: each node stands behind all nodes with an edge to it, and no
-- named node is left out whose predecessors are all listed.
pub record IsTopological (g : Dict (Dict ℕ)) (order : List String) : Type 0 where
  pub distinct : IsDistinct order
  pub nodes : (k : String) → is_listed k order ≡ true → contains g k ≡ true
  pub ordered :
      (u k : String)
      → is_edge g u k ≡ true
      → is_listed k order ≡ true
      → is_listed u (before k order) ≡ true
  pub maximal :
      (k : String)
      → contains g k ≡ true
      → (k == "") ≡ false
      → ((u : String) → is_edge g u k ≡ true → is_listed u order ≡ true)
      → is_listed k order ≡ true

visit_lem :
    (g : Dict (Dict ℕ)) (queue : List String) (cur : String) (d : Dict ℤ)
    → contains g cur ≡ true
    → visit g cur queue d ≡ relax (keys (targets g cur)) queue d
unfolding visit
visit_lem g queue cur d c = elim (Option-cases (get g cur)) [
  | inl n ↦ absurd (ground arith)
  | inr (v, e) ↦ rw (visit, e) refl
]

IsRound-IsTopological :
    (g : Dict (Dict ℕ)) (done : List String) (d : Dict ℤ)
    → IsDistinct (keys g)
    → IsRound g done [] d
    → IsTopological g done
IsRound-IsTopological g done d distinct round = record {
  distinct = round.done_distinct;
  nodes = round.done_nodes;
  ordered = round.ordered;
  maximal = λ k c n all. elim (Bool-cases (ltb 0 (remaining g done k))) [
    | inl p ↦
        let (u, e, f, b) = remaining_pos g done k distinct (ground arith) in
        absurd (ground (arith, all u e))
    | inr z ↦ ground (arith, round.complete k c n, unlisted k)
  ];
}
  where
    unlisted : (k : String) → is_listed k [] ≡ false
    unlisted k = unfold is_listed in refl

sort_loop_step :
    (fuel : ℕ) (g : Dict (Dict ℕ)) (queue done : List String) (cur : String) (d : Dict ℤ)
    (queue' : List String) (d' : Dict ℤ)
    → visit g cur queue d ≡ some (queue', d')
    → sort_loop (suc fuel) g (cur ∷ queue) d done ≡ sort_loop fuel g queue' d' (done ++ cur ∷ [])
unfolding sort_loop
sort_loop_step fuel g queue done cur d queue' d' e = rw (sort_loop, e) refl

sort_loop-IsTopological :
    (g : Dict (Dict ℕ)) (fuel : ℕ) (queue done : List String) (d : Dict ℤ)
    → IsDistinct (keys g)
    → IsClosed g
    → IsRound g done queue d
    → length queue + positives d ≤ fuel
    → (order : List String) × (sort_loop fuel g queue d done ≡ sorted order) × IsTopological g order
unfolding sort_loop
sort_loop-IsTopological g fuel [] done d di cl r f =
    (done, refl, IsRound-IsTopological g done d di r)
sort_loop-IsTopological g zero (cur ∷ queue) done d di cl r f = absurd (omega arith)
sort_loop-IsTopological g (suc fuel) (cur ∷ queue) done d di cl r f =
    let x = relaxed g di cl done queue cur d r in
    let next = next-IsRound g di cl done queue cur d r in
    let less = relax_measure (keys (targets g cur)) queue d _ _ x.result_eq in
    let step = visit_lem g queue cur d (cur_lem g di cl done queue cur d r).1 ∙ x.result_eq in
    let (order, e, topological) =
      sort_loop-IsTopological g fuel (queue ++ x.added) (done ++ cur ∷ []) x.in_degree di cl next
        (omega arith) in
    (order, sort_loop_step fuel g queue done cur d _ _ step ∙ e, topological)

-- Sorting a dependency graph of distinct nodes whose edges lead to nodes ends with no `KeyError`, on
-- fuel of the number of the in-degrees counted. In the order that it gives, nodes stand once each and
-- behind all nodes with an edge to them, and no named node is missing whose predecessors all stand in
-- it.
pub order_of-IsTopological :
    (fuel : ℕ) (g : Dict (Dict ℕ))
    → IsDistinct (keys g)
    → IsClosed g
    → length (count_edges [] g) ≤ fuel
    → (order : List String) × (order_of fuel g ≡ sorted order) × IsTopological g order
unfolding order_of topo_sort
order_of-IsTopological fuel g d c f =
    let least = first_queue_measure (count_edges [] g) in
    sort_loop-IsTopological g fuel (first_queue (count_edges [] g)) [] (count_edges [] g) d c
      (start-IsRound g d c) (omega arith)
