-- ===== src/Graph/Sort/Start.antt =====
-- relative_graph.py, `_topo_sort`: the queue and the in-degrees before the first round.
use aaai.Prelude.{
  ◌≡◌, refl, ◌∙◌, ℕ, String, ◌&&◌, List, [], ◌∷◌, eq_iff, Dict, get, keys, or_else, arith,
  Bool-cases, inl, inr,
}
use aaai.Prelude.Int.{ℤ, pos}
use aaai.Contract.Extract.{is_listed}
use aaai.Buckets.Disjoint.{IsDistinct}
use aaai.Graph.Keys.{put-IsDistinct, contains-keys}
use aaai.Graph.Steps.Progress.{IsClosed}
use aaai.Graph.Sort.Exact.{count_edges-IsExact}
use aaai.Graph.Sort.{
  ensure_zero, count_target, count_targets, first_queue, count_edges, is_ready, is_zero,
}
use aaai.Graph.Sort.Round.{IsRound}

first_queue_lem :
    (d : Dict ℤ) (k : String)
    → IsDistinct (keys d)
    → is_listed k (first_queue d) ≡ (is_listed k (keys d) && is_ready k (or_else (get d k) (pos 0)))
unfolding first_queue is_listed keys get
first_queue_lem [] k h = refl
first_queue_lem ((j, v) ∷ d) k h = ground (arith, first_queue_lem d k h.1, eq_iff j k, eq_iff k j)

first_queue-IsDistinct : (d : Dict ℤ) → IsDistinct (keys d) → IsDistinct (first_queue d)
unfolding first_queue keys
first_queue-IsDistinct [] h = tt
first_queue-IsDistinct ((j, v) ∷ d) h = elim (Bool-cases (is_ready j v)) [
  | inl e ↦ rw e (first_queue_lem d j h.1 ∙ ground (arith, h.0), first_queue-IsDistinct d h.1)
  | inr e ↦ rw e (first_queue-IsDistinct d h.1)
]

count_targets-IsDistinct :
    (ks : List String) (d : Dict ℤ) → IsDistinct (keys d) → IsDistinct (keys (count_targets d ks))
unfolding count_targets count_target
count_targets-IsDistinct [] d h = h
count_targets-IsDistinct (k ∷ ks) d h =
    count_targets-IsDistinct ks (count_target d k) (put-IsDistinct d k _ h)

count_edges-IsDistinct :
    (g : Dict (Dict ℕ)) (d : Dict ℤ) → IsDistinct (keys d) → IsDistinct (keys (count_edges d g))
unfolding count_edges ensure_zero
count_edges-IsDistinct [] d h = h
count_edges-IsDistinct ((u, v) ∷ g) d h =
    count_edges-IsDistinct g (count_targets (ensure_zero d u) (keys v))
      (count_targets-IsDistinct (keys v) (ensure_zero d u) (put-IsDistinct d u _ h))

pub start-IsRound :
    (g : Dict (Dict ℕ))
    → IsDistinct (keys g)
    → IsClosed g
    → IsRound g [] (first_queue (count_edges [] g)) (count_edges [] g)
unfolding is_listed is_ready is_zero
start-IsRound g d c =
    let ds = count_edges [] g in
    let nd = count_edges-IsDistinct g [] (unfold keys in tt) in
    let exact = count_edges-IsExact g d c in
    record {
      exact = exact;
      queued = λ x l. ground (arith, first_queue_lem ds x nd, exact x, contains-keys ds x);
      queue_distinct = first_queue-IsDistinct ds nd;
      done_zero = λ x l. absurd (cc);
      done_nodes = λ x l. absurd (cc);
      done_distinct = tt;
      ordered = λ u k e l. absurd (cc);
      complete = λ k b n z. ground (arith, first_queue_lem ds k nd, exact k, contains-keys ds k);
    }
