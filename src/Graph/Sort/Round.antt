-- ===== src/Graph/Sort/Round.antt =====
-- relative_graph.py, `_topo_sort`: the list of the nodes done, the queue and the in-degrees in a round.
use aaai.Prelude.{
  ◌≡◌, refl, sym, ◌∙◌, ℕ, ◌+◌, String, Bool, true, false, ◌||◌, List, [], ◌∷◌, ◌++◌, ◌==◌, eq_iff,
  eq_refl, Dict, keys, contains, arith, Bool-cases, inl, inr,
}
use aaai.Prelude.Int.{ℤ}
use aaai.Contract.Extract.{is_listed}
use aaai.Buckets.Disjoint.{IsDistinct}
use aaai.Graph.Keys.{contains-keys, is_listed-concat}
use aaai.Graph.Steps.Progress.{targets, IsClosed}
use aaai.Graph.Sort.Degrees.{
  count, remaining, remaining_zero, remaining-concat, count_listed, listed_count,
}
use aaai.Graph.Sort.Exact.{IsExact, IsRelaxed, relax-IsRelaxed}
use aaai.Graph.Sort.{relax}
use aaai.Graph.Sort.Listing.{
  before, is_listed-append, IsDistinct-append, All-listed, listed_All, before-concat, before-last,
}

abbrev pub is_edge : Dict (Dict ℕ) → String → String → Bool
is_edge g u k = contains (targets g u) k

module _ (g : Dict (Dict ℕ)) where
  -- The state before a round of the loop.
  pub record IsRound (done queue : List String) (d : Dict ℤ) : Type 0 where
    pub exact : IsExact g (remaining g done) d
    pub queued :
        (x : String)
        → is_listed x queue ≡ true
        → (remaining g done x ≡ 0) × (contains g x ≡ true) × (is_listed x done ≡ false)
    pub queue_distinct : IsDistinct queue
    pub done_zero : (x : String) → is_listed x done ≡ true → remaining g done x ≡ 0
    pub done_nodes : (x : String) → is_listed x done ≡ true → contains g x ≡ true
    pub done_distinct : IsDistinct done
    pub ordered :
        (u k : String)
        → is_edge g u k ≡ true
        → is_listed k done ≡ true
        → is_listed u (before k done) ≡ true
    pub complete :
        (k : String)
        → contains g k ≡ true
        → (k == "") ≡ false
        → remaining g done k ≡ 0
        → (is_listed k done || is_listed k queue) ≡ true

  module _ (distinct : IsDistinct (keys g)) (closed : IsClosed g) (done queue : List String)
      (cur : String) (d : Dict ℤ) (round : IsRound done (cur ∷ queue) d) where
    pub cur_lem :
        (remaining g done cur ≡ 0) × (contains g cur ≡ true) × (is_listed cur done ≡ false)
    cur_lem = round.queued cur (unfold is_listed in ground (arith, eq_refl cur))

    abbrev pub ks : List String
    ks = keys (targets g cur)

    -- A node without edges left is no target of the node of this round.
    split : (x : String) → remaining g (done ++ cur ∷ []) x + count x ks ≡ remaining g done x
    split x = remaining-concat g done cur x distinct cur_lem.2

    untouched : (x : String) → remaining g done x ≡ 0 → is_listed x ks ≡ false
    untouched x h = ground (arith, split x, count_listed x ks)

    pub relaxed : IsRelaxed g (remaining g (done ++ cur ∷ [])) ks queue (relax ks queue d)
    relaxed =
        relax-IsRelaxed g _ ks queue d (λ k. rw (split k) (round.exact k))
          (listed_All _ ks λ k l. closed cur k (contains-keys (targets g cur) k ∙ l))

    now_zero :
        (x : String)
        → is_listed x relaxed.added ≡ true
        → (remaining g (done ++ cur ∷ []) x ≡ 0) × (contains g x ≡ true) × (is_listed x ks ≡ true)
    now_zero x l = All-listed _ relaxed.added x relaxed.zero_now l

    next_queued :
        (x : String)
        → is_listed x (queue ++ relaxed.added) ≡ true
        → (remaining g (done ++ cur ∷ []) x ≡ 0)
          × (contains g x ≡ true)
          × (is_listed x (done ++ cur ∷ []) ≡ false)
    unfolding is_listed
    next_queued x l = ground (
      arith,
      is_listed-append x queue relaxed.added,
      is_listed-concat x cur done,
      round.queued x,
      round.queue_distinct,
      now_zero x,
      untouched x,
      round.done_zero x,
      split x,
      eq_iff x cur,
      cur_lem,
    )

    next_queue-IsDistinct : IsDistinct (queue ++ relaxed.added)
    unfolding is_listed
    next_queue-IsDistinct =
        IsDistinct-append queue relaxed.added round.queue_distinct.1 relaxed.distinct λ x l.
          ground
            (arith, now_zero x, untouched x, round.queued x, Bool-cases (is_listed x relaxed.added))

    next_done_zero :
        (x : String) → is_listed x (done ++ cur ∷ []) ≡ true → remaining g (done ++ cur ∷ []) x ≡ 0
    next_done_zero x l =
        ground
          (arith, is_listed-concat x cur done, split x, round.done_zero x, cur_lem, eq_iff x cur)

    next_done_nodes : (x : String) → is_listed x (done ++ cur ∷ []) ≡ true → contains g x ≡ true
    next_done_nodes x l =
        ground (arith, is_listed-concat x cur done, round.done_nodes x, cur_lem, eq_iff x cur)

    next_ordered :
        (u k : String)
        → is_edge g u k ≡ true
        → is_listed k (done ++ cur ∷ []) ≡ true
        → is_listed u (before k (done ++ cur ∷ [])) ≡ true
    next_ordered u k e l = elim (Bool-cases (is_listed k done)) [
      | inl h ↦ sym (before-concat u k cur done h) ∙ round.ordered u k e h
      | inr h ↦
          let same : k ≡ cur = (eq_iff k cur).0 (ground (arith, is_listed-concat k cur done)) in
          rw (same, before-last cur done cur_lem.2)
            (remaining_zero g done u cur cur_lem.0 (rw same at e))
    ]

    next_complete :
        (k : String)
        → contains g k ≡ true
        → (k == "") ≡ false
        → remaining g (done ++ cur ∷ []) k ≡ 0
        → (is_listed k (done ++ cur ∷ []) || is_listed k (queue ++ relaxed.added)) ≡ true
    unfolding is_listed
    next_complete k c n z = ground (
      arith,
      is_listed-append k queue relaxed.added,
      is_listed-concat k cur done,
      split k,
      round.complete k c n,
      relaxed.complete k,
      listed_count k ks,
    )

    pub next-IsRound : IsRound (done ++ cur ∷ []) (queue ++ relaxed.added) relaxed.in_degree
    unfolding is_listed
    next-IsRound = record {
      exact = relaxed.exact;
      queued = next_queued;
      queue_distinct = next_queue-IsDistinct;
      done_zero = next_done_zero;
      done_nodes = next_done_nodes;
      done_distinct =
          IsDistinct-append done (cur ∷ []) round.done_distinct (refl, tt)
            λ x l. ground (arith, eq_iff x cur, cur_lem, l);
      ordered = next_ordered;
      complete = next_complete;
    }
