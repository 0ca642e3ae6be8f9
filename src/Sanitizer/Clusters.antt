-- ===== src/Sanitizer/Clusters.antt =====
-- cact/bank_sanitizer.py, `_cluster_similar` and `_select_best`: the items of the clusters, and of one
-- cluster split into its best item and the others.
use aaai.Prelude.{
  ℕ, ◌+◌, ◌≡◌, refl, true, not, ◌&&◌, ◌⊎◌, List, [], ◌∷◌, ◌++◌, All-mono, Bool-cases, inl, inr,
  arith,
}
use aaai.Float.{Float}
use aaai.Sanitizer.{Item, is_similar_item}
use aaai.Sanitizer.Dedup.{
  is_used_index, enumerate, has_better_score, split_best, gather, cluster_from, cluster_similar,
}
use aaai.Sanitizer.Indexed.{
  sum, sum-append, unused, unused-use, IsIndexed, enumerate-IsIndexed, unused-enumerate, IsCovered,
  all-IsCovered, has_index,
}

module _ {F : Type 0} (w : Item F → ℕ) where
  -- The weight of clusters.
  abbrev pub clustered : List (Item F × List (Item F)) → ℕ
  clustered = sum (λ e. w e.0 + sum w e.1)

  unused-IsCovered :
      (used : List ℕ) (all : List (ℕ × Item F)) → IsCovered used [] all → unused w used all ≡ 0
  unfolding has_index
  unused-IsCovered used [] h = refl
  unused-IsCovered used ((i, b) ∷ all) h = ground (arith, h.0, unused-IsCovered used all h.1)

module _ {F : Type 0} where
  -- Behind an entry whose index is used now.
  covered_later :
      (j i : ℕ) (a : Item F) (rest : List (ℕ × Item F)) (used used' : List ℕ)
      → is_used_index i used' ≡ true
      → (is_used_index j used ≡ true → is_used_index j used' ≡ true)
      → (is_used_index j used ≡ true) ⊎ (has_index j ((i, a) ∷ rest) ≡ true)
      → (is_used_index j used' ≡ true) ⊎ (has_index j rest ≡ true)
  unfolding has_index
  covered_later j i a rest used used' h f (inl u) = inl (f u)
  covered_later j i a rest used used' h f (inr m) = ground arith

module _ {F : Type 0} ⦃o : Float F⦄ (w : Item F → ℕ) (threshold : F) where
  pub split_best-sum :
      (best : Item F) (others seen cs : List (Item F))
      → sum w seen ≡ sum w others + w best
      → w (split_best best others seen cs).0 + sum w (split_best best others seen cs).1
        ≡ w best + sum w others + sum w cs
  unfolding split_best
  split_best-sum best others seen [] h = omega arith
  split_best-sum best others seen (c ∷ cs) h = elim (Bool-cases (has_better_score c best)) [
    | inl e ↦
        rw (split_best, e)
          (omega (
            arith,
            h,
            sum-append w seen (c ∷ []),
            split_best-sum c seen (seen ++ c ∷ []) cs (omega (arith, sum-append w seen (c ∷ []))),
          ))
    | inr e ↦
        rw (split_best, e)
          (omega (
            arith,
            sum-append w others (c ∷ []),
            split_best-sum best (others ++ c ∷ []) (seen ++ c ∷ []) cs
                (omega (arith, h, sum-append w seen (c ∷ []), sum-append w others (c ∷ []))),
          ))
  ]

  -- What a cluster takes is no longer unused, and used indices stay so.
  gather-unused :
      (a : Item F) (all rest : List (ℕ × Item F)) (cluster : List (Item F)) (used : List ℕ)
      → IsIndexed w all rest
      → sum w (gather threshold a rest cluster used).0
          + unused w (gather threshold a rest cluster used).1 all
        ≡ sum w cluster + unused w used all
  unfolding gather
  gather-unused a all [] cluster used h = refl
  gather-unused a all ((j, b) ∷ rest) cluster used h =
      elim (Bool-cases (not (is_used_index j used) && is_similar_item threshold a b)) [
        | inl e ↦
            rw (gather, e)
              (omega (
                arith,
                sum-append w cluster (b ∷ []),
                unused-use w all j used (ground arith),
                h.0,
                gather-unused a all rest (cluster ++ b ∷ []) (j ∷ used) h.1,
              ))
        | inr e ↦ rw (gather, e) (gather-unused a all rest cluster used h.1)
      ]

  gather-used :
      (a : Item F) (k : ℕ) (rest : List (ℕ × Item F)) (cluster : List (Item F)) (used : List ℕ)
      → is_used_index k used ≡ true
      → is_used_index k (gather threshold a rest cluster used).1 ≡ true
  unfolding gather is_used_index
  gather-used a k [] cluster used h = h
  gather-used a k ((j, b) ∷ rest) cluster used h =
      elim (Bool-cases (not (is_used_index j used) && is_similar_item threshold a b)) [
        | inl e ↦
            rw (gather, e) (gather-used a k rest (cluster ++ b ∷ []) (j ∷ used) (ground arith))
        | inr e ↦ rw (gather, e) (gather-used a k rest cluster used h)
      ]

  taken :
      (j i : ℕ) (a : Item F) (all rest : List (ℕ × Item F)) (used : List ℕ)
      → (is_used_index j used ≡ true) ⊎ (has_index j ((i, a) ∷ rest) ≡ true)
      → (is_used_index j (gather threshold a all [] (i ∷ used)).1 ≡ true)
        ⊎ (has_index j rest ≡ true)
  unfolding is_used_index
  taken j i a all rest used p =
      covered_later j i a rest used (gather threshold a all [] (i ∷ used)).1
        (gather-used a i all [] (i ∷ used) (ground arith))
        (λ k. gather-used a j all [] (i ∷ used) (ground arith)) p

  cluster_from-clustered :
      (all rest : List (ℕ × Item F)) (used : List ℕ)
      → IsIndexed w all all
      → IsIndexed w all rest
      → IsCovered used rest all
      → clustered w (cluster_from threshold all rest used) ≡ unused w used all
  unfolding cluster_from
  cluster_from-clustered all [] used d h c =
      let none_left = unused-IsCovered w used all c in omega arith
  cluster_from-clustered all ((i, a) ∷ rest) used d h c = elim (Bool-cases (is_used_index i used)) [
    | inl e ↦
        rw (cluster_from, e)
          (cluster_from-clustered all rest used d h.1
            (All-mono _ _ (λ x p. covered_later x.0 i a rest used used e (λ k. k) p) all c))
    | inr e ↦
        rw (cluster_from, e)
          (omega (
            arith,
            h.0,
            unused-use w all i used e,
            gather-unused a all all [] (i ∷ used) d,
            cluster_from-clustered all rest (gather threshold a all [] (i ∷ used)).1 d h.1
                (All-mono _ _ (λ x p. taken x.0 i a all rest used p) all c),
          ))
  ]

  pub clustered-cluster_similar :
      (cs : List (Item F)) → clustered w (cluster_similar threshold cs) ≡ sum w cs
  unfolding cluster_similar
  clustered-cluster_similar cs =
      let each = enumerate-IsIndexed w cs 0 in
      omega (
        arith,
        unused-enumerate w cs 0,
        cluster_from-clustered (enumerate 0 cs) (enumerate 0 cs) [] each each
            (all-IsCovered (enumerate 0 cs)),
      )
