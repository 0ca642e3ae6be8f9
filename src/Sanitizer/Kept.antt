-- ===== src/Sanitizer/Kept.antt =====
-- cact/bank_sanitizer.py, `_deduplicate`: what holds of all items holds of those that are kept.
use aaai.Prelude.{
  ℕ, suc, String, not, ◌&&◌, List, [], ◌∷◌, ◌++◌, ◌==◌, or_else, leb, length, Dict, get, put, All,
  All-append, Bool-cases, inl, inr,
}
use aaai.Float.{Float}
use aaai.Sanitizer.{Item, dedup_key, is_similar_item}
use aaai.Sanitizer.Dedup.{
  is_used_index, by_group, enumerate, has_better_score, split_best, gather, cluster_from,
  cluster_similar, keep_best, dedup_group, dedup_groups, deduplicate,
}

module _ {F : Type 0} (P : Item F → Type 0) where
  get-All :
      (groups : Dict (List (Item F))) (k : String)
      → All (λ e. All P e.1) groups
      → All P (or_else (get groups k) [])
  unfolding get
  get-All [] k h = tt
  get-All ((j, v) ∷ groups) k h = elim (Bool-cases (j == k)) [
    | inl e ↦ rw e h.0
    | inr e ↦ rw e (get-All groups k h.1)
  ]

  put-All :
      (groups : Dict (List (Item F))) (k : String) (v : List (Item F))
      → All (λ e. All P e.1) groups
      → All P v
      → All (λ e. All P e.1) (put groups k v)
  unfolding put
  put-All [] k v h p = (p, tt)
  put-All ((j, w) ∷ groups) k v h p = elim (Bool-cases (j == k)) [
    | inl e ↦ rw e (p, h.1)
    | inr e ↦ rw e (h.0, put-All groups k v h.1 p)
  ]

  pub by_group-All :
      (cs : List (Item F)) (groups : Dict (List (Item F)))
      → All P cs
      → All (λ e. All P e.1) groups
      → All (λ e. All P e.1) (by_group cs groups)
  unfolding by_group
  by_group-All [] groups h g = g
  by_group-All (c ∷ cs) groups h g =
      by_group-All cs (put groups (dedup_key c) (or_else (get groups (dedup_key c)) [] ++ c ∷ []))
        h.1
        (put-All groups (dedup_key c) (or_else (get groups (dedup_key c)) [] ++ c ∷ []) g (
          All-append P (or_else (get groups (dedup_key c)) []) (c ∷ [])
            (get-All groups (dedup_key c) g) (h.0, tt)))

  enumerate-All : (i : ℕ) (cs : List (Item F)) → All P cs → All (λ e. P e.1) (enumerate i cs)
  unfolding enumerate
  enumerate-All i [] h = tt
  enumerate-All i (c ∷ cs) h = (h.0, enumerate-All (suc i) cs h.1)

module _ {F : Type 0} ⦃o : Float F⦄ (P : Item F → Type 0) where
  split_best-All :
      (best : Item F) (others seen cs : List (Item F))
      → P best
      → All P cs
      → P (split_best best others seen cs).0
  unfolding split_best
  split_best-All best others seen [] p h = p
  split_best-All best others seen (c ∷ cs) p h = elim (Bool-cases (has_better_score c best)) [
    | inl e ↦ rw (split_best, e) (split_best-All c seen (seen ++ c ∷ []) cs h.0 h.1)
    | inr e ↦ rw (split_best, e) (split_best-All best (others ++ c ∷ []) (seen ++ c ∷ []) cs p h.1)
  ]

  gather-All :
      (threshold : F) (a : Item F) (rest : List (ℕ × Item F)) (cluster : List (Item F))
      (used : List ℕ)
      → All (λ e. P e.1) rest
      → All P cluster
      → All P (gather threshold a rest cluster used).0
  unfolding gather
  gather-All threshold a [] cluster used h g = g
  gather-All threshold a ((j, b) ∷ rest) cluster used h g =
      elim (Bool-cases (not (is_used_index j used) && is_similar_item threshold a b)) [
        | inl e ↦
            rw (gather, e)
              (gather-All threshold a rest (cluster ++ b ∷ []) (j ∷ used) h.1
                (All-append P cluster (b ∷ []) g (h.0, tt)))
        | inr e ↦ rw (gather, e) (gather-All threshold a rest cluster used h.1 g)
      ]

  cluster_from-All :
      (threshold : F) (all rest : List (ℕ × Item F)) (used : List ℕ)
      → All (λ e. P e.1) all
      → All (λ e. P e.1) rest
      → All (λ e. P e.0 × All P e.1) (cluster_from threshold all rest used)
  unfolding cluster_from
  cluster_from-All threshold all [] used g h = tt
  cluster_from-All threshold all ((i, a) ∷ rest) used g h =
      elim (Bool-cases (is_used_index i used)) [
        | inl e ↦ rw (cluster_from, e) (cluster_from-All threshold all rest used g h.1)
        | inr e ↦
            rw (cluster_from, e)
              (
                (h.0, gather-All threshold a all [] (i ∷ used) g tt),
                cluster_from-All threshold all rest (gather threshold a all [] (i ∷ used)).1 g h.1,
              )
      ]

  keep_best-All :
      (clusters : List (Item F × List (Item F)))
      → All (λ e. P e.0 × All P e.1) clusters
      → All P (keep_best clusters).0
  unfolding keep_best
  keep_best-All [] h = tt
  keep_best-All ((a, cluster) ∷ clusters) h =
      (split_best-All a [] (a ∷ []) cluster h.0.0 h.0.1, keep_best-All clusters h.1)

  dedup_group-All :
      (threshold : F) (items : List (Item F)) → All P items → All P (dedup_group threshold items).0
  unfolding dedup_group cluster_similar
  dedup_group-All threshold items h = elim (Bool-cases (leb (length items) 1)) [
    | inl e ↦ rw e h
    | inr e ↦ rw e (
        keep_best-All (cluster_similar threshold items) (
          cluster_from-All threshold (enumerate 0 items) (enumerate 0 items) []
            (enumerate-All P 0 items h) (enumerate-All P 0 items h)))
  ]

  dedup_groups-All :
      (threshold : F) (groups : Dict (List (Item F)))
      → All (λ e. All P e.1) groups
      → All P (dedup_groups threshold groups).0
  unfolding dedup_groups
  dedup_groups-All threshold [] h = tt
  dedup_groups-All threshold ((key, items) ∷ groups) h =
      All-append P (dedup_group threshold items).0 (dedup_groups threshold groups).0
        (dedup_group-All threshold items h.0) (dedup_groups-All threshold groups h.1)

  pub deduplicate-All :
      (threshold : F) (cs : List (Item F)) → All P cs → All P (deduplicate threshold cs).0
  unfolding deduplicate
  deduplicate-All threshold cs h =
      dedup_groups-All threshold (by_group cs []) (by_group-All P cs [] h tt)
