-- ===== src/Sanitizer/Dedup.antt =====
-- cact/bank_sanitizer.py: `_deduplicate`, `_cluster_similar` and `_select_best`. Items are distinct
-- objects, so that `is not best` leaves out the best one alone.
use aaai.Prelude.{
  ℕ, suc, Bool, true, false, not, ◌&&◌, ◌||◌, List, [], ◌∷◌, ◌++◌, if◌then◌else◌, or_else, nat_eq,
  ltb, leb, is_nil, length, Dict, get, put,
}
use aaai.Float.{Float, lit, ◌<?◌}
use aaai.Text.{text_append}
use aaai.Sanitizer.{Item, SanitizerAction, id_of, dedup_key, observations_of, is_similar_item}

-- `j in used`
unfoldable pub is_used_index : ℕ → List ℕ → Bool
is_used_index j [] = false
is_used_index j (i ∷ used) = nat_eq i j || is_used_index j used

module _ {F : Type 0} where
  -- The items by their group, the groups in the order of their first items.
  unfoldable pub by_group : List (Item F) → Dict (List (Item F)) → Dict (List (Item F))
  by_group [] groups = groups
  by_group (c ∷ cs) groups =
      by_group cs (put groups (dedup_key c) (or_else (get groups (dedup_key c)) [] ++ c ∷ []))

  -- `enumerate(items)`
  unfoldable pub enumerate : ℕ → List (Item F) → List (ℕ × Item F)
  enumerate i [] = []
  enumerate i (c ∷ cs) = (i, c) ∷ enumerate (suc i) cs

module _ {F : Type 0} ⦃o : Float F⦄ where
  -- `score(a) > score(b)`
  unfoldable pub has_better_score : Item F → Item F → Bool
  has_better_score a b =
      if not (nat_eq (completeness a) (completeness b))
      then ltb (completeness b) (completeness a)
      else if not (nat_eq (observations_of a) (observations_of b))
      then ltb (observations_of b) (observations_of a)
      else if not (nat_eq (harm a) (harm b))
      then ltb (harm a) (harm b)
      else or_else b.timestamp (lit 0 0) <? or_else a.timestamp (lit 0 0)
    where
      completeness : Item F → ℕ
      completeness c =
          if not (is_nil c.preconditions) && not (is_nil c.postconditions) then 1 else 0

      harm : Item F → ℕ
      harm c = or_else c.harm_count (or_else c.harmful_count 0)

  -- The best item so far, the others so far, and all so far.
  unfoldable pub split_best :
      Item F → List (Item F) → List (Item F) → List (Item F) → Item F × List (Item F)
  unfolding has_better_score
  split_best best others seen [] = (best, others)
  split_best best others seen (c ∷ cs) = elim (has_better_score c best) [
    | true ↦ split_best c seen (seen ++ c ∷ []) cs
    | false ↦ split_best best (others ++ c ∷ []) (seen ++ c ∷ []) cs
  ]

  -- The items similar to `a` that are in no cluster, and the indices used after them.
  unfoldable pub gather :
      F → Item F → List (ℕ × Item F) → List (Item F) → List ℕ → List (Item F) × List ℕ
  unfolding is_used_index
  gather threshold a [] cluster used = (cluster, used)
  gather threshold a ((j, b) ∷ rest) cluster used =
      elim (not (is_used_index j used) && is_similar_item threshold a b) [
        | true ↦ gather threshold a rest (cluster ++ b ∷ []) (j ∷ used)
        | false ↦ gather threshold a rest cluster used
      ]

  -- The clusters, each as its first item and the rest.
  unfoldable pub cluster_from :
      F → List (ℕ × Item F) → List (ℕ × Item F) → List ℕ → List (Item F × List (Item F))
  unfolding gather is_used_index
  cluster_from threshold all [] used = []
  cluster_from threshold all ((i, a) ∷ rest) used = elim (is_used_index i used) [
    | true ↦ cluster_from threshold all rest used
    | false ↦
        let (cluster, used') = gather threshold a all [] (i ∷ used) in
        (a, cluster) ∷ cluster_from threshold all rest used'
  ]

  unfoldable pub cluster_similar : F → List (Item F) → List (Item F × List (Item F))
  unfolding cluster_from enumerate
  cluster_similar threshold items =
      cluster_from threshold (enumerate 0 items) (enumerate 0 items) []

  unfoldable pub drop_actions : Item F → List (Item F) → List SanitizerAction
  drop_actions best [] = []
  drop_actions best (c ∷ cs) =
      record {
        knowledge_id = id_of c;
        action = "dedup_drop";
        reason = text_append "near_duplicate_of_" (id_of best);
        merge_group = "";
        merged_into = "";
      }
      ∷ drop_actions best cs

  -- The best item of each cluster, and the actions on the others.
  unfoldable pub keep_best : List (Item F × List (Item F)) → List (Item F) × List SanitizerAction
  unfolding split_best drop_actions
  keep_best [] = ([], [])
  keep_best ((a, cluster) ∷ clusters) =
      let (best, others) = split_best a [] (a ∷ []) cluster in
      let (kept, actions) = keep_best clusters in (best ∷ kept, drop_actions best others ++ actions)

  unfoldable pub dedup_group : F → List (Item F) → List (Item F) × List SanitizerAction
  unfolding keep_best cluster_similar
  dedup_group threshold items =
      if leb (length items) 1 then (items, []) else keep_best (cluster_similar threshold items)

  unfoldable pub dedup_groups : F → Dict (List (Item F)) → List (Item F) × List SanitizerAction
  unfolding dedup_group
  dedup_groups threshold [] = ([], [])
  dedup_groups threshold ((key, items) ∷ groups) =
      let (kept, actions) = dedup_group threshold items in
      let (kept', actions') = dedup_groups threshold groups in (kept ++ kept', actions ++ actions')

  unfoldable pub deduplicate : F → List (Item F) → List (Item F) × List SanitizerAction
  unfolding dedup_groups by_group
  deduplicate threshold candidates = dedup_groups threshold (by_group candidates [])
