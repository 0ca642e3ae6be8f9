-- ===== src/Sanitizer/Accounted.antt =====
-- cact/bank_sanitizer.py, `_deduplicate`: each item is kept or logged.
use aaai.Prelude.{
  ℕ, ◌+◌, ◌≡◌, refl, String, List, [], ◌∷◌, ◌==◌, if◌then◌else◌, leb, length, Dict, Bool-cases, inl,
  inr, arith,
}
use aaai.Float.{Float}
use aaai.Sanitizer.{Item, SanitizerAction, id_of}
use aaai.Sanitizer.Dedup.{
  by_group, split_best, cluster_similar, drop_actions, keep_best, dedup_group, dedup_groups,
  deduplicate,
}
use aaai.Sanitizer.Indexed.{sum, sum-append, grouped, by_group-grouped}
use aaai.Sanitizer.Clusters.{clustered, split_best-sum, clustered-cluster_similar}

-- How often an identifier stands among items, and among the actions of the log.
abbrev pub times : {F : Type 0} → String → List (Item F) → ℕ
times k = sum (λ c. if id_of c == k then 1 else 0)

abbrev pub times_logged : String → List SanitizerAction → ℕ
times_logged k = sum (λ a. if a.knowledge_id == k then 1 else 0)

module _ {F : Type 0} ⦃o : Float F⦄ (k : String) (threshold : F) where
  abbrev weight : Item F → ℕ
  weight c = if id_of c == k then 1 else 0

  drop_actions-times :
      (best : Item F) (cs : List (Item F)) → times_logged k (drop_actions best cs) ≡ times k cs
  unfolding drop_actions
  drop_actions-times best [] = refl
  drop_actions-times best (c ∷ cs) = omega (arith, drop_actions-times best cs)

  keep_best-times :
      (clusters : List (Item F × List (Item F)))
      → times k (keep_best clusters).0 + times_logged k (keep_best clusters).1
        ≡ clustered weight clusters
  unfolding keep_best
  keep_best-times [] = refl
  keep_best-times ((a, cluster) ∷ clusters) =
      let (best, others) = split_best a [] (a ∷ []) cluster in
      omega (
        arith,
        split_best-sum weight threshold a [] (a ∷ []) cluster (omega arith),
        drop_actions-times best others,
        sum-append (λ (x : SanitizerAction). if x.knowledge_id == k then 1 else 0)
            (drop_actions best others) (keep_best clusters).1,
        keep_best-times clusters,
      )

  dedup_group-times :
      (items : List (Item F))
      → times k (dedup_group threshold items).0 + times_logged k (dedup_group threshold items).1
        ≡ times k items
  unfolding dedup_group
  dedup_group-times items = elim (Bool-cases (leb (length items) 1)) [
    | inl e ↦ rw e (omega arith)
    | inr e ↦ rw e (
        omega (
          arith,
          keep_best-times (cluster_similar threshold items),
          clustered-cluster_similar weight threshold items,
        ))
  ]

  dedup_groups-times :
      (groups : Dict (List (Item F)))
      → times k (dedup_groups threshold groups).0 + times_logged k (dedup_groups threshold groups).1
        ≡ grouped weight groups
  unfolding dedup_groups
  dedup_groups-times [] = refl
  dedup_groups-times ((key, items) ∷ groups) = omega (
    arith,
    sum-append weight (dedup_group threshold items).0 (dedup_groups threshold groups).0,
    sum-append (λ (x : SanitizerAction). if x.knowledge_id == k then 1 else 0)
        (dedup_group threshold items).1 (dedup_groups threshold groups).1,
    dedup_group-times items,
    dedup_groups-times groups,
  )

  -- Deduplication loses and doubles nothing: each identifier stands among the items that are kept and
  -- the actions of the log, taken together, as often as among the candidates.
  pub deduplicate-times :
      (candidates : List (Item F))
      → times k (deduplicate threshold candidates).0
          + times_logged k (deduplicate threshold candidates).1
        ≡ times k candidates
  unfolding deduplicate
  deduplicate-times candidates =
      omega
        (arith, dedup_groups-times (by_group candidates []), by_group-grouped weight candidates [])
