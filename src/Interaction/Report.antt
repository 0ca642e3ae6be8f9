-- ===== src/Interaction/Report.antt =====
-- cact/interaction_gate.py, `check_chain`: when a chain is safe, and where its conflicts go.
use aaai.Prelude.{
  ◌∙◌, ℕ, ◌≡◌, refl, ◌↔◌, String, true, false, not, ◌||◌, List, [], ◌∷◌, ◌++◌, is_nil, Dict, All,
  arith,
}
use aaai.Float.{Float, Sampler}
use aaai.Interaction.{
  ItemStats, PairResult, InteractionGate, PairFinding, interaction_safe, ChainReport,
  unknown_advice, classify, check_pair, insufficient,
}
use aaai.Interaction.Chain.{
  joint_of, is_refusal, is_conflict, file_result, file_results, empty_report, safe, recommendation,
  check_pairs, check_chain, pairs_of,
}

is_nil-snoc {ℓ} : {A : Type ℓ} (xs : List A) (x : A) → is_nil (xs ++ x ∷ []) ≡ false
is_nil-snoc [] x = refl
is_nil-snoc (y ∷ ys) x = refl

module _ {F : Type 0} where
  -- Each result whose state is a conflict is advised against.
  abbrev IsAdvised : PairFinding F → Type 0
  IsAdvised f = (is_refusal f.1.recommendation || not (is_conflict f.1.state)) ≡ true

  conflict_pairs-file :
      (rs : List (PairFinding F)) (r : ChainReport F)
      → All IsAdvised rs
      → (file_results rs r).conflict_pairs ≡ r.conflict_pairs
  unfolding file_results file_result
  conflict_pairs-file [] r h = refl
  conflict_pairs-file ((pair, x) ∷ rs) r h =
      conflict_pairs-file rs (file_result (pair, x) r) h.1 ∙ ground (arith, h.0)

  safe-file_result :
      (pair : String × String) (x : PairResult F) (r : ChainReport F)
      → (safe (file_result (pair, x) r) ≡ true)
        ↔ ((safe r ≡ true) × (is_refusal x.recommendation ≡ false))
  unfolding safe file_result
  safe-file_result pair x r = ground (arith, is_nil-snoc r.blocked_pairs (pair, x))

  safe-file :
      (rs : List (PairFinding F)) (r : ChainReport F)
      → (safe (file_results rs r) ≡ true)
        ↔ ((safe r ≡ true) × All (λ f. is_refusal f.1.recommendation ≡ false) rs)
  unfolding file_results
  safe-file [] r = (λ h. (h, tt), λ h. h.0)
  safe-file ((pair, x) ∷ rs) r = (
    λ h.
        let both = (safe-file rs (file_result (pair, x) r)).0 h in
        (
          ((safe-file_result pair x r).0 both.0).0,
          (((safe-file_result pair x r).0 both.0).1, both.1),
        ),
    λ h.
        (safe-file rs (file_result (pair, x) r)).1
          ((safe-file_result pair x r).1 (h.0, h.1.0), h.1.1),
  )

  safe_iff : (r : ChainReport F) → (safe r ≡ true) ↔ (recommendation r ≡ interaction_safe)
  unfolding safe recommendation
  safe_iff r = ground arith

module _ {F : Type 0} ⦃o : Float F⦄ ⦃s : Sampler F⦄ (g : InteractionGate F)
    (stats : List ((String × String) × (F × F))) (context : Dict String) where
  -- A conflict is always advised against, so nothing is left for the conflict list.
  check_pair-blocks :
      (i j : ItemStats F) (ab : F × F) (seed : ℕ)
      → (is_refusal (check_pair g i j ab context seed).0.recommendation
          || not (is_conflict (check_pair g i j ab context seed).0.state))
        ≡ true
  unfolding check_pair classify is_refusal is_conflict insufficient unknown_advice
  check_pair-blocks i j (a, b) seed = ground arith

  check_pairs-All :
      (ps : List (ItemStats F × ItemStats F)) (seed : ℕ)
      → All
          (λ f. (is_refusal f.1.recommendation || not (is_conflict f.1.state)) ≡ true)
          (check_pairs g stats context ps seed).0
  unfolding check_pairs
  check_pairs-All [] seed = tt
  check_pairs-All ((i, j) ∷ rest) seed = (
    check_pair-blocks i j (joint_of stats i.knowledge_id j.knowledge_id) seed,
    check_pairs-All rest
        (check_pair g i j (joint_of stats i.knowledge_id j.knowledge_id) context seed).1,
  )

  -- A chain is reported safe exactly when no pair of it is advised against; the recommendation is
  -- `interaction_safe` exactly then; and the list of conflicts that are not blocked is always empty.
  pub check_chain_report :
      (chain : List (ItemStats F)) (seed : ℕ)
      → ((safe (check_chain g stats context chain seed).0 ≡ true)
          ↔ All
              (λ f. is_refusal f.1.recommendation ≡ false)
              (check_pairs g stats context (pairs_of chain) seed).0)
        × ((safe (check_chain g stats context chain seed).0 ≡ true)
            ↔ (recommendation (check_chain g stats context chain seed).0 ≡ interaction_safe))
        × ((check_chain g stats context chain seed).0.conflict_pairs ≡ [])
  unfolding check_chain
  check_chain_report chain seed =
      let rs = (check_pairs g stats context (pairs_of chain) seed).0 in
      (
        (
          λ h. ((safe-file rs empty_report).0 h).1,
          λ h. (safe-file rs empty_report).1 (unfold safe in (refl, h)),
        ),
        safe_iff (file_results rs empty_report),
        conflict_pairs-file rs empty_report (check_pairs-All (pairs_of chain) seed),
      )
