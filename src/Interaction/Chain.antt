-- ===== src/Interaction/Chain.antt =====
-- cact/interaction_gate.py: `check_chain`, the double loop over the pairs of a chain, and what it
-- reports.
use aaai.Prelude.{
  ℕ, String, Bool, true, false, ◌&&◌, List, [], ◌∷◌, ◌++◌, ◌==◌, if◌then◌else◌, is_nil, Dict,
  length, filter_by, nat_eq,
}
use aaai.Float.{Float, Sampler, lit, ◌≤?◌}
use aaai.Interaction.{
  PairState, synergy, conflict, Advice, block_pair, force_fallback, ItemStats, InteractionGate,
  PairFinding, ChainAdvice, interaction_safe, single_best_only, fall_back, ChainReport, check_pair,
}

-- The pairs (i, j) with i before j, in the order of the loops.
unfoldable pub pairs_with {ℓ} : {A : Type ℓ} → A → List A → List (A × A)
pairs_with x [] = []
pairs_with x (y ∷ ys) = (x, y) ∷ pairs_with x ys

unfoldable pub pairs_of {ℓ} : {A : Type ℓ} → List A → List (A × A)
pairs_of [] = []
pairs_of (x ∷ xs) = pairs_with x xs ++ pairs_of xs

unfoldable pub is_refusal : Advice → Bool
is_refusal block_pair = true
is_refusal force_fallback = true
is_refusal _ = false

unfoldable pub is_conflict : PairState → Bool
is_conflict conflict = true
is_conflict _ = false

unfoldable pub is_synergy : PairState → Bool
is_synergy synergy = true
is_synergy _ = false

-- `pair_stats.get(pair_key, {"alpha": 1.0, "beta": 1.0})`
module _ {F : Type 0} ⦃o : Float F⦄ where
  unfoldable pub joint_of : List ((String × String) × (F × F)) → String → String → F × F
  joint_of [] i j = (lit 10 1, lit 10 1)
  joint_of (((a, b), stats) ∷ rest) i j = if a == i && b == j then stats else joint_of rest i j

module _ {F : Type 0} where
  -- One result goes to the first of the three lists that it fits.
  unfoldable pub file_result : PairFinding F → ChainReport F → ChainReport F
  file_result (pair, r) report =
      if is_refusal r.recommendation
      then record report { blocked_pairs = report.blocked_pairs ++ (pair, r) ∷ [] }
      else if is_conflict r.state
      then record report { conflict_pairs = report.conflict_pairs ++ (pair, r) ∷ [] }
      else if is_synergy r.state
      then record report { synergy_pairs = report.synergy_pairs ++ (pair, r) ∷ [] }
      else report

  unfoldable pub file_results : List (PairFinding F) → ChainReport F → ChainReport F
  file_results [] report = report
  file_results (r ∷ rest) report = file_results rest (file_result r report)

  abbrev pub empty_report : ChainReport F
  empty_report = record { blocked_pairs = []; conflict_pairs = []; synergy_pairs = [] }

  -- `len(blocked_pairs) == 0`
  unfoldable pub safe : ChainReport F → Bool
  safe r = is_nil r.blocked_pairs

  unfoldable pub recommendation : ChainReport F → ChainAdvice
  recommendation r =
      if is_nil r.blocked_pairs
      then interaction_safe
      else if nat_eq (length r.blocked_pairs) 1
      then single_best_only
      else fall_back

  -- The pairs whose synergy is likely enough, `recommended_combos`.
  unfoldable pub recommended_combos :
      ⦃o : Float F⦄ → InteractionGate F → ChainReport F → List (PairFinding F)
  recommended_combos g r = filter_by (λ f. g.theta_syn ≤? f.1.pi_syn) r.synergy_pairs

module _ {F : Type 0} ⦃o : Float F⦄ ⦃s : Sampler F⦄ (g : InteractionGate F)
    (stats : List ((String × String) × (F × F))) (context : Dict String) where
  -- The checks of the pairs, in order.
  unfoldable pub check_pairs : List (ItemStats F × ItemStats F) → ℕ → List (PairFinding F) × ℕ
  check_pairs [] seed = ([], seed)
  check_pairs ((i, j) ∷ rest) seed =
      let (r, seed') =
        check_pair g i j (joint_of stats i.knowledge_id j.knowledge_id) context seed in
      let (rs, seed'') = check_pairs rest seed' in
      (((i.knowledge_id, j.knowledge_id), r) ∷ rs, seed'')

  unfoldable pub check_chain : List (ItemStats F) → ℕ → ChainReport F × ℕ
  check_chain chain seed =
      let (results, seed') = check_pairs (pairs_of chain) seed in
      (file_results results empty_report, seed')
