-- ===== src/Interaction.antt =====
-- cact/interaction_gate.py: `InteractionGate`, the pairwise check of a chain of items. The samples come
-- from numpy's global generator, whose state goes through the pairs in their order.
pub mod Chain
pub mod Report
use aaai.Prelude.{
  ℕ, ◌+◌, String, Bool, true, false, not, ◌&&◌, ◌||◌, Option, none, some, List, [], ◌∷◌, ◌++◌, ◌==◌,
  if◌then◌else◌, or_else, is_nil, Dict, get, length, map,
}
use aaai.Float.{Float, Sampler, lit, ◌⊕◌, ◌⊖◌, ◌⊗◌, ◌⊘◌, ◌≤?◌, ◌<?◌, clamp}

pub data PairState : Type 0 where
  synergy neutral conflict unknown : PairState

pub data Advice : Type 0 where
  allow_pair block_pair force_fallback pair_probe : Advice

pub record ItemStats (F : Type 0) : Type 0 where
  pub knowledge_id : String
  pub use_alpha : F
  pub use_beta : F
  pub base_alpha : F
  pub base_beta : F

pub record PairResult (F : Type 0) : Type 0 where
  pub delta_mean : F
  pub delta_lcb : F
  pub state : PairState
  pub pi_syn : F
  pub pi_conf : F
  pub recommendation : Advice

pub record InteractionGate (F : Type 0) : Type 0 where
  pub theta_conf : F
  pub theta_syn : F
  pub min_pair_support : ℕ

-- A pair of items with the result of its check.
abbrev pub PairFinding : Type 0 → Type 0
PairFinding F = (String × String) × PairResult F

pub data ChainAdvice : Type 0 where
  interaction_safe single_best_only fall_back : ChainAdvice

pub record ChainReport (F : Type 0) : Type 0 where
  pub blocked_pairs : List (PairFinding F)
  pub conflict_pairs : List (PairFinding F)
  pub synergy_pairs : List (PairFinding F)

-- `context.get("risk_level") == "high"` and `context.get("resource_critical")`
unfoldable pub unknown_advice : Dict String → Advice
unknown_advice context =
    if or_else (get context "risk_level") "" == "high"
    then force_fallback
    else if or_else (get context "resource_critical") "" == ""
    then pair_probe
    else force_fallback

module _ {F : Type 0} ⦃o : Float F⦄ where
  unfoldable pub default_interaction_gate : InteractionGate F
  default_interaction_gate = record {
    theta_conf = lit 80 2;
    theta_syn = lit 70 2;
    min_pair_support = 5;
  }

  -- `DELTA_INT`
  abbrev pub delta_int : F
  delta_int = lit 3 2

  -- The state of a pair, and what is advised for it.
  unfoldable pub classify : InteractionGate F → F → F → Dict String → PairState × Advice
  classify g n_joint delta_lcb context =
      if delta_int <? delta_lcb
      then (synergy, allow_pair)
      else if delta_lcb <? (o.neg delta_int ⊗ lit 15 1)
      then (conflict, block_pair)
      else if lit g.min_pair_support 0 ≤? n_joint && o.abs delta_lcb ≤? delta_int
      then (neutral, allow_pair)
      else (unknown, unknown_advice context)

  -- `p_joint - p_use_i - p_use_j + p_base`, draw by draw
  unfoldable pub delta_samples : List F → List F → List F → List F → List F
  delta_samples (j ∷ js) (u ∷ us) (v ∷ vs) (b ∷ bs) = (j ⊖ u ⊖ v ⊕ b) ∷ delta_samples js us vs bs
  delta_samples _ _ _ _ = []

  -- `np.mean(samples > t)` and `np.mean(samples < t)`
  count_if : (F → Bool) → List F → ℕ
  count_if p [] = 0
  count_if p (x ∷ xs) = let rest = count_if p xs in if p x then rest + 1 else rest

  unfoldable pub share_if : (F → Bool) → List F → F
  unfolding count_if
  share_if p xs = lit (count_if p xs) 0 ⊘ lit (length xs) 0

module _ {F : Type 0} ⦃o : Float F⦄ ⦃s : Sampler F⦄ where
  unfoldable pub compute_interaction_probs : ItemStats F → ItemStats F → F → F → ℕ → (F × F) × ℕ
  compute_interaction_probs i j a_joint b_joint seed =
      let (use_i, seed1) = s.betas i.use_alpha i.use_beta 5000 seed in
      let (use_j, seed2) = s.betas j.use_alpha j.use_beta 5000 seed1 in
      let (joint, seed3) = s.betas a_joint b_joint 5000 seed2 in
      let (base, seed4) = s.betas i.base_alpha i.base_beta 5000 seed3 in
      let samples = delta_samples joint use_i use_j base in
      (
        (
          clamp (lit 1 3) (lit 999 3) (share_if (λ d. delta_int <? d) samples),
          clamp (lit 1 3) (lit 999 3) (share_if (λ d. d <? o.neg delta_int) samples),
        ),
        seed4,
      )

  -- The mean effect and its conservative bound.
  unfoldable pub delta_mean_of : ItemStats F → ItemStats F → F × F → F
  delta_mean_of i j (a_j, b_j) =
      a_j ⊘ (a_j ⊕ b_j)
      ⊖ i.use_alpha ⊘ (i.use_alpha ⊕ i.use_beta)
      ⊖ j.use_alpha ⊘ (j.use_alpha ⊕ j.use_beta)
      ⊕ i.base_alpha ⊘ (i.base_alpha ⊕ i.base_beta)

  unfoldable pub delta_lcb_of : ItemStats F → ItemStats F → F × F → F
  delta_lcb_of i j (a_j, b_j) =
      s.ppf (lit 5 2) a_j b_j
      ⊖ s.ppf (lit 1 0 ⊖ lit 5 2) i.use_alpha i.use_beta
      ⊖ s.ppf (lit 1 0 ⊖ lit 5 2) j.use_alpha j.use_beta
      ⊕ s.ppf (lit 5 2) i.base_alpha i.base_beta

  -- The result where there are fewer than two joint observations.
  unfoldable pub insufficient : PairResult F
  insufficient = record {
    delta_mean = o.round (lit 0 0) 4;
    delta_lcb = o.round (lit 0 0) 4;
    state = unknown;
    pi_syn = lit 5 1;
    pi_conf = lit 5 1;
    recommendation = pair_probe;
  }

  unfoldable pub check_pair :
      InteractionGate F → ItemStats F → ItemStats F → F × F → Dict String → ℕ → PairResult F × ℕ
  check_pair g i j (a_j, b_j) context seed =
      let n_joint = a_j ⊕ b_j ⊖ lit 20 1 in
      let delta_lcb = delta_lcb_of i j (a_j, b_j) in
      let (state, advice) = classify g n_joint delta_lcb context in
      let ((pi_syn, pi_conf), seed') = compute_interaction_probs i j a_j b_j seed in
      if n_joint <? lit 2 0 then (insufficient, seed) else (
        record {
          delta_mean = o.round (delta_mean_of i j (a_j, b_j)) 4;
          delta_lcb = o.round delta_lcb 4;
          state = state;
          pi_syn = pi_syn;
          pi_conf = pi_conf;
          recommendation = advice;
        },
        seed',
      )
