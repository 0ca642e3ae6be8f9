-- ===== src/Controller/Choose.antt =====
-- cact/decision_controller.py: step 6 of `decide`, the choice of an item of the chain.
use aaai.Prelude.{Bool, true, false, ◌&&◌, ◌||◌, Option, none, some, List, [], ◌∷◌, if◌then◌else◌}
use aaai.Float.{Float, lit}
use aaai.Controller.{fallback, reuse, DecisionResult, Scored}

module _ {F : Type 0} where
  -- The first item of the chain that is certified and meets its contract.
  unfoldable pub first_certified : List (Scored F) → Option (Scored F)
  first_certified [] = none
  first_certified (c ∷ cs) =
      let rest = first_certified cs in if c.certified && c.contract_ok then some c else rest

  -- `any(c.get("contract_ok") for c in scored)`
  unfoldable pub any_contract_ok : List (Scored F) → Bool
  any_contract_ok [] = false
  any_contract_ok (c ∷ cs) = c.contract_ok || any_contract_ok cs

module _ {F : Type 0} ⦃o : Float F⦄ where
  -- `DecisionResult()`
  unfoldable pub blank_result : DecisionResult F
  blank_result = record {
    decision = fallback;
    chosen_knowledge_id = "";
    chosen_contract = none;
    pi_uplift = lit 0 0;
    harm_ucb = lit 0 0;
    uplift_lcb = lit 0 0;
    contract_satisfied_before = true;
    interaction_safe = true;
    interaction_state = "safe";
    synergy_pairs = [];
    tau_group_level = lit 90 2;
    delta_group_level = lit 5 2;
    harm_threshold_group_level = lit 10 2;
    propensity_reuse = lit 0 0;
    propensity_base = lit 0 0;
    lifecycle_state = "";
    supervised = false;
    filtered_count = 0;
    scored_count = 0;
    chain_length = 0;
  }

  -- Step 6, for the chosen item or for none.
  unfoldable pub conclude :
      DecisionResult F → List (Scored F) → Option (Scored F) → DecisionResult F
  conclude r scored (some best) = record r {
    decision = reuse;
    chosen_knowledge_id = best.knowledge_id;
    chosen_contract = some best.contract;
    pi_uplift = best.pi_uplift;
    uplift_lcb = best.uplift_lcb;
    harm_ucb = best.harm_ucb;
    lifecycle_state = best.lifecycle;
    contract_satisfied_before = best.contract_ok;
    tau_group_level = best.gate_info.tau;
    delta_group_level = best.gate_info.delta;
    harm_threshold_group_level = best.gate_info.harm;
    supervised = best.gate_info.supervised;
  }
  conclude r scored none = record r {
    decision = fallback;
    chosen_knowledge_id = "";
    contract_satisfied_before = any_contract_ok scored;
  }

  unfoldable pub choose : DecisionResult F → List (Scored F) → List (Scored F) → DecisionResult F
  choose r scored chain =
      conclude r scored (if r.interaction_safe then first_certified chain else none)
