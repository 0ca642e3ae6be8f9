-- ===== src/Tests/Choices.antt =====
-- The choice of step 6 at a concrete chain.
use aaai.Prelude.{none, ◌≡◌, refl, true, false, List, [], ◌∷◌, ◌↔◌, ◌⊎◌, All, Any}
use aaai.Prelude.Int.{ℤ}
use aaai.Float.Scaled.{scaled_float, scaled-IsOrdered}
use aaai.Float.Order.{◌≼◌}
use aaai.Gate.{GateInfo, gate_pass, uplift_fail, Reason}
use aaai.Controller.{DecisionResult, Scored, reuse, fallback, sort_by_uplift}
use aaai.Controller.Choose.{blank_result, choose}
use aaai.Controller.Best.{is_ready, IsChosen, choose-best}
use aaai.Tests.Data.{fixed, smelt_candidate, torch_candidate}

abbrev verdict : Reason → GateInfo ℤ
verdict r = record {
  reason = r;
  tau = fixed 88 2;
  delta = fixed 5 2;
  harm = fixed 10 2;
  supervised = false;
  lifecycle = none;
  pi_uplift = none;
  uplift_lcb = none;
  harm_ucb = none;
}

abbrev admitted_torch : Scored ℤ
admitted_torch = record {
  knowledge_id = "craft_torch";
  contract = torch_candidate;
  pi_uplift = fixed 91 2;
  uplift_lcb = fixed 7 2;
  harm_ucb = fixed 4 2;
  lifecycle = "certified";
  certified = true;
  contract_ok = true;
  gate_info = verdict gate_pass;
}

abbrev refused_smelt : Scored ℤ
refused_smelt = record {
  knowledge_id = "smelt_iron";
  contract = smelt_candidate;
  pi_uplift = fixed 95 2;
  uplift_lcb = fixed 1 2;
  harm_ucb = fixed 4 2;
  lifecycle = "certified";
  certified = false;
  contract_ok = true;
  gate_info = verdict uplift_fail;
}

abbrev scored : List (Scored ℤ)
scored = admitted_torch ∷ refused_smelt ∷ []

abbrev blank : DecisionResult ℤ
blank = blank_result

choose-best_example :
    (((choose blank scored (sort_by_uplift scored)).decision ≡ reuse)
      ↔ ((blank.interaction_safe ≡ true) × Any (λ c. is_ready c ≡ true) scored))
    × (((choose blank scored (sort_by_uplift scored)).decision ≡ fallback)
        ⊎ (Any
              (λ c. (is_ready c ≡ true) × IsChosen (choose blank scored (sort_by_uplift scored)) c)
              scored
            × All
                (λ d.
                  (is_ready d ≡ false)
                  ⊎ (d.pi_uplift ≼ (choose blank scored (sort_by_uplift scored)).pi_uplift))
                scored))
choose-best_example = choose-best scaled-IsOrdered blank scored (refl, (refl, tt))
