-- ===== src/Controller/Sound.antt =====
-- cact/decision_controller.py, step 6: what a reuse rests on.
use aaai.Prelude.{
  or_else, ◌∙◌, subst, String, ◌≡◌, refl, Bool, true, false, Option, none, some, List, ◌⊎◌, Dict,
  All, Any, Any-mono, if◌then◌else◌, inl, inr, ap,
}
use aaai.Float.{Float, Sampler}
use aaai.Contract.{ContractDict}
use aaai.Gate.{TrustGate}
use aaai.State.{State}
use aaai.Controller.{contract_filter, DecisionController, fallback, reuse, DecisionResult, Scored}
use aaai.Controller.Choose.{first_certified, conclude, choose}
use aaai.Controller.Scoring.{IsCertified, IsScored, first_certified-All}

module _ {F : Type 0} ⦃o : Float F⦄ (gate : TrustGate F) (group : Option String)
    (context : Dict String) where
  -- What the audit fields of a reuse show: the item is one of the list, the gate admits the logged
  -- evidence, the contract is met and the pairs are safe.
  pub record IsSound (us : List (ContractDict F)) (r : DecisionResult F) : Type 0 where
    pub chosen :
        Any (λ u. (r.chosen_contract ≡ some u) × (r.chosen_knowledge_id ≡ u.knowledge_id)) us
    pub verdict :
        IsCertified gate group context r.pi_uplift r.uplift_lcb r.harm_ucb r.lifecycle_state true
    pub contract_met : r.contract_satisfied_before ≡ true
    pub pairs_safe : r.interaction_safe ≡ true

  conclude-IsSound :
      (us : List (ContractDict F)) (r : DecisionResult F) (scored : List (Scored F)) (c : Scored F)
      → IsScored gate group context us c
      → c.certified ≡ true
      → c.contract_ok ≡ true
      → r.interaction_safe ≡ true
      → IsSound us (conclude r scored (some c))
  unfolding conclude
  conclude-IsSound us r scored c h cert ok safe = record {
    chosen =
        Any-mono _ _ (λ u e. (ap some e, h.named ∙ ap (λ (d : ContractDict F). d.knowledge_id) e))
          us h.listed;
    verdict =
        subst
          (λ b. IsCertified gate group context c.pi_uplift c.uplift_lcb c.harm_ucb c.lifecycle b) ok
          (h.verdict cert);
    contract_met = ok;
    pairs_safe = safe;
  }

  pub choose-IsSound :
      (us : List (ContractDict F)) (r : DecisionResult F) (scored chain : List (Scored F))
      → All (IsScored gate group context us) chain
      → (choose r scored chain).decision ≡ reuse
      → IsSound us (choose r scored chain)
  unfolding choose conclude
  choose-IsSound us r scored chain h = by_safety (r.interaction_safe) refl
    where
      by_choice :
          (x : Option (Scored F))
          → first_certified chain ≡ x
          → r.interaction_safe ≡ true
          → (conclude r scored x).decision ≡ reuse
          → IsSound us (conclude r scored x)
      by_choice none e safe d = cc d
      by_choice (some c) e safe d =
          let found = first_certified-All (IsScored gate group context us) chain c h e in
          conclude-IsSound us r scored c found.0 found.1 found.2 safe

      by_safety :
          (b : Bool)
          → r.interaction_safe ≡ b
          → (conclude r scored (if b then first_certified chain else none)).decision ≡ reuse
          → IsSound us (conclude r scored (if b then first_certified chain else none))
      by_safety true e d = by_choice (first_certified chain) refl e d
      by_safety false e d = cc d

  -- Without active operations a decision is a reuse or a fallback.
  pub choose-decision :
      (r : DecisionResult F) (scored chain : List (Scored F))
      → ((choose r scored chain).decision ≡ reuse) ⊎ ((choose r scored chain).decision ≡ fallback)
  unfolding choose
  choose-decision r scored chain = go (if r.interaction_safe then first_certified chain else none)
    where
      go :
          (x : Option (Scored F))
          → ((conclude r scored x).decision ≡ reuse) ⊎ ((conclude r scored x).decision ≡ fallback)
      go none = inr (unfold conclude in refl)
      go (some c) = inl (unfold conclude in refl)

-- The candidates that are scored: those that pass the filter, or all where it is switched off.
abbrev pub eligible :
    {F : Type 0} ⦃o : Float F⦄ ⦃s : Sampler F⦄
    → State F
    → Dict String
    → DecisionController F
    → List (ContractDict F)
    → List (ContractDict F)
eligible st context ctl candidates =
    if ctl.abl_contract then contract_filter candidates st context else candidates

-- `task.get("group", "crafting")`
abbrev pub group_of_task : Option String → Option String
group_of_task task_group = some (or_else task_group "crafting")
