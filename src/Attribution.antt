-- ===== src/Attribution.antt =====
-- cact/attribution.py: `OutcomeAttributor`, which names the cause of an outcome, and
-- `apply_attribution_to_lifecycle`, which turns it into evidence. The dictionary that it returns for
-- the log is its action. `base_would_have_succeeded`, which `attribute` never reads, is left out.
pub mod Fault
pub mod Apply
use aaai.Prelude.{
  ℕ, String, Bool, true, false, not, Option, none, some, ltb, if◌then◌else◌, or_else,
}
use aaai.Float.{Float, Sampler, lit, ◌⊖◌, ◌⊘◌, ◌<?◌, py_min}
use aaai.Store.{TrustStore, record_use, record_base, record_harm}
use aaai.Store.Record.{clip_propensity, update_lifecycle}

pub data AttributionLabel : Type 0 where
  knowledge_caused_success base_would_succeed base_also_failed environment_failure
        navigation_failure execution_failure resource_conflict contract_violation chain_failure
        harmful_reuse uncertain :
      AttributionLabel

-- The arguments of `attribute`.
pub record Signals (F : Type 0) : Type 0 where
  pub success : Bool
  pub is_harmful : Bool
  pub contract_violated : Bool
  pub interaction_conflict : Bool
  pub used_knowledge : Bool
  pub progress_delta : F
  pub postcondition_satisfied : Option Bool
  pub execution_errors : ℕ
  pub navigation_errors : ℕ

-- `should_penalize`, `should_reward`, `should_count_base` and `is_no_fault`
unfoldable pub should_penalize : AttributionLabel → Bool
should_penalize harmful_reuse = true
should_penalize contract_violation = true
should_penalize chain_failure = true
should_penalize _ = false

unfoldable pub should_reward : AttributionLabel → Bool
should_reward knowledge_caused_success = true
should_reward _ = false

unfoldable pub should_count_base : AttributionLabel → Bool
should_count_base base_would_succeed = true
should_count_base _ = false

unfoldable pub is_no_fault : AttributionLabel → Bool
is_no_fault environment_failure = true
is_no_fault navigation_failure = true
is_no_fault execution_failure = true
is_no_fault resource_conflict = true
is_no_fault base_also_failed = true
is_no_fault _ = false

module _ {F : Type 0} ⦃o : Float F⦄ where
  -- The cause of a failure whose postconditions were kept, broken or not looked at.
  unfoldable pub attribute_postcondition : Signals F → Option Bool → AttributionLabel
  attribute_postcondition e (some true) =
      if lit 0 0 <? e.progress_delta
      then (if ltb e.execution_errors e.navigation_errors
          then navigation_failure
          else execution_failure)
      else environment_failure
  attribute_postcondition e (some false) = contract_violation
  attribute_postcondition e none = uncertain

  unfoldable pub attribute_success : Signals F → AttributionLabel
  attribute_success e =
      if not e.used_knowledge
      then base_would_succeed
      else if e.is_harmful
      then harmful_reuse
      else if e.contract_violated
      then contract_violation
      else knowledge_caused_success

  unfoldable pub attribute_failure : Signals F → AttributionLabel
  attribute_failure e =
      if not e.used_knowledge
      then base_also_failed
      else if e.contract_violated
      then contract_violation
      else if e.is_harmful
      then harmful_reuse
      else if e.interaction_conflict
      then chain_failure
      else attribute_postcondition e e.postcondition_satisfied

  unfoldable pub attribute : Signals F → AttributionLabel
  attribute e = if e.success then attribute_success e else attribute_failure e

  -- The weight of the evidence; only a base success is weighted by the base arm's propensity.
  unfoldable pub attribution_weight : AttributionLabel → Option F → F
  attribution_weight label propensity =
      let p = clip_propensity (or_else propensity (lit 10 1)) in
      py_min (lit 200 1) (lit 10 1 ⊘ (if should_count_base label then lit 10 1 ⊖ p else p))

-- `result["action"]`
pub data Action : Type 0 where
  reward penalize count_base no_fault undecided : Action

unfoldable pub action_of : AttributionLabel → Action
action_of label =
    if should_reward label
    then reward
    else if should_penalize label
    then penalize
    else if should_count_base label
    then count_base
    else if is_no_fault label
    then no_fault
    else undecided

module _ {F : Type 0} ⦃o : Float F⦄ ⦃s : Sampler F⦄ where
  -- The evidence of a use, and the lifecycle rules after it.
  unfoldable pub apply_use : String → String → F → F → F → TrustStore F → TrustStore F
  apply_use kid context success is_harmful weight st =
      let recorded =
        record_harm kid context is_harmful weight (record_use kid context success weight st) in
      if recorded.abl_lifecycle then update_lifecycle kid context recorded else recorded

  unfoldable pub apply_action : Action → String → String → F → F → F → TrustStore F → TrustStore F
  apply_action reward kid context success is_harmful weight st =
      apply_use kid context success is_harmful weight st
  apply_action penalize kid context success is_harmful weight st =
      apply_use kid context success is_harmful weight st
  apply_action count_base kid context success is_harmful weight st =
      record_base kid context success weight st
  apply_action no_fault kid context success is_harmful weight st = st
  apply_action undecided kid context success is_harmful weight st = st

  unfoldable pub apply_attribution_to_lifecycle :
      String → AttributionLabel → F → F → String → Option F → TrustStore F → TrustStore F × Action
  apply_attribution_to_lifecycle kid label success is_harmful context propensity st =
      let action = action_of label in
      let weight = attribution_weight label propensity in
      (apply_action action kid context success is_harmful weight st, action)
