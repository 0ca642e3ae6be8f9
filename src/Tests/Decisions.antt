-- ===== src/Tests/Decisions.antt =====
-- Runs of the decision, and the theorems about it at concrete inputs.
use aaai.Prelude.{
  get, ℕ, ◌≡◌, refl, String, Bool, true, false, Option, none, some, List, [], ◌∷◌, ◌↔◌, ◌⊎◌,
  or_else, All,
}
use aaai.Prelude.Int.{ℤ}
use aaai.Float.Scaled.{scaled_float, scaled_sampler}
use aaai.Contract.{ContractDict, to_dict, eval_condition}
use aaai.Controller.{
  DecisionResult, DecisionController, fallback, reuse, at_high_risk, passes_contract,
  contract_filter,
}
use aaai.Controller.Decide.{decide}
use aaai.Controller.Sound.{IsSound, eligible, group_of_task}
use aaai.Controller.Filter.{IsAllowed, contract_filter_iff, passes_contract-to_dict}
use aaai.Controller.Outcome.{decide-IsSound, decide-evaluation, decide-high_risk}
use aaai.Tests.Data.{
  smelting, smelt_candidate, torch_candidate, at_furnace, iron_context, danger_context, controller,
}

abbrev candidates : List (ContractDict ℤ)
candidates = smelt_candidate ∷ torch_candidate ∷ []

-- The outcome and the controller after it, in evaluation mode at a furnace.
abbrev evaluated : DecisionResult ℤ × DecisionController ℤ
evaluated = decide controller candidates at_furnace none iron_context "evaluation"

-- The same online, at high risk.
abbrev in_danger : DecisionResult ℤ × DecisionController ℤ
in_danger = decide controller candidates at_furnace none danger_context "online"

-- The item with a successful use behind it is reused.
smelt-reused : evaluated.0.decision ≡ reuse
unfolding aaai.Controller.context_key aaai.Controller.dict_to_contract
    aaai.Controller.passes_contract aaai.Controller.contract_filter aaai.Controller.contract_check
    aaai.Controller.judge aaai.Controller.score_item aaai.Controller.score_all
    aaai.Controller.insert_by_uplift aaai.Controller.sort_by_uplift aaai.Controller.item_stats
    aaai.Controller.chain_stats aaai.Controller.Choose.first_certified
    aaai.Controller.Choose.conclude aaai.Controller.Choose.choose
    aaai.Controller.Decide.check_interactions aaai.Controller.Decide.decide_scored
    aaai.Controller.Decide.decide aaai.Contract.or_if_nil aaai.Contract.get_scope
    aaai.Contract.get_safety_boundaries aaai.Contract.matches_scope aaai.Contract.check_scope_match
    aaai.Contract.eval_condition aaai.Contract.violations aaai.Contract.check_preconditions
    aaai.Contract.eval_context_flag aaai.Contract.triggered aaai.Contract.check_hard_boundary
    aaai.State.read aaai.State.truthy aaai.State.is_set aaai.Store.make_key aaai.Store.pair_id
    aaai.Store.empty_store aaai.Store.register_contract aaai.Store.get_contract
    aaai.Store.base_prior aaai.Store.effective_prior aaai.Store.stats_of aaai.Store.get_stats
    aaai.Store.add_evidence aaai.Store.record_use aaai.Store.record_harm aaai.Store.total_count
    aaai.Store.get_joint_stats aaai.Store.pair_row aaai.Store.get_all_pair_stats
    aaai.Store.Record.share_above aaai.Store.Record.clip_propensity
    aaai.Store.Record.episode_propensity aaai.Store.Record.episode_weight
    aaai.Store.Record.append_observation aaai.Store.Record.add_episode aaai.Store.Record.decay_entry
    aaai.Store.Record.decay_all aaai.Store.Record.get_lifecycle_state aaai.Store.Record.lcb
    aaai.Store.Record.ucb aaai.Store.Record.sample_uplift aaai.Store.Record.uplift_probability
    aaai.Store.Record.uplift_lcb aaai.Store.Record.harm_upper_bound
    aaai.Store.Record.auto_transition aaai.Store.Record.update_lifecycle
    aaai.Store.Record.record_episode aaai.Lifecycle.value aaai.Lifecycle.of_value
    aaai.Lifecycle.state_order aaai.Lifecycle.is_disabled aaai.Lifecycle.get_state
    aaai.Lifecycle.target_state aaai.Lifecycle.is_backward aaai.Lifecycle.log_transition
    aaai.Lifecycle.move aaai.Lifecycle.transition aaai.Lifecycle.next_state
    aaai.Lifecycle.evaluate_auto_transition aaai.Gate.is_blocked aaai.Gate.empty_gate
    aaai.Gate.thresholds aaai.Gate.supervise aaai.Gate.check_evidence aaai.Gate.evaluate
    aaai.Decay.new_decay aaai.Decay.default_decay aaai.Decay.decay_params aaai.Bayes.stat_of
    aaai.Bayes.default_bayes aaai.Bayes.shrink aaai.Bayes.get_prior aaai.Text.occurs aaai.Text.strip
    aaai.Text.split_once aaai.Text.before_bar aaai.Text.after_last_bar aaai.Prelude.get
    aaai.Prelude.put aaai.Float.py_max aaai.Float.py_min aaai.Float.clamp
    aaai.Interaction.insufficient aaai.Interaction.check_pair aaai.Interaction.Chain.pairs_with
    aaai.Interaction.Chain.pairs_of aaai.Interaction.Chain.is_refusal
    aaai.Interaction.Chain.is_conflict aaai.Interaction.Chain.is_synergy
    aaai.Interaction.Chain.joint_of aaai.Interaction.Chain.file_result
    aaai.Interaction.Chain.file_results aaai.Interaction.Chain.safe
    aaai.Interaction.Chain.check_pairs aaai.Interaction.Chain.check_chain
    aaai.Controller.ActiveOps.is_active_mode
smelt-reused = refl

decide-IsSound_example :
    IsSound controller.gate
      (group_of_task none)
      iron_context
      (eligible at_furnace iron_context controller candidates)
      evaluated.0
decide-IsSound_example =
    decide-IsSound at_furnace iron_context "evaluation" controller candidates none smelt-reused

decide-evaluation_example :
    ((evaluated.0.decision ≡ reuse) ⊎ (evaluated.0.decision ≡ fallback))
    × (evaluated.1.al ≡ controller.al)
    × (evaluated.1.tp ≡ controller.tp)
decide-evaluation_example =
    decide-evaluation at_furnace iron_context "evaluation" controller candidates none refl

high_risk : at_high_risk danger_context ≡ true
unfolding at_high_risk get
high_risk = refl

decide-high_risk_example : (in_danger.0.decision ≡ reuse) ⊎ (in_danger.0.decision ≡ fallback)
decide-high_risk_example =
    decide-high_risk at_furnace danger_context "online" controller candidates none high_risk

contract_filter_iff_example :
    ((passes_contract at_furnace iron_context smelt_candidate ≡ true)
      ↔ IsAllowed at_furnace iron_context smelt_candidate)
    × All (IsAllowed at_furnace iron_context) (contract_filter candidates at_furnace iron_context)
contract_filter_iff_example = contract_filter_iff at_furnace iron_context candidates smelt_candidate

passes_contract-to_dict_example :
    (passes_contract at_furnace iron_context (to_dict smelting) ≡ true)
    ↔ All (λ cond. eval_condition cond at_furnace ≡ true) smelting.preconditions
passes_contract-to_dict_example = passes_contract-to_dict at_furnace iron_context smelting
