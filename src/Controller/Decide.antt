-- ===== src/Controller/Decide.antt =====
-- cact/decision_controller.py: step 5 of `decide`, and the whole of it.
use aaai.Prelude.{
  String, ◌&&◌, Option, some, List, if◌then◌else◌, or_else, is_nil, Dict, length, map, leb,
}
use aaai.Float.{Float, Sampler}
use aaai.State.{State}
use aaai.Contract.{ContractDict}
use aaai.Store.{get_all_pair_stats}
use aaai.Store.Record.{decay_all}
use aaai.Interaction.{ItemStats, ChainAdvice, interaction_safe, single_best_only, fall_back}
use aaai.Interaction.Chain.{check_chain, safe, recommendation, recommended_combos}
use aaai.Controller.{
  DecisionResult, DecisionController, Scored, context_key, contract_filter, score_all,
  sort_by_uplift, chain_stats,
}
use aaai.Controller.Choose.{blank_result, choose}
use aaai.Controller.ActiveOps.{apply_active_ops, is_active_mode}

-- `chain_check["recommendation"]`
unfoldable pub advice_text : ChainAdvice → String
advice_text interaction_safe = "interaction_safe"
advice_text single_best_only = "single_best_only"
advice_text fall_back = "force_fallback"

module _ {F : Type 0} ⦃o : Float F⦄ ⦃s : Sampler F⦄ where
  -- Step 5: with two items or more, the pairs of the chain are checked.
  unfoldable pub check_interactions :
      DecisionController F
      → Dict String
      → List (Scored F)
      → List (ItemStats F)
      → DecisionResult F
      → DecisionController F × DecisionResult F
  check_interactions ctl context chain stats r =
      let (pairs, store) =
        get_all_pair_stats (map (λ c. c.knowledge_id) chain) (context_key context) ctl.store in
      let (report, seed) = check_chain ctl.ig pairs context stats ctl.seed in
      if ctl.abl_interaction && leb 2 (length chain)
      then (
        record ctl { store = store; seed = seed },
        record r {
          interaction_safe = safe report;
          interaction_state = advice_text (recommendation report);
          synergy_pairs = recommended_combos ctl.ig report;
        },
      )
      else (ctl, r)

  -- Steps 4 to 7, on the items that step 3 has scored.
  unfoldable pub decide_scored :
      DecisionController F
      → DecisionResult F
      → List (Scored F)
      → State F
      → Dict String
      → String
      → DecisionResult F × DecisionController F
  decide_scored ctl r scored st context mode =
      let chain = sort_by_uplift scored in
      let (stats, store) = chain_stats (context_key context) chain ctl.store in
      let (ctl', r') =
        check_interactions (record ctl { store = store }) context chain stats
          (record r { scored_count = length scored; chain_length = length chain }) in
      let chosen = choose r' scored chain in
      if is_active_mode ctl mode
      then apply_active_ops ctl' chosen scored st context
      else (chosen, ctl')

  -- `decide`. `task_group` is `task.get("group")`.
  unfoldable pub decide :
      DecisionController F
      → List (ContractDict F)
      → State F
      → Option String
      → Dict String
      → String
      → DecisionResult F × DecisionController F
  decide ctl candidates st task_group context mode =
      let valid = if ctl.abl_contract then contract_filter candidates st context else candidates in
      let r = record blank_result { filtered_count = length valid } in
      let store = if ctl.store.abl_decay then decay_all ctl.store else ctl.store in
      let (scored, store') =
        score_all ctl.gate (some (or_else task_group "crafting")) st context valid store in
      if is_nil valid
      then (r, ctl)
      else decide_scored (record ctl { store = store' }) r scored st context mode
