-- ===== src/Controller/Outcome.antt =====
-- cact/decision_controller.py, `decide` as a whole: what a reuse means, and which decisions there are.
use aaai.Prelude.{
  if_elim, String, ◌≡◌, refl, Bool, true, false, Option, none, List, ◌⊎◌, Dict, is_nil, All, arith,
  if◌then◌else◌, inl, inr, length,
}
use aaai.Float.{Float, Sampler}
use aaai.State.{State}
use aaai.Contract.{ContractDict}
use aaai.Interaction.{ItemStats}
use aaai.Controller.{
  fallback, reuse, DecisionResult, DecisionController, Scored, at_high_risk, sort_by_uplift,
  chain_stats, context_key,
}
use aaai.Controller.Choose.{choose, blank_result}
use aaai.Controller.ActiveOps.{apply_active_ops, is_active_mode}
use aaai.Controller.Decide.{check_interactions, decide_scored, decide}
use aaai.Controller.Scoring.{IsScored, score_all-IsScored, sort_by_uplift-All}
use aaai.Controller.Active.{Becomes, apply_active_ops-Becomes, apply_active_ops-high}
use aaai.Controller.Sound.{IsSound, eligible, group_of_task, choose-IsSound, choose-decision}

clash : (b : Bool) → b ≡ false → b ≡ true → ⊥
clash b h k = cc

module _ {F : Type 0} ⦃o : Float F⦄ ⦃s : Sampler F⦄ (st : State F) (context : Dict String)
    (mode : String) where
  check_interactions-keeps :
      (ctl : DecisionController F) (chain : List (Scored F)) (stats : List (ItemStats F))
      (r : DecisionResult F)
      → ((check_interactions ctl context chain stats r).0.al ≡ ctl.al)
        × ((check_interactions ctl context chain stats r).0.tp ≡ ctl.tp)
  unfolding check_interactions
  check_interactions-keeps ctl chain stats r =
      if_elim {A = DecisionController F × DecisionResult F}
        (λ x. (x.0.al ≡ ctl.al) × (x.0.tp ≡ ctl.tp)) _ _ _ (refl, refl) (refl, refl)

  -- What holds of the decision before step 7, and survives it, holds of the result.
  decide_scored-by :
      (P : DecisionResult F × DecisionController F → Type 0) (ctl : DecisionController F)
      (r : DecisionResult F) (scored : List (Scored F))
      → ((r' : DecisionResult F) (ctl' : DecisionController F)
          → (ctl'.al ≡ ctl.al) × (ctl'.tp ≡ ctl.tp)
          → P (choose r' scored (sort_by_uplift scored), ctl')
            × (is_active_mode ctl mode ≡ true
                → P (
                    apply_active_ops ctl'
                      (choose r' scored (sort_by_uplift scored))
                      scored
                      st
                      context)))
      → P (decide_scored ctl r scored st context mode)
  unfolding decide_scored
  decide_scored-by P ctl r scored h =
      go (is_active_mode ctl mode) refl
        (check_interactions
          (record ctl {
            store = (chain_stats (context_key context) (sort_by_uplift scored) ctl.store).1;
          })
          context (sort_by_uplift scored)
          (chain_stats (context_key context) (sort_by_uplift scored) ctl.store).0
          (record r {
            scored_count = length scored;
            chain_length = length (sort_by_uplift scored);
          }))
        (check_interactions-keeps
          (record ctl {
            store = (chain_stats (context_key context) (sort_by_uplift scored) ctl.store).1;
          })
          _ _ _)
    where
      go :
          (b : Bool)
          → is_active_mode ctl mode ≡ b
          → (x : DecisionController F × DecisionResult F) → (x.0.al ≡ ctl.al) × (x.0.tp ≡ ctl.tp)
          → P (
              if b
              then apply_active_ops x.0
                  (choose x.1 scored (sort_by_uplift scored))
                  scored
                  st
                  context
              else (choose x.1 scored (sort_by_uplift scored), x.0))
      go true e x k = (h x.1 x.0 k).1 e
      go false e x k = (h x.1 x.0 k).0

  inactive : (ctl : DecisionController F) → mode ≡ "evaluation" → is_active_mode ctl mode ≡ false
  unfolding is_active_mode
  inactive ctl e = rw e (ground arith)

  reuse-of_Becomes : (r x : DecisionResult F) → Becomes r x → x.decision ≡ reuse → x ≡ r
  reuse-of_Becomes r x (inl e) d = e
  reuse-of_Becomes r x (inr (inl e)) d = cc
  reuse-of_Becomes r x (inr (inr e)) d = cc

  decide_scored-IsSound :
      (ctl : DecisionController F) (r : DecisionResult F) (group : Option String)
      (us : List (ContractDict F)) (scored : List (Scored F))
      → All (IsScored ctl.gate group context us) scored
      → (decide_scored ctl r scored st context mode).0.decision ≡ reuse
      → IsSound ctl.gate group context us (decide_scored ctl r scored st context mode).0
  decide_scored-IsSound ctl r group us scored h =
      decide_scored-by (λ x. x.0.decision ≡ reuse → IsSound ctl.gate group context us x.0) ctl r
        scored
        λ r' ctl' k. (
          sound r',
          λ _ d.
              let chosen = choose r' scored (sort_by_uplift scored) in
              let e =
                reuse-of_Becomes chosen (apply_active_ops ctl' chosen scored st context).0
                  (apply_active_ops-Becomes chosen scored st context ctl') d in
              rw e (sound r' (rw e at d)),
        )
    where
      sound :
          (r' : DecisionResult F)
          → (choose r' scored (sort_by_uplift scored)).decision ≡ reuse
          → IsSound ctl.gate group context us (choose r' scored (sort_by_uplift scored))
      sound r' =
          choose-IsSound ctl.gate group context us r' scored (sort_by_uplift scored)
            (sort_by_uplift-All (IsScored ctl.gate group context us) scored h)

  -- A decision to reuse, in any mode, names a candidate that is eligible; the gate admits the evidence
  -- and the lifecycle state that the result logs for it, with the contract met and the pairs of the
  -- chain safe; and the item is not in probation in a high-risk context.
  pub decide-IsSound :
      (ctl : DecisionController F) (candidates : List (ContractDict F)) (task_group : Option String)
      → (decide ctl candidates st task_group context mode).0.decision ≡ reuse
      → IsSound ctl.gate
          (group_of_task task_group)
          context
          (eligible st context ctl candidates)
          (decide ctl candidates st task_group context mode).0
  unfolding decide blank_result
  decide-IsSound ctl candidates task_group =
      let group = group_of_task task_group in
      let us = eligible st context ctl candidates in
      if_elim {A = DecisionResult F × DecisionController F}
        (λ x. x.0.decision ≡ reuse → IsSound ctl.gate group context us x.0) (is_nil us) _ _
        (λ d. cc d)
        (decide_scored-IsSound _ _ group us _ (score_all-IsScored ctl.gate group context st us _))

  -- In evaluation mode the decision is a reuse or a fallback, and neither the base logger nor the
  -- prober changes.
  pub decide-evaluation :
      (ctl : DecisionController F) (candidates : List (ContractDict F)) (task_group : Option String)
      → mode ≡ "evaluation"
      → (((decide ctl candidates st task_group context mode).0.decision ≡ reuse)
          ⊎ ((decide ctl candidates st task_group context mode).0.decision ≡ fallback))
        × ((decide ctl candidates st task_group context mode).1.al ≡ ctl.al)
        × ((decide ctl candidates st task_group context mode).1.tp ≡ ctl.tp)
  unfolding decide blank_result
  decide-evaluation ctl candidates task_group e =
      if_elim {A = DecisionResult F × DecisionController F}
        (λ x.
          ((x.0.decision ≡ reuse) ⊎ (x.0.decision ≡ fallback))
          × (x.1.al ≡ ctl.al)
          × (x.1.tp ≡ ctl.tp))
        _ _ _ (inr refl, refl, refl)
        (decide_scored-by
          (λ x.
            ((x.0.decision ≡ reuse) ⊎ (x.0.decision ≡ fallback))
            × (x.1.al ≡ ctl.al)
            × (x.1.tp ≡ ctl.tp))
          _ _ _
          λ r' ctl' k. (
            (choose-decision ctl.gate none context r' _ _, k.0, k.1),
            λ active. absurd (clash _ (inactive _ e) active),
          ))

  -- In a high-risk context the decision is a reuse or a fallback in every mode: nothing is forced or
  -- probed there.
  pub decide-high_risk :
      (ctl : DecisionController F) (candidates : List (ContractDict F)) (task_group : Option String)
      → at_high_risk context ≡ true
      → ((decide ctl candidates st task_group context mode).0.decision ≡ reuse)
        ⊎ ((decide ctl candidates st task_group context mode).0.decision ≡ fallback)
  unfolding decide blank_result
  decide-high_risk ctl candidates task_group h =
      if_elim {A = DecisionResult F × DecisionController F}
        (λ x. (x.0.decision ≡ reuse) ⊎ (x.0.decision ≡ fallback)) _ _ _ (inr refl)
        (decide_scored-by (λ x. (x.0.decision ≡ reuse) ⊎ (x.0.decision ≡ fallback)) _ _ _
          λ r' ctl' k. (
            choose-decision ctl.gate none context r' _ _,
            λ active.
                rw (apply_active_ops-high (choose r' _ _) _ st context ctl' h)
                  (choose-decision ctl.gate none context r' _ _),
          ))
