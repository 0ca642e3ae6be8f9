-- ===== src/Attribution/Apply.antt =====
-- cact/attribution.py: the writes of `apply_attribution_to_lifecycle`, and those of `record_episode`.
use aaai.Prelude.{
  ◌≡◌, refl, ◌∙◌, String, Bool, true, false, ◌&&◌, ◌||◌, Option, Bool-cases, if◌then◌else◌, arith,
  inl, inr,
}
use aaai.Float.{Float, Sampler, lit}
use aaai.Store.{
  TrustStore, Method, Observation, get_stats, stats_of, effective_prior, base_prior, get_contract,
  total_count, record_use, record_harm,
}
use aaai.Store.Record.{
  append_observation, update_lifecycle, auto_transition, transition_thresholds, record_episode,
  add_episode, episode_weight, episode_propensity, uplift_probability, harm_upper_bound, ucb,
}
use aaai.Attribution.Fault.{is_broken, attribute_failed, should_penalize-attribute}
use aaai.Attribution.{
  AttributionLabel, knowledge_caused_success, base_would_succeed, base_also_failed,
  environment_failure, navigation_failure, execution_failure, resource_conflict, contract_violation,
  chain_failure, harmful_reuse, uncertain, Signals, attribute, should_penalize, should_reward,
  should_count_base, is_no_fault, action_of, apply_use, apply_action,
  apply_attribution_to_lifecycle, attribution_weight,
}

module _ {F : Type 0} ⦃o : Float F⦄ where
  -- A read is the same in a store that remembers one more observation.
  get_stats-append :
      (ob : Observation F) (kid context stat : String) (st : TrustStore F)
      → get_stats kid context stat (append_observation ob st) ≡ (
        (get_stats kid context stat st).0,
        append_observation ob (get_stats kid context stat st).1,
      )
  unfolding get_stats append_observation stats_of effective_prior base_prior get_contract
  get_stats-append ob kid context stat st = ground arith

  effective_prior-append :
      (ob : Observation F) (kid stat : String) (st : TrustStore F)
      → effective_prior (append_observation ob st) stat kid ≡ effective_prior st stat kid
  unfolding effective_prior base_prior append_observation get_contract
  effective_prior-append ob kid stat st = ground arith

-- A method that neither reads nor writes the observations.
abbrev IsBlind : {F A : Type 0} ⦃o : Float F⦄ → Observation F → Method F A → Type 0
IsBlind {F} ob m =
    (st : TrustStore F) → m (append_observation ob st) ≡ ((m st).0, append_observation ob (m st).1)

module _ {F : Type 0} ⦃o : Float F⦄ where
  total_count-IsBlind :
      (ob : Observation F) (kid context stat : String) → IsBlind ob (total_count kid context stat)
  unfolding total_count
  total_count-IsBlind ob kid context stat st =
      simp (get_stats-append ob kid context stat, effective_prior-append ob kid stat) refl

module _ {F : Type 0} ⦃o : Float F⦄ ⦃s : Sampler F⦄ where
  uplift_probability-IsBlind :
      (ob : Observation F) (kid context : String) (delta : F)
      → IsBlind ob (uplift_probability kid context delta)
  unfolding uplift_probability
  uplift_probability-IsBlind ob kid context delta st = simp (get_stats-append ob kid context) refl

  harm_upper_bound-IsBlind :
      (ob : Observation F) (kid context : String) (q : F)
      → IsBlind ob (harm_upper_bound kid context q)
  unfolding harm_upper_bound ucb
  harm_upper_bound-IsBlind ob kid context q st = simp (get_stats-append ob kid context) refl

  auto_transition-append :
      (ob : Observation F) (kid : String) (n pi hu : F) (st : TrustStore F)
      → auto_transition kid n pi hu (append_observation ob st)
        ≡ append_observation ob (auto_transition kid n pi hu st)
  unfolding auto_transition transition_thresholds get_contract append_observation
  auto_transition-append ob kid n pi hu st = ground arith

  update_lifecycle-append :
      (ob : Observation F) (kid context : String) (st : TrustStore F)
      → update_lifecycle kid context (append_observation ob st)
        ≡ append_observation ob (update_lifecycle kid context st)
  unfolding update_lifecycle
  update_lifecycle-append ob kid context st =
      rw
        (
          total_count-IsBlind ob kid context "use" st,
          uplift_probability-IsBlind ob kid context (lit 5 2) _,
          harm_upper_bound-IsBlind ob kid context (lit 95 2) _,
        )
        (auto_transition-append ob kid _ _ _ _)

  transitions-append :
      (ob : Observation F) (kid context : String) (st : TrustStore F)
      → (if (append_observation ob st).abl_lifecycle
          then update_lifecycle kid context (append_observation ob st)
          else append_observation ob st)
        ≡ append_observation ob (if st.abl_lifecycle then update_lifecycle kid context st else st)
  unfolding append_observation
  transitions-append ob kid context st = go st.abl_lifecycle
    where
      go :
          (b : Bool)
          → (if b
              then update_lifecycle kid context (append_observation ob st)
              else append_observation ob st)
            ≡ append_observation ob (if b then update_lifecycle kid context st else st)
      go true = update_lifecycle-append ob kid context st
      go false = refl

  apply_action_of_use :
      (label : AttributionLabel) (kid context : String) (success is_harmful weight : F)
      (st : TrustStore F)
      → (should_reward label || should_penalize label) ≡ true
      → apply_action (action_of label) kid context success is_harmful weight st
        ≡ apply_use kid context success is_harmful weight st
  unfolding action_of apply_action should_reward should_penalize
  apply_action_of_use knowledge_caused_success kid context su ha w st h = refl
  apply_action_of_use harmful_reuse kid context su ha w st h = refl
  apply_action_of_use contract_violation kid context su ha w st h = refl
  apply_action_of_use chain_failure kid context su ha w st h = refl
  apply_action_of_use base_would_succeed kid context su ha w st h = cc
  apply_action_of_use base_also_failed kid context su ha w st h = cc
  apply_action_of_use environment_failure kid context su ha w st h = cc
  apply_action_of_use navigation_failure kid context su ha w st h = cc
  apply_action_of_use execution_failure kid context su ha w st h = cc
  apply_action_of_use resource_conflict kid context su ha w st h = cc
  apply_action_of_use uncertain kid context su ha w st h = cc

  attribution_weight_of_use :
      (label : AttributionLabel) (propensity : Option F)
      → (should_reward label || should_penalize label) ≡ true
      → attribution_weight label propensity ≡ episode_weight true propensity
  unfolding attribution_weight episode_weight episode_propensity should_reward should_penalize
      should_count_base
  attribution_weight_of_use label propensity h = ground arith

  add_episode_of_use :
      (ob : Observation F) (st : TrustStore F)
      → ob.used ≡ true
      → add_episode ob st
        ≡ record_harm ob.kid ob.context ob.is_harmful
            (episode_weight true ob.propensity)
            (record_use ob.kid ob.context ob.success (episode_weight true ob.propensity) st)
  unfolding add_episode
  add_episode_of_use ob st used = simp used refl

  -- For an outcome that is rewarded or penalised, `record_episode` on the same use does what
  -- `apply_attribution_to_lifecycle` does, and remembers the observation as well.
  pub record_episode-apply :
      (ob : Observation F) (label : AttributionLabel) (st : TrustStore F)
      → ob.used ≡ true
      → (should_reward label || should_penalize label) ≡ true
      → record_episode ob st
        ≡ append_observation ob
            (apply_attribution_to_lifecycle ob.kid label ob.success ob.is_harmful ob.context
              ob.propensity st).0
  unfolding record_episode apply_attribution_to_lifecycle apply_use
  record_episode-apply ob label st used h =
      rw
        (
          add_episode_of_use ob st used,
          apply_action_of_use label ob.kid ob.context ob.success ob.is_harmful _ st h,
          attribution_weight_of_use label ob.propensity h,
        )
        (transitions-append ob ob.kid ob.context _)

  apply_action_of_rest :
      (label : AttributionLabel) (kid context : String) (success is_harmful weight : F)
      (st : TrustStore F)
      → should_reward label ≡ false
      → should_penalize label ≡ false
      → should_count_base label ≡ false
      → apply_action (action_of label) kid context success is_harmful weight st ≡ st
  unfolding action_of
  apply_action_of_rest label kid context su ha w st r p b =
      rw (r, p, b)
        (elim (Bool-cases (is_no_fault label)) [
          | inl e ↦ rw e (unfold apply_action in refl)
          | inr e ↦ rw e (unfold apply_action in refl)
        ])

  -- A failed task for which the knowledge is not at fault leaves the store as it was: the knowledge
  -- was not used, or it did no harm, kept its contract, met no conflict and broke no postcondition.
  pub apply-blameless :
      (e : Signals F) (kid context : String) (success is_harmful : F) (propensity : Option F)
      (st : TrustStore F)
      → e.success ≡ false
      → (e.used_knowledge
          && (e.is_harmful
              || e.contract_violated
              || e.interaction_conflict
              || is_broken e.postcondition_satisfied))
        ≡ false
      → (apply_attribution_to_lifecycle kid
          (attribute e)
          success
          is_harmful
          context
          propensity
          st).0
        ≡ st
  unfolding apply_attribution_to_lifecycle
  apply-blameless e kid context su ha p st h k =
      apply_action_of_rest (attribute e) kid context su ha _ st (attribute_failed e h).0
        (should_penalize-attribute e ∙ ground arith) (attribute_failed e h).1
