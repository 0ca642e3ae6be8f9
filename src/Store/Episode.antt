-- ===== src/Store/Episode.antt =====
-- cact/trust_store.py, `record_episode`: what a later read of the item sees.
use aaai.Prelude.{
  subst, not, ◌&&◌, ◌==◌, eq_iff, if◌then◌else◌, if_elim, ◌∙◌, ap, ◌≡◌, refl, String, Bool, true,
  false, Option, none, some, List, get, or_else, Bool-cases, inl, inr,
}
use aaai.Float.{Float, Sampler, lit, ◌⊕◌, ◌⊖◌, ◌⊗◌}
use aaai.Text.{has_bar}
use aaai.Contract.{ContractDict}
use aaai.Lifecycle.{LifecycleState, LifecycleManager, transition, member, evaluate_auto_transition}
use aaai.Store.{
  TrustStore, Observation, make_key, get_contract, base_prior, effective_prior, stats_of,
  total_count, record_use, record_base, record_harm,
}
use aaai.Store.Record.{
  episode_weight, uplift_probability, add_episode, append_observation, auto_transition,
  update_lifecycle, record_episode, transition_thresholds,
}
use aaai.Store.Reads.{total_count-ReadsAlike, queries-stats_of}
use aaai.Store.Evidence.{with_evidence, add_evidence-read}

module _ {F : Type 0} ⦃o : Float F⦄ where
  -- A read does not depend on the observations and the lifecycle.
  base_prior-rest :
      (st : TrustStore F) (obs : List (Observation F)) (m : LifecycleManager) (kid stat : String)
      (c : Option (ContractDict F))
      → base_prior (record st { observations = obs; lifecycle = m }) kid c stat
        ≡ base_prior st kid c stat
  unfolding base_prior
  base_prior-rest st obs m kid stat none = refl
  base_prior-rest st obs m kid stat (some c) = refl

  stats_of-rest :
      (st : TrustStore F) (obs : List (Observation F)) (m : LifecycleManager)
      (kid context stat : String)
      → stats_of (record st { observations = obs; lifecycle = m }) kid context stat
        ≡ stats_of st kid context stat
  unfolding stats_of effective_prior get_contract
  stats_of-rest st obs m kid context stat =
      ap
        (λ (p : F × F). or_else (get st.posteriors (make_key kid context stat)) (
          lit 10 1 ⊕ st.prior_strength ⊗ (p.0 ⊖ lit 10 1),
          lit 10 1 ⊕ st.prior_strength ⊗ (p.1 ⊖ lit 10 1),
        ))
        (base_prior-rest st obs m kid stat (get st.contracts kid))

  -- A posterior of the item after the episode: in its context the use and the harm of a used item, else
  -- the base, take the outcome with the weight of the episode.
  abbrev pub after_episode : Observation F → String → String → F × F → F × F
  after_episode ob context stat before =
      let weight = episode_weight ob.used ob.propensity in
      if not (ob.context == context)
      then before
      else if ob.used && "use" == stat
      then with_evidence weight ob.success before
      else if ob.used && "harm" == stat
      then with_evidence weight ob.is_harmful before
      else if not ob.used && "base" == stat
      then with_evidence weight ob.success before
      else before

  -- Two writes, of which at most one is of the key that is read.
  after_both :
      (c u h b : Bool) (weight x y : F) (before one : F × F)
      → (u && h) ≡ false
      → one ≡ (if c && u then with_evidence weight x before else before)
      → (if c && h then with_evidence weight y one else one) ≡ (
          if not c
          then before
          else if true && u
          then with_evidence weight x before
          else if true && h
          then with_evidence weight y before
          else if not true && b
          then with_evidence weight x before
          else before)
  after_both false u h b weight x y before one k e = e
  after_both true true true b weight x y before one k e = absurd (cc k)
  after_both true true false b weight x y before one k e = e
  after_both true false true b weight x y before one k e = ap (with_evidence weight y) e
  after_both true false false b weight x y before one k e = e

  after_one :
      (c u h b : Bool) (weight x y : F) (before : F × F)
      → (if c && b then with_evidence weight x before else before) ≡ (
          if not c
          then before
          else if false && u
          then with_evidence weight x before
          else if false && h
          then with_evidence weight y before
          else if not false && b
          then with_evidence weight x before
          else before)
  after_one false u h b weight x y before = refl
  after_one true u h true weight x y before = refl
  after_one true u h false weight x y before = refl

  add_episode-stats_of :
      (ob : Observation F) (st : TrustStore F) (context stat : String)
      → has_bar ob.kid ≡ false
      → has_bar stat ≡ false
      → stats_of (add_episode ob st) ob.kid context stat
        ≡ after_episode ob context stat (stats_of st ob.kid context stat)
  unfolding add_episode record_use record_harm record_base has_bar
  add_episode-stats_of ob st context stat hk hs = elim (Bool-cases ob.used) [
    | inl e ↦
        rw (after_episode, e)
          (add_evidence-read ob.kid ob.context "harm" ob.is_harmful _ _ context stat hk refl hs
            ∙ after_both (ob.context == context) ("use" == stat) ("harm" == stat) ("base" == stat) _
                _ _ _ _ apart
                (add_evidence-read ob.kid ob.context "use" ob.success _ st context stat hk refl hs))
    | inr e ↦
        rw (after_episode, e)
          (add_evidence-read ob.kid ob.context "base" ob.success _ st context stat hk refl hs
            ∙ after_one (ob.context == context) ("use" == stat) ("harm" == stat) ("base" == stat) _
                _ ob.is_harmful _)
  ]
    where
      apart : ("use" == stat && "harm" == stat) ≡ false
      apart = elim (Bool-cases ("use" == stat)) [
        | inl u ↦ subst (λ t. ("use" == t && "harm" == t) ≡ false) ((eq_iff "use" stat).0 u) refl
        | inr u ↦ rw u refl
      ]

module _ {F : Type 0} ⦃o : Float F⦄ ⦃s : Sampler F⦄ where
  auto_transition-stats_of :
      (kid : String) (n pi hu : F) (st : TrustStore F) (kid' context stat : String)
      → stats_of (auto_transition kid n pi hu st) kid' context stat ≡ stats_of st kid' context stat
  unfolding auto_transition
  auto_transition-stats_of kid n pi hu st kid' context stat = go (
      evaluate_auto_transition st.lifecycle kid pi hu (transition_thresholds st kid).0
        (transition_thresholds st kid).1 (o.trunc n) 0 0)
    where
      go :
          (x : Option LifecycleState)
          → stats_of
              (elim x [
                | none ↦ st
                | some new ↦ record st {
                  lifecycle =
                      (transition st.lifecycle kid (member new) "auto_after_observation" List.[]).0;
                }
              ])
              kid'
              context
              stat
            ≡ stats_of st kid' context stat
      go none = refl
      go (some new) = stats_of-rest st st.observations _ kid' context stat

  update_lifecycle-stats_of :
      (kid context : String) (st : TrustStore F) (context' stat : String)
      → has_bar kid ≡ false
      → has_bar stat ≡ false
      → stats_of (update_lifecycle kid context st) kid context' stat ≡ stats_of st kid context' stat
  unfolding update_lifecycle has_bar
  update_lifecycle-stats_of kid context st context' stat hk hs =
      let st1 = (total_count kid context "use" st).1 in
      let st2 = (uplift_probability kid context (lit 5 2) st1).1 in
      auto_transition-stats_of kid _ _ _ _ kid context' stat
      ∙ (queries-stats_of kid context st2 (lit 5 2) (lit 95 2) kid context' stat hk hk hs).2
      ∙ (queries-stats_of kid context st1 (lit 5 2) (lit 95 2) kid context' stat hk hk hs).0
      ∙ total_count-ReadsAlike kid context "use" st hk refl kid context' stat hk hs

  -- What is read of an item after an episode of it is what was read before, in whatever context and of
  -- whatever statistic, but for one addition: in the context of the episode, use and harm of an item that
  -- was used, or base of one that was not, have taken the outcome with the weight of the episode, as
  -- long as the identifier and the name of the statistic hold no bar.
  pub record_episode-after_episode :
      (ob : Observation F) (st : TrustStore F) (context stat : String)
      → has_bar ob.kid ≡ false
      → has_bar stat ≡ false
      → stats_of (record_episode ob st) ob.kid context stat
        ≡ after_episode ob context stat (stats_of st ob.kid context stat)
  unfolding record_episode append_observation
  record_episode-after_episode ob st context stat hk hs =
      let recorded = append_observation ob (add_episode ob st) in
      let read =
        stats_of-rest (add_episode ob st) recorded.observations recorded.lifecycle ob.kid context
          stat
        ∙ add_episode-stats_of ob st context stat hk hs in
      if_elim
        (λ (end : TrustStore F).
          stats_of end ob.kid context stat
          ≡ after_episode ob context stat (stats_of st ob.kid context stat))
        recorded.abl_lifecycle (update_lifecycle ob.kid ob.context recorded) recorded
        (update_lifecycle-stats_of ob.kid ob.context recorded context stat hk hs ∙ read) read
