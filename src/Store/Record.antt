-- ===== src/Store/Record.antt =====
-- cact/trust_store.py: the posterior queries, `record_episode`, `decay_all` and the calibration data.
-- numpy's generator is seeded by a digest, so a query is a function of the store. The exceptions that
-- `get_calibration_data` catches come from numpy and scipy and are not modelled.
use aaai.Prelude.{
  ℕ, zero, ◌+◌, String, Bool, false, not, ◌&&◌, Option, none, some, List, [], ◌∷◌, ◌++◌, ◌==◌,
  if◌then◌else◌, or_else, Dict, get, put, length, map, filter_by,
}
use aaai.Float.{Float, Sampler, lit, ◌⊕◌, ◌⊖◌, ◌⊘◌, ◌≤?◌, ◌<?◌, py_max, py_min}
use aaai.Text.{before_bar, after_last_bar, has_bar}
use text.Mathlib.Text.{starts_with}
use aaai.Lifecycle.{value, get_state, member, transition, evaluate_auto_transition}
use aaai.Decay.{decay_params, adapt}
use aaai.Contract.{ContractDict}
use aaai.Gate.{Thresholds}
use aaai.Gate.Calibrate.{CalibRow}
use aaai.Store.{
  TrustStore, Observation, Method, ◌>>=◌, pure, gets, make_key, get_contract, default_prior,
  effective_prior, get_stats, record_use, record_base, record_harm, total_count,
}

module _ {F : Type 0} ⦃o : Float F⦄ where
  -- `np.mean(use > (base + delta))`
  count_above : F → List F → List F → ℕ
  count_above delta (u ∷ us) (b ∷ bs) =
      let rest = count_above delta us bs in if (b ⊕ delta) <? u then rest + 1 else rest
  count_above delta _ _ = 0

  unfoldable pub share_above : F → List F → List F → F
  unfolding count_above
  share_above delta us bs = lit (count_above delta us bs) 0 ⊘ lit (length us) 0

  unfoldable pub clip_propensity : F → F
  clip_propensity p = py_min (py_max p (lit 5 2)) (lit 95 2)

  -- The propensity that an episode is weighted by; without a logged one, that of a sure choice.
  unfoldable pub episode_propensity : Bool → Option F → F
  episode_propensity used propensity =
      clip_propensity (or_else propensity (if used then lit 10 1 else lit 0 1))

  -- The inverse propensity of the arm that was taken, 20 at most.
  unfoldable pub episode_weight : Bool → Option F → F
  episode_weight used propensity =
      let p = episode_propensity used propensity in
      py_min (lit 200 1) (lit 10 1 ⊘ (if used then p else lit 10 1 ⊖ p))

  -- The uplift and harm thresholds of an item: its group's if they are synced, else fixed ones.
  unfoldable pub transition_thresholds : TrustStore F → String → F × F
  transition_thresholds st kid =
      let group = or_else (group_of (get_contract st kid)) "crafting" in
      let own = get st.synced_thresholds group in
      (or_else (tau_of own) (lit 88 2), or_else (harm_of own) (lit 10 2))
    where
      group_of : Option (ContractDict F) → Option String
      group_of none = none
      group_of (some c) = c.group

      tau_of : Option (Thresholds F) → Option F
      tau_of none = none
      tau_of (some t) = some t.tau

      harm_of : Option (Thresholds F) → Option F
      harm_of none = none
      harm_of (some t) = some t.harm

  unfoldable pub append_observation : Observation F → TrustStore F → TrustStore F
  append_observation ob st = record st { observations = st.observations ++ ob ∷ [] }

  -- The evidence of one episode, weighted: use and harm of a used item, base of a fallback.
  unfoldable pub add_episode : Observation F → TrustStore F → TrustStore F
  add_episode ob st =
      let weight = episode_weight ob.used ob.propensity in
      if ob.used
      then record_harm ob.kid ob.context ob.is_harmful weight
          (record_use ob.kid ob.context ob.success weight st)
      else record_base ob.kid ob.context ob.success weight st

  -- One posterior, decayed towards its prior.
  unfoldable pub decay_entry : TrustStore F → String × (F × F) → String × (F × F)
  unfolding default_prior
  decay_entry st (k, (a, b)) =
      let kid = if has_bar k then before_bar k else "" in
      let stat = after_last_bar k in
      let (a0, b0) =
        if starts_with kid "pair:" then default_prior stat else effective_prior st stat kid in
      (k, decay_params st.decay a b a0 b0 1)

  unfoldable pub decay_all : TrustStore F → TrustStore F
  decay_all st = record st {
    posteriors = map (decay_entry st) st.posteriors;
    decay_events = st.decay_events + 1;
  }

  unfoldable pub adapt_decay : F → TrustStore F → TrustStore F
  adapt_decay e st = record st { decay = adapt st.decay e }

  unfoldable pub get_lifecycle_state : TrustStore F → String → String
  get_lifecycle_state st kid = value (get_state st.lifecycle kid)

module _ {F : Type 0} ⦃o : Float F⦄ ⦃s : Sampler F⦄ where
  unfoldable pub lcb : String → String → String → F → Method F F
  lcb kid context stat delta = do (a, b) ← get_stats kid context stat; pure (s.ppf delta a b)

  unfoldable pub ucb : String → String → String → F → Method F F
  ucb kid context stat delta = do
    (a, b) ← get_stats kid context stat
    pure (s.ppf (lit 10 1 ⊖ delta) a b)

  -- The two samples of 20000 draws.
  unfoldable pub sample_uplift : String → String → F → F × F → F × F → F
  sample_uplift kid context delta (a1, b1) (a2, b2) =
      let seed = s.digest_word (make_key kid context (s.show delta)) in
      let (use_draws, rng) =
        s.betas (py_max a1 (lit 1 6)) (py_max b1 (lit 1 6)) 20000 (s.default_rng seed) in
      let (base_draws, _) = s.betas (py_max a2 (lit 1 6)) (py_max b2 (lit 1 6)) 20000 rng in
      share_above delta use_draws base_draws

  unfoldable pub uplift_probability : String → String → F → Method F F
  uplift_probability kid context delta = do
    used ← get_stats kid context "use"
    base ← get_stats kid context "base"
    pure (sample_uplift kid context delta used base)

  unfoldable pub uplift_lcb : String → String → F → Method F F
  uplift_lcb kid context delta = do
    low ← lcb kid context "use" delta
    high ← ucb kid context "base" delta
    pure (low ⊖ high)

  unfoldable pub harm_upper_bound : String → String → F → Method F F
  harm_upper_bound kid context q = ucb kid context "harm" (lit 10 1 ⊖ q)

  unfoldable pub prob_harm_safe : String → String → F → Method F F
  prob_harm_safe kid context h_max = do
    (a, b) ← get_stats kid context "harm"
    pure (s.cdf h_max a b)

  -- `evaluate_auto_transition`, then `transition` if it proposes a state.
  unfoldable pub auto_transition : String → F → F → F → TrustStore F → TrustStore F
  auto_transition kid n pi hu st =
      let (tau, h_star) = transition_thresholds st kid in
      elim (evaluate_auto_transition st.lifecycle kid pi hu tau h_star (o.trunc n) zero zero) [
        | none ↦ st
        | some new ↦ record st {
          lifecycle = (transition st.lifecycle kid (member new) "auto_after_observation" []).0;
        }
      ]

  unfoldable pub update_lifecycle : String → String → TrustStore F → TrustStore F
  update_lifecycle kid context st =
      let (n, st1) = total_count kid context "use" st in
      let (pi, st2) = uplift_probability kid context (lit 5 2) st1 in
      let (hu, st3) = harm_upper_bound kid context (lit 95 2) st2 in auto_transition kid n pi hu st3

  unfoldable pub record_episode : Observation F → TrustStore F → TrustStore F
  record_episode ob st =
      let recorded = append_observation ob (add_episode ob st) in
      if recorded.abl_lifecycle then update_lifecycle ob.kid ob.context recorded else recorded

  -- `contract["scope"].get("task_group") or contract.get("group", "crafting")`
  calibration_group : Option (ContractDict F) → String
  calibration_group none = "crafting"
  calibration_group (some c) =
      let task_group = or_else (get c.scope "task_group") "" in
      if task_group == "" then or_else c.group "crafting" else task_group

  -- The row of one used observation.
  calibration_row : Observation F → Method F (CalibRow F)
  calibration_row ob = do
    pi ← uplift_probability ob.kid ob.context (lit 5 2)
    ul ← uplift_lcb ob.kid ob.context (lit 5 2)
    hu ← harm_upper_bound ob.kid ob.context (lit 95 2)
    pure (record {
      pi_uplift = some (o.round pi 4);
      prob_uplift = none;
      harm_ucb = some (o.round hu 4);
      harm = none;
      uplift = some (o.round ul 4);
      is_harmful = some (not (ob.is_harmful ≤? lit 0 0 && lit 0 0 ≤? ob.is_harmful));
      interaction_state = false;
      pi_syn = none;
      pi_conf = none;
      interaction_synergy = false;
      interaction_conflict = false;
    })

  collect_rows :
      List (Observation F) → Dict (List (CalibRow F)) → Method F (Dict (List (CalibRow F)))
  unfolding calibration_group calibration_row
  collect_rows [] by_group = pure by_group
  collect_rows (ob ∷ rest) by_group = do
    row ← calibration_row ob
    group ← gets (λ st. calibration_group (get_contract st ob.kid))
    collect_rows rest (put by_group group (or_else (get by_group group) [] ++ row ∷ []))

  unfoldable pub get_calibration_data : Method F (Dict (List (CalibRow F)))
  unfolding collect_rows
  get_calibration_data st = collect_rows (filter_by (λ ob. ob.used) st.observations) [] st
