-- ===== src/Probe.antt =====
-- cact/thompson_probe.py: `SafeThompsonProber`, which lets an uncertain item through now and then.
pub mod Bounds
use aaai.Prelude.{
  ℕ, ◌+◌, ◌-◌, String, Bool, true, false, not, ◌&&◌, ◌||◌, Option, none, some, List, [], ◌∷◌, ltb,
  leb, is_some, if◌then◌else◌, length, ◌==◌, filter_by,
}
use aaai.Prelude.Int.{ℤ, sub_ℕ}
use aaai.Float.{Float, Sampler, lit, ◌⊕◌, ◌⊖◌, ◌⊗◌, ◌⊘◌, ◌<?◌, ◌≤?◌, py_max, py_min, clamp}

pub record SafeThompsonProber (F : Type 0) : Type 0 where
  pub q_max : F
  pub budget : ℕ
  pub probe_count : ℕ

-- `n_min`: 5 at low risk, 8 at medium risk, 10 at high risk, 8 where the level is unknown
unfoldable pub min_sample : String → ℕ
min_sample level =
    if level == "low" then 5 else if level == "medium" then 8 else if level == "high" then 10 else 8

-- The triggers, in the order in which they are tried.
pub data Trigger : Type 0 where
  pi_near_threshold harm_uncertainty_high base_sparse bucket_ece_high : Trigger
  precond_fail_rate_high interaction_unknown : Trigger

-- The evidence that `should_probe` is given on one item.
pub record Evidence (F : Type 0) : Type 0 where
  pub use_alpha : F
  pub use_beta : F
  pub base_alpha : F
  pub base_beta : F
  pub harm_alpha : F
  pub harm_beta : F
  pub ess : F
  pub pi_uplift : F
  pub tau_threshold : F
  pub n_base : F
  pub ece : F
  pub precond_fail_rate : F
  pub interaction_state : String

module _ {F : Type 0} ⦃o : Float F⦄ where
  unfoldable pub default_prober : SafeThompsonProber F
  default_prober = record { q_max = lit 10 2; budget = 100; probe_count = 0 }

  unfoldable pub probe_probability : SafeThompsonProber F → F → F → String → F
  probe_probability p uncertainty ess level =
      if level == "high"
      then lit 0 0
      else if leb p.budget p.probe_count
      then lit 0 0
      else if lit (min_sample level) 0 ≤? ess
      then lit 0 0
      else clamp (lit 0 0) p.q_max (lit 15 2 ⊗ uncertainty)

  harm_uncertain : Evidence F → Bool
  harm_uncertain e =
      let total = e.harm_alpha ⊕ e.harm_beta in
      lit 0 0 <? total
      && lit 1 2 <? (e.harm_alpha ⊗ e.harm_beta) ⊘ (total ⊗ total ⊗ (total ⊕ lit 1 0))

  -- `is_triggered`, at its default `min_base`
  unfoldable pub is_triggered : Evidence F → Option Trigger
  unfolding harm_uncertain
  is_triggered e =
      if o.abs (e.pi_uplift ⊖ e.tau_threshold) <? lit 5 2
      then some pi_near_threshold
      else if harm_uncertain e
      then some harm_uncertainty_high
      else if e.n_base <? lit 3 0
      then some base_sparse
      else if lit 15 2 <? e.ece
      then some bucket_ece_high
      else if lit 3 1 <? e.precond_fail_rate
      then some precond_fail_rate_high
      else if e.interaction_state == "unknown"
      then some interaction_unknown
      else none

  -- `uncertainty` of the mean success
  unfoldable pub mean_uncertainty : Evidence F → F
  mean_uncertainty e =
      let mean = e.use_alpha ⊘ py_max (e.use_alpha ⊕ e.use_beta) (lit 1 8) in
      lit 40 1 ⊗ mean ⊗ (lit 1 0 ⊖ mean)

  unfoldable pub reset_budget : SafeThompsonProber F → Option ℕ → SafeThompsonProber F
  reset_budget p none = record p { probe_count = 0 }
  reset_budget p (some budget) = record p { budget = budget; probe_count = 0 }

  -- `stats()["budget_remaining"]`
  unfoldable pub budget_remaining : SafeThompsonProber F → ℤ
  budget_remaining p = sub_ℕ p.budget p.probe_count

module _ {F : Type 0} ⦃o : Float F⦄ ⦃s : Sampler F⦄ where
  -- The three Thompson samples and, where they decide, the draw against `q`. The result is the decision and the generator.
  unfoldable pub sample_passes : SafeThompsonProber F → Evidence F → F → Bool → ℕ → Bool × ℕ
  sample_passes p e q force seed =
      let (p_use, seed1) = s.beta e.use_alpha e.use_beta seed in
      let (p_base, seed2) = s.beta e.base_alpha e.base_beta seed1 in
      let (p_harm, seed3) = s.beta e.harm_alpha e.harm_beta seed2 in
      let (u, seed4) = s.uniform seed3 in
      let met = (p_base ⊕ lit 3 2) <? p_use && p_harm <? lit 5 2 && ltb p.probe_count p.budget in
      if force then (true, seed3) else if met then (u <? q, seed4) else (false, seed3)

  unfoldable pub count_probe : SafeThompsonProber F → SafeThompsonProber F
  count_probe p = record p { probe_count = p.probe_count + 1 }

  -- `should_probe`: the decision, the probability, the prober and the generator. The flag is
  -- `force_allow`, which skips the tests and keeps the three draws.
  unfoldable pub should_probe :
      SafeThompsonProber F → Evidence F → String → Bool → ℕ → Bool × F × SafeThompsonProber F × ℕ
  should_probe p e level force seed =
      let q = probe_probability p (mean_uncertainty e) e.ess level in
      let (passes, seed') = sample_passes p e q force seed in
      if level == "high"
      then (false, lit 0 0, p, seed)
      else if q ≤? lit 0 0 && not force
      then (false, lit 0 0, p, seed)
      else if not force && not (is_some (is_triggered e))
      then (false, q, p, seed)
      else if passes
      then (true, q, count_probe p, seed')
      else (false, q, p, seed')
