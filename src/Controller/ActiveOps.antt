-- ===== src/Controller/ActiveOps.antt =====
-- cact/decision_controller.py: step 7 of `decide`, `_apply_active_ops`.
use aaai.Prelude.{
  String, Bool, false, not, ◌&&◌, ◌||◌, some, List, [], ◌∷◌, ◌==◌, if◌then◌else◌, or_else, Dict,
  get,
}
use aaai.Float.{Float, Sampler, lit, ◌⊖◌}
use aaai.State.{State, is_set}
use aaai.Store.{Method, ◌>>=◌, pure, get_stats, total_count, ess}
use aaai.Logging.{compute_uncertainty, compute_imbalance, compute_danger_score, should_force_base}
use aaai.Probe.{Evidence, should_probe}
use aaai.Controller.{
  fallback, reuse, probe, force_base, DecisionResult, DecisionController, Scored, risk_level,
  sort_by_uplift,
}

-- `context.get("bucket", "default")`
bucket_key : Dict String → String
bucket_key context = or_else (get context "bucket") "default"

module _ {F : Type 0} ⦃o : Float F⦄ ⦃s : Sampler F⦄ where
  -- Active base logging: a reuse may be turned into a forced base run.
  unfoldable pub maybe_force_base :
      DecisionController F
      → DecisionResult F
      → State F
      → Dict String
      → DecisionResult F × DecisionController F
  unfolding bucket_key
  maybe_force_base ctl r st context =
      let (n_use, store1) =
        total_count r.chosen_knowledge_id (bucket_key context) "use" ctl.store in
      let (n_base, store2) = total_count r.chosen_knowledge_id (bucket_key context) "base" store1 in
      let (forced, q, al, seed) =
        should_force_base ctl.al (compute_uncertainty r.pi_uplift) (compute_imbalance n_use n_base)
          (compute_danger_score (is_set st)) (risk_level context) ctl.seed in
      let ctl' = record ctl { store = store2; al = al; seed = seed } in
      if forced
      then (
        record r { decision = force_base; propensity_base = q; propensity_reuse = lit 1 0 ⊖ q },
        ctl',
      )
      else (r, ctl')

  -- The evidence on one item for the prober.
  unfoldable pub probe_evidence : DecisionResult F → Dict String → Scored F → Method F (Evidence F)
  unfolding bucket_key
  probe_evidence r context c = do
    (a1, b1) ← get_stats c.knowledge_id (bucket_key context) "use"
    (a2, b2) ← get_stats c.knowledge_id (bucket_key context) "base"
    (a3, b3) ← get_stats c.knowledge_id (bucket_key context) "harm"
    size ← ess c.knowledge_id (bucket_key context)
    n_base ← total_count c.knowledge_id (bucket_key context) "base"
    pure (record {
      use_alpha = a1;
      use_beta = b1;
      base_alpha = a2;
      base_beta = b2;
      harm_alpha = a3;
      harm_beta = b3;
      ess = size;
      pi_uplift = c.pi_uplift;
      tau_threshold = c.gate_info.tau;
      n_base = n_base;
      ece = lit 0 0;
      precond_fail_rate = lit 0 0;
      interaction_state = r.interaction_state;
    })

  -- Thompson probing: the first item, in the order of the uplift, that the prober lets through.
  unfoldable pub probe_items :
      DecisionController F
      → DecisionResult F
      → Dict String
      → List (Scored F)
      → DecisionResult F × DecisionController F
  probe_items ctl r context [] = (r, ctl)
  probe_items ctl r context (c ∷ cs) =
      let (e, store) = probe_evidence r context c ctl.store in
      let (probed, q, tp, seed) = should_probe ctl.tp e (risk_level context) false ctl.seed in
      let ctl' = record ctl { store = store; tp = tp; seed = seed } in
      let rest = probe_items ctl' r context cs in
      if probed
      then (
        record r {
          decision = probe;
          chosen_knowledge_id = c.knowledge_id;
          chosen_contract = some c.contract;
          pi_uplift = c.pi_uplift;
        },
        ctl',
      )
      else rest

  -- `_apply_active_ops`
  unfoldable pub apply_active_ops :
      DecisionController F
      → DecisionResult F
      → List (Scored F)
      → State F
      → Dict String
      → DecisionResult F × DecisionController F
  apply_active_ops ctl r scored st context = elim (r.decision) [
    | reuse ↦
        if ctl.abl_active_calib && not (r.chosen_knowledge_id == "")
        then maybe_force_base ctl r st context
        else (r, ctl)
    | fallback ↦
        if ctl.abl_thompson then probe_items ctl r context (sort_by_uplift scored) else (r, ctl)
    | _ ↦ (r, ctl)
  ]

  -- `mode in ("accumulation", "calibration", "online")`
  unfoldable pub is_active_mode : DecisionController F → String → Bool
  is_active_mode ctl mode =
      (ctl.abl_active_calib || ctl.abl_thompson)
      && (mode == "accumulation" || mode == "calibration" || mode == "online")
