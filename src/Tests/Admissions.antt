-- ===== src/Tests/Admissions.antt =====
-- The theorems on the admission policy, its ledger and its calibration at concrete estimates.
use aaai.Prelude.{
  ℕ, ◌+◌, ◌≡◌, refl, String, Bool, true, false, Option, none, some, List, [], ◌∷◌, Dict, Any, All,
  ◌↔◌, is_some, is_nil,
}
use aaai.Prelude.Int.{ℤ, pos}
use aaai.Float.{lit, py_max}
use aaai.Float.Scaled.{scaled_float, scaled_sampler, scaled-IsOrdered}
use aaai.Float.Order.{◌≼◌}
use aaai.Protocol.{Numpy, Opportunity, GroupEstimate, CalibratedPolicy}
use aaai.Protocol.Schema.{
  Row, to_row, validate_row, load_rows, is_refused, loaded, is_positive_design,
  load_rows-is_positive_design,
}
use aaai.Protocol.Calibrator.{PolicyCalibrator, select}
use aaai.Protocol.Calibrator.Best.{IsBest, select-IsBest}
use aaai.Protocol.Admission.{
  AdmissionPolicy, budget_of, make_policy, decide_opportunity, is_admission,
}
use aaai.Protocol.Admission.Bounds.{IsGranted, decide_opportunity-IsGranted}
use aaai.Protocol.Admission.Ledger.{decide_all, decide_all-initial}
use aaai.Tests.Data.{fixed}

-- A quantile is the first of the draws here, and a normal draw is zero.
abbrev first_draw : List ℤ → ℤ
first_draw [] = pos 0
first_draw (x ∷ xs) = x

instance abbrev scaled_numpy : Numpy ℤ
scaled_numpy = record {
  quantile = λ xs q. first_draw xs;
  isfinite = λ x. true;
  maximum = py_max;
  standard_normal = λ rng n. (pos 0 ∷ [], rng + 1);
}

abbrev skill_estimate : GroupEstimate ℤ
skill_estimate = record {
  key = "xenon|skill";
  delta_y = lit 20 2;
  se_y = lit 1 2;
  risk_abs = lit 5 2;
  se_abs = lit 1 2;
  risk_inc = lit 1 2;
  se_inc = lit 1 2;
  supported = true;
  joint_draws = record { delta_y = []; risk_inc = []; risk_abs = [] };
}

abbrev policy : CalibratedPolicy ℤ
policy = record {
  delta = lit 5 2;
  eps_abs = lit 10 2;
  eps_inc = lit 2 2;
  lambda_value = lit 1 0;
  alpha = lit 5 2;
  cap_epsilon = lit 1 6;
  future_opportunity_clip = 6;
  estimates = ("xenon|skill", skill_estimate) ∷ [];
  coverage = lit 1 0;
  supported = true;
  audit_passed = true;
}

abbrev opportunity : Opportunity ℤ
opportunity = record {
  episode_id = "e1";
  opportunity_id = "o1";
  task_id = "t1";
  knowledge_id = "smelt_iron";
  source = "xenon";
  type_name = "skill";
  task_group = "crafting";
  failure_type = "none";
  risk_tier = "low";
  resource_scarcity = "ordinary";
  episode_phase = "early";
  prior_admission_bin = "0";
  remaining_opportunities = pos 2;
  propensity_reuse = lit 5 1;
  propensity_base = lit 5 1;
  eligible = true;
  eligibility_reason = "eligible";
}

abbrev admission : AdmissionPolicy ℤ
admission = record {
  policy = policy;
  variant = "full";
  use_ledger = true;
  initial_budget = lit 5 2;
  future_opportunity_lookup = [];
  budget_by_episode = [];
}

decide_opportunity-IsGranted_example :
    IsGranted admission opportunity true (decide_opportunity admission opportunity true).0
unfolding aaai.Protocol.Admission.is_admission aaai.Protocol.Admission.clip_count
    aaai.Protocol.Admission.join_key aaai.Protocol.Admission.budget_of
    aaai.Protocol.Admission.set_budget aaai.Protocol.Admission.remaining_opportunities
    aaai.Protocol.Admission.candidates aaai.Protocol.Admission.find_support
    aaai.Protocol.Admission.judge_stats aaai.Protocol.Admission.row_stats
    aaai.Protocol.Admission.decide_row aaai.Protocol.Admission.decide_supported
    aaai.Protocol.Admission.base_certificate aaai.Protocol.Admission.decide_opportunity
    aaai.Protocol.Cap.estimate_draw_arrays aaai.Protocol.Cap.cap_draws aaai.Protocol.delta0
    aaai.Prelude.get aaai.Float.py_max
decide_opportunity-IsGranted_example = decide_opportunity-IsGranted admission opportunity true refl

decide_all-initial_example :
    (fixed 0 1
      ≼ budget_of
          (decide_all scaled-IsOrdered
            (make_policy policy "full" true (fixed 5 2) [])
            ((opportunity, true) ∷ (opportunity, true) ∷ []))
          "e1")
    × (budget_of
          (decide_all scaled-IsOrdered
            (make_policy policy "full" true (fixed 5 2) [])
            ((opportunity, true) ∷ (opportunity, true) ∷ []))
          "e1"
        ≼ py_max (fixed 0 1) (fixed 5 2))
decide_all-initial_example =
    decide_all-initial scaled-IsOrdered policy "full" true (fixed 5 2) []
      ((opportunity, true) ∷ (opportunity, true) ∷ []) "e1"

abbrev calibrator : PolicyCalibrator ℤ
calibrator = record {
  lambdas = lit 0 0 ∷ lit 5 1 ∷ lit 1 0 ∷ [];
  delta = lit 5 2;
  eps_abs = lit 10 2;
  eps_inc = lit 2 2;
  alpha = lit 5 2;
}

select-IsBest_example :
    (best : CalibratedPolicy ℤ) × (select calibrator (skill_estimate ∷ []) ≡ some best)
    × IsBest scaled-IsOrdered calibrator (skill_estimate ∷ []) best calibrator.lambdas
select-IsBest_example = select-IsBest scaled-IsOrdered calibrator (skill_estimate ∷ []) refl refl

abbrev file : List (Row ℤ)
file = to_row opportunity ∷ []

load_rows-is_positive_design_example :
    (is_refused (load_rows false file) ≡ true ↔ Any (λ row. is_some (validate_row row) ≡ true) file)
    × All (λ op. is_positive_design op ≡ true) (loaded (load_rows false file))
load_rows-is_positive_design_example = load_rows-is_positive_design false file
