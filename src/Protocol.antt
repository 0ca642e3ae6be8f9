-- ===== src/Protocol.antt =====
-- cact/protocol_v2.py: the randomised opportunities, the calibrated policy and the admission by it. A
-- row of the estimates holds every field that `GroupEstimate.to_dict` writes.
pub mod Names
pub mod Schema
pub mod Applicability
pub mod Cap
pub mod Calibrator
pub mod Admission
use aaai.Prelude.{ℕ, String, Bool, false, Option, none, List, [], Dict, if◌then◌else◌}
use aaai.Prelude.Int.{ℤ}
use aaai.Float.{Float, lit, py_max}

-- What the module takes from numpy.
pub record Numpy (F : Type 0) : Type 0 where
  pub quantile : List F → F → F
  pub isfinite : F → Bool
  pub maximum : F → F → F
  -- a generator's next draws, and the generator after them
  pub standard_normal : ℕ → ℕ → List F × ℕ

-- The fields of an opportunity that the module's code reads.
pub record Opportunity (F : Type 0) : Type 0 where
  pub episode_id : String
  pub opportunity_id : String
  pub task_id : String
  pub knowledge_id : String
  pub source : String
  pub type_name : String
  pub task_group : String
  pub failure_type : String
  pub risk_tier : String
  pub resource_scarcity : String
  pub episode_phase : String
  pub prior_admission_bin : String
  pub remaining_opportunities : ℤ
  pub propensity_reuse : F
  pub propensity_base : F
  pub eligible : Bool
  pub eligibility_reason : String

pub record JointDraws (F : Type 0) : Type 0 where
  pub delta_y : List F
  pub risk_inc : List F
  pub risk_abs : List F

pub record GroupEstimate (F : Type 0) : Type 0 where
  pub key : String
  pub delta_y : F
  pub se_y : F
  pub risk_abs : F
  pub se_abs : F
  pub risk_inc : F
  pub se_inc : F
  pub supported : Bool
  pub joint_draws : JointDraws F

pub record CalibratedPolicy (F : Type 0) : Type 0 where
  pub delta : F
  pub eps_abs : F
  pub eps_inc : F
  pub lambda_value : F
  pub alpha : F
  pub cap_epsilon : F
  pub future_opportunity_clip : ℕ
  pub estimates : Dict (GroupEstimate F)
  pub coverage : F
  pub supported : Bool
  pub audit_passed : Bool

module _ {F : Type 0} ⦃o : Float F⦄ where
  -- DEFAULT_BUDGET and DEFAULT_CAP_EPSILON
  abbrev pub default_budget : F
  default_budget = lit 5 2

  abbrev pub default_cap_epsilon : F
  default_cap_epsilon = lit 1 6

  -- the property `delta0`
  unfoldable pub delta0 : CalibratedPolicy F → F
  delta0 p = py_max p.delta default_cap_epsilon
