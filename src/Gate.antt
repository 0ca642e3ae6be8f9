-- ===== src/Gate.antt =====
-- cact/trust_gate.py: `TrustGate`, the calibration of the thresholds of each task group and the
-- four-condition decision. The dictionaries that the decision returns for logging are records, the
-- reasons of a refusal a data type. `save_calibration` and `load_calibration` (files) are left out.
pub mod Calibrate
pub mod Decision
pub mod Calibration
use aaai.Prelude.{
  ℕ, ◌+◌, ◌-◌, String, Bool, true, false, not, ◌&&◌, ◌||◌, Option, none, some, List, [], ◌∷◌, ◌++◌,
  ◌==◌, if◌then◌else◌, or_else, is_some, is_nil, length, filter_by, map, Dict, get, put, leb, ltb,
  nat_eq,
}
use aaai.Float.{Float, lit, ◌⊕◌, ◌⊖◌, ◌⊗◌, ◌⊘◌, ◌≤?◌, ◌<?◌, py_max, py_min}

pub data Reason : Type 0 where
  lifecycle_blocked contract_violation both_fail uplift_fail safety_fail : Reason
  interaction_conflict gate_pass probation_high_risk_blocked : Reason

-- The thresholds that a decision was taken with, and its reason.
pub record GateInfo (F : Type 0) : Type 0 where
  pub reason : Reason
  pub tau : F
  pub delta : F
  pub harm : F
  pub supervised : Bool
  pub lifecycle : Option String
  pub pi_uplift : Option F
  pub uplift_lcb : Option F
  pub harm_ucb : Option F

pub record TrustGate (F : Type 0) : Type 0 where
  pub tau : Dict F
  pub delta : Dict F
  pub harm : Dict F
  pub theta_syn : F
  pub theta_conf : F
  pub calibrated : Bool
  -- an ablation flag, `True` unless the memory clears it
  pub abl_adaptive : Bool

pub record Thresholds (F : Type 0) : Type 0 where
  pub tau : F
  pub delta : F
  pub harm : F

-- `task_group or "_global"`
unfoldable pub group_key : Option String → String
group_key none = "_global"
group_key (some g) = if g == "" then "_global" else g

-- `task_group` blocked by its lifecycle: `in ("disabled", "deprecated")`
unfoldable pub is_blocked : String → Bool
is_blocked s = s == "disabled" || s == "deprecated"

module _ {F : Type 0} ⦃o : Float F⦄ where
  unfoldable pub empty_gate : TrustGate F
  empty_gate = record {
    tau = [];
    delta = [];
    harm = [];
    theta_syn = lit 70 2;
    theta_conf = lit 80 2;
    calibrated = false;
    abl_adaptive = true;
  }

  -- The thresholds of a group: its own once the gate is calibrated, and fixed ones before.
  unfoldable pub thresholds : TrustGate F → Option String → Thresholds F
  thresholds g group =
      if g.abl_adaptive && not (is_nil g.tau)
      then record {
        tau = or_else (get g.tau (group_key group)) (lit 90 2);
        delta = or_else (get g.delta (group_key group)) (lit 5 2);
        harm = or_else (get g.harm (group_key group)) (lit 10 2);
      }
      else record { tau = lit 88 2; delta = lit 5 2; harm = lit 10 2 }

  -- In probation the uplift threshold falls by 0.20, to 0.55 at least, and the harm bound is 0.10 at
  -- most.
  unfoldable pub supervise : Bool → Thresholds F → Thresholds F
  supervise true t = record {
    tau = py_max (lit 55 2) (t.tau ⊖ lit 20 2);
    delta = t.delta;
    harm = py_min t.harm (lit 10 2);
  }
  supervise false t = t

  -- `info_dict`, by what it holds besides the reason, the thresholds and the flag.
  abbrev pub info : Reason → Thresholds F → Bool → Option F → Option F → Option F → GateInfo F
  info r t s pi lcb hu = record {
    reason = r;
    tau = t.tau;
    delta = t.delta;
    harm = t.harm;
    supervised = s;
    lifecycle = none;
    pi_uplift = pi;
    uplift_lcb = lcb;
    harm_ucb = hu;
  }

  -- The tests of `evaluate` below the contract check.
  unfoldable pub check_evidence : Thresholds F → Bool → F → F → F → Bool → Bool × GateInfo F
  check_evidence t supervised pi lcb hu interaction_safe =
      let uplift_ok = t.tau ≤? pi && t.delta ≤? lcb in
      let safety_ok = hu ≤? t.harm in
      if not uplift_ok && not safety_ok
      then (false, info both_fail t supervised (some pi) (some lcb) (some hu))
      else if not uplift_ok
      then (false, info uplift_fail t supervised (some pi) (some lcb) none)
      else if not safety_ok
      then (false, info safety_fail t supervised none none (some hu))
      else if not interaction_safe
      then (false, info interaction_conflict t supervised (some pi) none (some hu))
      else (true, info gate_pass t supervised (some pi) (some lcb) (some hu))

  unfoldable pub evaluate :
      TrustGate F → F → F → F → Option String → String → Bool → Bool → Bool × GateInfo F
  evaluate g pi lcb hu group lifecycle contract_satisfied interaction_safe =
      let t = thresholds g group in
      let supervised = lifecycle == "probation" in
      if is_blocked lifecycle
      then (
        false,
        record (info lifecycle_blocked t false none none none) { lifecycle = some lifecycle },
      )
      else if not contract_satisfied
      then (false, info contract_violation t false none none none)
      else check_evidence (supervise supervised t) supervised pi lcb hu interaction_safe

  -- `should_reuse`
  unfoldable pub should_reuse :
      TrustGate F → F → F → F → Option String → String → Bool → Bool → Bool × GateInfo F
  should_reuse = evaluate

  -- `risk_weights.get(risk_level, 0.5)`
  risk_weight : String → F
  risk_weight level =
      if level == "low"
      then lit 12 1
      else if level == "medium"
      then lit 10 1
      else if level == "high"
      then lit 2 1
      else lit 5 1

  unfoldable pub exploration_rate : F → F → String → F → F
  unfolding risk_weight
  exploration_rate ess pi level imbalance =
      let zero_pi = pi ≤? lit 0 0 && lit 0 0 ≤? pi in
      let uncertainty = if zero_pi then lit 1 0 else lit 40 1 ⊗ pi ⊗ (lit 10 1 ⊖ pi) in
      let q = lit 5 2 ⊕ lit 20 2 ⊗ uncertainty ⊗ risk_weight level ⊕ lit 10 2 ⊗ imbalance in
      py_max (lit 5 2) (py_min (lit 30 2) q)
