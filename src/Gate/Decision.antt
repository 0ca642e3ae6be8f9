-- ===== src/Gate/Decision.antt =====
-- cact/trust_gate.py, `evaluate`: which evidence it admits.
use aaai.Prelude.{◌≡◌, String, Bool, true, false, Option, ◌==◌, ◌↔◌, arith}
use aaai.Float.{Float}
use aaai.Float.Order.{IsOrdered, ◌≼◌}
use aaai.Gate.{
  TrustGate, Thresholds, gate_pass, is_blocked, thresholds, supervise, check_evidence, evaluate,
}

module _ {F : Type 0} ⦃o : Float F⦄ (g : TrustGate F) (group : Option String)
    (lifecycle : String) where
  -- The thresholds in force for an item in this lifecycle state.
  abbrev pub in_force : Thresholds F
  in_force = supervise (lifecycle == "probation") (thresholds g group)

  -- The four conditions, and the lifecycle gate before them.
  pub record IsAdmissible (pi lcb hu : F) (contract_ok safe : Bool) : Type 0 where
    pub not_blocked : is_blocked lifecycle ≡ false
    pub contract : contract_ok ≡ true
    pub uplift : in_force.tau ≼ pi
    pub effect : in_force.delta ≼ lcb
    pub risk : hu ≼ in_force.harm
    pub interaction : safe ≡ true

module _ {F : Type 0} ⦃o : Float F⦄ (t : Thresholds F) (sup : Bool) (pi lcb hu : F)
    (safe : Bool) where
  check_evidence_pass :
      (check_evidence t sup pi lcb hu safe).0 ≡ true
      → (t.tau ≼ pi) × (t.delta ≼ lcb) × (hu ≼ t.harm) × (safe ≡ true)
  unfolding check_evidence
  check_evidence_pass h = ground arith

  check_evidence_all :
      t.tau ≼ pi
      → t.delta ≼ lcb
      → hu ≼ t.harm
      → safe ≡ true
      → (check_evidence t sup pi lcb hu safe).0 ≡ true
  unfolding check_evidence
  check_evidence_all a b c d = ground arith

  check_evidence_reason :
      ((check_evidence t sup pi lcb hu safe).0 ≡ true)
      ↔ ((check_evidence t sup pi lcb hu safe).1.reason ≡ gate_pass)
  unfolding check_evidence
  check_evidence_reason = ground arith

module _ {F : Type 0} ⦃o : Float F⦄ (g : TrustGate F) (group : Option String) (lifecycle : String)
    (pi lcb hu : F) (contract_ok safe : Bool) where
  -- The gate admits exactly what meets the lifecycle gate, the contract check, the three thresholds
  -- in force and the interaction check; and its logged reason is `gate_pass` exactly then.
  pub evaluate_iff :
      (((evaluate g pi lcb hu group lifecycle contract_ok safe).0 ≡ true)
        ↔ IsAdmissible g group lifecycle pi lcb hu contract_ok safe)
      × (((evaluate g pi lcb hu group lifecycle contract_ok safe).0 ≡ true)
          ↔ ((evaluate g pi lcb hu group lifecycle contract_ok safe).1.reason ≡ gate_pass))
  unfolding evaluate
  evaluate_iff = (
    (
      λ h. ground (
        arith,
        check_evidence_pass (in_force g group lifecycle) (lifecycle == "probation") pi lcb hu safe,
      ),
      λ a. ground (
        arith,
        check_evidence_all (in_force g group lifecycle) (lifecycle == "probation") pi lcb hu safe,
      ),
    ),
    ground (
      arith,
      check_evidence_reason (in_force g group lifecycle) (lifecycle == "probation") pi lcb hu safe,
    ),
  )

-- More uplift, a larger effect and less risk never turn an admission into a refusal.
pub evaluate_mono :
    {F : Type 0} ⦃o : Float F⦄ (laws : IsOrdered F) (g : TrustGate F) (group : Option String)
    (lifecycle : String) (pi pi' lcb lcb' hu hu' : F) (contract_ok safe : Bool)
    → pi ≼ pi'
    → lcb ≼ lcb'
    → hu' ≼ hu
    → (evaluate g pi lcb hu group lifecycle contract_ok safe).0 ≡ true
    → (evaluate g pi' lcb' hu' group lifecycle contract_ok safe).0 ≡ true
evaluate_mono laws g group lifecycle pi pi' lcb lcb' hu hu' contract_ok safe p q r h =
    let a : IsAdmissible g group lifecycle pi lcb hu contract_ok safe =
      (evaluate_iff g group lifecycle pi lcb hu contract_ok safe).0.0 h in
    (evaluate_iff g group lifecycle pi' lcb' hu' contract_ok safe).0.1 (record {
      not_blocked = a.not_blocked;
      contract = a.contract;
      uplift = laws.le_trans _ pi pi' a.uplift p;
      effect = laws.le_trans _ lcb lcb' a.effect q;
      risk = laws.le_trans hu' hu _ r a.risk;
      interaction = a.interaction;
    })
