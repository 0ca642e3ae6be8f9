-- ===== src/Contract/Checks.antt =====
-- cact/contract.py: the checks of preconditions and of hard boundaries.
use aaai.Prelude.{
  ◌≡◌, ◌↔◌, Bool, true, false, not, All, All-mono, is_nil-filter_not, is_nil-filter_by,
  All-filter_by, arith,
}
use aaai.Float.{Float, Sampler}
use aaai.State.{State}
use aaai.Contract.{
  KnowledgeContract, eval_condition, violations, check_preconditions, eval_context_flag, triggered,
  check_hard_boundary, get_safety_boundaries,
}

false_of_not : (b : Bool) → not b ≡ true → b ≡ false
false_of_not b h = ground arith

module _ {F : Type 0} ⦃o : Float F⦄ ⦃s : Sampler F⦄ (c : KnowledgeContract F) (st : State F) where
  -- The preconditions are met exactly when every one of them holds in the state, and each condition
  -- reported as violated fails there.
  pub check_preconditions_iff :
      (((check_preconditions c st).0 ≡ true)
        ↔ All (λ cond. eval_condition cond st ≡ true) c.preconditions)
      × All (λ cond. eval_condition cond st ≡ false) (check_preconditions c st).1
  unfolding check_preconditions violations
  check_preconditions_iff = (
    is_nil-filter_not (λ cond. eval_condition cond st) c.preconditions,
    All-mono _ _ (λ cond. false_of_not (eval_condition cond st)) _
        (All-filter_by (λ cond. not (eval_condition cond st)) c.preconditions),
  )

  pub check_hard_boundary_iff :
      (((check_hard_boundary c st).0 ≡ true)
        ↔ All (λ b. eval_context_flag b st ≡ false) (get_safety_boundaries c))
      × All (λ b. eval_context_flag b st ≡ true) (check_hard_boundary c st).1
  unfolding check_hard_boundary triggered
  check_hard_boundary_iff = (
    is_nil-filter_by (λ b. eval_context_flag b st) (get_safety_boundaries c),
    All-filter_by (λ b. eval_context_flag b st) (get_safety_boundaries c),
  )
