-- ===== src/Controller/Filter.antt =====
-- cact/decision_controller.py, `_contract_filter`: what it lets through.
use aaai.Prelude.{
  ◌↔◌, String, ◌≡◌, refl, Bool, true, false, ◌&&◌, ◌||◌, List, [], ◌∷◌, Dict, is_nil, All, All-mono,
  All-filter_by, arith,
}
use aaai.Float.{Float, Sampler}
use aaai.State.{State}
use aaai.Contract.{
  KnowledgeContract, ContractDict, to_dict, check_preconditions, check_hard_boundary,
  check_scope_match, eval_condition, eval_context_flag, get_scope, get_safety_boundaries, or_if_nil,
  matches_scope,
}
use aaai.Contract.Checks.{check_preconditions_iff, check_hard_boundary_iff}
use aaai.Controller.{dict_to_contract, passes_contract, contract_filter}

-- A test that is skipped for an empty list says nothing less of it.
skip_nil {ℓ} :
    {A : Type ℓ} (P : A → Type 0) (xs : List A) (b : Bool)
    → ((b ≡ true) ↔ All P xs)
    → ((is_nil xs || b) ≡ true) ↔ All P xs
skip_nil P [] b h = (λ _. tt, λ _. refl)
skip_nil P (x ∷ xs) b h = h

skip_scope :
    (d context : Dict String)
    → ((is_nil d || matches_scope d context) ≡ true) ↔ (matches_scope d context ≡ true)
unfolding matches_scope
skip_scope [] context = (λ _. refl, λ _. refl)
skip_scope (x ∷ d) context = (λ h. h, λ h. h)

three_tests : (a b c : Bool) → ((a && b && c) ≡ true) ↔ ((a ≡ true) × (b ≡ true) × (c ≡ true))
three_tests a b c = ground arith

module _ {F : Type 0} ⦃o : Float F⦄ ⦃s : Sampler F⦄ (st : State F) (context : Dict String) where
  -- What the filter asks of a candidate: its conditions, its boundaries and its claimed context.
  pub record IsAllowed (u : ContractDict F) : Type 0 where
    pub preconditions_hold : All (λ cond. eval_condition cond st ≡ true) u.preconditions
    pub boundaries_clear : All (λ b. eval_context_flag b st ≡ false) u.non_applicable_contexts
    pub context_matches : matches_scope u.claimed_context context ≡ true

  preconditions_test :
      (u : ContractDict F)
      → ((is_nil u.preconditions || (check_preconditions (dict_to_contract u) st).0) ≡ true)
        ↔ All (λ cond. eval_condition cond st ≡ true) u.preconditions
  unfolding dict_to_contract
  preconditions_test u =
      skip_nil _ u.preconditions _ ((check_preconditions_iff (dict_to_contract u) st).0)

  boundaries_test :
      (u : ContractDict F)
      → ((is_nil u.non_applicable_contexts || (check_hard_boundary (dict_to_contract u) st).0)
          ≡ true)
        ↔ All (λ b. eval_context_flag b st ≡ false) u.non_applicable_contexts
  unfolding dict_to_contract get_safety_boundaries or_if_nil
  boundaries_test u =
      skip_nil _ u.non_applicable_contexts _ ((check_hard_boundary_iff (dict_to_contract u) st).0)

  context_test :
      (u : ContractDict F)
      → ((is_nil u.claimed_context || check_scope_match (dict_to_contract u) context) ≡ true)
        ↔ (matches_scope u.claimed_context context ≡ true)
  unfolding dict_to_contract check_scope_match get_scope or_if_nil
  context_test u = skip_scope u.claimed_context context

  passes_contract_iff : (u : ContractDict F) → (passes_contract st context u ≡ true) ↔ IsAllowed u
  unfolding passes_contract
  passes_contract_iff u = (
    λ h.
        let t = (three_tests _ _ _).0 h in
        record {
          preconditions_hold = (preconditions_test u).0 (t.2);
          boundaries_clear = (boundaries_test u).0 (t.1);
          context_matches = (context_test u).0 (t.0);
        },
    λ a. (three_tests _ _ _).1 (
      (context_test u).1 a.context_matches,
      (boundaries_test u).1 a.boundaries_clear,
      (preconditions_test u).1 a.preconditions_hold,
    ),
  )

  -- A candidate passes the filter exactly when all its preconditions hold in the state, none of its
  -- `non_applicable_contexts` is triggered there, and its claimed context matches; and whatever the
  -- filter returns of a list of candidates passes.
  pub contract_filter_iff :
      (candidates : List (ContractDict F)) (u : ContractDict F)
      → ((passes_contract st context u ≡ true) ↔ IsAllowed u)
        × All IsAllowed (contract_filter candidates st context)
  unfolding contract_filter
  contract_filter_iff candidates u = (
    passes_contract_iff u,
    All-mono _ _ (λ u. (passes_contract_iff u).0) _
        (All-filter_by (passes_contract st context) candidates),
  )

  -- A contract in the form that `to_dict` writes passes the filter exactly when its preconditions
  -- hold: its scope and its hard boundaries are not looked at, whatever they are.
  pub passes_contract-to_dict :
      (c : KnowledgeContract F)
      → (passes_contract st context (to_dict c) ≡ true)
        ↔ All (λ cond. eval_condition cond st ≡ true) c.preconditions
  unfolding to_dict matches_scope
  passes_contract-to_dict c = (
    λ h. ((passes_contract_iff (to_dict c)).0 h).preconditions_hold,
    λ h.
        (passes_contract_iff (to_dict c)).1
          (record { preconditions_hold = h; boundaries_clear = tt; context_matches = refl }),
  )
