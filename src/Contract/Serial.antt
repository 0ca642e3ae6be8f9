-- ===== src/Contract/Serial.antt =====
-- cact/contract.py: `to_dict` and then `from_dict`.
use aaai.Prelude.{String, ◌≡◌, refl, List, [], ◌∷◌, Dict}
use aaai.Float.{Float, Sampler}
use aaai.State.{State}
use aaai.Contract.{
  KnowledgeContract, or_if_nil, get_scope, get_safety_boundaries, to_dict, from_dict,
  check_scope_match, check_preconditions, check_postconditions, check_hard_boundary,
}

or_if_nil_idem {ℓ} :
    {A : Type ℓ} (xs ys : List A) → or_if_nil (or_if_nil (or_if_nil xs ys) []) [] ≡ or_if_nil xs ys
unfolding or_if_nil
or_if_nil_idem [] [] = refl
or_if_nil_idem [] (y ∷ ys) = refl
or_if_nil_idem (x ∷ xs) ys = refl

module _ {F : Type 0} (c : KnowledgeContract F) where
  scope-roundtrip : get_scope (from_dict (to_dict c)) ≡ get_scope c
  unfolding get_scope from_dict to_dict
  scope-roundtrip = or_if_nil_idem c.scope c.claimed_context

  boundaries-roundtrip : get_safety_boundaries (from_dict (to_dict c)) ≡ get_safety_boundaries c
  unfolding get_safety_boundaries from_dict to_dict
  boundaries-roundtrip = or_if_nil_idem c.hard_non_applicable_contexts c.non_applicable_contexts

-- A contract read back from its dictionary, legacy fields or not, passes and fails the four checks as
-- the contract itself does, in every context and state, with the same lists of causes.
pub from_dict-to_dict :
    {F : Type 0} ⦃o : Float F⦄ ⦃s : Sampler F⦄ (c : KnowledgeContract F) (context : Dict String)
    (st st' : State F)
    → (check_scope_match (from_dict (to_dict c)) context ≡ check_scope_match c context)
      × (check_hard_boundary (from_dict (to_dict c)) st ≡ check_hard_boundary c st)
      × (check_preconditions (from_dict (to_dict c)) st ≡ check_preconditions c st)
      × (check_postconditions (from_dict (to_dict c)) st st' ≡ check_postconditions c st st')
unfolding check_scope_match check_hard_boundary check_preconditions check_postconditions
from_dict-to_dict c context st st' = (
  rw (scope-roundtrip c),
  rw (boundaries-roundtrip c),
  unfold from_dict to_dict in refl,
  unfold from_dict to_dict in refl,
)
