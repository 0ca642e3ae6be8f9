-- ===== src/Attribution/Fault.antt =====
-- cact/attribution.py: which outcomes `attribute` lays at the knowledge's door.
use aaai.Prelude.{◌≡◌, refl, Bool, true, false, not, ◌&&◌, ◌||◌, Option, none, some, arith}
use aaai.Float.{Float}
use aaai.Attribution.{
  Signals, attribute, attribute_success, attribute_failure, attribute_postcondition,
  should_penalize, should_reward, should_count_base,
}

-- The postconditions were looked at and found broken.
abbrev pub is_broken : Option Bool → Bool
is_broken (some false) = true
is_broken (some true) = false
is_broken none = false

module _ {F : Type 0} ⦃o : Float F⦄ where
  blame_postcondition :
      (e : Signals F) (p : Option Bool)
      → should_penalize (attribute_postcondition e p) ≡ is_broken p
  unfolding attribute_postcondition should_penalize
  blame_postcondition e (some true) = ground arith
  blame_postcondition e (some false) = refl
  blame_postcondition e none = refl

  -- Knowledge is penalised exactly for an episode that used it and that did harm, violated its
  -- contract or, when the task failed as well, met a conflict of items or broke a postcondition.
  pub should_penalize-attribute :
      (e : Signals F)
      → should_penalize (attribute e) ≡ (
          e.used_knowledge
          && (e.is_harmful
              || e.contract_violated
              || (not e.success
                  && (e.interaction_conflict || is_broken e.postcondition_satisfied))))
  unfolding attribute attribute_success attribute_failure should_penalize
  should_penalize-attribute e = ground (arith, blame_postcondition e e.postcondition_satisfied)

  -- A failed task is neither rewarded nor counted for the base.
  pub attribute_failed :
      (e : Signals F)
      → e.success ≡ false
      → (should_reward (attribute e) ≡ false) × (should_count_base (attribute e) ≡ false)
  unfolding attribute attribute_failure attribute_postcondition should_reward should_count_base
  attribute_failed e h = ground arith
