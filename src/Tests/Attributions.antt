-- ===== src/Tests/Attributions.antt =====
-- The theorems on the attribution of outcomes at concrete episodes.
use aaai.Prelude.{◌≡◌, refl, true, false, none, some}
use aaai.Prelude.Int.{ℤ}
use aaai.Float.{lit}
use aaai.Float.Scaled.{scaled_float, scaled_sampler}
use aaai.Store.Record.{record_episode, append_observation}
use aaai.Attribution.{
  Signals, attribute, should_penalize, should_reward, harmful_reuse, apply_attribution_to_lifecycle,
}
use aaai.Attribution.Fault.{should_penalize-attribute}
use aaai.Attribution.Apply.{record_episode-apply, apply-blameless}
use aaai.Tests.Data.{smelt_use, used_store, fixed}

-- The task failed on the way, after the promise of the knowledge was kept.
abbrev lost : Signals ℤ
lost = record {
  success = false;
  is_harmful = false;
  contract_violated = false;
  interaction_conflict = false;
  used_knowledge = true;
  progress_delta = lit 5 1;
  postcondition_satisfied = some true;
  execution_errors = 0;
  navigation_errors = 2;
}

-- The same, with a broken promise.
abbrev broken : Signals ℤ
broken = record lost { postcondition_satisfied = some false }

should_penalize-attribute_example : should_penalize (attribute broken) ≡ true
should_penalize-attribute_example = should_penalize-attribute broken

record_episode-apply_example :
    record_episode smelt_use used_store
    ≡ append_observation smelt_use
        (apply_attribution_to_lifecycle "smelt_iron" harmful_reuse
          (fixed 1 0)
          (fixed 0 0)
          "iron"
          (some (fixed 50 2))
          used_store).0
unfolding should_penalize should_reward
record_episode-apply_example = record_episode-apply smelt_use harmful_reuse used_store refl refl

apply-blameless_example :
    (apply_attribution_to_lifecycle "smelt_iron"
      (attribute lost)
      (fixed 0 0)
      (fixed 0 0)
      "iron"
      none
      used_store).0
    ≡ used_store
apply-blameless_example =
    apply-blameless lost "smelt_iron" "iron" (fixed 0 0) (fixed 0 0) none used_store refl refl
