-- ===== src/Tests/Knowledge.antt =====
-- The theorems on extracted contracts and imported data at concrete inputs.
use aaai.Prelude.{
  ℕ, ◌≡◌, refl, String, Bool, true, false, Option, none, some, List, [], ◌∷◌, ◌++◌, Dict, get, inl,
  inr, ◌⊎◌,
}
use aaai.Prelude.Int.{ℤ}
use aaai.Float.Scaled.{scaled_float, scaled_sampler}
use aaai.State.{State, flag}
use aaai.Contract.{ContractDict, check_hard_boundary}
use aaai.Contract.Raw.{RawKnowledge, content_of, extract}
use aaai.Contract.Boundaries.{IsEndangered, extract-boundaries}
use aaai.Store.{TrustStore, get_contract, empty_store}
use aaai.Store.Transfer.{import_from_calibration, export_for_calibration}
use aaai.Store.Transfer.Merge.{IsDict, merged, import-export}
use aaai.Tests.Data.{fixed, smelt_candidate, torch_candidate}

abbrev lava_advice : RawKnowledge ℤ
lava_advice = record {
  type_name = none;
  source = some "XENON_FAM";
  correction = some "Keep away from lava when mining.";
  text = none;
  level = none;
  gene = none;
  task_tier = none;
  task_group = some "mining";
  group = none;
  subgoal_type = none;
  failure_type = none;
  preconditions = [];
  postconditions = [];
  non_applicable_contexts = [];
  expected_uplift = none;
  risk_bound = none;
  recovery_rule = none;
  termination_condition = none;
  min_use = none;
  min_base = none;
  max_harm_ucb = none;
  episode_id = none;
}

abbrev at_lava : State ℤ
at_lava = record { entries = ("near_lava", flag true) ∷ []; health = none }

lava-IsEndangered : IsEndangered at_lava (content_of lava_advice)
unfolding aaai.Contract.Raw.content_of aaai.Contract.Extract.mentions_any aaai.State.read
    aaai.State.is_text aaai.State.truthy aaai.State.is_set aaai.State.str aaai.Text.codes
    aaai.Text.lower aaai.Text.same_codes aaai.Text.occurs aaai.Text.any_occurs aaai.Text.strip_chars
    aaai.Text.strip aaai.Text.split_once aaai.Text.split_commas aaai.Text.has_bar
    aaai.Text.before_bar aaai.Text.after_last_bar aaai.Text.rstrip_dots aaai.Text.lines_joined
    aaai.Text.split_from aaai.Text.text_length aaai.Text.text_take aaai.Text.words_from
    aaai.Prelude.get aaai.Prelude.put aaai.Prelude.keys aaai.Prelude.values
lava-IsEndangered = inl (refl, refl)

extract-boundaries_example : (check_hard_boundary (extract "k1" lava_advice) at_lava).0 ≡ false
extract-boundaries_example = extract-boundaries at_lava "k1" lava_advice lava-IsEndangered

abbrev fresh_store : TrustStore ℤ
unfolding empty_store
fresh_store = empty_store

abbrev left_store : TrustStore ℤ
unfolding empty_store
left_store = record fresh_store {
  posteriors = ("smelt_iron|iron|use", (fixed 2 0, fixed 1 0)) ∷ [];
  contracts = ("smelt_iron", smelt_candidate) ∷ [];
}

abbrev right_store : TrustStore ℤ
unfolding empty_store
right_store = record fresh_store {
  posteriors =
      ("smelt_iron|iron|use", (fixed 5 0, fixed 1 0))
      ∷ ("craft_torch|iron|use", (fixed 1 0, fixed 1 0))
      ∷ [];
  contracts = ("craft_torch", torch_candidate) ∷ [];
}

right-IsDict : IsDict right_store.posteriors × IsDict right_store.contracts
unfolding empty_store get
right-IsDict = ((refl, (refl, tt)), (refl, tt))

import-export_example :
    (get
        (import_from_calibration left_store (export_for_calibration right_store)).posteriors
        "smelt_iron|iron|use"
      ≡ merged
          (get left_store.posteriors "smelt_iron|iron|use")
          (get right_store.posteriors "smelt_iron|iron|use"))
    × (get_contract
          (import_from_calibration left_store (export_for_calibration right_store))
          "smelt_iron|iron|use"
        ≡ merged
            (get_contract left_store "smelt_iron|iron|use")
            (get_contract right_store "smelt_iron|iron|use"))
    × ((import_from_calibration left_store (export_for_calibration right_store)).observations
        ≡ left_store.observations ++ right_store.observations)
import-export_example =
    import-export left_store right_store "smelt_iron|iron|use" right-IsDict.0 right-IsDict.1
