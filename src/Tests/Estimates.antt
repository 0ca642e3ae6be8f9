-- ===== src/Tests/Estimates.antt =====
-- The registration of a contract at concrete inputs.
use aaai.Prelude.{◌≡◌, some, ◌==◌, if◌then◌else◌}
use aaai.Float.Scaled.{scaled_float, scaled_sampler}
use aaai.Lifecycle.{candidate, get_state, get_history}
use aaai.Store.{register_contract, get_contract}
use aaai.Store.Register.{register_contract-resets}
use aaai.Tests.Data.{used_store, torch_candidate}

register_contract-resets_example :
    (get_state (register_contract used_store "craft_torch" torch_candidate).lifecycle "smelt_iron"
      ≡ (if "craft_torch" == "smelt_iron"
          then candidate
          else get_state used_store.lifecycle "smelt_iron"))
    × (get_contract (register_contract used_store "craft_torch" torch_candidate) "smelt_iron" ≡ (
        if "craft_torch" == "smelt_iron"
        then some torch_candidate
        else get_contract used_store "smelt_iron"))
    × (get_history
          (register_contract used_store "craft_torch" torch_candidate).lifecycle
          "smelt_iron"
        ≡ get_history used_store.lifecycle "smelt_iron")
register_contract-resets_example =
    register_contract-resets used_store "craft_torch" "smelt_iron" torch_candidate
