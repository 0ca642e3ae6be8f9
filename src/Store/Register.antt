-- ===== src/Store/Register.antt =====
-- cact/trust_store.py: `register_contract` and the lifecycle.
use aaai.Prelude.{◌≡◌, refl, String, some, ◌==◌, if◌then◌else◌, get-put, arith}
use aaai.Float.{Float}
use aaai.Contract.{ContractDict}
use aaai.Lifecycle.{candidate, get_state, get_history, value}
use aaai.Lifecycle.Order.{of_value-value}
use aaai.Store.{TrustStore, register_contract, get_contract}

-- Registering a contract makes the item a candidate whatever its state was, disabled included, writes
-- no event, and changes neither the state nor the contract of any other item.
pub register_contract-resets :
    {F : Type 0} ⦃o : Float F⦄ (st : TrustStore F) (kid j : String) (c : ContractDict F)
    → (get_state (register_contract st kid c).lifecycle j
        ≡ (if kid == j then candidate else get_state st.lifecycle j))
      × (get_contract (register_contract st kid c) j
          ≡ (if kid == j then some c else get_contract st j))
      × (get_history (register_contract st kid c).lifecycle j ≡ get_history st.lifecycle j)
unfolding register_contract get_state get_contract get_history
register_contract-resets st kid j c = (
  ground (arith, get-put st.lifecycle.states kid j (value candidate), of_value-value candidate),
  get-put st.contracts kid j c,
  refl,
)
