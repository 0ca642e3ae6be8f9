-- ===== src/Store/Transfer.antt =====
-- cact/trust_store.py: `thompson_sample`, the views of a contract, and the export and import of a
-- store's data.
pub mod Merge
use aaai.Prelude.{ℕ, String, Option, none, some, List, [], ◌∷◌, ◌++◌, or_else, Dict, put, get}
use aaai.Float.{Float, Sampler}
use aaai.Text.{text_append}
use aaai.Lifecycle.{active_knowledge_ids, stats}
use aaai.Contract.{ContractDict}
use aaai.Store.{TrustStore, Observation, Method, ◌>>=◌, pure, get_contract, get_stats}

-- `d.update(e)`
unfoldable pub update {ℓ} : {V : Type ℓ} → Dict V → Dict V → Dict V
update d [] = d
update d ((k, v) ∷ e) = update (put d k v) e

-- The data of an export; each part may be missing.
pub record CalibrationData (F : Type 0) : Type 0 where
  pub posteriors : Option (Dict (F × F))
  pub contracts : Option (Dict (ContractDict F))
  pub observations : Option (List (Observation F))

module _ {F : Type 0} ⦃o : Float F⦄ where
  unfoldable pub get_knowledge_type : TrustStore F → String → String
  get_knowledge_type st kid = elim (get_contract st kid) [ none ↦ "" | some c ↦ c.type_name ]

  unfoldable pub get_knowledge_level : TrustStore F → String → String
  get_knowledge_level st kid = elim (get_contract st kid) [ none ↦ "" | some c ↦ c.level ]

  unfoldable pub get_type_level_key : TrustStore F → String → String
  get_type_level_key st kid = elim (get_contract st kid) [
    | none ↦ "unknown|unknown"
    | some c ↦ text_append c.type_name (text_append "|" c.level)
  ]

module _ {F : Type 0} where
  unfoldable pub get_active_knowledge : TrustStore F → List String
  get_active_knowledge st = active_knowledge_ids st.lifecycle

  unfoldable pub lifecycle_stats : TrustStore F → Dict ℕ
  lifecycle_stats st = stats st.lifecycle

  unfoldable pub export_for_calibration : TrustStore F → CalibrationData F
  export_for_calibration st = record {
    posteriors = some st.posteriors;
    contracts = some st.contracts;
    observations = some st.observations;
  }

  unfoldable pub import_from_calibration : TrustStore F → CalibrationData F → TrustStore F
  import_from_calibration st d = record st {
    posteriors = update st.posteriors (or_else d.posteriors []);
    contracts = update st.contracts (or_else d.contracts []);
    observations = st.observations ++ or_else d.observations [];
  }

module _ {F : Type 0} ⦃o : Float F⦄ ⦃s : Sampler F⦄ where
  -- The three draws, and the generator after them.
  unfoldable pub thompson_sample : String → String → ℕ → Method F ((F × F × F) × ℕ)
  thompson_sample kid context seed = do
    (a1, b1) ← get_stats kid context "use"
    (a2, b2) ← get_stats kid context "base"
    (a3, b3) ← get_stats kid context "harm"
    let (p_use, seed1) = s.beta a1 b1 seed
    let (p_base, seed2) = s.beta a2 b2 seed1
    let (p_harm, seed3) = s.beta a3 b3 seed2
    pure ((p_use, p_base, p_harm), seed3)
