-- ===== src/Store/Transfer/Merge.antt =====
-- cact/trust_store.py: what a store holds after an import.
use aaai.Prelude.{
  ◌≡◌, refl, String, false, Option, none, some, [], ◌∷◌, ◌++◌, eq_iff, is_some, Dict, get, put,
  get-put, arith,
}
use aaai.Float.{Float}
use aaai.Store.{TrustStore, get_contract}
use aaai.Store.Transfer.{update, import_from_calibration, export_for_calibration}

-- No key stands twice, as in any dictionary.
abbrev pub IsDict {ℓ} : {V : Type ℓ} → Dict V → Type 0
IsDict [] = Unit
IsDict ((k, v) ∷ e) = (is_some (get e k) ≡ false) × IsDict e

-- The second value where there is one, else the first.
abbrev pub merged {ℓ} : {V : Type ℓ} → Option V → Option V → Option V
merged old none = old
merged old (some v) = some v

get-update {ℓ} :
    {V : Type ℓ} (d e : Dict V) (k : String)
    → IsDict e
    → get (update d e) k ≡ merged (get d k) (get e k)
unfolding get update
get-update d [] k h = refl
get-update d ((j, v) ∷ e) k h =
    ground (arith, get-update (put d j v) e k h.1, get-put d j k v, eq_iff j k, h.0)

-- A store that imports the export of another one, whose keys are distinct, reads every key and every
-- contract of the other as the other does, keeps its own where the other has none, and has the other's
-- observations behind its own.
pub import-export :
    {F : Type 0} ⦃o : Float F⦄ (st st' : TrustStore F) (k : String)
    → IsDict st'.posteriors
    → IsDict st'.contracts
    → (get (import_from_calibration st (export_for_calibration st')).posteriors k
        ≡ merged (get st.posteriors k) (get st'.posteriors k))
      × (get_contract (import_from_calibration st (export_for_calibration st')) k
          ≡ merged (get_contract st k) (get_contract st' k))
      × ((import_from_calibration st (export_for_calibration st')).observations
          ≡ st.observations ++ st'.observations)
unfolding import_from_calibration export_for_calibration get_contract
import-export st st' k h h' =
    (get-update st.posteriors st'.posteriors k h, get-update st.contracts st'.contracts k h', refl)
