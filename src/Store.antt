-- ===== src/Store.antt =====
-- cact/trust_store.py: `TrustStore`, three Beta posteriors for each item and context. A method is a
-- function of the store to its result and the store after it: `_get` writes the prior of a key that it
-- does not find. The JSON files are left out: they are written and never read while a run lasts.
pub mod Record
pub mod Reads
pub mod Framed
pub mod Frame
pub mod Aging
pub mod Evidence
pub mod Episode
pub mod Register
pub mod Transfer
use aaai.Prelude.{
  ℕ, ◌+◌, String, Bool, true, false, not, ◌&&◌, ◌||◌, Option, none, some, List, [], ◌∷◌, ◌++◌, ◌==◌,
  if◌then◌else◌, or_else, is_nil, is_some, Dict, get, put, contains, length,
}
use aaai.Float.{Float, Sampler, lit, ◌⊕◌, ◌⊖◌, ◌⊗◌, ◌⊘◌, ◌≤?◌, ◌<?◌, py_max, py_min}
use aaai.Text.{text_append, before_bar, after_last_bar, has_bar}
use text.Mathlib.Text.{starts_with}
use aaai.Lifecycle.{
  LifecycleManager, LifecycleState, candidate, value, get_state, is_reusable, empty_manager,
}
use aaai.Decay.{TemporalDecay, default_decay, decay_params, adapt}
use aaai.Bayes.{EmpiricalBayes, default_bayes, get_prior}
use aaai.Contract.{ContractDict}
use aaai.Gate.{Thresholds}

-- A recorded use or fallback.
pub record Observation (F : Type 0) : Type 0 where
  pub kid : String
  pub context : String
  pub used : Bool
  pub success : F
  pub is_harmful : F
  pub propensity : Option F
  pub episode_id : String
  pub postcondition_satisfied : Option Bool

pub record TrustStore (F : Type 0) : Type 0 where
  pub posteriors : Dict (F × F)
  pub observations : List (Observation F)
  pub contracts : Dict (ContractDict F)
  pub prior_strength : F
  pub lifecycle : LifecycleManager
  pub decay : TemporalDecay F
  pub empirical_bayes : EmpiricalBayes F
  pub decay_events : ℕ
  -- `_synced_thresholds`, empty until `sync_calibration`
  pub synced_thresholds : Dict (Thresholds F)
  -- ablation flags, `True` unless the memory clears them
  pub abl_level_prior : Bool
  pub abl_lifecycle : Bool
  pub abl_decay : Bool

-- `f"{kid}|{context}|{stat}"`
unfoldable pub make_key : String → String → String → String
make_key kid context stat =
    text_append kid (text_append "|" (text_append context (text_append "|" stat)))

unfoldable pub pair_id : String → String → String
pair_id i j = text_append "pair:" (text_append i (text_append ":" j))

-- A method that reads or writes the store.
abbrev pub Method : Type 0 → Type 0 → Type 0
Method F A = TrustStore F → A × TrustStore F

module _ {F A B : Type 0} where
  infixl 5 ◌>>=◌
  abbrev pub ◌>>=◌ : Method F A → (A → Method F B) → Method F B
  ◌>>=◌ m f st = f (m st).0 (m st).1

module _ {F A : Type 0} where
  abbrev pub pure : A → Method F A
  pure a st = (a, st)

  abbrev pub gets : (TrustStore F → A) → Method F A
  gets f st = (f st, st)

module _ {F : Type 0} ⦃o : Float F⦄ where
  unfoldable pub empty_store : TrustStore F
  empty_store = record {
    posteriors = [];
    observations = [];
    contracts = [];
    prior_strength = lit 1 0;
    lifecycle = empty_manager;
    decay = default_decay;
    empirical_bayes = default_bayes;
    decay_events = 0;
    synced_thresholds = [];
    abl_level_prior = true;
    abl_lifecycle = true;
    abl_decay = true;
  }

  -- Registering a contract puts the item back into the candidate state.
  unfoldable pub register_contract : TrustStore F → String → ContractDict F → TrustStore F
  register_contract st kid contract = record st {
    contracts = put st.contracts kid contract;
    lifecycle = record (st.lifecycle) { states = put st.lifecycle.states kid (value candidate) };
  }

  unfoldable pub get_contract : TrustStore F → String → Option (ContractDict F)
  get_contract st kid = get st.contracts kid

  abbrev pub store_priors : Dict (F × F)
  store_priors =
      ("use", (lit 8 1, lit 12 1))
      ∷ ("base", (lit 6 1, lit 14 1))
      ∷ ("harm", (lit 1 1, lit 20 1))
      ∷ ("joint", (lit 10 1, lit 10 1))
      ∷ []

  default_prior : String → F × F
  default_prior stat = or_else (get store_priors stat) (lit 10 1, lit 10 1)

  -- The prior before it is scaled: the level-aware one for an item with a contract.
  unfoldable pub base_prior : TrustStore F → String → Option (ContractDict F) → String → F × F
  unfolding default_prior
  base_prior st kid none stat = default_prior stat
  base_prior st kid (some c) stat =
      if st.abl_level_prior && not (kid == "")
      then get_prior st.empirical_bayes c.type_name c.level stat
      else default_prior stat

  unfoldable pub effective_prior : TrustStore F → String → String → F × F
  effective_prior st stat kid =
      let (a0, b0) = base_prior st kid (get_contract st kid) stat in
      (
        lit 10 1 ⊕ st.prior_strength ⊗ (a0 ⊖ lit 10 1),
        lit 10 1 ⊕ st.prior_strength ⊗ (b0 ⊖ lit 10 1),
      )

  -- What a read of a key returns: its posterior, or its prior where there is none yet.
  unfoldable pub stats_of : TrustStore F → String → String → String → F × F
  stats_of st kid context stat =
      or_else (get st.posteriors (make_key kid context stat)) (effective_prior st stat kid)

  -- `_get`, which enters the prior of a key that is missing, and `get_stats`.
  unfoldable pub get_stats : String → String → String → Method F (F × F)
  get_stats kid context stat st = (
    stats_of st kid context stat,
    if contains st.posteriors (make_key kid context stat) then st else record st {
      posteriors = put st.posteriors (make_key kid context stat) (effective_prior st stat kid);
    },
  )

  -- `d["alpha"] += weight * x; d["beta"] += weight * (1 - x)`
  unfoldable pub add_evidence : String → String → String → F → F → TrustStore F → TrustStore F
  add_evidence kid context stat x weight st =
      let (a, b) = stats_of st kid context stat in
      record st {
        posteriors =
            put st.posteriors (make_key kid context stat)
              (a ⊕ weight ⊗ x, b ⊕ weight ⊗ (lit 10 1 ⊖ x));
      }

  unfoldable pub record_use : String → String → F → F → TrustStore F → TrustStore F
  record_use kid context = add_evidence kid context "use"

  unfoldable pub record_base : String → String → F → F → TrustStore F → TrustStore F
  record_base kid context = add_evidence kid context "base"

  unfoldable pub record_harm : String → String → F → F → TrustStore F → TrustStore F
  record_harm kid context = add_evidence kid context "harm"

  unfoldable pub sync_calibration : TrustStore F → Dict (Thresholds F) → TrustStore F
  sync_calibration st t = record st { synced_thresholds = t }

  unfoldable pub mean : String → String → String → Method F F
  mean kid context stat = do
    (a, b) ← get_stats kid context stat
    pure (a ⊘ py_max (a ⊕ b) (lit 1 8))

  unfoldable pub total_count : String → String → String → Method F F
  total_count kid context stat = do
    (a, b) ← get_stats kid context stat
    (a0, b0) ← gets (λ st. effective_prior st stat kid)
    pure (py_max (lit 0 0) (a ⊕ b ⊖ a0 ⊖ b0))

  unfoldable pub ess : String → String → Method F F
  ess kid context = do
    n_use ← total_count kid context "use"
    n_base ← total_count kid context "base"
    n_harm ← total_count kid context "harm"
    pure (n_use ⊕ n_base ⊕ n_harm)

  unfoldable pub get_joint_stats : String → String → String → Method F (F × F)
  get_joint_stats i j context = get_stats (pair_id i j) context "joint"

  -- `record_joint`; the harm that it is given is not used.
  unfoldable pub record_joint : String → String → String → F → TrustStore F → TrustStore F
  record_joint i j context success st =
      let (a, b) = stats_of st (pair_id i j) context "joint" in
      record st {
        posteriors =
            put st.posteriors (make_key (pair_id i j) context "joint")
              (a ⊕ success, b ⊕ (lit 10 1 ⊖ success));
      }

  -- The joint statistics of every pair of a list, in the order of the double loop.
  unfoldable pub pair_row :
      String → List String → String → Method F (List ((String × String) × (F × F)))
  pair_row i [] context = pure []
  pair_row i (j ∷ rest) context = do
    stats ← get_joint_stats i j context
    row ← pair_row i rest context
    pure (((i, j), stats) ∷ row)

  unfoldable pub get_all_pair_stats :
      List String → String → Method F (List ((String × String) × (F × F)))
  get_all_pair_stats [] context = pure []
  get_all_pair_stats (i ∷ rest) context = do
    row ← pair_row i rest context
    rows ← get_all_pair_stats rest context
    pure (row ++ rows)
