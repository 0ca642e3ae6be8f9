-- ===== src/Protocol/Schema.antt =====
-- cact/protocol_v2.py: `_clip_propensity`, `OpportunityLogger.validate_row` and the log that `append`
-- writes and `load` reads. A row is the names of its fields and their values, which are read only
-- behind the check that all required ones are there; the file's lines are a list.
use mathlib.Core.Logic.{⊎_elim}
use aaai.Prelude.{
  ◌≡◌, refl, String, Bool, true, false, not, ◌&&◌, ◌||◌, Option, none, some, List, [], ◌∷◌, ◌++◌,
  ◌==◌, if◌then◌else◌, arith, inl, inr, All, Any, is_some, is_nil, filter_by, ◌↔◌, ◌⊎◌, if_elim,
}
use aaai.Float.{Float, lit, ◌⊕◌, ◌⊖◌, ◌≤?◌, ◌<?◌, py_max, py_min}
use aaai.Contract.Extract.{is_listed}
use aaai.Protocol.{Opportunity}

-- `REQUIRED`, sorted
required_fields : List String
required_fields =
    "annotator_status" ∷ "assignment" ∷ "boundary_status" ∷ "censor_flag"
    ∷ "collection_exposure_count" ∷ "eligibility_reason" ∷ "eligible" ∷ "end_step" ∷ "episode_id"
    ∷ "episode_phase" ∷ "exclusion_reason" ∷ "failure_type" ∷ "inventory_signature" ∷ "knowledge_id"
    ∷ "label_source" ∷ "opportunity_id" ∷ "prior_admission_bin" ∷ "prior_fallback_bin"
    ∷ "prior_harm_flag" ∷ "propensity_base" ∷ "propensity_reuse" ∷ "randomization_seed"
    ∷ "raw_text_hash" ∷ "remaining_critical_resource_ratio" ∷ "remaining_opportunities"
    ∷ "resource_scarcity" ∷ "retrieval_rank" ∷ "retrieval_score" ∷ "risk_tier" ∷ "round"
    ∷ "schema_version" ∷ "second_intervention_flag" ∷ "snapshot_hash" ∷ "source" ∷ "start_step"
    ∷ "stream_seed" ∷ "task_group" ∷ "task_id" ∷ "time_since_last_window" ∷ "type" ∷ "window_type"
    ∷ "world_seed" ∷ []

-- The names that `Opportunity.to_dict` writes.
to_dict_fields : List String
unfolding required_fields
to_dict_fields =
    required_fields
    ++ "y" ∷ "h1" ∷ "h2" ∷ "h3" ∷ "h4" ∷ "h5" ∷ "h6" ∷ "progress_delta" ∷ "steps" ∷ "resource_cost"
      ∷ "token_cost" ∷ "call_cost" ∷ "harm" ∷ []

pub data RowError : Type 0 where
  absent_fields : List String → RowError
  unsupported_schema ineligible_reason positivity_violation propensity_sum : RowError

pub record Row (F : Type 0) : Type 0 where
  pub fields : List String
  pub schema_version : String
  pub opportunity : Opportunity F

module _ {F : Type 0} ⦃o : Float F⦄ where
  unfoldable pub clip_to_positivity : F → F
  clip_to_positivity x = py_min (py_max x (lit 2 1)) (lit 8 1)

  -- `REQUIRED - set(row)`, sorted
  absent_required : Row F → List String
  unfolding required_fields
  absent_required row = filter_by (λ f. not (is_listed f row.fields)) required_fields

  unfoldable pub validate_row : Row F → Option RowError
  unfolding absent_required
  validate_row row =
      let op = row.opportunity in
      let p = op.propensity_reuse in
      if not (is_nil (absent_required row))
      then some (absent_fields (absent_required row))
      else if not (row.schema_version == "cact.v2")
      then some unsupported_schema
      else if not op.eligible && op.eligibility_reason == "eligible"
      then some ineligible_reason
      else if op.eligible && not (lit 2 1 ≤? p && p ≤? lit 8 1)
      then some positivity_violation
      else if op.eligible && lit 1 6 <? o.abs (p ⊕ op.propensity_base ⊖ lit 10 1)
      then some propensity_sum
      else none

  unfoldable pub to_row : Opportunity F → Row F
  unfolding to_dict_fields
  to_row op = record { fields = to_dict_fields; schema_version = "cact.v2"; opportunity = op }

pub data Logged (A : Type 0) : Type 0 where
  logged : A → Logged A
  refused : RowError → Logged A

module _ {F : Type 0} ⦃o : Float F⦄ where
  -- `append`: a refused row is not written.
  unfoldable pub append_row : List (Row F) → Opportunity F → Logged (List (Row F))
  unfolding validate_row to_row
  append_row file op = elim (validate_row (to_row op)) [
    | none ↦ logged (file ++ to_row op ∷ [])
    | some e ↦ refused e
  ]

  unfoldable pub keep_row :
      Bool → Opportunity F → Logged (List (Opportunity F)) → Logged (List (Opportunity F))
  keep_row keep op (refused e) = refused e
  keep_row keep op (logged ops) = logged (if keep then op ∷ ops else ops)

  unfoldable pub load_row :
      Bool
      → Opportunity F
      → Option RowError
      → Logged (List (Opportunity F))
      → Logged (List (Opportunity F))
  unfolding keep_row
  load_row eligible_only op (some e) rest = refused e
  load_row eligible_only op none rest = keep_row (not eligible_only || op.eligible) op rest

  -- `load` raises at the first line that fails.
  unfoldable pub load_rows : Bool → List (Row F) → Logged (List (Opportunity F))
  unfolding validate_row load_row
  load_rows eligible_only [] = logged []
  load_rows eligible_only (row ∷ rows) =
      load_row eligible_only row.opportunity (validate_row row) (load_rows eligible_only rows)

abbrev pub is_refused : {A : Type 0} → Logged A → Bool
is_refused (logged a) = false
is_refused (refused e) = true

-- What was loaded, if anything was.
abbrev pub loaded : {A : Type 0} → Logged (List A) → List A
loaded (logged xs) = xs
loaded (refused e) = []

module _ {F : Type 0} ⦃o : Float F⦄ where
  -- An eligible opportunity was assigned by a propensity between 0.2 and 0.8, whose counterpart makes it
  -- one up to 1e-6.
  abbrev pub is_positive_design : Opportunity F → Bool
  is_positive_design op =
      not op.eligible
      || ((lit 2 1 ≤? op.propensity_reuse && op.propensity_reuse ≤? lit 8 1)
          && not (lit 1 6 <? o.abs (op.propensity_reuse ⊕ op.propensity_base ⊖ lit 10 1)))

  validate_row-is_positive_design :
      (row : Row F) → validate_row row ≡ none → is_positive_design row.opportunity ≡ true
  unfolding validate_row
  validate_row-is_positive_design row h = ground arith

  abbrev Loads : Logged (List (Opportunity F)) → Type 0 → Type 0
  Loads r Fails =
      (is_refused r ≡ true ↔ Fails) × All (λ op. is_positive_design op ≡ true) (loaded r)

  load_row-Loads :
      (eligible_only : Bool) (row : Row F) (v : Option RowError) (Fails : Type 0)
      (rest : Logged (List (Opportunity F)))
      → validate_row row ≡ v
      → Loads rest Fails
      → Loads (load_row eligible_only row.opportunity v rest) ((is_some v ≡ true) ⊎ Fails)
  unfolding load_row keep_row
  load_row-Loads eligible_only row (some e) Fails rest f h = ((λ _. inl refl, λ _. refl), tt)
  load_row-Loads eligible_only row none Fails (refused e) f h =
      ((λ _. inr (h.0.0 refl), λ _. refl), tt)
  load_row-Loads eligible_only row none Fails (logged ops) f h = (
    (λ x. absurd (cc), λ x. ⊎_elim (λ y. absurd (cc)) h.0.1 x),
    if_elim (λ xs. All (λ op. is_positive_design op ≡ true) xs)
        (not eligible_only || row.opportunity.eligible) (row.opportunity ∷ ops) ops
        (validate_row-is_positive_design row f, h.1) h.1,
  )

  -- Loading a file is refused exactly if one of its rows is invalid; every opportunity that is loaded
  -- was, if eligible, assigned by a propensity between 0.2 and 0.8 whose counterpart makes it one up to
  -- 1e-6.
  pub load_rows-is_positive_design :
      (eligible_only : Bool) (file : List (Row F))
      → (is_refused (load_rows eligible_only file) ≡ true
          ↔ Any (λ row. is_some (validate_row row) ≡ true) file)
        × All (λ op. is_positive_design op ≡ true) (loaded (load_rows eligible_only file))
  unfolding load_rows
  load_rows-is_positive_design eligible_only [] = ((λ h. absurd (cc), λ h. absurd h), tt)
  load_rows-is_positive_design eligible_only (row ∷ rows) =
      load_row-Loads eligible_only row (validate_row row) _ _ refl
        (load_rows-is_positive_design eligible_only rows)
