-- ===== src/Metrics.antt =====
-- cact/metrics.py: the check of the records' fields and the rates over decision records and lifecycle
-- events. A record is a dictionary of observed values. `compute_ece`, `compute_cov_risk`,
-- `compute_backoff_metrics`, `compute_aulc` and the rates over episodes are not modelled.
use aaai.Prelude.{
  ℕ, suc, String, Bool, false, not, ◌&&◌, ◌||◌, Option, none, some, List, [], ◌∷◌, ◌++◌, ◌==◌,
  if◌then◌else◌, or_else, Dict, get, contains, is_nil, length, filter_by,
}
use aaai.Float.{Float, Sampler, lit, ◌⊘◌}
use aaai.State.{Value, text, is_text, truthy, str}
use aaai.Text.{lower, codes, same_codes}
use aaai.Lifecycle.{Event}
use aaai.Contract.Extract.{is_listed}

abbrev pub Record : Type 0 → Type 0
Record F = Dict (Value F)

-- `field_aliases` of a required field; a field that is not listed stands for itself.
abbrev pub field_aliases : Dict (List String)
field_aliases =
    ("success", "success" ∷ "outcome_success" ∷ [])
    ∷ ("task_group", "task_group" ∷ "group" ∷ [])
    ∷ ("harmful_reuse", "harmful_reuse" ∷ "is_harmful" ∷ [])
    ∷ ("pre_admit_contract_pass", "pre_admit_contract_pass" ∷ "contract_satisfied_before" ∷ [])
    ∷ (
      "postcondition_satisfied",
      "postcondition_satisfied" ∷ "postcondition_pass" ∷ "contract_satisfied_after" ∷ [],
    )
    ∷ ("resource_conflict", "resource_conflict" ∷ [])
    ∷ ("chain_success", "chain_success" ∷ [])
    ∷ ("decision", "decision" ∷ [])
    ∷ []

-- The fields that are required where the caller names none.
abbrev pub default_required : List String
default_required =
    "decision" ∷ "success" ∷ "task_group" ∷ "harmful_reuse" ∷ "pre_admit_contract_pass"
    ∷ "postcondition_satisfied" ∷ "resource_conflict" ∷ "chain_success" ∷ []

module _ {F : Type 0} where
  -- `_first`, with `none` for the default
  unfoldable pub first_of : Record F → List String → Option (Value F)
  first_of row [] = none
  first_of row (key ∷ keys) = elim (get row key) [ none ↦ first_of row keys | some v ↦ some v ]

  unfoldable pub has_any : Record F → List String → Bool
  has_any row [] = false
  has_any row (key ∷ keys) = contains row key || has_any row keys

  -- The errors of a record, by its place and the missing field.
  unfoldable pub missing_fields : ℕ → Record F → List String → List (ℕ × String)
  unfolding has_any
  missing_fields i row [] = []
  missing_fields i row (field ∷ fields) =
      let rest = missing_fields i row fields in
      if has_any row (or_else (get field_aliases field) (field ∷ []))
      then rest
      else (i, field) ∷ rest

  unfoldable pub schema_errors : ℕ → List (Record F) → List String → List (ℕ × String)
  unfolding missing_fields
  schema_errors i [] required = []
  schema_errors i (row ∷ rows) required =
      missing_fields i row required ++ schema_errors (suc i) rows required

  -- `some` is the `ValueError`, with all errors; its text shows the first eight.
  unfoldable pub validate_schema : List (Record F) → List String → Option (List (ℕ × String))
  unfolding schema_errors
  validate_schema rows required =
      let errors = schema_errors 0 rows (if is_nil required then default_required else required) in
      if is_nil errors then none else some errors

  -- `x.get(key) == word`
  unfoldable pub field_is : String → String → Record F → Bool
  field_is key word row = elim (get row key) [ none ↦ false | some v ↦ is_text v word ]

  -- `x.get("decision") in ("reuse", "probe")`
  unfoldable pub is_used : Record F → Bool
  unfolding field_is
  is_used row = field_is "decision" "reuse" row || field_is "decision" "probe" row

  -- `_admitted`
  unfoldable pub is_admitted : Record F → Bool
  unfolding field_is
  is_admitted row =
      field_is "decision" "reuse" row
      || (field_is "decision" "probe" row
          || (field_is "decision" "ADMIT" row || field_is "decision" "admit" row))

  -- `_first(x, "task_group", "group") == word`
  unfoldable pub group_is : String → Record F → Bool
  unfolding first_of
  group_is word row = elim (first_of row ("task_group" ∷ "group" ∷ [])) [
    | none ↦ false
    | some v ↦ is_text v word
  ]

-- `kids.add(kid)`, where the test asks for it
add_item : Bool → String → List String → List String
add_item test kid kids = if test && not (is_listed kid kids) then kid ∷ kids else kids

collect_items : List Event → List String → List String → List String × List String
unfolding add_item
collect_items [] certified deprecated = (certified, deprecated)
collect_items (e ∷ events) certified deprecated =
    collect_items events (add_item (e.new_status == "certified") e.knowledge_id certified) (
      add_item
        (e.old_status == "certified"
          && (e.new_status == "deprecated" || e.new_status == "disabled"))
        e.knowledge_id deprecated)

module _ {F : Type 0} ⦃o : Float F⦄ where
  -- `bool(_first(row, *keys, default=False))`
  unfoldable pub first_true : List String → Record F → Bool
  unfolding first_of
  first_true keys row = elim (first_of row keys) [ none ↦ false | some v ↦ truthy v ]

  -- `sum(test(x) for x in rows) / len(rows) if rows else 0.0`
  unfoldable pub rate : (Record F → Bool) → List (Record F) → F
  rate test rows =
      if is_nil rows then lit 0 1 else lit (length (filter_by test rows)) 0 ⊘ lit (length rows) 0

  unfoldable pub is_harmful_row : Record F → Bool
  unfolding first_true
  is_harmful_row = first_true ("harmful_reuse" ∷ "is_harmful" ∷ [])

  unfoldable pub compute_sr : List (Record F) → F
  unfolding first_true rate
  compute_sr = rate (first_true ("success" ∷ "outcome_success" ∷ []))

  unfoldable pub compute_kus : List (Record F) → F
  unfolding first_true rate is_used
  compute_kus rows = rate (first_true ("outcome_success" ∷ "success" ∷ [])) (filter_by is_used rows)

  unfoldable pub compute_hrr : List (Record F) → F
  unfolding is_harmful_row rate is_used
  compute_hrr rows = rate is_harmful_row (filter_by is_used rows)

  unfoldable pub compute_irr : List (Record F) → F
  unfolding first_true rate field_is
  compute_irr rows =
      rate (λ x. not (first_true ("failure_resolved" ∷ []) x))
        (filter_by (field_is "type" "remedy") rows)

  unfoldable pub compute_coverage : List (Record F) → F
  unfolding rate is_used
  compute_coverage = rate is_used

  unfoldable pub compute_hardsr : List (Record F) → F
  unfolding compute_sr field_is
  compute_hardsr rows = compute_sr (filter_by (field_is "difficulty" "hard") rows)

  unfoldable pub compute_failuresr : List (Record F) → F
  unfolding compute_sr group_is
  compute_failuresr rows = compute_sr (filter_by (group_is "failure_recovery") rows)

  unfoldable pub compute_interactionsr : List (Record F) → F
  unfolding compute_sr group_is
  compute_interactionsr rows = compute_sr (filter_by (group_is "interaction_stress") rows)

  unfoldable pub compute_rcr : List (Record F) → F
  unfolding rate first_true
  compute_rcr = rate (first_true ("resource_conflict" ∷ []))

  unfoldable pub compute_cfr : List (Record F) → F
  unfolding rate first_true
  compute_cfr = rate (λ x. not (first_true ("chain_success" ∷ []) x))

  unfoldable pub compute_csr : List (Record F) → F
  unfolding rate first_true is_used
  compute_csr rows =
      rate
        (λ x.
          first_true ("pre_admit_contract_pass" ∷ "contract_satisfied_before" ∷ []) x
          && first_true
              ("postcondition_satisfied" ∷ "postcondition_pass" ∷ "contract_satisfied_after" ∷ [])
              x)
        (filter_by is_used rows)

  unfoldable pub compute_cvr : List (Record F) → F
  unfolding rate first_true is_used
  compute_cvr rows =
      rate
        (λ x. not (
          first_true
            ("postcondition_satisfied" ∷ "postcondition_pass" ∷ "contract_satisfied_after"
              ∷ "contract_violation_after" ∷ [])
            x))
        (filter_by is_used rows)

  unfoldable pub compute_late_harm_rate : List String → List (Record F) → F
  unfolding rate is_harmful_row is_admitted field_is
  compute_late_harm_rate late_phases rows =
      rate is_harmful_row (filter_by (λ x. in_phase late_phases x && is_admitted x) rows)
    where
      in_phase : List String → Record F → Bool
      in_phase [] x = false
      in_phase (p ∷ ps) x = field_is "episode_phase" p x || in_phase ps x

  -- `len(deprecated) / len(certified)`, of the sets of items that the events name
  unfoldable pub compute_kpr : List Event → F
  unfolding collect_items
  compute_kpr events =
      let (certified, deprecated) = collect_items events [] [] in
      if is_nil certified then lit 0 1 else lit (length deprecated) 0 ⊘ lit (length certified) 0

module _ {F : Type 0} ⦃o : Float F⦄ ⦃s : Sampler F⦄ where
  -- `str(r.get("boundary_status", "")).lower() in words`
  unfoldable pub has_status : List String → Record F → Bool
  has_status [] row = false
  has_status (w ∷ words) row =
      same_codes (lower (str (or_else (get row "boundary_status") (text "")))) (codes w)
      || has_status words row

  -- the rates `far` and `tar`
  unfoldable pub compute_boundary_rates : List (Record F) → F × F
  unfolding has_status rate is_admitted
  compute_boundary_rates rows = (
    rate is_admitted
        (filter_by (has_status ("non_applicable" ∷ "blocked" ∷ "inapplicable" ∷ [])) rows),
    rate is_admitted (filter_by (has_status ("applicable" ∷ "eligible" ∷ [])) rows),
  )
