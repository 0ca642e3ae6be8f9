-- ===== src/Contract.antt =====
-- cact/contract.py: `KnowledgeContract`, its serialised form, and `ContractChecker`. A serialised
-- contract is a dictionary whose missing keys stand at their defaults; `full_text` and `group` are
-- read with other defaults, and may be missing.
pub mod Extract
pub mod Raw
pub mod Boundaries
pub mod Checks
pub mod Serial
use aaai.Prelude.{
  ℕ, String, Bool, true, false, not, ◌&&◌, ◌||◌, Option, none, some, List, [], ◌∷◌, ◌==◌,
  if◌then◌else◌, or_else, is_nil, filter_by, Dict, get, map,
}
use aaai.Float.{Float, Sampler, lit, ◌<?◌}
use aaai.Text.{strip, strip_chars, split_once, split_commas, occurs, codes, lower, same_codes}
use aaai.State.{Value, text, flag, State, read, is_text, truthy, is_set, str}

-- The fields that the checks do not read.
pub record Details (F : Type 0) : Type 0 where
  pub source : String
  pub expected_uplift : F
  pub risk_bound : F
  pub recovery_rule : String
  pub termination_condition : String
  pub evidence_requirement : Dict F
  pub source_episode : String
  pub status : String

pub record KnowledgeContract (F : Type 0) : Type 0 where
  pub knowledge_id : String
  pub type_name : String
  pub level : String
  pub gene : String
  pub full_text : String
  pub scope : Dict String
  pub claimed_context : Dict String
  pub preconditions : List String
  pub postconditions : List String
  pub hard_non_applicable_contexts : List String
  pub non_applicable_contexts : List String
  pub details : Details F

-- A contract as a dictionary.
pub record ContractDict (F : Type 0) : Type 0 where
  pub knowledge_id : String
  pub type_name : String
  pub level : String
  pub gene : String
  pub full_text : Option String
  pub scope : Dict String
  pub claimed_context : Dict String
  pub preconditions : List String
  pub postconditions : List String
  pub hard_non_applicable_contexts : List String
  pub non_applicable_contexts : List String
  pub details : Details F
  pub group : Option String

-- `x if x else y`, for lists and dictionaries
unfoldable pub or_if_nil {ℓ} : {A : Type ℓ} → List A → List A → List A
or_if_nil xs ys = if is_nil xs then ys else xs

module _ {F : Type 0} where
  unfoldable pub get_scope : KnowledgeContract F → Dict String
  get_scope c = or_if_nil c.scope c.claimed_context

  unfoldable pub get_safety_boundaries : KnowledgeContract F → List String
  get_safety_boundaries c = or_if_nil c.hard_non_applicable_contexts c.non_applicable_contexts

  -- The contract itself after `to_dict`, which mirrors its legacy fields into the new ones.
  abbrev pub mirror_legacy : KnowledgeContract F → KnowledgeContract F
  mirror_legacy c = record c {
    scope = or_if_nil c.scope c.claimed_context;
    hard_non_applicable_contexts =
        or_if_nil c.hard_non_applicable_contexts c.non_applicable_contexts;
  }

  -- What `to_dict` returns: the mirrored contract without its legacy fields.
  unfoldable pub to_dict : KnowledgeContract F → ContractDict F
  to_dict c = record {
    knowledge_id = c.knowledge_id;
    type_name = c.type_name;
    level = c.level;
    gene = c.gene;
    full_text = some c.full_text;
    scope = (mirror_legacy c).scope;
    claimed_context = [];
    preconditions = c.preconditions;
    postconditions = c.postconditions;
    hard_non_applicable_contexts = (mirror_legacy c).hard_non_applicable_contexts;
    non_applicable_contexts = [];
    details = c.details;
    group = none;
  }

  unfoldable pub from_dict : ContractDict F → KnowledgeContract F
  from_dict d = record {
    knowledge_id = d.knowledge_id;
    type_name = d.type_name;
    level = d.level;
    gene = d.gene;
    full_text = or_else d.full_text "";
    scope = or_if_nil d.scope d.claimed_context;
    claimed_context = d.claimed_context;
    preconditions = d.preconditions;
    postconditions = d.postconditions;
    hard_non_applicable_contexts =
        or_if_nil d.hard_non_applicable_contexts d.non_applicable_contexts;
    non_applicable_contexts = d.non_applicable_contexts;
    details = d.details;
  }

-- `check_scope_match`: the context must agree with every entry of the scope that is not `*`.
unfoldable pub matches_scope : Dict String → Dict String → Bool
matches_scope [] context = true
matches_scope ((key, val) ∷ rest) context =
    (val == "*" || or_else (get context key) "" == val) && matches_scope rest context

module _ {F : Type 0} where
  unfoldable pub check_scope_match : KnowledgeContract F → Dict String → Bool
  check_scope_match c context = matches_scope (get_scope c) context

-- `{v.strip() for v in s.strip(" {}").split(",")}`
unfoldable pub listed_values : String → List String
listed_values s = map strip (split_commas (strip_chars (32 ∷ 123 ∷ 125 ∷ []) s))

module _ {F : Type 0} where
  -- `v in vals`
  unfoldable pub is_member : Value F → List String → Bool
  is_member v [] = false
  is_member v (w ∷ ws) = is_text v w || is_member v ws

-- `" in " in cond and "not" not in cond.split("in")[0]`
is_membership : String → Bool
is_membership cond =
    occurs (codes " in ") (codes cond)
    && not (occurs (codes "not") (codes (or_else (split_once (codes "in") cond) (cond, "")).0))

module _ {F : Type 0} ⦃o : Float F⦄ ⦃s : Sampler F⦄ where
  -- `state.get(attr, "") in vals`, of the two sides of the condition
  member_test : State F → String × String → Bool
  member_test st (attr, vals) =
      is_member (or_else (read st (strip attr)) (text "")) (listed_values vals)

  -- `str(state.get(attr, "")).lower() == val.strip().lower()`
  equality_test : State F → String × String → Bool
  equality_test st (attr, val) =
      same_codes (lower (str (or_else (read st (strip attr)) (text "")))) (lower (strip val))

  -- The patterns below `X not in {...}`. A name that is not in the state fails the last test too.
  eval_positive : State F → String → Bool
  unfolding member_test equality_test is_membership
  eval_positive st cond =
      if is_membership cond
      then member_test st (or_else (split_once (codes " in ") cond) (cond, ""))
      else elim (split_once (codes "==") cond) [
        | some sides ↦ equality_test st sides
        | none ↦ is_set st cond
      ]

  unfoldable pub eval_condition : String → State F → Bool
  unfolding eval_positive member_test
  eval_condition condition st = elim (split_once (codes "not in") (strip condition)) [
    | some sides ↦ not (member_test st sides)
    | none ↦ eval_positive st (strip condition)
  ]

  -- The conditions that fail, in their order.
  unfoldable pub violations : List String → State F → List String
  violations conds st = filter_by (λ cond. not (eval_condition cond st)) conds

  unfoldable pub check_preconditions : KnowledgeContract F → State F → Bool × List String
  check_preconditions c st = (is_nil (violations c.preconditions st), violations c.preconditions st)

  unfoldable pub check_postconditions : KnowledgeContract F → State F → State F → Bool × List String
  check_postconditions c before after =
      (is_nil (violations c.postconditions after), violations c.postconditions after)

module _ {F : Type 0} ⦃o : Float F⦄ where
  -- `s.get("low_health", s.get("health", 20) < 5)`
  low_health : State F → Bool
  low_health st = elim (read st "low_health") [
    | some v ↦ truthy v
    | none ↦ or_else st.health (lit 20 0) <? lit 5 0
  ]

  unfoldable pub eval_context_flag : String → State F → Bool
  unfolding low_health
  eval_context_flag name st =
      if name == "lava_nearby"
      then is_set st "near_lava"
      else if name == "low_health"
      then low_health st
      else if name == "combat_active"
      then is_set st "in_combat"
      else if name == "near_cliff"
      then is_set st "near_cliff"
      else if name == "irreversible_resource_constraint"
      then is_set st "resource_critical"
      else false

  unfoldable pub triggered : List String → State F → List String
  triggered contexts st = filter_by (λ c. eval_context_flag c st) contexts

  unfoldable pub check_hard_boundary : KnowledgeContract F → State F → Bool × List String
  check_hard_boundary c st =
      (is_nil (triggered (get_safety_boundaries c) st), triggered (get_safety_boundaries c) st)
