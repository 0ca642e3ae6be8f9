-- ===== src/Protocol/Applicability.antt =====
-- cact/protocol_v2.py: `ApplicabilitySpec` with `_eval_condition` and `_eval_flag`, and the randomised
-- assignment. The state and the context are dictionaries of observed values; `expected` of a scope is
-- a value or `None`.
use aaai.Prelude.{
  ℕ, String, Bool, true, false, not, ◌&&◌, ◌||◌, none, some, List, [], ◌∷◌, ◌==◌, if◌then◌else◌,
  or_else, Dict, get,
}
use aaai.Float.{Float, Sampler, lit, ◌≤?◌, ◌<?◌}
use aaai.State.{Value, text, flag, number, nothing, truthy, str}
use aaai.Text.{codes, lower, same_codes, strip, split_once, text_append}
use aaai.Contract.{listed_values}
use aaai.Contract.Extract.{is_listed}
use aaai.Protocol.Schema.{clip_to_positivity}

pub record ApplicabilitySpec (F : Type 0) : Type 0 where
  pub knowledge_id : String
  pub source : String
  pub type : String
  pub scope : Dict (Value F)
  pub preconditions : List String
  pub hard_non_applicable : List String
  pub postconditions : List String
  pub provenance : Dict (Value F)
  pub raw_text : String

pub data Verdict : Type 0 where
  applicable scope_mismatch precondition_failed hard_boundary : Verdict

-- the aliases of `_eval_flag`
unfoldable pub flag_keys : String → List String
flag_keys name =
    if name == "lava_nearby"
    then "near_lava" ∷ "lava_nearby" ∷ []
    else if name == "low_health"
    then "low_health" ∷ []
    else if name == "active_combat"
    then "in_combat" ∷ "combat_active" ∷ []
    else if name == "near_cliff"
    then "near_cliff" ∷ []
    else if name == "resource_critical"
    then "resource_critical" ∷ "irreversible_resource_constraint" ∷ []
    else name ∷ []

module _ {F : Type 0} ⦃o : Float F⦄ where
  -- `True` and `False` as numbers
  number_of : Bool → F
  number_of true = lit 1 0
  number_of false = lit 0 0

  same_number : F → F → Bool
  same_number x y = x ≤? y && y ≤? x

  -- `v == w`
  unfoldable pub same_value : Value F → Value F → Bool
  unfolding number_of same_number
  same_value (text a) (text b) = a == b
  same_value (flag true) (flag b) = b
  same_value (flag false) (flag b) = not b
  same_value (number x) (number y) = same_number x y
  same_value (flag a) (number y) = same_number (number_of a) y
  same_value (number x) (flag b) = same_number x (number_of b)
  same_value nothing nothing = true
  same_value _ _ = false

  -- `expected is not None and context.get(key) != expected` fails for every entry
  unfoldable pub meets_scope : Dict (Value F) → Dict (Value F) → Bool
  unfolding same_value
  meets_scope [] context = true
  meets_scope ((key, expected) ∷ rest) context =
      (is_nothing expected || same_value (or_else (get context key) nothing) expected)
      && meets_scope rest context
    where
      is_nothing : Value F → Bool
      is_nothing nothing = true
      is_nothing (text _) = false
      is_nothing (flag _) = false
      is_nothing (number _) = false

  -- `bool(state.get(k, context.get(k, False)))`
  unfoldable pub any_flag : List String → Dict (Value F) → Dict (Value F) → Bool
  any_flag [] state context = false
  any_flag (k ∷ ks) state context =
      truthy (or_else (get state k) (or_else (get context k) (flag false)))
      || any_flag ks state context

  unfoldable pub eval_flag : String → Dict (Value F) → Dict (Value F) → Bool
  unfolding any_flag flag_keys
  eval_flag name state context = any_flag (flag_keys name) state context

  unfoldable pub hits_boundary : List String → Dict (Value F) → Dict (Value F) → Bool
  unfolding eval_flag
  hits_boundary [] state context = false
  hits_boundary (b ∷ bs) state context = eval_flag b state context || hits_boundary bs state context

module _ {F : Type 0} ⦃o : Float F⦄ ⦃s : Sampler F⦄ where
  -- `str(state.get(key.strip(), ""))`
  unfoldable pub state_text : Dict (Value F) → String → String
  state_text state key = str (or_else (get state (strip key)) (text ""))

  -- The test where `==` or no operator occurs.
  unfoldable pub eval_plain : String → Dict (Value F) → Bool
  unfolding state_text
  eval_plain cond state = elim (split_once (codes "==") cond) [
    | some (key, value) ↦ same_codes (lower (state_text state key)) (lower (strip value))
    | none ↦ truthy (or_else (get state cond) (flag false))
  ]

  unfoldable pub eval_member : String → Dict (Value F) → Bool
  unfolding state_text eval_plain
  eval_member cond state = elim (split_once (codes " in ") cond) [
    | some (key, vals) ↦ is_listed (state_text state key) (listed_values vals)
    | none ↦ eval_plain cond state
  ]

  -- `_eval_condition` on the stripped condition
  unfoldable pub eval_stripped : String → Dict (Value F) → Bool
  unfolding state_text eval_member
  eval_stripped cond state = elim (split_once (codes " not in ") cond) [
    | some (key, vals) ↦ not (is_listed (state_text state key) (listed_values vals))
    | none ↦ eval_member cond state
  ]

  unfoldable pub meets_all : List String → Dict (Value F) → Bool
  unfolding eval_stripped
  meets_all [] state = true
  meets_all (c ∷ cs) state = eval_stripped (strip c) state && meets_all cs state

  unfoldable pub evaluate_spec : ApplicabilitySpec F → Dict (Value F) → Dict (Value F) → Verdict
  unfolding meets_scope meets_all hits_boundary
  evaluate_spec spec state context =
      if not (meets_scope spec.scope context)
      then scope_mismatch
      else if not (meets_all spec.preconditions state)
      then precondition_failed
      else if hits_boundary spec.hard_non_applicable state context
      then hard_boundary
      else applicable

-- The seed is held as its text, the form in which it is hashed.
pub record RandomizedAssignment (F : Type 0) : Type 0 where
  pub probability : F
  pub seed : String

module _ {F : Type 0} ⦃o : Float F⦄ where
  unfoldable pub make_assignment : F → String → RandomizedAssignment F
  make_assignment probability seed = record {
    probability = clip_to_positivity probability;
    seed = seed;
  }

module _ {F : Type 0} ⦃o : Float F⦄ ⦃s : Sampler F⦄ where
  -- The arm, its propensity and the seed of the draw.
  unfoldable pub assign : RandomizedAssignment F → String → Bool × (F × ℕ)
  assign r opportunity_id =
      let local_seed = s.digest_word (text_append r.seed (text_append "|" opportunity_id)) in
      let (draw, _) = s.uniform local_seed in (draw <? r.probability, (r.probability, local_seed))
