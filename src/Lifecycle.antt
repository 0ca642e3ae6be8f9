-- ===== src/Lifecycle.antt =====
-- cact/lifecycle_manager.py: `LifecycleState` and `LifecycleManager`. The lifecycle file is not
-- modelled: `_save` writes the two dictionaries, and nothing reads them back while a run lasts.
pub mod Order
pub mod History
use aaai.Prelude.{
  ℕ, ◌+◌, String, Bool, true, false, not, ◌&&◌, ◌||◌, Option, none, some, List, [], ◌∷◌, ◌++◌, ◌==◌,
  leb, if◌then◌else◌, or_else, filter_by, Dict, get, put, keys, values,
}
use aaai.Float.{Float, lit, ◌⊗◌, ◌≤?◌, ◌<?◌}

pub data LifecycleState : Type 0 where
  candidate quarantined probation certified deprecated disabled : LifecycleState

-- `state.value`
unfoldable pub value : LifecycleState → String
value candidate = "candidate"
value quarantined = "quarantined"
value probation = "probation"
value certified = "certified"
value deprecated = "deprecated"
value disabled = "disabled"

-- `LifecycleState(s)`, with `none` for the `ValueError`
unfoldable pub of_value : String → Option LifecycleState
of_value s =
    if s == "candidate"
    then some candidate
    else if s == "quarantined"
    then some quarantined
    else if s == "probation"
    then some probation
    else if s == "certified"
    then some certified
    else if s == "deprecated"
    then some deprecated
    else if s == "disabled"
    then some disabled
    else none

-- `STATE_ORDER`
unfoldable pub state_order : LifecycleState → ℕ
state_order candidate = 0
state_order quarantined = 1
state_order probation = 2
state_order certified = 3
state_order deprecated = 4
state_order disabled = 5

unfoldable pub is_disabled : LifecycleState → Bool
is_disabled disabled = true
is_disabled _ = false

-- `REUSABLE_STATES`, `SUPERVISED_STATES` and `ACTIVE_STATES`
unfoldable pub is_reusable_state : LifecycleState → Bool
is_reusable_state certified = true
is_reusable_state _ = false

unfoldable pub is_supervised_state : LifecycleState → Bool
is_supervised_state probation = true
is_supervised_state _ = false

unfoldable pub is_active_state : LifecycleState → Bool
is_active_state quarantined = true
is_active_state probation = true
is_active_state certified = true
is_active_state _ = false

pub record Event : Type 0 where
  pub knowledge_id : String
  pub old_status : String
  pub new_status : String
  pub reason : String
  pub metadata : Dict String

pub record LifecycleManager : Type 0 where
  pub states : Dict String
  pub history : Dict (List Event)

abbrev pub empty_manager : LifecycleManager
empty_manager = record { states = []; history = [] }

unfoldable pub get_state : LifecycleManager → String → LifecycleState
get_state m kid = or_else (of_value (or_else (get m.states kid) "candidate")) candidate

unfoldable pub is_reusable : LifecycleManager → String → Bool
is_reusable m kid = is_reusable_state (get_state m kid)

unfoldable pub is_supervised : LifecycleManager → String → Bool
is_supervised m kid = is_supervised_state (get_state m kid)

unfoldable pub can_reuse : LifecycleManager → String → Bool
can_reuse m kid = is_reusable_state (get_state m kid) || is_supervised_state (get_state m kid)

unfoldable pub is_active : LifecycleManager → String → Bool
is_active m kid = is_active_state (get_state m kid)

unfoldable pub get_history : LifecycleManager → String → List Event
get_history m kid = or_else (get m.history kid) []

-- The argument `new_state` of `transition`: an enum member or a string.
pub data Target : Type 0 where
  member : LifecycleState → Target
  named : String → Target

pub data Outcome : Type 0 where
  invalid_state : String → Outcome
  backward_not_allowed : LifecycleState → LifecycleState → Outcome
  transitioned : Event → Outcome

unfoldable pub target_state : Target → Option LifecycleState
target_state (member s) = some s
target_state (named s) = of_value s

unfoldable pub is_backward : LifecycleState → LifecycleState → Bool
is_backward old new = not (is_disabled new) && leb (state_order new) (state_order old)

-- The writes of an accepted transition: the state, then the event behind the item's history.
unfoldable pub log_transition :
    LifecycleManager → String → LifecycleState → Event → LifecycleManager
log_transition m kid new event = record {
  states = put m.states kid (value new);
  history = put m.history kid (get_history m kid ++ event ∷ []);
}

unfoldable pub make_event : String → LifecycleState → LifecycleState → String → Dict String → Event
make_event kid old new reason metadata = record {
  knowledge_id = kid;
  old_status = value old;
  new_status = value new;
  reason = reason;
  metadata = metadata;
}

unfoldable pub move :
    LifecycleManager → String → LifecycleState → String → Dict String → LifecycleManager × Outcome
move m kid new reason metadata =
    let old = get_state m kid in
    let event = make_event kid old new reason metadata in
    if is_backward old new
    then (m, backward_not_allowed old new)
    else (log_transition m kid new event, transitioned event)

target_text : Target → String
target_text (member s) = value s
target_text (named s) = s

unfoldable pub transition :
    LifecycleManager → String → Target → String → Dict String → LifecycleManager × Outcome
unfolding target_text
transition m kid target reason metadata = elim (target_state target) [
  | none ↦ (m, invalid_state (target_text target))
  | some new ↦ move m kid new reason metadata
]

unfoldable pub force_disable : LifecycleManager → String → String → LifecycleManager × Outcome
force_disable m kid reason = transition m kid (member disabled) reason []

module _ {F : Type 0} ⦃o : Float F⦄ where
  -- The body of `evaluate_auto_transition`, for each current state the tests that it can meet, in
  -- their order.
  unfoldable pub next_state : LifecycleState → F → F → F → F → ℕ → ℕ → ℕ → Option LifecycleState
  next_state candidate pi harm tau h_star n violations conflicts =
      if leb 1 n then some quarantined else none
  next_state quarantined pi harm tau h_star n violations conflicts =
      if leb 3 n && lit 3 1 <? pi then some probation else none
  next_state probation pi harm tau h_star n violations conflicts =
      if leb 5 n && tau ≤? pi && harm ≤? h_star
      then some certified
      else if leb 10 n && pi <? lit 5 1
      then some deprecated
      else none
  next_state certified pi harm tau h_star n violations conflicts =
      if leb 2 violations || leb 2 conflicts
      then some deprecated
      else if h_star ⊗ lit 15 1 <? harm
      then some deprecated
      else none
  next_state deprecated pi harm tau h_star n violations conflicts =
      if leb 5 violations || h_star ⊗ lit 2 0 <? harm then some disabled else none
  next_state disabled pi harm tau h_star n violations conflicts = none

  unfoldable pub evaluate_auto_transition :
      LifecycleManager → String → F → F → F → F → ℕ → ℕ → ℕ → Option LifecycleState
  evaluate_auto_transition m kid = next_state (get_state m kid)

-- `counts = {s.value: 0 for s in LifecycleState}`
unfoldable pub zero_counts : Dict ℕ
zero_counts =
    ("candidate", 0)
    ∷ ("quarantined", 0)
    ∷ ("probation", 0)
    ∷ ("certified", 0)
    ∷ ("deprecated", 0)
    ∷ ("disabled", 0)
    ∷ []

-- `if st in counts: counts[st] += 1`
unfoldable pub count_state : Dict ℕ → String → Dict ℕ
count_state counts st = elim (get counts st) [ none ↦ counts | some n ↦ put counts st (n + 1) ]

unfoldable pub count_states : Dict ℕ → List String → Dict ℕ
count_states counts [] = counts
count_states counts (st ∷ rest) = count_states (count_state counts st) rest

unfoldable pub stats : LifecycleManager → Dict ℕ
stats m = count_states zero_counts (values m.states)

unfoldable pub active_knowledge_ids : LifecycleManager → List String
active_knowledge_ids m = filter_by (is_active m) (keys m.states)

unfoldable pub certified_knowledge_ids : LifecycleManager → List String
certified_knowledge_ids m = filter_by (λ kid. is_reusable_state (get_state m kid)) (keys m.states)
