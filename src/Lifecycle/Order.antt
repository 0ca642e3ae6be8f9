-- ===== src/Lifecycle/Order.antt =====
-- cact/lifecycle_manager.py: transitions and the order of the states.
use aaai.Prelude.{
  ℕ, ◌≤◌, ◌<◌, ◌≡◌, refl, String, false, Option, none, some, List, [], ◌∷◌, ◌==◌, eq_iff, arith,
  if◌then◌else◌, Dict, get-put,
}
use aaai.Float.{Float}
use aaai.Lifecycle.{
  LifecycleState, candidate, disabled, value, of_value, state_order, is_disabled, LifecycleManager,
  get_state, Event, Target, member, target_state, is_backward, log_transition, make_event, move,
  transition, next_state, evaluate_auto_transition,
}

pub of_value-value : (s : LifecycleState) → of_value (value s) ≡ some s
unfolding of_value value
of_value-value candidate = refl
of_value-value _ = refl

pub get_state-log_transition :
    (m : LifecycleManager) (kid j : String) (new : LifecycleState) (e : Event)
    → get_state (log_transition m kid new e) j ≡ (if kid == j then new else get_state m j)
unfolding get_state log_transition
get_state-log_transition m kid j new e =
    ground (arith, get-put m.states kid j (value new), of_value-value new)

-- What `move` leaves behind, for every item: the target's state if it was accepted.
pub get_state-move :
    (m : LifecycleManager) (kid j : String) (new : LifecycleState) (reason : String)
    (md : Dict String)
    → get_state (move m kid new reason md).0 j ≡ (
        if is_backward (get_state m kid) new
        then get_state m j
        else if kid == j
        then new
        else get_state m j)
unfolding move
get_state-move m kid j new reason md =
    ground
      (arith, get_state-log_transition m kid j new (make_event kid (get_state m kid) new reason md))

order_le_five : (s : LifecycleState) → state_order s ≤ 5
unfolding state_order
order_le_five candidate = omega arith
order_le_five _ = omega arith

forward :
    (old new : LifecycleState) → is_backward old new ≡ false → state_order old ≤ state_order new
unfolding is_backward state_order is_disabled
forward candidate new h = ground arith
forward _ new h = ground arith

not_backward :
    (old new : LifecycleState) → state_order old < state_order new → is_backward old new ≡ false
unfolding is_backward is_disabled
not_backward old new h = ground arith

move-order :
    (m : LifecycleManager) (kid j : String) (new : LifecycleState) (reason : String)
    (md : Dict String)
    → state_order (get_state m j) ≤ state_order (get_state (move m kid new reason md).0 j)
move-order m kid j new reason md =
    rw get_state-move (ground (arith, forward (get_state m kid) new, eq_iff kid j))

-- One transition, for whatever target and whichever item, never lowers the state of any item.
pub transition-order :
    (m : LifecycleManager) (kid j : String) (target : Target) (reason : String) (md : Dict String)
    → state_order (get_state m j) ≤ state_order (get_state (transition m kid target reason md).0 j)
unfolding transition
transition-order m kid j target reason md = go (target_state target) refl
  where
    go :
        (t : Option LifecycleState)
        → target_state target ≡ t
        → state_order (get_state m j)
          ≤ state_order (get_state (transition m kid target reason md).0 j)
    go none e = rw (e, transition) (omega arith)
    go (some new) e = rw (e, transition) (move-order m kid j new reason md)

-- A state that the automatic rules propose lies strictly later in the order.
next_state-order :
    {F : Type 0} ⦃o : Float F⦄ (s t : LifecycleState) (pi harm tau h : F) (n v c : ℕ)
    → next_state s pi harm tau h n v c ≡ some t
    → state_order s < state_order t
unfolding next_state state_order
next_state-order candidate t pi harm tau h n v c e = ground arith
next_state-order _ t pi harm tau h n v c e = ground arith

-- A request of `transition`.
pub record Request : Type 0 where
  pub kid : String
  pub target : Target
  pub reason : String
  pub metadata : Dict String

unfoldable pub run : List Request → LifecycleManager → LifecycleManager
run [] m = m
run (r ∷ rest) m = run rest (transition m r.kid r.target r.reason r.metadata).0

order-disabled : (s : LifecycleState) → 5 ≤ state_order s → s ≡ disabled
unfolding state_order
order-disabled disabled h = refl
order-disabled candidate h = absurd (omega arith)
order-disabled _ h = absurd (omega arith)

pub run-order :
    (rs : List Request) (m : LifecycleManager) (j : String)
    → state_order (get_state m j) ≤ state_order (get_state (run rs m) j)
unfolding run
run-order [] m j = omega arith
run-order (r ∷ rest) m j = omega (
  arith,
  transition-order m r.kid j r.target r.reason r.metadata,
  run-order rest (transition m r.kid r.target r.reason r.metadata).0 j,
)

-- A disabled item is disabled after any sequence of transition requests, whatever they ask for.
pub disabled_permanent :
    (rs : List Request) (m : LifecycleManager) (j : String)
    → get_state m j ≡ disabled
    → get_state (run rs m) j ≡ disabled
unfolding state_order
disabled_permanent rs m j h = order-disabled (get_state (run rs m) j) (rw h at (run-order rs m j))

-- Whenever the automatic rules propose a state, it lies strictly later in the order, and `transition`
-- accepts it: the item is then in that state, and every other item where it was.
pub auto_transition-accepted :
    {F : Type 0} ⦃o : Float F⦄ (m : LifecycleManager) (kid j : String) (t : LifecycleState)
    (pi harm tau h : F) (n v c : ℕ) (reason : String) (md : Dict String)
    → evaluate_auto_transition m kid pi harm tau h n v c ≡ some t
    → (get_state (transition m kid (member t) reason md).0 j
        ≡ (if kid == j then t else get_state m j))
      × (state_order (get_state m kid) < state_order t)
unfolding evaluate_auto_transition transition target_state
auto_transition-accepted m kid j t pi harm tau h n v c reason md e =
    let later : state_order (get_state m kid) < state_order t =
      next_state-order (get_state m kid) t pi harm tau h n v c e in
    (rw get_state-move (ground (arith, not_backward (get_state m kid) t later)), later)
