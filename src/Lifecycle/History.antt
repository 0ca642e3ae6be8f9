-- ===== src/Lifecycle/History.antt =====
-- cact/lifecycle_manager.py: the history of an item, read event by event.
use aaai.Prelude.{
  inl, inr, not, ◌&&◌, ◌≡◌, refl, String, false, Option, none, some, List, [], ◌∷◌, ◌==◌, ◌++◌,
  eq_refl, arith, if◌then◌else◌, or_else, Bool-cases, Dict, get, get-put,
}
use aaai.Lifecycle.{
  LifecycleState, candidate, value, of_value, LifecycleManager, get_state, Event, target_state,
  is_backward, log_transition, make_event, move, transition, get_history, empty_manager,
}
use aaai.Lifecycle.Order.{of_value-value, get_state-log_transition, Request, run}

-- One event read against the state before it: it must start there and be allowed.
replay_event : LifecycleState → Event → Option LifecycleState
replay_event s e = elim (of_value e.new_status) [
  | none ↦ none
  | some t ↦ if e.old_status == value s && not (is_backward s t) then some t else none
]

pub replay : Option LifecycleState → List Event → Option LifecycleState
replay none es = none
replay (some s) [] = some s
replay (some s) (e ∷ rest) = replay (replay_event s e) rest

-- Every item's history replays from `candidate` to the item's state.
abbrev pub IsLogged : LifecycleManager → Type 0
IsLogged m = (j : String) → replay (some candidate) (get_history m j) ≡ some (get_state m j)

replay-snoc :
    (o : Option LifecycleState) (t : LifecycleState) (es : List Event) (e : Event)
    → replay o es ≡ some t
    → replay o (es ++ e ∷ []) ≡ replay_event t e
unfolding replay
replay-snoc none t es e h = cc
replay-snoc (some s) t [] e h = replay-one s t h (replay_event s e) refl
  where
    replay-one :
        (s t : LifecycleState)
        → some s ≡ some t
        → (r : Option LifecycleState) → replay_event s e ≡ r
        → replay r [] ≡ replay_event t e
    replay-one s t h none q = cc
    replay-one s t h (some u) q = cc
replay-snoc (some s) t (d ∷ es) e h = replay-snoc (replay_event s d) t es e h

get_history-log_transition :
    (m : LifecycleManager) (kid j : String) (new : LifecycleState) (e : Event)
    → get_history (log_transition m kid new e) j
      ≡ (if kid == j then get_history m kid ++ e ∷ [] else get_history m j)
unfolding get_history log_transition
get_history-log_transition m kid j new e =
    ground (arith, get-put m.history kid j (or_else (get m.history kid) [] ++ e ∷ []))

log_transition-IsLogged :
    (m : LifecycleManager) (kid : String) (new : LifecycleState) (reason : String)
    (md : Dict String)
    → is_backward (get_state m kid) new ≡ false
    → IsLogged m
    → IsLogged (log_transition m kid new (make_event kid (get_state m kid) new reason md))
unfolding make_event replay_event
log_transition-IsLogged m kid new reason md ok h j =
    rw (get_history-log_transition, get_state-log_transition)
      (ground (
        arith,
        h j,
        eq_refl (value (get_state m kid)),
        of_value-value new,
        replay-snoc (some candidate) (get_state m kid) (get_history m kid)
            (make_event kid (get_state m kid) new reason md) (h kid),
      ))

transition-IsLogged :
    (m : LifecycleManager) (r : Request)
    → IsLogged m
    → IsLogged (transition m r.kid r.target r.reason r.metadata).0
unfolding transition move
transition-IsLogged m r h = go (target_state r.target) refl
  where
    go :
        (t : Option LifecycleState)
        → target_state r.target ≡ t
        → IsLogged (transition m r.kid r.target r.reason r.metadata).0
    go none e j = rw (e, transition) (h j)
    go (some new) e j = elim (Bool-cases (is_backward (get_state m r.kid) new)) [
      | inl back ↦ rw (e, transition, back, move) (h j)
      | inr ok ↦
          rw (e, transition, ok, move)
            (log_transition-IsLogged m r.kid new r.reason r.metadata ok h j)
    ]

run-IsLogged : (rs : List Request) (m : LifecycleManager) → IsLogged m → IsLogged (run rs m)
unfolding run
run-IsLogged [] m h = h
run-IsLogged (r ∷ rest) m h =
    run-IsLogged rest (transition m r.kid r.target r.reason r.metadata).0
      (transition-IsLogged m r h)

-- After any transition requests from an empty manager, the history of every item replays, event by
-- event and with no step back, from `candidate` to the state of the item.
pub history-replays :
    (rs : List Request) (j : String)
    → replay (some candidate) (get_history (run rs empty_manager) j)
      ≡ some (get_state (run rs empty_manager) j)
unfolding replay get_history get_state get of_value
history-replays rs = run-IsLogged rs empty_manager (λ j. refl)
