-- ===== src/Tests/Gates.antt =====
-- The theorems on the gate and the lifecycle at concrete inputs.
use aaai.Prelude.{
  ◌<◌, ◌≤◌, ◌≡◌, refl, true, false, none, some, List, [], ◌∷◌, ◌==◌, ◌↔◌, get, if◌then◌else◌,
}
use aaai.Prelude.Int.{ℤ}
use aaai.Tests.Data.{fixed, fresh_gate}
use aaai.Float.Scaled.{scaled_float, scaled_sampler, scaled-IsOrdered}
use aaai.Gate.{Reason, gate_pass, evaluate, group_key}
use aaai.Gate.Calibrate.{CalibRow, calibrate}
use aaai.Gate.Decision.{IsAdmissible, evaluate_iff, evaluate_mono}
use aaai.Gate.Calibration.{IsCalibrated, calibrate-IsCalibrated}
use aaai.Lifecycle.{
  LifecycleState, candidate, quarantined, certified, disabled, LifecycleManager, empty_manager,
  get_state, get_history, member, named, transition, state_order, evaluate_auto_transition,
}
use aaai.Lifecycle.Order.{
  Request, run, transition-order, disabled_permanent, auto_transition-accepted,
}
use aaai.Lifecycle.History.{replay, history-replays}

evaluate_iff_example :
    (((evaluate fresh_gate
          (fixed 90 2)
          (fixed 6 2)
          (fixed 5 2)
          (some "mining")
          "probation"
          true
          true).0
        ≡ true)
      ↔ IsAdmissible fresh_gate
          (some "mining")
          "probation"
          (fixed 90 2)
          (fixed 6 2)
          (fixed 5 2)
          true
          true)
    × (((evaluate fresh_gate
            (fixed 90 2)
            (fixed 6 2)
            (fixed 5 2)
            (some "mining")
            "probation"
            true
            true).0
          ≡ true)
        ↔ ((evaluate fresh_gate
              (fixed 90 2)
              (fixed 6 2)
              (fixed 5 2)
              (some "mining")
              "probation"
              true
              true).1.reason
            ≡ gate_pass))
evaluate_iff_example =
    evaluate_iff fresh_gate (some "mining") "probation" (fixed 90 2) (fixed 6 2) (fixed 5 2) true
      true

admitted :
    (evaluate fresh_gate (fixed 70 2) (fixed 6 2) (fixed 9 2) none "probation" true true).0 ≡ true
unfolding aaai.Gate.is_blocked aaai.Gate.empty_gate aaai.Gate.thresholds aaai.Gate.supervise
    aaai.Gate.check_evidence aaai.Gate.evaluate aaai.Float.py_max aaai.Float.py_min
admitted = refl

evaluate_mono_example :
    (evaluate fresh_gate (fixed 75 2) (fixed 7 2) (fixed 8 2) none "probation" true true).0 ≡ true
evaluate_mono_example =
    evaluate_mono scaled-IsOrdered fresh_gate none "probation" (fixed 70 2) (fixed 75 2) (fixed 6 2)
      (fixed 7 2) (fixed 9 2) (fixed 8 2) true true refl refl refl admitted

abbrev admitted_row : CalibRow ℤ
admitted_row = record {
  pi_uplift = some (fixed 93 2);
  prob_uplift = none;
  harm_ucb = some (fixed 4 2);
  harm = none;
  uplift = some (fixed 9 2);
  is_harmful = some false;
  interaction_state = false;
  pi_syn = none;
  pi_conf = none;
  interaction_synergy = false;
  interaction_conflict = false;
}

abbrev rows : List (CalibRow ℤ)
rows = admitted_row ∷ admitted_row ∷ []

calibrate-IsCalibrated_example :
    IsCalibrated scaled-IsOrdered rows (calibrate fresh_gate rows (some "mining")).1
    × (get (calibrate fresh_gate rows (some "mining")).0.tau (group_key (some "mining"))
        ≡ some (calibrate fresh_gate rows (some "mining")).1.chosen.tau)
    × (get (calibrate fresh_gate rows (some "mining")).0.delta (group_key (some "mining"))
        ≡ some (calibrate fresh_gate rows (some "mining")).1.chosen.delta)
    × (get (calibrate fresh_gate rows (some "mining")).0.harm (group_key (some "mining"))
        ≡ some (calibrate fresh_gate rows (some "mining")).1.chosen.harm)
calibrate-IsCalibrated_example =
    calibrate-IsCalibrated scaled-IsOrdered rows fresh_gate (some "mining") refl

-- One item is disabled and asked for again, another one moves on.
abbrev requests : List Request
requests =
    record { kid = "a"; target = named "disabled"; reason = "review"; metadata = [] }
    ∷ record { kid = "a"; target = member certified; reason = "retry"; metadata = [] }
    ∷ record { kid = "b"; target = member quarantined; reason = "seen"; metadata = [] }
    ∷ []

abbrev manager : LifecycleManager
manager = record { states = ("a", "disabled") ∷ ("b", "candidate") ∷ []; history = [] }

a-disabled : get_state manager "a" ≡ disabled
unfolding get_state get aaai.Lifecycle.of_value
a-disabled = refl

transition-order_example :
    state_order (get_state manager "b")
    ≤ state_order (get_state (transition manager "b" (named "probation") "" []).0 "b")
transition-order_example = transition-order manager "b" "b" (named "probation") "" []

disabled_permanent_example : get_state (run requests manager) "a" ≡ disabled
disabled_permanent_example = disabled_permanent requests manager "a" a-disabled

b-moves :
    evaluate_auto_transition manager "b" (fixed 5 1) (fixed 0 0) (fixed 88 2) (fixed 10 2) 1 0 0
    ≡ some quarantined
unfolding get_state get aaai.Lifecycle.of_value evaluate_auto_transition aaai.Lifecycle.next_state
b-moves = refl

auto_transition-accepted_example :
    (get_state (transition manager "b" (member quarantined) "auto" []).0 "b"
      ≡ (if "b" == "b" then quarantined else get_state manager "b"))
    × (state_order (get_state manager "b") < state_order quarantined)
auto_transition-accepted_example =
    auto_transition-accepted manager "b" "b" quarantined (fixed 5 1) (fixed 0 0) (fixed 88 2)
      (fixed 10 2) 1 0 0 "auto" [] b-moves

history-replays_example :
    replay (some candidate) (get_history (run requests empty_manager) "a")
    ≡ some (get_state (run requests empty_manager) "a")
history-replays_example = history-replays requests "a"
