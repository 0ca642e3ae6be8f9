-- ===== src/Tests/Operations.antt =====
-- The theorems on forced base runs, probes and the decay at concrete inputs.
use aaai.Prelude.{List, ◌+◌, ◌≤◌, ◌≡◌, refl, true, false, [], ◌∷◌, arith}
use aaai.Prelude.Int.{ℤ}
use aaai.Float.Scaled.{scaled_float, scaled_sampler, scaled-IsOrdered}
use aaai.Logging.{ActiveBaseLogger, default_logger, should_force_base}
use aaai.Logging.Bounds.{IsGuarded, should_force_base-IsGuarded}
use aaai.Probe.{SafeThompsonProber, default_prober, should_probe}
use aaai.Probe.Bounds.{
  IsSafeProbe, should_probe-IsSafeProbe, ProbeCall, probe_all, all_forced, probe_all-budget,
}
use aaai.Decay.{new_decay}
use aaai.Decay.Bounds.{IsBounded, adapt_all, adapt_all-IsBounded, new_decay-IsBounded}
use aaai.Tests.Data.{fixed, evidence}

abbrev logger : ActiveBaseLogger ℤ
unfolding default_logger
logger = default_logger

abbrev prober : SafeThompsonProber ℤ
unfolding default_prober
prober = default_prober

should_force_base-IsGuarded_example :
    IsGuarded logger
      (fixed 2 1)
      "medium"
      (should_force_base logger (fixed 8 1) (fixed 5 1) (fixed 2 1) "medium" 7)
unfolding default_logger
should_force_base-IsGuarded_example =
    should_force_base-IsGuarded scaled-IsOrdered logger (fixed 8 1) (fixed 5 1) (fixed 2 1) "medium"
      7 refl (omega arith)

probe-made : (should_probe prober evidence "medium" false 7).0 ≡ true
unfolding aaai.Probe.min_sample aaai.Probe.default_prober aaai.Probe.probe_probability
    aaai.Probe.is_triggered aaai.Probe.mean_uncertainty aaai.Probe.sample_passes
    aaai.Probe.should_probe aaai.Float.py_max aaai.Float.py_min aaai.Float.clamp
probe-made = refl

should_probe-IsSafeProbe_example :
    IsSafeProbe prober evidence "medium" (should_probe prober evidence "medium" false 7)
unfolding default_prober
should_probe-IsSafeProbe_example =
    should_probe-IsSafeProbe scaled-IsOrdered prober evidence "medium" 7 refl probe-made

-- A call that nothing forces, and one that is forced.
abbrev calls : List (ProbeCall ℤ)
calls =
    record { evidence = evidence; level = "medium"; force = false; seed = 7 }
    ∷ record { evidence = evidence; level = "low"; force = true; seed = 8 }
    ∷ []

probe_all-budget_example :
    (probe_all prober calls).probe_count ≤ prober.budget + all_forced calls
    × ((probe_all prober calls).budget ≡ prober.budget)
unfolding default_prober
probe_all-budget_example = probe_all-budget prober calls (omega arith)

new_decay-IsBounded_example : IsBounded (new_decay (fixed 95 2) (fixed 85 2) (fixed 99 2))
new_decay-IsBounded_example =
    new_decay-IsBounded scaled-IsOrdered (fixed 95 2) (fixed 85 2) (fixed 99 2) refl

adapt_all-IsBounded_example : IsBounded (
    adapt_all
      (new_decay (fixed 95 2) (fixed 85 2) (fixed 99 2))
      (fixed 5 1 ∷ fixed 6 1 ∷ fixed 1 2 ∷ []))
adapt_all-IsBounded_example =
    adapt_all-IsBounded scaled-IsOrdered (fixed 5 1 ∷ fixed 6 1 ∷ fixed 1 2 ∷ [])
      (new_decay (fixed 95 2) (fixed 85 2) (fixed 99 2))
      (new_decay-IsBounded scaled-IsOrdered (fixed 95 2) (fixed 85 2) (fixed 99 2) refl)
