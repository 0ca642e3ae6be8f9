-- ===== src/Probe/Bounds.antt =====
-- cact/thompson_probe.py: when a probe is made, and the budget over a sequence of calls.
use aaai.Prelude.{
  ℕ, ◌+◌, ◌∙◌, refl, not, ◌&&◌, List, [], ◌∷◌, if◌then◌else◌, ◌≤◌, ◌<◌, ◌≡◌, String, Bool, true,
  false, ◌==◌, arith, is_some,
}
use aaai.Float.{Float, Sampler, lit, ◌⊗◌, ◌≤?◌}
use aaai.Float.Order.{IsOrdered, ◌≼◌, clamp_bounds}
use aaai.Probe.{
  SafeThompsonProber, Evidence, probe_probability, mean_uncertainty, min_sample, is_triggered,
  count_probe, should_probe, sample_passes,
}

module _ {F : Type 0} ⦃o : Float F⦄ where
  -- Why a positive probability was given.
  record IsEligible (p : SafeThompsonProber F) (u ess : F) (level : String) : Type 0 where
    level_ok : (level == "high") ≡ false
    budget_ok : p.probe_count < p.budget
    sparse : (lit (min_sample level) 0 ≤? ess) ≡ false

  probe_probability-IsEligible :
      (laws : IsOrdered F) (p : SafeThompsonProber F) (u ess : F) (level : String)
      → (probe_probability p u ess level ≤? lit 0 0) ≡ false
      → IsEligible p u ess level
  unfolding probe_probability
  probe_probability-IsEligible laws p u ess level h =
      let zero_le = laws.lit_mono 0 0 0 (omega arith) in
      record { level_ok = ground arith; budget_ok = ground arith; sparse = ground arith }

  probe_probability_max :
      (laws : IsOrdered F) (p : SafeThompsonProber F) (u ess : F) (level : String)
      → lit 0 0 ≼ p.q_max
      → probe_probability p u ess level ≼ p.q_max
  unfolding probe_probability
  probe_probability_max laws p u ess level h =
      ground (arith, clamp_bounds laws (lit 0 0) p.q_max (lit 15 2 ⊗ u) h)

-- A call of `should_probe`; the flag is `force_allow`.
pub record ProbeCall (F : Type 0) : Type 0 where
  pub evidence : Evidence F
  pub level : String
  pub force : Bool
  pub seed : ℕ

module _ {F : Type 0} where
  -- One for a call that is forced below high risk.
  unfoldable pub forced : ProbeCall F → ℕ
  forced c = if c.force && not (c.level == "high") then 1 else 0

  unfoldable pub all_forced : List (ProbeCall F) → ℕ
  all_forced [] = 0
  all_forced (c ∷ calls) = forced c + all_forced calls

module _ {F : Type 0} ⦃o : Float F⦄ ⦃s : Sampler F⦄ where
  unfoldable pub probe : SafeThompsonProber F → ProbeCall F → SafeThompsonProber F
  probe p c = (should_probe p c.evidence c.level c.force c.seed).2

  -- The prober after calls in turn.
  unfoldable pub probe_all : SafeThompsonProber F → List (ProbeCall F) → SafeThompsonProber F
  unfolding probe
  probe_all p [] = p
  probe_all p (c ∷ calls) = probe_all (probe p c) calls

  -- What a probe that nothing forces must satisfy.
  pub record IsSafeProbe (p : SafeThompsonProber F) (e : Evidence F) (level : String)
      (r : Bool × F × SafeThompsonProber F × ℕ) : Type 0 where
    pub level_ok : (level == "high") ≡ false
    pub sparse : (lit (min_sample level) 0 ≤? e.ess) ≡ false
    pub triggered : is_some (is_triggered e) ≡ true
    pub positive : (r.1 ≤? lit 0 0) ≡ false
    pub at_most : r.1 ≼ p.q_max
    pub budget_ok : p.probe_count < p.budget
    pub counted : r.2 ≡ count_probe p

  -- A probe that is not forced is made only below high risk, for an item with fewer samples than its
  -- level asks for, with a trigger fired, at a probability above 0 and at most the maximum, and while
  -- budget is left, which it uses up by one.
  pub should_probe-IsSafeProbe :
      (laws : IsOrdered F) (p : SafeThompsonProber F) (e : Evidence F) (level : String) (seed : ℕ)
      → lit 0 0 ≼ p.q_max
      → (should_probe p e level false seed).0 ≡ true
      → IsSafeProbe p e level (should_probe p e level false seed)
  unfolding should_probe
  should_probe-IsSafeProbe laws p e level seed range h =
      let q : F = probe_probability p (mean_uncertainty e) e.ess level in
      let made = passed p e level seed h in
      let ok = probe_probability-IsEligible laws p (mean_uncertainty e) e.ess level made.0 in
      let top = probe_probability_max laws p (mean_uncertainty e) e.ess level range in
      record {
        level_ok = ok.level_ok;
        sparse = ok.sparse;
        triggered = made.1;
        positive = ground (arith, ok.level_ok, made.0, made.1);
        at_most = ground (arith, ok.level_ok, made.0, made.1);
        budget_ok = ok.budget_ok;
        counted = ground (arith, ok.level_ok, made.0, made.1);
      }
    where
      passed :
          (p : SafeThompsonProber F) (e : Evidence F) (level : String) (seed : ℕ)
          → (should_probe p e level false seed).0 ≡ true
          → ((probe_probability p (mean_uncertainty e) e.ess level ≤? lit 0 0) ≡ false)
            × (is_some (is_triggered e) ≡ true)
      passed p e level seed h = ground arith

  -- One call may pass what room is left by one where it is forced below high risk.
  should_probe-budget :
      (p : SafeThompsonProber F) (c : ProbeCall F) (room : ℕ)
      → p.probe_count ≤ p.budget + room
      → (probe p c).probe_count ≤ p.budget + (room + forced c) × ((probe p c).budget ≡ p.budget)
  unfolding probe should_probe count_probe sample_passes forced
  should_probe-budget p c room h = ground arith

  probe_all-room :
      (calls : List (ProbeCall F)) (p : SafeThompsonProber F) (room : ℕ)
      → p.probe_count ≤ p.budget + room
      → (probe_all p calls).probe_count ≤ p.budget + (room + all_forced calls)
        × ((probe_all p calls).budget ≡ p.budget)
  unfolding probe_all all_forced
  probe_all-room [] p room h = (omega arith, refl)
  probe_all-room (c ∷ calls) p room h =
      let step = should_probe-budget p c room h in
      let rest =
        probe_all-room calls (probe p c) (room + forced c) (omega (arith, step.0, step.1)) in
      (omega (arith, rest.0, step.1), rest.1 ∙ step.1)

  -- Over any sequence of calls, forced ones among them, that starts within the budget, the budget stays
  -- and the count of the probes passes it at most by the number of the calls that were forced below
  -- high risk: not at all where none was.
  pub probe_all-budget :
      (p : SafeThompsonProber F) (calls : List (ProbeCall F))
      → p.probe_count ≤ p.budget
      → (probe_all p calls).probe_count ≤ p.budget + all_forced calls
        × ((probe_all p calls).budget ≡ p.budget)
  probe_all-budget p calls h =
      let kept = probe_all-room calls p 0 (omega arith) in (omega (arith, kept.0), kept.1)
