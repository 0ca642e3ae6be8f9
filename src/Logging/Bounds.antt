-- ===== src/Logging/Bounds.antt =====
-- cact/active_logging.py: forced-base decisions, their probability and the counters.
use aaai.Prelude.{ℕ, ◌≤◌, ◌+◌, ◌≡◌, String, Bool, false, ◌==◌, ◌&&◌, ◌⊎◌, if◌then◌else◌, arith}
use aaai.Float.{Float, Sampler, lit, ◌⊕◌, ◌⊖◌, ◌⊗◌, ◌<?◌}
use aaai.Float.Order.{IsOrdered, ◌≼◌, clamp_bounds}
use aaai.Logging.{
  ActiveBaseLogger, base_probability, correct_rate, should_force_base, count_decision,
}

module _ {F : Type 0} ⦃o : Float F⦄ (laws : IsOrdered F) (l : ActiveBaseLogger F) (u b d : F) where
  base_probability_bounds :
      l.q_min ≼ l.q_max
      → (l.q_min ≼ base_probability l u b d) × (base_probability l u b d ≼ l.q_max)
  unfolding base_probability
  base_probability_bounds h =
      clamp_bounds laws l.q_min l.q_max
        (correct_rate l (l.q_min ⊕ lit 15 2 ⊗ u ⊕ lit 10 2 ⊗ b ⊖ lit 25 2 ⊗ d)) h

module _ {F : Type 0} ⦃o : Float F⦄ ⦃s : Sampler F⦄ where
  -- What a decision with the logger and these inputs must satisfy.
  pub record IsGuarded (l : ActiveBaseLogger F) (danger : F) (level : String)
      (r : Bool × F × ActiveBaseLogger F × ℕ) : Type 0 where
    -- a forced decision is neither at high risk nor in danger, and its probability is in the bounds
    pub level_ok : (r.0 && level == "high") ≡ false
    pub danger_ok : (r.0 && lit 7 1 <? danger) ≡ false
    pub in_range : (r.0 ≡ false) ⊎ ((l.q_min ≼ r.1) × (r.1 ≼ l.q_max))
    -- the counters grow together
    pub counted :
        r.2.force_base_count ≡ (if r.0 then l.force_base_count + 1 else l.force_base_count)
    pub ratio_ok : r.2.force_base_count ≤ r.2.total_decisions

  -- A logger whose bounds are in order, and which has counted at most as many forced decisions as
  -- decisions, forces the base policy only at a risk level other than high and a danger that is not
  -- above 0.7, with a probability within its bounds; it counts each forced decision, and still at most
  -- as many of them as decisions.
  pub should_force_base-IsGuarded :
      (laws : IsOrdered F) (l : ActiveBaseLogger F) (u b d : F) (level : String) (seed : ℕ)
      → l.q_min ≼ l.q_max
      → l.force_base_count ≤ l.total_decisions
      → IsGuarded l d level (should_force_base l u b d level seed)
  unfolding should_force_base count_decision
  should_force_base-IsGuarded laws l u b d level seed h k =
      let range = base_probability_bounds laws l u b d h in
      record {
        level_ok = ground arith;
        danger_ok = ground arith;
        in_range = ground arith;
        counted = ground arith;
        ratio_ok = ground arith;
      }
