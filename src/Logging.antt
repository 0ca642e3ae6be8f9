-- ===== src/Logging.antt =====
-- cact/active_logging.py: `ActiveBaseLogger`, which forces a random part of the reuse decisions to
-- the base policy. The number that `random.random()` returns is drawn from the sampler. `log_decision`
-- writes its arguments to a file and is left out.
pub mod Bounds
use aaai.Prelude.{
  ℕ, ◌+◌, String, Bool, true, false, not, ◌&&◌, ◌||◌, List, [], ◌∷◌, ltb, if◌then◌else◌, length,
  ◌==◌, filter_by,
}
use aaai.Float.{Float, Sampler, lit, ◌⊕◌, ◌⊖◌, ◌⊗◌, ◌⊘◌, ◌<?◌, py_max, py_min, clamp}

pub record ActiveBaseLogger (F : Type 0) : Type 0 where
  pub q_min : F
  pub q_max : F
  pub target_avg : F
  pub total_decisions : ℕ
  pub force_base_count : ℕ

-- `HIGH_DANGER_FLAGS`
abbrev pub high_danger_flags : List String
high_danger_flags =
    "lava_nearby" ∷ "low_health" ∷ "combat" ∷ "near_cliff" ∷ "irreversible_resource_constraint" ∷ []

module _ {F : Type 0} ⦃o : Float F⦄ where
  unfoldable pub default_logger : ActiveBaseLogger F
  default_logger = record {
    q_min = lit 5 2;
    q_max = lit 30 2;
    target_avg = lit 15 2;
    total_decisions = 0;
    force_base_count = 0;
  }

  -- The correction towards the target rate, after a warm-up of ten decisions.
  unfoldable pub correct_rate : ActiveBaseLogger F → F → F
  correct_rate l q =
      let rate = lit l.force_base_count 0 ⊘ lit l.total_decisions 0 in
      let ratio = clamp (lit 3 1) (lit 30 1) (l.target_avg ⊘ rate) in
      if ltb 10 l.total_decisions
      then (if lit 1 3 <? rate && lit 2 2 <? o.abs (rate ⊖ l.target_avg) then q ⊗ ratio else q)
      else q

  unfoldable pub base_probability : ActiveBaseLogger F → F → F → F → F
  base_probability l uncertainty imbalance danger =
      let q = l.q_min ⊕ lit 15 2 ⊗ uncertainty ⊕ lit 10 2 ⊗ imbalance ⊖ lit 25 2 ⊗ danger in
      clamp l.q_min l.q_max (correct_rate l q)

  unfoldable pub compute_uncertainty : F → F
  compute_uncertainty pi =
      lit 40 1 ⊗ clamp (lit 0 0) (lit 1 0) pi ⊗ (lit 1 0 ⊖ clamp (lit 0 0) (lit 1 0) pi)

  unfoldable pub compute_imbalance : F → F → F
  compute_imbalance n_use n_base =
      if (n_use ⊕ n_base) <? lit 1 0 then lit 5 1 else o.abs (n_use ⊘ (n_use ⊕ n_base) ⊖ lit 5 1)

  -- The state is given by its test `state.get(f)`.
  unfoldable pub compute_danger_score : (String → Bool) → F
  compute_danger_score is_set =
      py_min (lit 1 0)
        (lit (length (filter_by is_set high_danger_flags)) 0 ⊘ lit (length high_danger_flags) 0)

  -- `stats()["current_rate"]`
  unfoldable pub current_rate : ActiveBaseLogger F → F
  current_rate l =
      lit l.force_base_count 0 ⊘ lit (if ltb l.total_decisions 1 then 1 else l.total_decisions) 0

module _ {F : Type 0} ⦃o : Float F⦄ ⦃s : Sampler F⦄ where
  -- The counters after a decision.
  unfoldable pub count_decision : ActiveBaseLogger F → Bool → ActiveBaseLogger F
  count_decision l forced = record l {
    total_decisions = l.total_decisions + 1;
    force_base_count = if forced then l.force_base_count + 1 else l.force_base_count;
  }

  -- The decision, its probability, the logger and the generator after it.
  unfoldable pub should_force_base :
      ActiveBaseLogger F → F → F → F → String → ℕ → Bool × F × ActiveBaseLogger F × ℕ
  should_force_base l uncertainty imbalance danger risk_level seed =
      let q = base_probability l uncertainty imbalance danger in
      let forced = (s.uniform seed).0 <? q in
      if risk_level == "high" || lit 7 1 <? danger
      then (false, lit 0 0, l, seed)
      else (forced, q, count_decision l forced, (s.uniform seed).1)
