-- ===== src/Protocol/Cap.antt =====
-- cact/protocol_v2.py: `_estimate_draw_arrays` and `_cap_draws`.
use aaai.Prelude.{
  ℕ, ◌%◌, ◌^◌, Bool, true, ◌&&◌, List, [], ◌∷◌, leb, ltb, if◌then◌else◌, length, map,
}
use aaai.Prelude.{suc, zero}
use aaai.Float.{Float, Sampler, lit, ◌⊕◌, ◌⊖◌, ◌⊗◌, ◌⊘◌, py_max}
use aaai.Protocol.{Numpy, GroupEstimate}

-- `max` and `min` of two counts
abbrev count_min : ℕ → ℕ → ℕ
count_min a b = if ltb b a then b else a

abbrev count_max : ℕ → ℕ → ℕ
count_max a b = if ltb a b then b else a

-- `xs[:n]`
unfoldable pub take {ℓ} : {A : Type ℓ} → ℕ → List A → List A
take zero xs = []
take (suc n) [] = []
take (suc n) (x ∷ xs) = x ∷ take n xs

pub record DrawArrays (F : Type 0) : Type 0 where
  pub y : List F
  pub inc : List F
  pub abs_r : List F

pub record CapStats (F : Type 0) : Type 0 where
  pub cap : F
  pub benefit_lcb : F
  pub risk_inc_ucb : F
  pub risk_abs_ucb : F
  pub risk_charge : F
  pub draw_count : ℕ

module _ {F : Type 0} ⦃o : Float F⦄ ⦃s : Sampler F⦄ ⦃np : Numpy F⦄ where
  all_finite : List F → Bool
  all_finite [] = true
  all_finite (x ∷ xs) = np.isfinite x && all_finite xs

  -- The draws of a shared normal around the point estimates.
  normal_arrays : GroupEstimate F → ℕ → ℕ → DrawArrays F
  normal_arrays e seed draws =
      let (z, rng) = np.standard_normal (s.default_rng (seed % 2 ^ 32)) (count_max 200 draws) in
      let (z', _) = np.standard_normal rng (length z) in
      record {
        y = map (λ x. e.delta_y ⊕ py_max (lit 0 1) e.se_y ⊗ x) z;
        inc = map (λ x. e.risk_inc ⊕ py_max (lit 0 1) e.se_inc ⊗ x) z;
        abs_r = map (λ x. e.risk_abs ⊕ py_max (lit 0 1) e.se_abs ⊗ x) z';
      }

  -- The paired draws of the estimate where it has 32 or more finite ones, else normal ones.
  unfoldable pub estimate_draw_arrays : GroupEstimate F → ℕ → ℕ → DrawArrays F
  unfolding all_finite normal_arrays
  estimate_draw_arrays e seed draws =
      let jd = e.joint_draws in
      let n = count_min (count_min (length jd.delta_y) (length jd.risk_inc)) (length jd.risk_abs) in
      let y = take n jd.delta_y in
      let inc = take n jd.risk_inc in
      let abs_r = take n jd.risk_abs in
      if leb 32 n && all_finite y && all_finite inc && all_finite abs_r
      then record { y = y; inc = inc; abs_r = abs_r }
      else normal_arrays e seed draws

  -- Each draw of the admission score: the scaled benefit less the priced harm.
  cap_draw : F → F → F → F → List F → List F → List F
  cap_draw lambda q_t delta epsilon (y ∷ ys) (inc ∷ incs) =
      (y ⊘ py_max delta epsilon
        ⊖ lambda ⊗ np.maximum inc (lit 0 1) ⊘ py_max (q_t ⊕ epsilon) epsilon)
      ∷ cap_draw lambda q_t delta epsilon ys incs
  cap_draw lambda q_t delta epsilon _ _ = []

  unfoldable pub cap_draws : GroupEstimate F → F → F → F → F → ℕ → F → CapStats F
  unfolding cap_draw
  cap_draws e lambda q_t delta epsilon seed alpha =
      let a = estimate_draw_arrays e seed 2000 in
      let draws = cap_draw lambda q_t delta epsilon a.y a.inc in
      record {
        cap = np.quantile draws alpha;
        benefit_lcb = np.quantile a.y alpha;
        risk_inc_ucb = np.quantile a.inc (lit 10 1 ⊖ alpha);
        risk_abs_ucb = np.quantile a.abs_r (lit 10 1 ⊖ alpha);
        risk_charge = py_max (lit 0 1) (np.quantile a.inc (lit 10 1 ⊖ alpha));
        draw_count = length draws;
      }
