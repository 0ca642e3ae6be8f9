-- ===== src/Decay/Bounds.antt =====
-- cact/temporal_decay.py: the ranges of the decay rate, the window and the parameters.
use aaai.Prelude.{ℕ, ◌≤◌, List, [], ◌∷◌, arith, length, length-append}
use aaai.Float.{Float, lit, ◌⊕◌, ◌⊖◌, ◌⊗◌}
use aaai.Float.Order.{
  IsOrdered, ◌≼◌, clamp_bounds, py_max-ge_left, py_max-le, py_min-le_left, le-py_min,
}
use aaai.Decay.{
  TemporalDecay, new_decay, push_error, adapted_rho, adapt, decay_params, strength_min,
  strength_max, error_window,
}

module _ {F : Type 0} ⦃o : Float F⦄ where
  pub record IsBounded (d : TemporalDecay F) : Type 0 where
    pub above : d.rho_min ≼ d.rho
    pub below : d.rho ≼ d.rho_max
    pub window : length d.recent_errors ≤ error_window

  push_error-length :
      (errors : List F) (e : F)
      → length errors ≤ error_window
      → length (push_error errors e) ≤ error_window
  unfolding push_error
  push_error-length [] e h = ground arith
  push_error-length (x ∷ xs) e h = ground (arith, length-append xs (e ∷ []))

  -- The state after a run of prediction errors.
  unfoldable pub adapt_all : TemporalDecay F → List F → TemporalDecay F
  adapt_all d [] = d
  adapt_all d (e ∷ es) = adapt_all (adapt d e) es

module _ {F : Type 0} ⦃o : Float F⦄ (laws : IsOrdered F) where
  adapted_rho_bounds :
      (d : TemporalDecay F) (errors : List F)
      → d.rho_min ≼ d.rho
      → d.rho ≼ d.rho_max
      → (d.rho_min ≼ adapted_rho d errors) × (adapted_rho d errors ≼ d.rho_max)
  unfolding adapted_rho
  adapted_rho_bounds d errors a b =
      let lo = (laws.refl_of_le d.rho_min d.rho a).0 in
      let at = (laws.refl_of_le d.rho_min d.rho a).1 in
      let hi = (laws.refl_of_le d.rho d.rho_max b).1 in
      let range = laws.le_trans d.rho_min d.rho d.rho_max a b in
      ground (
        arith,
        py_max-ge_left laws d.rho_min (d.rho ⊖ lit 3 2) lo,
        py_max-le laws d.rho_min (d.rho ⊖ lit 3 2) d.rho_max range (
            laws.le_trans (d.rho ⊖ lit 3 2) d.rho d.rho_max
              (laws.sub-lit-le d.rho 3 2 (omega arith) at) b),
        py_min-le_left laws d.rho_max (d.rho ⊕ lit 1 2) hi,
        le-py_min laws d.rho_max (d.rho ⊕ lit 1 2) d.rho_min range (
            laws.le_trans d.rho_min d.rho (d.rho ⊕ lit 1 2) a
              (laws.le-add-lit d.rho 1 2 (omega arith) at)),
      )

  adapt-IsBounded : (d : TemporalDecay F) (e : F) → IsBounded d → IsBounded (adapt d e)
  unfolding adapt
  adapt-IsBounded d e h =
      let ok = adapted_rho_bounds d (push_error d.recent_errors e) h.above h.below in
      record {
        above = ground arith;
        below = ground arith;
        window = push_error-length d.recent_errors e h.window;
      }

  -- From a controller within its bounds, any sequence of prediction errors leaves the decay rate
  -- between its minimum and its maximum, and at most ten errors in the window.
  pub adapt_all-IsBounded :
      (es : List F) (d : TemporalDecay F) → IsBounded d → IsBounded (adapt_all d es)
  unfolding adapt_all
  adapt_all-IsBounded [] d h = h
  adapt_all-IsBounded (e ∷ es) d h = adapt_all-IsBounded es (adapt d e) (adapt-IsBounded d e h)

  pub new_decay-IsBounded : (rho lo hi : F) → lo ≼ hi → IsBounded (new_decay rho lo hi)
  unfolding new_decay
  new_decay-IsBounded rho lo hi h = record {
    above = (clamp_bounds laws lo hi rho h).0;
    below = (clamp_bounds laws lo hi rho h).1;
    window = omega arith;
  }

  -- Whatever the old parameters, the priors and the time that passed, a decayed posterior has both
  -- parameters between 0.1 and 20.
  pub decay_params_bounds :
      (d : TemporalDecay F) (a b a0 b0 : F) (dt : ℕ)
      → (strength_min ≼ (decay_params d a b a0 b0 dt).0)
        × ((decay_params d a b a0 b0 dt).0 ≼ strength_max)
        × (strength_min ≼ (decay_params d a b a0 b0 dt).1)
        × ((decay_params d a b a0 b0 dt).1 ≼ strength_max)
  unfolding decay_params
  decay_params_bounds d a b a0 b0 dt =
      let range = laws.lit_mono 1 200 1 (omega arith) in
      let alpha =
        clamp_bounds laws strength_min strength_max (a0 ⊕ o.pow d.rho dt ⊗ (a ⊖ a0)) range in
      let beta =
        clamp_bounds laws strength_min strength_max (b0 ⊕ o.pow d.rho dt ⊗ (b ⊖ b0)) range in
      (alpha.0, alpha.1, beta.0, beta.1)
