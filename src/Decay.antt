-- ===== src/Decay.antt =====
-- cact/temporal_decay.py: `TemporalDecay`, whose decay rate follows the recent prediction errors.
pub mod Bounds
use aaai.Prelude.{ℕ, List, [], ◌∷◌, ◌++◌, Bool, leb, ltb, if◌then◌else◌, length}
use aaai.Float.{Float, lit, ◌⊕◌, ◌⊖◌, ◌⊗◌, ◌⊘◌, ◌<?◌, py_max, py_min, py_sum, clamp}

pub record TemporalDecay (F : Type 0) : Type 0 where
  pub rho : F
  pub rho_min : F
  pub rho_max : F
  pub recent_errors : List F

-- `_error_window`
abbrev pub error_window : ℕ
error_window = 10

-- `recent_errors.pop(0)`
drop_first {ℓ} : {A : Type ℓ} → List A → List A
drop_first [] = []
drop_first (x ∷ xs) = xs

module _ {F : Type 0} ⦃o : Float F⦄ where
  -- `__init__`
  unfoldable pub new_decay : F → F → F → TemporalDecay F
  new_decay rho rho_min rho_max = record {
    rho = clamp rho_min rho_max rho;
    rho_min = rho_min;
    rho_max = rho_max;
    recent_errors = [];
  }

  unfoldable pub default_decay : TemporalDecay F
  default_decay = new_decay (lit 95 2) (lit 85 2) (lit 99 2)

  -- The window after one more error.
  unfoldable pub push_error : List F → F → List F
  unfolding drop_first
  push_error errors e =
      let errors' = errors ++ e ∷ [] in
      if ltb error_window (length errors') then drop_first errors' else errors'

  -- The decay rate that the mean error of the window asks for.
  unfoldable pub adapted_rho : TemporalDecay F → List F → F
  adapted_rho d errors =
      let avg = py_sum errors ⊘ lit (length errors) 0 in
      if lit 3 1 <? avg
      then py_max d.rho_min (d.rho ⊖ lit 3 2)
      else if avg <? lit 1 1
      then py_min d.rho_max (d.rho ⊕ lit 1 2)
      else d.rho

  unfoldable pub adapt : TemporalDecay F → F → TemporalDecay F
  adapt d e =
      let errors = push_error d.recent_errors e in
      record d {
        rho = if leb 3 (length errors) then adapted_rho d errors else d.rho;
        recent_errors = errors;
      }

  -- `EFFECTIVE_STRENGTH_MIN` and `EFFECTIVE_STRENGTH_MAX`
  abbrev pub strength_min : F
  strength_min = lit 1 1

  abbrev pub strength_max : F
  strength_max = lit 200 1

  unfoldable pub decay_params : TemporalDecay F → F → F → F → F → ℕ → F × F
  decay_params d alpha_old beta_old alpha_0 beta_0 delta_t =
      let factor = o.pow d.rho delta_t in
      (
        clamp strength_min strength_max (alpha_0 ⊕ factor ⊗ (alpha_old ⊖ alpha_0)),
        clamp strength_min strength_max (beta_0 ⊕ factor ⊗ (beta_old ⊖ beta_0)),
      )

  unfoldable pub get_drift_factor : TemporalDecay F → F
  get_drift_factor d = lit 1 0 ⊘ py_max d.rho (lit 1 2)

  unfoldable pub reset : TemporalDecay F → TemporalDecay F
  reset d = record d { rho = lit 95 2; recent_errors = [] }
