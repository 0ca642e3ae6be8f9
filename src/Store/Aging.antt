-- ===== src/Store/Aging.antt =====
-- cact/trust_store.py, `decay_all`: the keys and the posteriors after it.
use aaai.Prelude.{◌≡◌, refl, ap, String, [], ◌∷◌, map, All, Dict, keys}
use aaai.Float.{Float}
use aaai.Float.Order.{IsOrdered, ◌≼◌}
use aaai.Decay.{strength_min, strength_max}
use aaai.Decay.Bounds.{decay_params_bounds}
use aaai.Store.{TrustStore}
use aaai.Store.Record.{decay_entry, decay_all}

module _ {F : Type 0} ⦃o : Float F⦄ where
  -- Both parameters of a posterior lie between 0.1 and 20.
  pub record IsModerate (e : String × (F × F)) : Type 0 where
    pub alpha_min : strength_min ≼ e.1.0
    pub alpha_max : e.1.0 ≼ strength_max
    pub beta_min : strength_min ≼ e.1.1
    pub beta_max : e.1.1 ≼ strength_max

module _ {F : Type 0} ⦃o : Float F⦄ (laws : IsOrdered F) where
  decay_entry-IsModerate :
      (st : TrustStore F) (k : String) (a b : F) → IsModerate (decay_entry st (k, (a, b)))
  unfolding decay_entry
  decay_entry-IsModerate st k a b =
      let r = decay_params_bounds laws st.decay a b _ _ 1 in
      record { alpha_min = r.0; alpha_max = r.1; beta_min = r.2; beta_max = r.3 }

  decay_entries :
      (st : TrustStore F) (d : Dict (F × F))
      → All IsModerate (map (decay_entry st) d) × (keys (map (decay_entry st) d) ≡ keys d)
  unfolding keys decay_entry
  decay_entries st [] = (tt, refl)
  decay_entries st ((k, (a, b)) ∷ d) = (
    (decay_entry-IsModerate st k a b, (decay_entries st d).0),
    ap (λ ks. k ∷ ks) ((decay_entries st d).1),
  )

  -- After a decay every posterior of the store has both parameters between 0.1 and 20, whatever they
  -- were, and the store holds the same keys in the same order.
  pub decay_all-IsModerate :
      (st : TrustStore F)
      → All IsModerate (decay_all st).posteriors
        × (keys (decay_all st).posteriors ≡ keys st.posteriors)
  unfolding decay_all
  decay_all-IsModerate st = decay_entries st st.posteriors
