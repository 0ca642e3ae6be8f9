-- ===== src/Gate/Calibration.antt =====
-- cact/trust_gate.py, `calibrate`: the thresholds that the search stores.
use aaai.Prelude.{
  eq_refl, ◌⊎◌, ◌∙◌, ◌≡◌, refl, String, true, false, ◌&&◌, Option, none, some, arith, Bool-cases,
  inl, inr, List, [], ◌∷◌, All, is_nil, get, get-put, or_else,
}
use aaai.Float.{Float, Sampler, lit, ◌≤?◌, ◌<?◌}
use aaai.Float.Order.{IsOrdered, ◌≼◌}
use aaai.Gate.{TrustGate, Thresholds, group_key}
use aaai.Gate.Calibrate.{
  CalibRow, Config, eps_harm, grid, coverage_of, risk_plus, consider, search_grid, best_config,
  fallback_config, store_thresholds, calibrate,
}

module _ {F : Type 0} ⦃o : Float F⦄ ⦃s : Sampler F⦄ (laws : IsOrdered F)
    (rows : List (CalibRow F)) where
  -- Within the budget, and beyond the best coverage so far.
  abbrev Beats : F → Thresholds F → Type 0
  Beats c t = (risk_plus t rows ≼ eps_harm) × (c <? coverage_of t rows ≡ true)

  lt_irrefl : (x : F) → (x <? x ≡ true) → ⊥
  lt_irrefl x h = cc (laws.not-lt_of_le x x (laws.le_of_lt x x h))

  consider-raises :
      (b : Option (Config F)) (c : F) (t : Thresholds F)
      → ((consider rows (b, c) t).1 ≡ c) ⊎ (c <? (consider rows (b, c) t).1 ≡ true)
  unfolding consider
  consider-raises b c t = ground arith

  consider-not_beaten :
      (b : Option (Config F)) (c : F) (t : Thresholds F) → Beats (consider rows (b, c) t).1 t → ⊥
  unfolding consider
  consider-not_beaten b c t h = ground (arith, lt_irrefl (coverage_of t rows))

  -- The coverage to beat never falls.
  search_grid-raises :
      (ts : List (Thresholds F)) (b : Option (Config F)) (c : F)
      → ((search_grid rows (b, c) ts).1 ≡ c) ⊎ (c <? (search_grid rows (b, c) ts).1 ≡ true)
  unfolding search_grid
  search_grid-raises [] b c = inl refl
  search_grid-raises (t ∷ ts) b c =
      raise (consider rows (b, c) t).1 (search_grid rows (consider rows (b, c) t) ts).1
        (consider-raises b c t)
        (search_grid-raises ts (consider rows (b, c) t).0 (consider rows (b, c) t).1)
    where
      raise :
          (now end : F)
          → (now ≡ c) ⊎ (c <? now ≡ true)
          → (end ≡ now) ⊎ (now <? end ≡ true)
          → (end ≡ c) ⊎ (c <? end ≡ true)
      raise now end (inl p) (inl q) = inl (q ∙ p)
      raise now end (inl p) (inr q) = inr (rw p at q)
      raise now end (inr p) (inl q) = inr (rw q p)
      raise now end (inr p) (inr q) = inr (laws.lt_trans c now end p q)

  not_beaten :
      (ts : List (Thresholds F)) (b : Option (Config F)) (c : F)
      → All (λ t. ¬ Beats (search_grid rows (b, c) ts).1 t) ts
  unfolding search_grid
  not_beaten [] b c = tt
  not_beaten (t ∷ ts) b c = (
    last (search_grid-raises ts (consider rows (b, c) t).0 (consider rows (b, c) t).1),
    not_beaten ts (consider rows (b, c) t).0 (consider rows (b, c) t).1,
  )
    where
      now : F
      now = (consider rows (b, c) t).1

      end : F
      end = (search_grid rows (consider rows (b, c) t) ts).1

      last : (end ≡ now) ⊎ (now <? end ≡ true) → Beats end t → ⊥
      last (inl e) beats = consider-not_beaten b c t (rw e at beats)
      last (inr e) beats =
          consider-not_beaten b c t (beats.0, laws.lt_trans now end (coverage_of t rows) e beats.1)

  -- A configuration that the search has accepted, with the coverage that it must be beaten by.
  abbrev Accepted : Option (Config F) × F → Type 0
  Accepted (none, c) = Unit
  Accepted (some best, c) =
      (risk_plus best.chosen rows ≼ eps_harm) × (coverage_of best.chosen rows ≡ c)

  consider-Accepted :
      (b : Option (Config F)) (c : F) (t : Thresholds F)
      → Accepted (b, c)
      → Accepted (consider rows (b, c) t)
  unfolding consider
  consider-Accepted b c t h =
      elim (Bool-cases (risk_plus t rows ≤? eps_harm && c <? coverage_of t rows)) [
        | inl e ↦ rw e (ground arith, refl)
        | inr e ↦ rw e h
      ]

  search_grid-Accepted :
      (ts : List (Thresholds F)) (b : Option (Config F)) (c : F)
      → Accepted (b, c)
      → Accepted (search_grid rows (b, c) ts)
  unfolding search_grid
  search_grid-Accepted [] b c h = h
  search_grid-Accepted (t ∷ ts) b c h =
      search_grid-Accepted ts (consider rows (b, c) t).0 (consider rows (b, c) t).1
        (consider-Accepted b c t h)

  -- The coverage to beat is the start's as long as nothing has been accepted.
  search_grid-none :
      (ts : List (Thresholds F)) (b : Option (Config F)) (c d : F)
      → (b ≡ none → c ≡ d)
      → (search_grid rows (b, c) ts).0 ≡ none
      → (search_grid rows (b, c) ts).1 ≡ d
  unfolding search_grid
  search_grid-none [] b c d h e = h e
  search_grid-none (t ∷ ts) b c d h e =
      search_grid-none ts (consider rows (b, c) t).0 (consider rows (b, c) t).1 d
        (unfold consider in (λ k. ground (arith, h))) e

  -- What `calibrate` promises of the thresholds that it settles on.
  abbrev pub IsCalibrated : Config F → Type 0
  IsCalibrated config =
      ((risk_plus config.chosen rows ≼ eps_harm)
        × All (λ t. ¬ Beats (coverage_of config.chosen rows) t) grid)
      ⊎ ((config ≡ fallback_config rows) × All (λ t. ¬ Beats (o.neg (lit 1 0)) t) grid)

  best_config-IsCalibrated : IsCalibrated (or_else (best_config rows) (fallback_config rows))
  unfolding best_config
  best_config-IsCalibrated =
      settle (search_grid rows (none, start) grid) (search_grid-Accepted grid none start tt)
        (not_beaten grid none start) (search_grid-none grid none start start (λ _. refl))
    where
      start : F
      start = o.neg (lit 1 0)

      settle :
          (r : Option (Config F) × F)
          → Accepted r
          → All (λ t. ¬ Beats r.1 t) grid
          → (r.0 ≡ none → r.1 ≡ start)
          → IsCalibrated (or_else r.0 (fallback_config rows))
      settle (none, c) a n e = inr (refl, rw (e refl) at n)
      settle (some best, c) a n e = inl (a.0, rw (a.1) n)

  -- Given rows, `calibrate` stores under the group's key the thresholds that it returns. Either their
  -- risk bound is within the budget and no configuration of the grid within the budget has a larger
  -- coverage, or they are the strict fallback and no configuration within the budget beats -1.
  pub calibrate-IsCalibrated :
      (g : TrustGate F) (group : Option String)
      → is_nil rows ≡ false
      → IsCalibrated (calibrate g rows group).1
        × (get (calibrate g rows group).0.tau (group_key group)
            ≡ some (calibrate g rows group).1.chosen.tau)
        × (get (calibrate g rows group).0.delta (group_key group)
            ≡ some (calibrate g rows group).1.chosen.delta)
        × (get (calibrate g rows group).0.harm (group_key group)
            ≡ some (calibrate g rows group).1.chosen.harm)
  unfolding calibrate store_thresholds
  calibrate-IsCalibrated g group h = rw h (
    best_config-IsCalibrated,
    simp (get-put, eq_refl),
    simp (get-put, eq_refl),
    simp (get-put, eq_refl),
  )
