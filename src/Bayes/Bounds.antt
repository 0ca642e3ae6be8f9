-- ===== src/Bayes/Bounds.antt =====
-- cact/empirical_bayes.py: the estimates that `estimate` stores.
use aaai.Prelude.{
  ℕ, String, List, [], ◌∷◌, ◌==◌, if_elim, or_else, length, Dict, get, put, All, Bool-cases, inl,
  inr, arith, ltb,
}
use aaai.Float.{Float, lit, py_max, py_min}
use aaai.Float.Order.{IsOrdered, ◌≼◌}
use aaai.Bayes.{TypeStat, EmpiricalBayes, HistoryRow, moments, estimate_stat, estimate, values_of}

-- A property of every value of a dictionary.
abbrev pub AllValues {ℓ} : {V : Type ℓ} → (V → Type 0) → Dict V → Type 0
AllValues P d = All (λ e. P e.1) d

AllValues-put {ℓ} :
    {V : Type ℓ} (P : V → Type 0) (d : Dict V) (k : String) (v : V)
    → AllValues P d
    → P v
    → AllValues P (put d k v)
unfolding put
AllValues-put P [] k v h p = (p, tt)
AllValues-put P ((j, w) ∷ d) k v h p = elim (Bool-cases (j == k)) [
  | inl e ↦ rw e (p, h.1)
  | inr e ↦ rw e (h.0, AllValues-put P d k v h.1 p)
]

AllValues-get {ℓ} :
    {V : Type ℓ} (P : V → Type 0) (d : Dict V) (k : String) (v : V)
    → AllValues P d
    → P v
    → P (or_else (get d k) v)
unfolding get
AllValues-get P [] k v h p = p
AllValues-get P ((j, w) ∷ d) k v h p = elim (Bool-cases (j == k)) [
  | inl e ↦ rw e h.0
  | inr e ↦ rw e (AllValues-get P d k v h.1 p)
]

module _ {F : Type 0} ⦃o : Float F⦄ where
  -- Both parameters lie between 0.1 and 20.
  pub record IsClipped (t : TypeStat F) : Type 0 where
    pub alpha_min : lit 1 1 ≼ t.alpha
    pub alpha_max : t.alpha ≼ lit 200 1
    pub beta_min : lit 1 1 ≼ t.beta
    pub beta_max : t.beta ≼ lit 200 1

  abbrev IsClippedAll : EmpiricalBayes F → Type 0
  IsClippedAll eb = AllValues (AllValues IsClipped) eb.type_stats

module _ {F : Type 0} ⦃o : Float F⦄ (laws : IsOrdered F) where
  clip_bounds :
      (x : F)
      → (lit 1 1 ≼ py_max (lit 1 1) (py_min x (lit 200 1)))
        × (py_max (lit 1 1) (py_min x (lit 200 1)) ≼ lit 200 1)
  unfolding py_max py_min
  clip_bounds x = ground (
    arith,
    laws.lit_mono 1 200 1 (omega arith),
    laws.lit_mono 1 1 1 (omega arith),
    laws.lit_mono 200 200 1 (omega arith),
    laws.le_of_lt (lit 1 1) x,
    laws.refl_of_le (lit 1 1) x,
    laws.le_of_lt (lit 1 1) (lit 200 1),
    laws.le_of_not-lt x (lit 200 1),
  )

  moments-IsClipped : (m v : F) (n : ℕ) → IsClipped (moments m v n)
  unfolding moments
  moments-IsClipped m v n = record {
    alpha_min = (clip_bounds _).0;
    alpha_max = (clip_bounds _).1;
    beta_min = (clip_bounds _).0;
    beta_max = (clip_bounds _).1;
  }

  module _ (mean var : List F → F) where
    estimate_stat-IsClippedAll :
        (key : String) (rows : List (HistoryRow F)) (eb : EmpiricalBayes F) (st : String)
        → IsClippedAll eb
        → IsClippedAll (estimate_stat mean var key rows eb st)
    unfolding estimate_stat
    estimate_stat-IsClippedAll key rows eb st h =
        if_elim IsClippedAll (ltb (length (values_of st rows)) 5) _ _ h (
          AllValues-put (AllValues IsClipped) eb.type_stats key _ h (
            AllValues-put IsClipped _ st _
              (AllValues-get (AllValues IsClipped) eb.type_stats key [] h tt)
              (moments-IsClipped _ _ _)))

    -- Whatever numpy's mean and variance return, NaN included, `estimate` keeps the parameters of all
    -- stored estimates between 0.1 and 20.
    estimate-IsClippedAll :
        (history : Dict (List (HistoryRow F))) (eb : EmpiricalBayes F)
        → IsClippedAll eb
        → IsClippedAll (estimate mean var eb history)
    unfolding estimate
    estimate-IsClippedAll [] eb h = h
    estimate-IsClippedAll ((key, rows) ∷ rest) eb h = estimate-IsClippedAll rest _ (
        estimate_stat-IsClippedAll key rows _ "harm" (
          estimate_stat-IsClippedAll key rows _ "base"
            (estimate_stat-IsClippedAll key rows eb "use" h)))
