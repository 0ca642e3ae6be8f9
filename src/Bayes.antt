-- ===== src/Bayes.antt =====
-- cact/empirical_bayes.py: `EmpiricalBayes`, the priors of each knowledge type and level.
-- `to_dict` and `from_dict` rename the same entries and are left out, and so are numpy's `mean` and
-- `var`, which `estimate` calls: they are arguments here.
pub mod Bounds
use aaai.Prelude.{
  ℕ, String, Option, none, some, List, [], ◌∷◌, ◌==◌, if◌then◌else◌, or_else, Dict, get, put,
  length, ltb,
}
use aaai.Float.{Float, lit, ◌⊕◌, ◌⊖◌, ◌⊗◌, ◌⊘◌, ◌<?◌, py_max, py_min}
use aaai.Text.{text_append}

-- `(alpha, beta, n_samples)` of one statistic
pub record TypeStat (F : Type 0) : Type 0 where
  pub alpha : F
  pub beta : F
  pub samples : F

pub record EmpiricalBayes (F : Type 0) : Type 0 where
  pub k : F
  pub defaults : Dict (F × F)
  pub type_stats : Dict (Dict (TypeStat F))

-- A record of history: its `stat` and its outcome, at their defaults where missing.
pub record HistoryRow (F : Type 0) : Type 0 where
  pub stat : String
  pub outcome : F

unfoldable pub type_level_key : String → String → String
type_level_key ktype level =
    if level == "" then ktype else text_append ktype (text_append "|" level)

module _ {F : Type 0} where
  -- `by_stat[st]`
  values_of : String → List (HistoryRow F) → List F
  values_of st [] = []
  values_of st (r ∷ rows) =
      let rest = values_of st rows in if r.stat == st then r.outcome ∷ rest else rest

  unfoldable pub stat_of : EmpiricalBayes F → String → String → Option (TypeStat F)
  stat_of eb key stat = get (or_else (get eb.type_stats key) []) stat

module _ {F : Type 0} ⦃o : Float F⦄ where
  abbrev pub default_priors : Dict (F × F)
  default_priors =
      ("use", (lit 8 1, lit 12 1))
      ∷ ("base", (lit 6 1, lit 14 1))
      ∷ ("harm", (lit 1 1, lit 20 1))
      ∷ []

  unfoldable pub default_bayes : EmpiricalBayes F
  default_bayes = record { k = lit 20 0; defaults = default_priors; type_stats = [] }

  -- The method of moments, clipped.
  unfoldable pub moments : F → F → ℕ → TypeStat F
  moments m v n =
      let v' = py_max v (lit 1 6) in
      let s = py_max (lit 1 1) (py_min (m ⊗ (lit 1 0 ⊖ m) ⊘ v' ⊖ lit 1 0) (lit 200 1)) in
      record {
        alpha = py_max (lit 1 1) (py_min (m ⊗ s) (lit 200 1));
        beta = py_max (lit 1 1) (py_min ((lit 1 0 ⊖ m) ⊗ s) (lit 200 1));
        samples = lit n 0;
      }

  -- One statistic of one type: fewer than five values leave it alone.
  unfoldable pub estimate_stat :
      (List F → F)
      → (List F → F)
      → String
      → List (HistoryRow F)
      → EmpiricalBayes F
      → String
      → EmpiricalBayes F
  unfolding values_of
  estimate_stat mean var key rows eb st =
      let vals = values_of st rows in
      if ltb (length vals) 5 then eb else record eb {
        type_stats = put eb.type_stats key (
            put (or_else (get eb.type_stats key) []) st
              (moments (mean vals) (var vals) (length vals)));
      }

  unfoldable pub estimate :
      (List F → F) → (List F → F) → EmpiricalBayes F → Dict (List (HistoryRow F)) → EmpiricalBayes F
  estimate mean var eb [] = eb
  estimate mean var eb ((key, rows) ∷ rest) =
      let used = estimate_stat mean var key rows eb "use" in
      let base = estimate_stat mean var key rows used "base" in
      estimate mean var (estimate_stat mean var key rows base "harm") rest

  -- The shrinkage weight of a type's own estimate.
  shrink_weight : EmpiricalBayes F → TypeStat F → F
  shrink_weight eb t =
      if lit 0 0 <? t.samples then py_min (t.samples ⊘ (t.samples ⊕ eb.k)) (lit 8 1) else lit 0 0

  unfoldable pub shrink : EmpiricalBayes F → F × F → Option (TypeStat F) → F × F
  unfolding shrink_weight
  shrink eb (a0, b0) none = (a0, b0)
  shrink eb (a0, b0) (some t) =
      let w = shrink_weight eb t in
      ((lit 1 0 ⊖ w) ⊗ a0 ⊕ w ⊗ t.alpha, (lit 1 0 ⊖ w) ⊗ b0 ⊕ w ⊗ t.beta)

  unfoldable pub get_prior : EmpiricalBayes F → String → String → String → F × F
  get_prior eb ktype level stat =
      shrink eb (or_else (get eb.defaults stat) (lit 1 0, lit 1 0))
        (stat_of eb (type_level_key ktype level) stat)
