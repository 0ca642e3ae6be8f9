-- ===== src/Gate/Calibrate.antt =====
-- cact/trust_gate.py: the search for thresholds, `calibrate`, `calibrate_all_groups`, `_evaluate`,
-- `_binom_ucb` and `_calibrate_interaction`. `for tau`, `for delta`, `for harm` is one pass over the
-- grid in that order. Left out is the copy of the results that `calibrate_all_groups` keeps in
-- `_calibration_results`.
use aaai.Prelude.{
  ℕ, ◌+◌, ◌-◌, String, Bool, true, false, not, ◌&&◌, Option, none, some, List, [], ◌∷◌,
  if◌then◌else◌, or_else, is_some, is_nil, length, filter_by, map, Dict, get, put, ltb, nat_eq,
}
use mathlib.Core.List.{flat_map}
use aaai.Float.{Float, Sampler, lit, ◌⊕◌, ◌⊖◌, ◌⊘◌, ◌≤?◌, ◌<?◌, py_max}
use aaai.Gate.{TrustGate, Thresholds, group_key}

-- A row of the calibration data: each field is a key that the row may lack.
pub record CalibRow (F : Type 0) : Type 0 where
  pub pi_uplift : Option F
  pub prob_uplift : Option F
  pub harm_ucb : Option F
  pub harm : Option F
  pub uplift : Option F
  pub is_harmful : Option Bool
  pub interaction_state : Bool
  pub pi_syn : Option F
  pub pi_conf : Option F
  pub interaction_synergy : Bool
  pub interaction_conflict : Bool

-- What `calibrate` returns.
pub record Config (F : Type 0) : Type 0 where
  pub chosen : Thresholds F
  pub coverage : F
  pub risk : F
  pub n_calib : Option ℕ

-- `TASK_GROUPS`
abbrev pub task_groups : List String
task_groups =
    "crafting" ∷ "mining" ∷ "exploration" ∷ "tech_tree" ∷ "failure_recovery" ∷ "interaction_stress"
    ∷ []

bool_eq : Bool → Bool → Bool
bool_eq true b = b
bool_eq false b = not b

module _ {F : Type 0} ⦃o : Float F⦄ where
  abbrev pub eps_harm : F
  eps_harm = lit 10 2

  abbrev pub uplift_candidates : List F
  uplift_candidates = lit 80 2 ∷ lit 85 2 ∷ lit 88 2 ∷ lit 90 2 ∷ lit 92 2 ∷ lit 95 2 ∷ []

  abbrev pub delta_candidates : List F
  delta_candidates = lit 2 2 ∷ lit 3 2 ∷ lit 5 2 ∷ lit 8 2 ∷ lit 10 2 ∷ []

  abbrev pub harm_candidates : List F
  harm_candidates = lit 6 2 ∷ lit 8 2 ∷ lit 10 2 ∷ lit 12 2 ∷ lit 15 2 ∷ []

  abbrev pub synergy_thresholds : List F
  synergy_thresholds = lit 70 2 ∷ lit 80 2 ∷ lit 90 2 ∷ []

  abbrev pub conflict_thresholds : List F
  conflict_thresholds = lit 70 2 ∷ lit 80 2 ∷ lit 90 2 ∷ []

  -- The calibration grids, in the order of the nested loops.
  abbrev pub grid : List (Thresholds F)
  grid =
      flat_map
        (λ tau.
          flat_map
            (λ delta.
              map (λ harm. record { tau = tau; delta = delta; harm = harm }) harm_candidates)
            delta_candidates)
        uplift_candidates

  abbrev pub pair_grid : List (F × F)
  pair_grid =
      flat_map (λ syn_t. map (λ conf_t. (syn_t, conf_t)) conflict_thresholds) synergy_thresholds

module _ {F : Type 0} ⦃o : Float F⦄ ⦃s : Sampler F⦄ where
  unfoldable pub uplift_certificate : F → F → F → F → F → F
  uplift_certificate use_alpha use_beta base_alpha base_beta delta =
      s.ppf delta use_alpha use_beta ⊖ s.ppf (lit 1 0 ⊖ delta) base_alpha base_beta

  unfoldable pub harm_ucb : F → F → F → F
  harm_ucb alpha beta q = s.ppf q alpha beta

  -- `_binom_ucb` at its default 0.1
  unfoldable pub binom_ucb : ℕ → ℕ → F
  binom_ucb k n =
      if nat_eq n 0 then lit 1 0 else s.ppf (lit 1 0 ⊖ lit 1 1) (lit (k + 1) 0) (lit (n - k + 1) 0)

  -- `pu >= tau and up >= delta and hu <= harm`, the absent keys by their defaults
  unfoldable pub accepts : Thresholds F → CalibRow F → Bool
  accepts t d =
      t.tau ≤? or_else d.pi_uplift (or_else d.prob_uplift (lit 5 1))
      && t.delta ≤? or_else d.uplift (lit 0 0)
      && or_else d.harm_ucb (or_else d.harm (lit 5 2)) ≤? t.harm

  unfoldable pub labelled : List (CalibRow F) → List (CalibRow F)
  labelled rows = filter_by (λ d. is_some d.is_harmful) rows

  unfoldable pub accepted : Thresholds F → List (CalibRow F) → List (CalibRow F)
  accepted t rows = filter_by (accepts t) (labelled rows)

  unfoldable pub harmful : List (CalibRow F) → List (CalibRow F)
  harmful rows = filter_by (λ d. or_else d.is_harmful false) rows

  unfoldable pub coverage_of : Thresholds F → List (CalibRow F) → F
  coverage_of t rows =
      let n = length (labelled rows) in
      if nat_eq n 0 then lit 0 0 else lit (length (accepted t rows)) 0 ⊘ lit n 0

  unfoldable pub risk_of : Thresholds F → List (CalibRow F) → F
  risk_of t rows =
      let n = length (accepted t rows) in
      lit (length (harmful (accepted t rows))) 0 ⊘ lit (if ltb n 1 then 1 else n) 0

  unfoldable pub risk_plus : Thresholds F → List (CalibRow F) → F
  risk_plus t rows = binom_ucb (length (harmful (accepted t rows))) (length (accepted t rows))

  -- One configuration of the grid against the best so far, which starts at -1.
  unfoldable pub consider :
      List (CalibRow F) → Option (Config F) × F → Thresholds F → Option (Config F) × F
  consider rows (best, best_coverage) t =
      let coverage = coverage_of t rows in
      if risk_plus t rows ≤? eps_harm && best_coverage <? coverage
      then (
        some (record {
          chosen = t;
          coverage = o.round coverage 3;
          risk = o.round (risk_of t rows) 3;
          n_calib = some (length rows);
        }),
        coverage,
      )
      else (best, best_coverage)

  unfoldable pub search_grid :
      List (CalibRow F) → Option (Config F) × F → List (Thresholds F) → Option (Config F) × F
  search_grid rows best [] = best
  search_grid rows best (t ∷ rest) = search_grid rows (consider rows best t) rest

  unfoldable pub best_config : List (CalibRow F) → Option (Config F)
  best_config rows = (search_grid rows (none, o.neg (lit 1 0)) grid).0

  -- The thresholds where no configuration keeps within the budget.
  unfoldable pub fallback_config : List (CalibRow F) → Config F
  fallback_config rows = record {
    chosen = record { tau = lit 95 2; delta = lit 10 2; harm = lit 6 2 };
    coverage = lit 0 0;
    risk = lit 0 0;
    n_calib = some (length rows);
  }

  unfoldable pub default_config : Config F
  default_config = record {
    chosen = record { tau = lit 90 2; delta = lit 5 2; harm = lit 10 2 };
    coverage = lit 0 0;
    risk = lit 0 0;
    n_calib = none;
  }

  unfoldable pub store_thresholds : TrustGate F → String → Thresholds F → TrustGate F
  store_thresholds g key t = record g {
    tau = put g.tau key t.tau;
    delta = put g.delta key t.delta;
    harm = put g.harm key t.harm;
    calibrated = true;
  }

  unfoldable pub calibrate :
      TrustGate F → List (CalibRow F) → Option String → TrustGate F × Config F
  calibrate g rows group =
      let config = or_else (best_config rows) (fallback_config rows) in
      if is_nil rows
      then (g, default_config)
      else (store_thresholds g (group_key group) config.chosen, config)

  -- `_calibrate_interaction`: the rows that a pair of thresholds classifies rightly
  unfoldable pub classified : F → F → CalibRow F → Bool
  unfolding bool_eq
  classified syn_t conf_t d =
      bool_eq (syn_t ≤? or_else d.pi_syn (lit 0 0)) d.interaction_synergy
      && bool_eq (conf_t ≤? or_else d.pi_conf (lit 0 0)) d.interaction_conflict

  unfoldable pub f1_score : List (CalibRow F) → F × F → F
  f1_score rows (syn_t, conf_t) =
      let tp = length (filter_by (classified syn_t conf_t) rows) in
      let fp = length rows - tp in lit tp 0 ⊘ py_max (lit tp 0 ⊕ lit fp 0 ⊘ lit 20 1) (lit 1 0)

  unfoldable pub search_pairs : List (CalibRow F) → TrustGate F × F → List (F × F) → TrustGate F
  search_pairs rows (g, best) [] = g
  search_pairs rows (g, best) ((syn_t, conf_t) ∷ rest) =
      let f1 = f1_score rows (syn_t, conf_t) in
      search_pairs rows
        (if best <? f1
          then (record g { theta_syn = syn_t; theta_conf = conf_t }, f1)
          else (g, best))
        rest

  unfoldable pub calibrate_interaction : TrustGate F → List (CalibRow F) → TrustGate F
  calibrate_interaction g rows =
      let inter = filter_by (λ d. d.interaction_state) rows in
      if ltb (length inter) 10 then g else search_pairs inter (g, o.neg (lit 1 0)) pair_grid

  -- `calibrate_all_groups`, over `TASK_GROUPS`
  unfoldable pub calibrate_groups :
      TrustGate F → Dict (List (CalibRow F)) → List String → TrustGate F × Dict (Config F)
  calibrate_groups g by_group [] = (g, [])
  calibrate_groups g by_group (group ∷ rest) =
      let (g', config) = calibrate g (or_else (get by_group group) []) (some group) in
      let (g'', results) = calibrate_groups g' by_group rest in (g'', (group, config) ∷ results)

  unfoldable pub calibrate_all_groups :
      TrustGate F → Dict (List (CalibRow F)) → TrustGate F × Dict (Config F)
  calibrate_all_groups g by_group =
      let (g', results) = calibrate_groups g by_group task_groups in
      (calibrate_interaction g' (or_else (get by_group "calib") []), results)
