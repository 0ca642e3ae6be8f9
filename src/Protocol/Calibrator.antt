-- ===== src/Protocol/Calibrator.antt =====
-- cact/protocol_v2.py: `PolicyCalibrator`, which selects the price of harm and audits the policy.
pub mod Best
use aaai.Prelude.{
  ℕ, String, Bool, true, false, not, ◌&&◌, ◌||◌, Option, none, some, List, [], ◌∷◌, if◌then◌else◌,
  Dict, get, put, keys, is_nil, length, filter_by, map,
}
use aaai.Float.{Float, Sampler, lit, ◌⊘◌, ◌≤?◌, ◌<?◌, py_max}
use aaai.Protocol.{
  Numpy, GroupEstimate, CalibratedPolicy, default_budget, default_cap_epsilon, delta0,
}
use aaai.Protocol.Cap.{CapStats, cap_draws}

pub record PolicyCalibrator (F : Type 0) : Type 0 where
  pub lambdas : List F
  pub delta : F
  pub eps_abs : F
  pub eps_inc : F
  pub alpha : F

module _ {F : Type 0} where
  -- `[e for e in estimates if e.supported]`
  abbrev pub supported_of : List (GroupEstimate F) → List (GroupEstimate F)
  supported_of = filter_by (λ e. e.supported)

  -- `{e.key: e.to_dict() for e in es}`, onto what is there
  unfoldable pub by_key : Dict (GroupEstimate F) → List (GroupEstimate F) → Dict (GroupEstimate F)
  by_key d [] = d
  by_key d (e ∷ es) = by_key (put d e.key e) es

module _ {F : Type 0} ⦃o : Float F⦄ where
  unfoldable pub passes_cap : F → CapStats F → Bool
  passes_cap eps_abs stats = stats.risk_abs_ucb ≤? eps_abs && lit 0 1 <? stats.cap

  -- `max(lambdas)`, with `none` for the `ValueError`
  unfoldable pub max_of : List F → Option F
  max_of [] = none
  max_of (x ∷ xs) = some (max_from x xs)
    where
      max_from : F → List F → F
      max_from best [] = best
      max_from best (x ∷ xs) = max_from (py_max best x) xs

  -- `a == b` of two floats
  abbrev pub float_eq : F → F → Bool
  float_eq a b = a ≤? b && b ≤? a

  unfoldable pub is_better : CalibratedPolicy F → CalibratedPolicy F → Bool
  is_better candidate best =
      best.coverage <? candidate.coverage
      || (float_eq candidate.coverage best.coverage && candidate.lambda_value <? best.lambda_value)

  -- `if best is None or …: best = candidate`
  unfoldable pub keep_better :
      Option (CalibratedPolicy F) → CalibratedPolicy F → Option (CalibratedPolicy F)
  unfolding is_better
  keep_better none candidate = some candidate
  keep_better (some best) candidate = if is_better candidate best then some candidate else some best

module _ {F : Type 0} ⦃o : Float F⦄ ⦃s : Sampler F⦄ ⦃np : Numpy F⦄ where
  -- The rows that `_candidate` admits at a price of harm.
  unfoldable pub admitted_of :
      PolicyCalibrator F → List (GroupEstimate F) → F → List (GroupEstimate F)
  unfolding passes_cap
  admitted_of c estimates lam =
      filter_by
        (λ e. passes_cap c.eps_abs (
          cap_draws e lam default_budget c.delta default_cap_epsilon (s.digest_word e.key) c.alpha))
        (supported_of estimates)

  unfoldable pub candidate_policy :
      PolicyCalibrator F → List (GroupEstimate F) → F → CalibratedPolicy F
  unfolding admitted_of by_key
  candidate_policy c estimates lam =
      let admitted = admitted_of c estimates lam in
      record {
        delta = c.delta;
        eps_abs = c.eps_abs;
        eps_inc = c.eps_inc;
        lambda_value = lam;
        alpha = c.alpha;
        cap_epsilon = default_cap_epsilon;
        future_opportunity_clip = 6;
        estimates = by_key [] admitted;
        coverage = lit (length admitted) 0 ⊘ lit (length (supported_of estimates)) 0;
        supported = true;
        audit_passed = false;
      }

  unfoldable pub select_loop :
      PolicyCalibrator F
      → List (GroupEstimate F)
      → Option (CalibratedPolicy F)
      → List F
      → Option (CalibratedPolicy F)
  unfolding candidate_policy keep_better
  select_loop c estimates best [] = best
  select_loop c estimates best (lam ∷ lambdas) =
      select_loop c estimates (keep_better best (candidate_policy c estimates lam)) lambdas

  -- The policy where no estimate is supported.
  unfoldable pub empty_policy : PolicyCalibrator F → List (GroupEstimate F) → F → CalibratedPolicy F
  empty_policy c estimates lam = record {
    delta = c.delta;
    eps_abs = c.eps_abs;
    eps_inc = c.eps_inc;
    lambda_value = lam;
    alpha = c.alpha;
    cap_epsilon = default_cap_epsilon;
    future_opportunity_clip = 6;
    estimates = [];
    coverage = lit 0 1;
    supported = not (is_nil estimates);
    audit_passed = false;
  }

  -- `best or CalibratedPolicy(lambda_value=max(lambdas), …)`
  unfoldable pub or_empty :
      PolicyCalibrator F
      → List (GroupEstimate F)
      → Option (CalibratedPolicy F)
      → Option (CalibratedPolicy F)
  unfolding max_of empty_policy
  or_empty c estimates (some best) = some best
  or_empty c estimates none = elim (max_of c.lambdas) [
    | none ↦ none
    | some lam ↦ some (empty_policy c estimates lam)
  ]

  -- With no supported estimate every round of the loop is skipped.
  unfoldable pub select : PolicyCalibrator F → List (GroupEstimate F) → Option (CalibratedPolicy F)
  unfolding select_loop or_empty
  select c estimates =
      or_empty c estimates
        (if is_nil (supported_of estimates) then none else select_loop c estimates none c.lambdas)

  audit_key : CalibratedPolicy F → Dict (GroupEstimate F) → String → Bool
  unfolding passes_cap
  audit_key p rows key = elim (get rows key) [
    | none ↦ false
    | some e ↦ passes_cap p.eps_abs (
        cap_draws e p.lambda_value default_budget (delta0 p) p.cap_epsilon (s.digest_word key)
          p.alpha)
  ]

  audit_keys : CalibratedPolicy F → Dict (GroupEstimate F) → List String → Bool
  unfolding audit_key
  audit_keys p rows [] = true
  audit_keys p rows (k ∷ ks) = audit_key p rows k && audit_keys p rows ks

  unfoldable pub audit : CalibratedPolicy F → List (GroupEstimate F) → CalibratedPolicy F
  unfolding audit_keys by_key
  audit p estimates = record p {
    audit_passed =
        p.supported
        && (not (is_nil p.estimates)
            && audit_keys p (by_key [] (supported_of estimates)) (keys p.estimates));
  }
