-- ===== src/Protocol/Admission.antt =====
-- cact/protocol_v2.py: `AdmissionPolicyV2`, the decision on an opportunity and its ledger of budgets.
-- A decision is a function of the policy object to a certificate and the object after it. The text of
-- a family key and of the variant is as `__init__` and `decide` form it.
pub mod Bounds
pub mod Ledger
use aaai.Prelude.{
  ℕ, zero, ◌+◌, String, Bool, true, false, not, ◌&&◌, ◌||◌, Option, none, some, List, [], ◌∷◌, ◌==◌,
  leb, if◌then◌else◌, or_else, Dict, get, put, ltb,
}
use aaai.Prelude.Int.{ℤ, pos, negsuc}
use aaai.Float.{Float, Sampler, lit, ◌⊕◌, ◌⊖◌, ◌⊗◌, ◌⊘◌, ◌≤?◌, ◌<?◌, py_max}
use aaai.Text.{text_append}
use aaai.Protocol.{Numpy, Opportunity, GroupEstimate, CalibratedPolicy, delta0}
use aaai.Protocol.Cap.{CapStats, cap_draws}

pub record AdmissionPolicy (F : Type 0) : Type 0 where
  pub policy : CalibratedPolicy F
  -- lower-cased, with `_` for `-`
  pub variant : String
  pub use_ledger : Bool
  pub initial_budget : F
  -- `none` stands for a value that `int` refuses
  pub future_opportunity_lookup : Dict (Option ℤ)
  pub budget_by_episode : Dict F

pub data Reason : Type 0 where
  ineligible_or_inapplicable absolute_risk benefit_too_low incremental_risk budget_exhausted
        cap_nonpositive admit unsupported :
      Reason

pub record Certificate (F : Type 0) : Type 0 where
  pub episode_id : String
  pub opportunity_id : String
  pub candidate_id : String
  pub applicable : Bool
  pub remaining_opportunities : ℕ
  pub q_t : F
  pub lambda_value : F
  -- `none` where no statistics were computed
  pub stats : Option (CapStats F)
  pub budget_before : F
  pub budget_after : F
  -- the depth, which is the support level too, and the key
  pub support : Option (String × String)
  pub reason : Reason

-- `decision == "ADMIT"`
unfoldable pub is_admission : Reason → Bool
is_admission admit = true
is_admission _ = false

-- `max(0, min(int(value), clip))`
unfoldable pub clip_count : Option ℤ → ℕ → ℕ
clip_count none clip = 0
clip_count (some (negsuc n)) clip = 0
clip_count (some (pos n)) clip = if ltb clip n then clip else n

-- `"|".join(parts)`
unfoldable pub join_key : List String → String
join_key [] = ""
join_key (p ∷ []) = p
join_key (p ∷ q ∷ ps) = text_append p (text_append "|" (join_key (q ∷ ps)))

module _ {F : Type 0} ⦃o : Float F⦄ where
  -- `__init__`
  unfoldable pub make_policy :
      CalibratedPolicy F → String → Bool → F → Dict (Option ℤ) → AdmissionPolicy F
  make_policy policy variant use_ledger budget lookup = record {
    policy = policy;
    variant = variant;
    use_ledger = use_ledger;
    initial_budget = py_max (lit 0 1) budget;
    future_opportunity_lookup = lookup;
    budget_by_episode = [];
  }

  -- `self._budget_by_episode.setdefault(episode_id, self.initial_budget)`
  unfoldable pub budget_of : AdmissionPolicy F → String → F
  budget_of p ep = or_else (get p.budget_by_episode ep) p.initial_budget

  unfoldable pub set_budget : String → F → AdmissionPolicy F → AdmissionPolicy F
  set_budget ep b p = record p { budget_by_episode = put p.budget_by_episode ep b }

  unfoldable pub remaining_opportunities : AdmissionPolicy F → Opportunity F → ℕ
  remaining_opportunities p op =
      let lookup = p.future_opportunity_lookup in
      let value = or_else (get lookup op.opportunity_id) (
        or_else (get lookup op.episode_id)
          (or_else (get lookup op.task_id) (some op.remaining_opportunities))) in
      clip_count value p.policy.future_opportunity_clip

  -- The depths and keys, from the finest group to the coarsest.
  unfoldable pub candidates : Opportunity F → List (String × String)
  candidates op =
      (
        "g0",
        join_key (
            op.source ∷ op.type_name ∷ op.task_group ∷ op.failure_type ∷ op.risk_tier
            ∷ op.resource_scarcity ∷ op.episode_phase ∷ op.prior_admission_bin ∷ []),
      )
      ∷ (
        "g1",
        join_key (
            op.source ∷ op.type_name ∷ op.task_group ∷ op.failure_type ∷ op.risk_tier
            ∷ op.episode_phase ∷ []),
      )
      ∷ ("g2", join_key (op.source ∷ op.type_name ∷ op.task_group ∷ op.resource_scarcity ∷ []))
      ∷ ("g3", join_key (op.source ∷ op.type_name ∷ []))
      ∷ []

  unfoldable pub pair_with :
      String × String → Option (GroupEstimate F) → Option ((String × String) × GroupEstimate F)
  pair_with c none = none
  pair_with c (some row) = some (c, row)

  -- The first candidate whose row is supported; under hard backoff the finest one alone.
  unfoldable pub usable : AdmissionPolicy F → String → Option (GroupEstimate F) → Bool
  usable p depth none = false
  usable p depth (some row) =
      row.supported && not (p.variant == "hard_backoff" && not (depth == "g0"))

  unfoldable pub find_support :
      AdmissionPolicy F → List (String × String) → Option ((String × String) × GroupEstimate F)
  unfolding usable pair_with
  find_support p [] = none
  find_support p ((depth, key) ∷ rest) =
      let later = find_support p rest in
      let found = get p.policy.estimates key in
      if usable p depth found then pair_with (depth, key) found else later

  -- The statistics of the variant with independent margins.
  unfoldable pub margin_stats : CalibratedPolicy F → GroupEstimate F → F → CapStats F → CapStats F
  margin_stats c row q_t stats =
      let benefit_lcb = row.delta_y ⊖ c.lambda_value ⊗ row.se_y in
      let abs_ucb = row.risk_abs ⊕ c.lambda_value ⊗ row.se_abs in
      let inc_ucb = row.risk_inc ⊕ c.lambda_value ⊗ row.se_inc in
      record {
        cap =
            benefit_lcb ⊘ delta0 c
            ⊖ c.lambda_value
              ⊗ py_max inc_ucb (lit 0 1)
              ⊘ py_max (q_t ⊕ c.cap_epsilon) c.cap_epsilon;
        benefit_lcb = benefit_lcb;
        risk_inc_ucb = inc_ucb;
        risk_abs_ucb = abs_ucb;
        risk_charge = py_max (lit 0 1) inc_ucb;
        draw_count = stats.draw_count;
      }

  abbrev pub is_independent : AdmissionPolicy F → Bool
  is_independent p = p.variant == "independent_margins"

  -- The tests on the statistics, in their order.
  unfoldable pub judge_stats : AdmissionPolicy F → F → CapStats F → Reason
  judge_stats p budget stats =
      let c = p.policy in
      if c.eps_abs <? stats.risk_abs_ucb
      then absolute_risk
      else if is_independent p && stats.benefit_lcb <? delta0 c
      then benefit_too_low
      else if is_independent p && c.eps_inc <? stats.risk_inc_ucb
      then incremental_risk
      else if (budget ⊕ c.cap_epsilon) <? stats.risk_charge
      then budget_exhausted
      else if stats.cap ≤? lit 0 1
      then cap_nonpositive
      else admit

module _ {F : Type 0} ⦃o : Float F⦄ ⦃s : Sampler F⦄ ⦃np : Numpy F⦄ where
  unfoldable pub row_stats : AdmissionPolicy F → F → String → GroupEstimate F → CapStats F
  row_stats p q_t key row =
      let c = p.policy in
      let stats =
        cap_draws row c.lambda_value q_t (delta0 c) c.cap_epsilon (s.digest_word key) c.alpha in
      if is_independent p then margin_stats c row q_t stats else stats

  -- The certificate on a supported row, and the charge on the ledger.
  unfoldable pub decide_row :
      AdmissionPolicy F
      → Certificate F
      → (String × String) × GroupEstimate F
      → Certificate F × AdmissionPolicy F
  decide_row p base ((depth, key), row) =
      let stats = row_stats p base.q_t key row in
      let reason = judge_stats p base.budget_before stats in
      let after =
        if p.use_ledger then base.budget_before ⊖ stats.risk_charge else base.budget_before in
      let certificate = record base {
        stats = some stats;
        support = some (depth, key);
        reason = reason;
        budget_after = if is_admission reason then after else base.budget_before;
      } in
      (
        certificate,
        if is_admission reason && p.use_ledger
            then set_budget base.episode_id (py_max (lit 0 1) after) p
            else p,
      )

  unfoldable pub decide_supported :
      AdmissionPolicy F
      → Certificate F
      → Option ((String × String) × GroupEstimate F)
      → Certificate F × AdmissionPolicy F
  decide_supported p base none = (base, p)
  decide_supported p base (some found) = decide_row p base found

  unfoldable pub base_certificate : AdmissionPolicy F → Opportunity F → Bool → F → ℕ → Certificate F
  base_certificate p op applicable budget n = record {
    episode_id = op.episode_id;
    opportunity_id = op.opportunity_id;
    candidate_id = op.knowledge_id;
    applicable = applicable;
    remaining_opportunities = n;
    q_t = budget ⊘ (lit 10 1 ⊕ lit n 0);
    lambda_value = p.policy.lambda_value;
    stats = none;
    budget_before = budget;
    budget_after = budget;
    support = none;
    reason = unsupported;
  }

  unfoldable pub decide_opportunity :
      AdmissionPolicy F → Opportunity F → Bool → Certificate F × AdmissionPolicy F
  decide_opportunity p op applicable =
      let budget = budget_of p op.episode_id in
      let p1 = set_budget op.episode_id budget p in
      let n = if p.variant == "myopic_reserve" then 0 else remaining_opportunities p op in
      let base = base_certificate p op applicable budget n in
      if not op.eligible || not applicable
      then (record base { reason = ineligible_or_inapplicable }, p1)
      else decide_supported p1 base (find_support p (candidates op))
