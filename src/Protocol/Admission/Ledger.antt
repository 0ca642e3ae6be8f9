-- ===== src/Protocol/Admission/Ledger.antt =====
-- cact/protocol_v2.py: the budgets of the episodes under `decide`.
use aaai.Prelude.{
  ℕ, ◌≡◌, refl, sym, ◌∙◌, String, Bool, false, not, ◌&&◌, ◌||◌, Option, none, some, List, [], ◌∷◌,
  ◌==◌, eq_iff, eq_refl, Dict, get, get-put, if◌then◌else◌, if_elim, arith, Bool-cases, inl, inr,
}
use aaai.Float.{Float, Sampler, lit, ◌⊖◌, py_max}
use aaai.Float.Order.{IsOrdered, ◌≼◌, py_max-ge_left}
use aaai.Protocol.{Numpy, Opportunity, GroupEstimate, CalibratedPolicy}
use aaai.Prelude.Int.{ℤ}
use aaai.Protocol.Cap.{CapStats, cap_draws}
use aaai.Protocol.Admission.{
  AdmissionPolicy, Certificate, is_admission, budget_of, set_budget, is_independent, margin_stats,
  row_stats, decide_row, base_certificate, judge_stats, decide_supported, remaining_opportunities,
  ineligible_or_inapplicable, find_support, decide_opportunity, make_policy, candidates,
}

module _ {F : Type 0} ⦃o : Float F⦄ where
  -- From one ledger to the next: the same configuration, every budget at zero or more and at most what
  -- it was, and the budgets of the other episodes as they were.
  pub record IsSpent (ep : String) (p q : AdmissionPolicy F) : Type 0 where
    pub same_policy : q.policy ≡ p.policy
    pub same_start : q.initial_budget ≡ p.initial_budget
    pub others : (j : String) → (ep == j) ≡ false → budget_of q j ≡ budget_of p j
    pub own : (lit 0 1 ≼ budget_of q ep) × (budget_of q ep ≼ budget_of p ep)

  -- No budget is negative or NaN.
  abbrev pub AreSolvent : AdmissionPolicy F → Type 0
  AreSolvent p = (ep : String) → lit 0 1 ≼ budget_of p ep

  budget_of-set_budget :
      (ep j : String) (b : F) (p : AdmissionPolicy F)
      → budget_of (set_budget ep b p) j ≡ (if ep == j then b else budget_of p j)
  unfolding budget_of set_budget
  budget_of-set_budget ep j b p = rw get-put (ground arith)

  set_budget-IsSpent :
      (ep : String) (b : F) (p : AdmissionPolicy F)
      → lit 0 1 ≼ b
      → b ≼ budget_of p ep
      → IsSpent ep p (set_budget ep b p)
  set_budget-IsSpent ep b p h k = record {
    same_policy = unfold set_budget in refl;
    same_start = unfold set_budget in refl;
    others = λ j n. budget_of-set_budget ep j b p ∙ rw n refl;
    own = rw (budget_of-set_budget ep ep b p, eq_refl ep) (h, k);
  }

  IsSpent-trans :
      (ep : String) (p q r : AdmissionPolicy F)
      → (laws : IsOrdered F) → IsSpent ep p q
      → IsSpent ep q r
      → IsSpent ep p r
  IsSpent-trans ep p q r laws h k = record {
    same_policy = k.same_policy ∙ h.same_policy;
    same_start = k.same_start ∙ h.same_start;
    others = λ j n. k.others j n ∙ h.others j n;
    own = (k.own.0, laws.le_trans _ _ _ k.own.1 h.own.1);
  }

module _ {F : Type 0} ⦃o : Float F⦄ (laws : IsOrdered F) where
  zero_le : lit 0 1 ≼ lit {F = F} 0 1
  zero_le = laws.lit_mono 0 0 1 (omega arith)

  -- `max(0.0, b - c)` of a charge that is not negative.
  charged_bounds :
      (b c : F)
      → lit 0 1 ≼ b
      → lit 0 1 ≼ c
      → (lit 0 1 ≼ py_max (lit 0 1) (b ⊖ c)) × (py_max (lit 0 1) (b ⊖ c) ≼ b)
  unfolding py_max
  charged_bounds b c h k = ground (
    arith,
    zero_le,
    laws.le_of_lt (lit 0 1) (b ⊖ c),
    laws.refl_of_le (lit 0 1) (b ⊖ c),
    laws.refl_of_le (lit 0 1) b,
    laws.sub-le b c,
  )

  uncharged_bounds :
      (b : F) → lit 0 1 ≼ b → (lit 0 1 ≼ py_max (lit 0 1) b) × (py_max (lit 0 1) b ≼ b)
  unfolding py_max
  uncharged_bounds b h = ground (arith, zero_le, laws.refl_of_le (lit 0 1) b)

  IsSpent-refl : (ep : String) (p : AdmissionPolicy F) → lit 0 1 ≼ budget_of p ep → IsSpent ep p p
  IsSpent-refl ep p h = record {
    same_policy = refl;
    same_start = refl;
    others = λ j n. refl;
    own = (h, (laws.refl_of_le _ _ h).1);
  }

module _ {F : Type 0} ⦃o : Float F⦄ ⦃s : Sampler F⦄ ⦃np : Numpy F⦄ (laws : IsOrdered F) where
  margin_stats-charge :
      (c : CalibratedPolicy F) (row : GroupEstimate F) (q_t : F) (stats : CapStats F)
      → lit 0 1 ≼ (margin_stats c row q_t stats).risk_charge
  unfolding margin_stats
  margin_stats-charge c row q_t stats = py_max-ge_left laws (lit 0 1) _ (zero_le laws)

  cap_draws-charge :
      (row : GroupEstimate F) (lambda q_t delta epsilon : F) (seed : ℕ) (alpha : F)
      → lit 0 1 ≼ (cap_draws row lambda q_t delta epsilon seed alpha).risk_charge
  unfolding cap_draws
  cap_draws-charge row lambda q_t delta epsilon seed alpha =
      py_max-ge_left laws (lit 0 1) _ (zero_le laws)

  row_stats-charge :
      (p : AdmissionPolicy F) (q_t : F) (key : String) (row : GroupEstimate F)
      → lit 0 1 ≼ (row_stats p q_t key row).risk_charge
  unfolding row_stats
  row_stats-charge p q_t key row = elim (Bool-cases (is_independent p)) [
    | inl e ↦ rw (row_stats, e) (margin_stats-charge p.policy row q_t _)
    | inr e ↦ rw (row_stats, e) (cap_draws-charge row _ q_t _ _ _ _)
  ]

  decide_row-IsSpent :
      (p : AdmissionPolicy F) (base : Certificate F) (found : (String × String) × GroupEstimate F)
      → base.budget_before ≡ budget_of p base.episode_id
      → lit 0 1 ≼ budget_of p base.episode_id
      → IsSpent base.episode_id p (decide_row p base found).1
  unfolding decide_row
  decide_row-IsSpent p base ((depth, key), row) e h =
      let stats = row_stats p base.q_t key row in
      let b = base.budget_before in
      let solvent : lit 0 1 ≼ b = rw e h in
      let bounds =
        if_elim (λ x. (lit 0 1 ≼ py_max (lit 0 1) x) × (py_max (lit 0 1) x ≼ b)) p.use_ledger
          (b ⊖ stats.risk_charge) b
          (charged_bounds laws b stats.risk_charge solvent (row_stats-charge p base.q_t key row))
          (uncharged_bounds laws b solvent) in
      if_elim (IsSpent base.episode_id p) (is_admission (judge_stats p b stats) && p.use_ledger) _ p
        (set_budget-IsSpent base.episode_id _ p bounds.0 (rw (← e) bounds.1))
        (IsSpent-refl laws base.episode_id p h)

  decide_supported-IsSpent :
      (p : AdmissionPolicy F) (base : Certificate F)
      (found : Option ((String × String) × GroupEstimate F))
      → base.budget_before ≡ budget_of p base.episode_id
      → lit 0 1 ≼ budget_of p base.episode_id
      → IsSpent base.episode_id p (decide_supported p base found).1
  unfolding decide_supported
  decide_supported-IsSpent p base none e h = IsSpent-refl laws base.episode_id p h
  decide_supported-IsSpent p base (some found) e h = decide_row-IsSpent p base found e h

  -- A decision leaves the configuration and the budgets of the other episodes as they were; the
  -- episode's own budget does not rise, and does not fall below zero.
  pub decide_opportunity-IsSpent :
      (p : AdmissionPolicy F) (op : Opportunity F) (applicable : Bool)
      → lit 0 1 ≼ budget_of p op.episode_id
      → IsSpent op.episode_id p (decide_opportunity p op applicable).1
  unfolding decide_opportunity base_certificate
  decide_opportunity-IsSpent p op applicable h =
      let ep = op.episode_id in
      let p1 = set_budget ep (budget_of p ep) p in
      let entered = set_budget-IsSpent ep (budget_of p ep) p h (laws.refl_of_le _ _ h).1 in
      let same = budget_of-set_budget ep ep (budget_of p ep) p in
      let start : lit 0 1 ≼ budget_of p1 ep = entered.own.0 in
      let n = if p.variant == "myopic_reserve" then 0 else remaining_opportunities p op in
      let base = base_certificate p op applicable (budget_of p ep) n in
      if_elim (λ (r : Certificate F × AdmissionPolicy F). IsSpent ep p r.1)
        (not op.eligible || not applicable)
        (record base { reason = ineligible_or_inapplicable }, p1)
        (decide_supported p1 base (find_support p (candidates op))) entered
        (IsSpent-trans ep p p1 _ laws entered (
          decide_supported-IsSpent p1 base (find_support p (candidates op))
            (sym (same ∙ rw (eq_refl ep) refl)) start))

  -- The policy after decisions on a sequence of opportunities.
  pub decide_all : AdmissionPolicy F → List (Opportunity F × Bool) → AdmissionPolicy F
  decide_all p [] = p
  decide_all p ((op, applicable) ∷ rest) = decide_all (decide_opportunity p op applicable).1 rest

  IsSpent-budget :
      (ep j : String) (p q : AdmissionPolicy F)
      → AreSolvent p
      → IsSpent ep p q
      → (lit 0 1 ≼ budget_of q j) × (budget_of q j ≼ budget_of p j)
  IsSpent-budget ep j p q solvent h = elim (Bool-cases (ep == j)) [
    | inl e ↦ rw (← ((eq_iff ep j).0 e)) h.own
    | inr e ↦ rw (h.others j e) (solvent j, (laws.refl_of_le _ _ (solvent j)).1)
  ]

  decide_all-budget :
      (p : AdmissionPolicy F) (ops : List (Opportunity F × Bool)) (ep : String)
      → AreSolvent p
      → (lit 0 1 ≼ budget_of (decide_all p ops) ep)
        × (budget_of (decide_all p ops) ep ≼ budget_of p ep)
  unfolding decide_all
  decide_all-budget p [] ep h = (h ep, (laws.refl_of_le _ _ (h ep)).1)
  decide_all-budget p ((op, applicable) ∷ rest) ep h =
      let q = (decide_opportunity p op applicable).1 in
      let spent = decide_opportunity-IsSpent p op applicable (h op.episode_id) in
      let end = decide_all-budget q rest ep (λ j. (IsSpent-budget op.episode_id j p q h spent).0) in
      (end.0, laws.le_trans _ _ _ end.1 (IsSpent-budget op.episode_id ep p q h spent).1)

  make_policy-budget :
      (c : CalibratedPolicy F) (variant : String) (use_ledger : Bool) (budget : F)
      (lookup : Dict (Option ℤ)) (ep : String)
      → budget_of (make_policy c variant use_ledger budget lookup) ep ≡ py_max (lit 0 1) budget
  unfolding budget_of make_policy get
  make_policy-budget c variant use_ledger budget lookup ep = refl

  -- Of a new policy object, with any initial budget, NaN included: after decisions on any sequence of
  -- opportunities the budget of every episode is at least zero and at most the initial one, which is
  -- `max(0.0, initial_budget)`.
  pub decide_all-initial :
      (c : CalibratedPolicy F) (variant : String) (use_ledger : Bool) (budget : F)
      (lookup : Dict (Option ℤ)) (ops : List (Opportunity F × Bool)) (ep : String)
      → (lit 0 1 ≼ budget_of (decide_all (make_policy c variant use_ledger budget lookup) ops) ep)
        × (budget_of (decide_all (make_policy c variant use_ledger budget lookup) ops) ep
            ≼ py_max (lit 0 1) budget)
  decide_all-initial c variant use_ledger budget lookup ops ep =
      let p = make_policy c variant use_ledger budget lookup in
      let start = λ (j : String). make_policy-budget c variant use_ledger budget lookup j in
      let kept =
        decide_all-budget p ops ep
          λ j. rw (start j) (py_max-ge_left laws (lit 0 1) budget (zero_le laws)) in
      (kept.0, rw (start ep) at kept.1)
