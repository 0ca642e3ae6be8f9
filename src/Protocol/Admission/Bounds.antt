-- ===== src/Protocol/Admission/Bounds.antt =====
-- cact/protocol_v2.py: what an admission of `decide` rests on.
use mathlib.Core.Option.{some-injective}
use aaai.Prelude.{
  ◌≡◌, refl, String, Bool, true, false, not, ◌&&◌, ◌||◌, Option, none, some, List, [], ◌∷◌, ◌==◌,
  get, if◌then◌else◌, arith, Bool-cases, inl, inr, Any, ◌⊎◌, subst,
}
use aaai.Float.{Float, Sampler, lit, ◌⊖◌, ◌⊕◌, ◌≤?◌, ◌<?◌}
use aaai.Protocol.{Numpy, Opportunity, GroupEstimate, CalibratedPolicy, delta0}
use aaai.Protocol.Cap.{CapStats}
use aaai.Protocol.Admission.{
  AdmissionPolicy, Certificate, ineligible_or_inapplicable, is_admission, budget_of, set_budget,
  row_stats, decide_row, base_certificate, find_support, usable, pair_with, decide_supported,
  decide_opportunity, candidates, judge_stats, is_independent, remaining_opportunities,
}

module _ {F : Type 0} ⦃o : Float F⦄ where
  -- The tests that the statistics have passed.
  pub record HasPassed (c : CalibratedPolicy F) (independent : Bool) (budget : F)
      (stats : CapStats F) : Type 0 where
    pub risk : (c.eps_abs <? stats.risk_abs_ucb) ≡ false
    pub afford : ((budget ⊕ c.cap_epsilon) <? stats.risk_charge) ≡ false
    pub score : (stats.cap ≤? lit 0 1) ≡ false
    pub margins :
        independent ≡ false
        ⊎ ((stats.benefit_lcb <? delta0 c) ≡ false × (c.eps_inc <? stats.risk_inc_ucb) ≡ false)

  judge_stats-HasPassed :
      (p : AdmissionPolicy F) (budget : F) (stats : CapStats F)
      → is_admission (judge_stats p budget stats) ≡ true
      → HasPassed p.policy (is_independent p) budget stats
  unfolding judge_stats is_admission
  judge_stats-HasPassed p budget stats h = ground arith

  -- A supported row among the candidates, at its finest depth under hard backoff.
  abbrev pub IsCandidate :
      AdmissionPolicy F → List (String × String) → (String × String) × GroupEstimate F → Type 0
  IsCandidate p xs ((depth, key), row) =
      Any (λ c. c ≡ (depth, key)) xs
      × (get p.policy.estimates key ≡ some row)
      × (row.supported ≡ true)
      × ((p.variant == "hard_backoff" && not (depth == "g0")) ≡ false)

  pair_with-IsCandidate :
      (p : AdmissionPolicy F) (depth key : String) (rest : List (String × String))
      (x : Option (GroupEstimate F)) (found : (String × String) × GroupEstimate F)
      → get p.policy.estimates key ≡ x
      → usable p depth x ≡ true
      → pair_with (depth, key) x ≡ some found
      → IsCandidate p ((depth, key) ∷ rest) found
  unfolding pair_with usable
  pair_with-IsCandidate p depth key rest none found g u e = absurd (cc)
  pair_with-IsCandidate p depth key rest (some row) found g u e =
      subst (IsCandidate p ((depth, key) ∷ rest)) (some-injective _ _ e)
        (inl refl, g, ground arith, ground arith)

  find_support-IsCandidate :
      (p : AdmissionPolicy F) (xs : List (String × String))
      (found : (String × String) × GroupEstimate F)
      → find_support p xs ≡ some found
      → IsCandidate p xs found
  unfolding find_support
  find_support-IsCandidate p [] found e = absurd (cc)
  find_support-IsCandidate p ((depth, key) ∷ rest) found e =
      elim (Bool-cases (usable p depth (get p.policy.estimates key))) [
        | inl u ↦ pair_with-IsCandidate p depth key rest _ found refl u (rw u at e)
        | inr u ↦
            let later = find_support-IsCandidate p rest found (rw u at e) in
            (inr later.0, later.1, later.2, later.3)
      ]

module _ {F : Type 0} ⦃o : Float F⦄ ⦃s : Sampler F⦄ ⦃np : Numpy F⦄ where
  decide_row-HasPassed :
      (p : AdmissionPolicy F) (base : Certificate F) (depth key : String) (row : GroupEstimate F)
      → is_admission (decide_row p base ((depth, key), row)).0.reason ≡ true
      → HasPassed p.policy (is_independent p) base.budget_before (row_stats p base.q_t key row)
        × ((decide_row p base ((depth, key), row)).0.budget_after ≡ (
            if p.use_ledger
            then base.budget_before ⊖ (row_stats p base.q_t key row).risk_charge
            else base.budget_before))
  unfolding decide_row
  decide_row-HasPassed p base depth key row h =
      (judge_stats-HasPassed p base.budget_before _ h, rw h refl)

  -- What an admission rests on: an eligible and applicable opportunity, a supported row for one of its
  -- keys, and statistics of that row, at the budget that the episode had, which pass every test.
  pub record IsGranted (p : AdmissionPolicy F) (op : Opportunity F) (applicable : Bool)
      (c : Certificate F) : Type 0 where
    pub open_to : (op.eligible && applicable) ≡ true
    pub candidate : (String × String) × GroupEstimate F
    pub among : IsCandidate p (candidates op) candidate
    pub before : c.budget_before ≡ budget_of p op.episode_id
    pub passed :
        HasPassed p.policy
          (is_independent p)
          (budget_of p op.episode_id)
          (row_stats p c.q_t candidate.0.1 candidate.1)
    pub after : c.budget_after ≡ (
        if p.use_ledger
        then budget_of p op.episode_id ⊖ (row_stats p c.q_t candidate.0.1 candidate.1).risk_charge
        else budget_of p op.episode_id)

  -- An opportunity is admitted only if it is eligible and applicable, a supported row stands under one
  -- of its four group keys (the finest alone under hard backoff), and by that row's statistics no test
  -- of the code fails: the absolute risk does not exceed its limit, the charge does not exceed the
  -- episode's budget with the policy's `cap_epsilon` added, the score is not zero or less, and under
  -- independent margins neither benefit nor incremental risk is beyond its limit. (A comparison with
  -- NaN fails no test.) The certificate's budget after it is then less by the charge if a ledger is
  -- kept, else the same.
  pub decide_opportunity-IsGranted :
      (p : AdmissionPolicy F) (op : Opportunity F) (applicable : Bool)
      → is_admission (decide_opportunity p op applicable).0.reason ≡ true
      → IsGranted p op applicable (decide_opportunity p op applicable).0
  unfolding decide_opportunity decide_supported decide_row base_certificate set_budget is_admission
      row_stats
  decide_opportunity-IsGranted p op applicable h =
      go (not op.eligible || not applicable) refl (find_support p (candidates op)) refl h
    where
      p1 : AdmissionPolicy F
      p1 = set_budget op.episode_id (budget_of p op.episode_id) p

      base : Certificate F
      base =
          base_certificate p op applicable (budget_of p op.episode_id)
            (if p.variant == "myopic_reserve" then 0 else remaining_opportunities p op)

      outcome : Bool → Option ((String × String) × GroupEstimate F) → Certificate F
      outcome b x =
          (if b
            then (record base { reason = ineligible_or_inapplicable }, p1)
            else decide_supported p1 base x).0

      go :
          (b : Bool)
          → (not op.eligible || not applicable) ≡ b
          → (x : Option ((String × String) × GroupEstimate F)) → find_support p (candidates op) ≡ x
          → is_admission (outcome b x).reason ≡ true
          → IsGranted p op applicable (outcome b x)
      go true e x f a = absurd (cc)
      go false e none f a = absurd (cc)
      go false e (some ((depth, key), row)) f a =
          let passed = decide_row-HasPassed p1 base depth key row a in
          record {
            open_to = ground arith;
            candidate = ((depth, key), row);
            among = find_support-IsCandidate p (candidates op) ((depth, key), row) f;
            before = refl;
            passed = passed.0;
            after = passed.1;
          }
