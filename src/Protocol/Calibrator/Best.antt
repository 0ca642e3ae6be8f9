-- ===== src/Protocol/Calibrator/Best.antt =====
-- cact/protocol_v2.py: the policy that `select` settles on.
use aaai.Prelude.{
  ◌≡◌, refl, true, false, none, some, List, [], ◌∷◌, arith, Bool-cases, inl, inr, ◌⊎◌, All, is_nil,
  Any,
}
use aaai.Float.{Float, Sampler, ◌<?◌}
use aaai.Float.Order.{IsOrdered, ◌≼◌}
use aaai.Protocol.{Numpy, GroupEstimate, CalibratedPolicy}
use aaai.Protocol.Calibrator.{
  PolicyCalibrator, supported_of, is_better, keep_better, candidate_policy, select_loop, or_empty,
  select,
}

module _ {F : Type 0} ⦃o : Float F⦄ (laws : IsOrdered F) where
  lt-le_trans : (x y z : F) → (x <? y) ≡ true → y ≼ z → (x <? z) ≡ true
  lt-le_trans x y z h k = ground (
    arith,
    laws.le_of_lt x y h,
    laws.refl_of_le x y,
    laws.refl_of_le y z k,
    laws.le_of_not-lt z x,
    laws.le_trans y z x k,
    laws.not-lt_of_le y x,
  )

  le-lt_trans : (x y z : F) → x ≼ y → (y <? z) ≡ true → (x <? z) ≡ true
  le-lt_trans x y z h k = ground (
    arith,
    laws.le_of_lt y z k,
    laws.refl_of_le x y h,
    laws.refl_of_le y z,
    laws.le_of_not-lt z x,
    laws.le_trans z x y,
    laws.not-lt_of_le z y,
  )

  is_better_irrefl : (a : CalibratedPolicy F) → is_better a a ≡ false
  unfolding is_better
  is_better_irrefl a = ground (
    arith,
    laws.le_of_lt a.coverage a.coverage,
    laws.not-lt_of_le a.coverage a.coverage,
    laws.le_of_lt a.lambda_value a.lambda_value,
    laws.not-lt_of_le a.lambda_value a.lambda_value,
  )

  is_better_trans :
      (a b c : CalibratedPolicy F)
      → is_better a b ≡ true
      → is_better b c ≡ true
      → is_better a c ≡ true
  unfolding is_better
  is_better_trans a b c h k = ground (
    arith,
    laws.lt_trans c.coverage b.coverage a.coverage,
    lt-le_trans c.coverage b.coverage a.coverage,
    le-lt_trans c.coverage b.coverage a.coverage,
    laws.le_trans a.coverage b.coverage c.coverage,
    laws.le_trans c.coverage b.coverage a.coverage,
    laws.lt_trans a.lambda_value b.lambda_value c.lambda_value,
  )

  -- The later of two policies is the earlier one or better.
  abbrev AtLeast : CalibratedPolicy F → CalibratedPolicy F → Type 0
  AtLeast r b = (r ≡ b) ⊎ (is_better r b ≡ true)

  AtLeast-not_beaten :
      (r b x : CalibratedPolicy F) → AtLeast r b → is_better x b ≡ false → is_better x r ≡ false
  AtLeast-not_beaten r b x (inl e) h = rw e h
  AtLeast-not_beaten r b x (inr e) h = ground (arith, is_better_trans x r b)

  AtLeast-trans : (r b a : CalibratedPolicy F) → AtLeast r b → is_better b a ≡ true → AtLeast r a
  AtLeast-trans r b a (inl e) h = inr (rw e h)
  AtLeast-trans r b a (inr e) h = inr (is_better_trans r b a e h)

module _ {F : Type 0} ⦃o : Float F⦄ ⦃s : Sampler F⦄ ⦃np : Numpy F⦄ (laws : IsOrdered F)
    (c : PolicyCalibrator F) (estimates : List (GroupEstimate F)) where
  -- What the loop makes of the best policy so far.
  record IsSettled (b : CalibratedPolicy F) (lams : List F) : Type 0 where
    r : CalibratedPolicy F
    result : select_loop c estimates (some b) lams ≡ some r
    least : AtLeast laws r b
    origin : (r ≡ b) ⊎ Any (λ lam. r ≡ candidate_policy c estimates lam) lams
    not_beaten : All (λ lam. is_better (candidate_policy c estimates lam) r ≡ false) lams

  settle : (b : CalibratedPolicy F) (lams : List F) → IsSettled b lams
  unfolding select_loop keep_better
  settle b [] = record {
    r = b;
    result = refl;
    least = inl refl;
    origin = inl refl;
    not_beaten = tt;
  }
  settle b (lam ∷ lams) = go (Bool-cases (is_better x b)) (settle x lams) (settle b lams)
    where
      x : CalibratedPolicy F
      x = candidate_policy c estimates lam

      later :
          (r : CalibratedPolicy F)
          → (r ≡ b) ⊎ Any (λ l. r ≡ candidate_policy c estimates l) lams
          → (r ≡ b) ⊎ Any (λ l. r ≡ candidate_policy c estimates l) (lam ∷ lams)
      later r (inl e) = inl e
      later r (inr a) = inr (inr a)

      now :
          (r : CalibratedPolicy F)
          → (r ≡ x) ⊎ Any (λ l. r ≡ candidate_policy c estimates l) lams
          → (r ≡ b) ⊎ Any (λ l. r ≡ candidate_policy c estimates l) (lam ∷ lams)
      now r (inl e) = inr (inl e)
      now r (inr a) = inr (inr a)

      go :
          (is_better x b ≡ true) ⊎ (is_better x b ≡ false)
          → IsSettled x lams
          → IsSettled b lams
          → IsSettled b (lam ∷ lams)
      go (inl e) h k = record {
        r = h.r;
        result = rw e h.result;
        least = AtLeast-trans laws h.r x b h.least e;
        origin = now h.r h.origin;
        not_beaten =
            (AtLeast-not_beaten laws h.r x x h.least (is_better_irrefl laws x), h.not_beaten);
      }
      go (inr e) h k = record {
        r = k.r;
        result = rw e k.result;
        least = k.least;
        origin = later k.r k.origin;
        not_beaten = (AtLeast-not_beaten laws k.r b x k.least e, k.not_beaten);
      }

  -- The best of the candidate policies at some prices.
  abbrev pub IsBest : CalibratedPolicy F → List F → Type 0
  IsBest best lams =
      Any (λ l. best ≡ candidate_policy c estimates l) lams
      × All (λ l. is_better (candidate_policy c estimates l) best ≡ false) lams

  select_loop-IsBest :
      (lams : List F)
      → is_nil lams ≡ false
      → (best : CalibratedPolicy F) × (select_loop c estimates none lams ≡ some best)
        × IsBest best lams
  unfolding select_loop keep_better
  select_loop-IsBest [] n = absurd (cc)
  select_loop-IsBest (lam ∷ lams) n =
      let x = candidate_policy c estimates lam in
      let h = settle x lams in
      (
        h.r,
        h.result,
        (
          h.origin,
          (AtLeast-not_beaten laws h.r x x h.least (is_better_irrefl laws x), h.not_beaten),
        ),
      )

  -- Given a supported estimate and a price to try, `select` returns the policy of one of the prices:
  -- none of the prices admits a larger share of the supported estimates, nor the same share at a lower
  -- price.
  pub select-IsBest :
      is_nil c.lambdas ≡ false
      → is_nil (supported_of estimates) ≡ false
      → (best : CalibratedPolicy F) × (select c estimates ≡ some best) × IsBest best c.lambdas
  unfolding select or_empty
  select-IsBest e n =
      let (best, found, is_best) = select_loop-IsBest c.lambdas e in
      (best, rw (n, found) refl, is_best)
