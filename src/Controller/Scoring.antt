-- ===== src/Controller/Scoring.antt =====
-- cact/decision_controller.py, steps 3 and 4: the scored items and their verdicts.
use mathlib.Core.Option.{some-injective}
use aaai.Prelude.{
  subst, String, ◌≡◌, refl, Bool, true, false, ◌&&◌, Option, some, List, [], ◌∷◌, ◌==◌, Dict, All,
  All-mono, Any, arith, if◌then◌else◌, inl, inr, Bool-cases,
}
use aaai.Float.{Float, Sampler, ◌<?◌}
use aaai.State.{State}
use aaai.Contract.{ContractDict}
use aaai.Gate.{TrustGate, evaluate}
use aaai.Store.{TrustStore}
use aaai.Controller.{
  Scored, at_high_risk, judge, score_item, score_all, insert_by_uplift, sort_by_uplift,
}
use aaai.Controller.Choose.{first_certified}

module _ {F : Type 0} ⦃o : Float F⦄ (gate : TrustGate F) (group : Option String)
    (context : Dict String) where
  -- The gate has admitted the evidence, and a probationary item is not let through at high risk.
  pub record IsCertified (pi lcb hu : F) (lifecycle : String) (contract_ok : Bool) : Type 0 where
    pub admitted : (evaluate gate pi lcb hu group lifecycle contract_ok true).0 ≡ true
    pub guarded : (lifecycle == "probation" && at_high_risk context) ≡ false

  pub record IsScored (us : List (ContractDict F)) (c : Scored F) : Type 0 where
    pub listed : Any (λ u. c.contract ≡ u) us
    pub named : c.knowledge_id ≡ c.contract.knowledge_id
    pub verdict :
        c.certified ≡ true
        → IsCertified c.pi_uplift c.uplift_lcb c.harm_ucb c.lifecycle c.contract_ok

module _ {F : Type 0} ⦃o : Float F⦄ ⦃s : Sampler F⦄ (gate : TrustGate F) (group : Option String)
    (context : Dict String) where
  judge-verdict :
      (u : ContractDict F) (pi ul hu : F) (lc : String) (ok : Bool)
      → (judge gate group context u pi ul hu lc ok).certified ≡ true
      → IsCertified gate group context pi ul hu lc ok
  unfolding judge
  judge-verdict u pi ul hu lc ok h = record { admitted = ground arith; guarded = ground arith }

  judge-IsScored :
      (u : ContractDict F) (us : List (ContractDict F)) (pi ul hu : F) (lc : String) (ok : Bool)
      → IsScored gate group context (u ∷ us) (judge gate group context u pi ul hu lc ok)
  judge-IsScored u us pi ul hu lc ok = record {
    listed = unfold judge in inl refl;
    named = unfold judge in refl;
    verdict = λ h. unfold judge in (judge-verdict u pi ul hu lc ok h);
  }

  score_item-IsScored :
      (st : State F) (u : ContractDict F) (us : List (ContractDict F)) (store : TrustStore F)
      → IsScored gate group context (u ∷ us) (score_item gate group st context u store).0
  unfolding score_item
  score_item-IsScored st u us store = judge-IsScored u us _ _ _ _ _

  IsScored-cons :
      (u : ContractDict F) (us : List (ContractDict F)) (c : Scored F)
      → IsScored gate group context us c
      → IsScored gate group context (u ∷ us) c
  IsScored-cons u us c h = record { listed = inr h.listed; named = h.named; verdict = h.verdict }

  pub score_all-IsScored :
      (st : State F) (us : List (ContractDict F)) (store : TrustStore F)
      → All (IsScored gate group context us) (score_all gate group st context us store).0
  unfolding score_all
  score_all-IsScored st [] store = tt
  score_all-IsScored st (u ∷ us) store = (
    score_item-IsScored st u us store,
    All-mono _ _ (IsScored-cons u us) _
        (score_all-IsScored st us (score_item gate group st context u store).1),
  )

module _ {F : Type 0} ⦃o : Float F⦄ (P : Scored F → Type 0) where
  pub insert_by_uplift-All :
      (c : Scored F) (ds : List (Scored F)) → P c → All P ds → All P (insert_by_uplift c ds)
  unfolding insert_by_uplift
  insert_by_uplift-All c [] p h = (p, tt)
  insert_by_uplift-All c (d ∷ ds) p h = elim (Bool-cases (c.pi_uplift <? d.pi_uplift)) [
    | inl e ↦ rw e (h.0, insert_by_uplift-All c ds p h.1)
    | inr e ↦ rw e (p, h)
  ]

  pub sort_by_uplift-All : (cs : List (Scored F)) → All P cs → All P (sort_by_uplift cs)
  unfolding sort_by_uplift
  sort_by_uplift-All [] h = tt
  sort_by_uplift-All (c ∷ cs) h =
      insert_by_uplift-All c (sort_by_uplift cs) h.0 (sort_by_uplift-All cs h.1)

  pub first_certified-All :
      (cs : List (Scored F)) (c : Scored F)
      → All P cs
      → first_certified cs ≡ some c
      → P c × (c.certified ≡ true) × (c.contract_ok ≡ true)
  unfolding first_certified
  first_certified-All [] c h e = cc
  first_certified-All (d ∷ ds) c h e =
      found (d.certified && d.contract_ok) refl e (first_certified-All ds c h.1)
    where
      found :
          (b : Bool)
          → (d.certified && d.contract_ok) ≡ b
          → (if b then some d else first_certified ds) ≡ some c
          → (first_certified ds ≡ some c → P c × (c.certified ≡ true) × (c.contract_ok ≡ true))
          → P c × (c.certified ≡ true) × (c.contract_ok ≡ true)
      found true t q ih =
          subst (λ x. P x × (x.certified ≡ true) × (x.contract_ok ≡ true)) (some-injective d c q)
            (h.0, ground arith, ground arith)
      found false t q ih = ih q
