-- ===== src/Controller/Best.antt =====
-- cact/decision_controller.py, steps 4 and 6: the order of the chain, and which item is chosen.
use mathlib.Core.Option.{some-injective}
use aaai.Prelude.{
  ◌⊎◌, subst, sym, ◌≡◌, refl, Bool, true, false, ◌&&◌, Option, none, some, List, [], ◌∷◌, ◌↔◌, All,
  All-mono, Any, Any-mono, if◌then◌else◌, inl, inr, Bool-cases,
}
use aaai.Float.{Float, ◌<?◌}
use aaai.Float.Order.{IsOrdered, ◌≼◌}
use aaai.Controller.{reuse, fallback, DecisionResult, Scored, insert_by_uplift, sort_by_uplift}
use aaai.Controller.Choose.{first_certified, conclude, choose}
use aaai.Controller.Sorting.{All-sort_by_uplift, Any-sort_by_uplift, sort_by_uplift-Any}
use aaai.Controller.Scoring.{insert_by_uplift-All, sort_by_uplift-All}

module _ {F : Type 0} where
  -- An item that step 6 may take.
  abbrev pub is_ready : Scored F → Bool
  is_ready c = c.certified && c.contract_ok

  first_certified-some :
      (cs : List (Scored F)) → Any (λ c. is_ready c ≡ true) cs → (first_certified cs ≡ none) → ⊥
  unfolding first_certified
  first_certified-some [] h e = h
  first_certified-some (c ∷ cs) (inl h) e = cc (rw h at e)
  first_certified-some (c ∷ cs) (inr h) e = elim (Bool-cases (is_ready c)) [
    | inl t ↦ cc (rw t at e)
    | inr t ↦ first_certified-some cs h (rw t at e)
  ]

  -- What holds of the item that is found holds of a ready item of the list.
  first_certified-ready :
      (P : Scored F → Type 0) (cs : List (Scored F)) (c : Scored F)
      → first_certified cs ≡ some c
      → P c
      → Any (λ d. (is_ready d ≡ true) × P d) cs
  unfolding first_certified
  first_certified-ready P [] c e p = cc e
  first_certified-ready P (d ∷ ds) c e p = elim (Bool-cases (is_ready d)) [
    | inl t ↦ inl (t, subst P (sym (some-injective d c (rw t at e))) p)
    | inr t ↦ inr (first_certified-ready P ds c (rw t at e) p)
  ]

  -- The result that names an item, with its contract and its uplift.
  abbrev pub IsChosen : DecisionResult F → Scored F → Type 0
  IsChosen x c =
      (x.chosen_knowledge_id ≡ c.knowledge_id)
      × (x.chosen_contract ≡ some c.contract)
      × (x.pi_uplift ≡ c.pi_uplift)

module _ {F : Type 0} ⦃o : Float F⦄ where
  -- Each item is at least as good as all behind it.
  abbrev pub Descends : List (Scored F) → Type 0
  Descends [] = Unit
  Descends (c ∷ cs) = All (λ d. d.pi_uplift ≼ c.pi_uplift) cs × Descends cs

  -- No uplift is NaN.
  abbrev pub IsNumeric : Scored F → Type 0
  IsNumeric c = c.pi_uplift ≼ c.pi_uplift

module _ {F : Type 0} ⦃o : Float F⦄ (laws : IsOrdered F) where
  insert_by_uplift-Descends :
      (c : Scored F) (ds : List (Scored F))
      → IsNumeric c
      → All IsNumeric ds
      → Descends ds
      → Descends (insert_by_uplift c ds)
  unfolding insert_by_uplift
  insert_by_uplift-Descends c [] n ns h = (tt, tt)
  insert_by_uplift-Descends c (d ∷ ds) n ns h = elim (Bool-cases (c.pi_uplift <? d.pi_uplift)) [
    | inl e ↦ rw e (
      insert_by_uplift-All (λ x. x.pi_uplift ≼ d.pi_uplift) c ds (laws.le_of_lt _ _ e) h.0,
      insert_by_uplift-Descends c ds n ns.1 h.1,
    )
    | inr e ↦ rw e (
        let below = laws.le_of_not-lt d.pi_uplift c.pi_uplift ns.0 n e in
        ((below, All-mono _ _ (λ x k. laws.le_trans _ _ _ k below) ds h.0), h))
  ]

  sort_by_uplift-Descends : (cs : List (Scored F)) → All IsNumeric cs → Descends (sort_by_uplift cs)
  unfolding sort_by_uplift
  sort_by_uplift-Descends [] h = tt
  sort_by_uplift-Descends (c ∷ cs) h =
      insert_by_uplift-Descends c (sort_by_uplift cs) h.0 (sort_by_uplift-All IsNumeric cs h.1)
        (sort_by_uplift-Descends cs h.1)

  first_certified-best :
      (cs : List (Scored F)) (c : Scored F)
      → All IsNumeric cs
      → Descends cs
      → first_certified cs ≡ some c
      → All (λ d. (is_ready d ≡ false) ⊎ (d.pi_uplift ≼ c.pi_uplift)) cs
  unfolding first_certified
  first_certified-best [] c n h e = tt
  first_certified-best (d ∷ ds) c n h e = elim (Bool-cases (is_ready d)) [
    | inl t ↦
        subst (λ x. All (λ y. (is_ready y ≡ false) ⊎ (y.pi_uplift ≼ x.pi_uplift)) (d ∷ ds))
          (some-injective d c (rw t at e)) (inr n.0, All-mono _ _ (λ x k. inr k) ds h.0)
    | inr t ↦ (inl t, first_certified-best ds c n.1 h.1 (rw t at e))
  ]

  -- On a chain whose uplifts are numbers, step 6 decides to reuse exactly when the pairs are safe and
  -- some item is ready, that is certified with its contract met. Else it falls back. The item that is
  -- reused is a ready one of the chain, named with its contract and its uplift, and no ready item has
  -- a larger uplift.
  pub choose-best :
      (r : DecisionResult F) (scored : List (Scored F))
      → All IsNumeric scored
      → (((choose r scored (sort_by_uplift scored)).decision ≡ reuse)
          ↔ ((r.interaction_safe ≡ true) × Any (λ c. is_ready c ≡ true) scored))
        × (((choose r scored (sort_by_uplift scored)).decision ≡ fallback)
            ⊎ (Any
                  (λ c. (is_ready c ≡ true) × IsChosen (choose r scored (sort_by_uplift scored)) c)
                  scored
                × All
                    (λ d.
                      (is_ready d ≡ false)
                      ⊎ (d.pi_uplift ≼ (choose r scored (sort_by_uplift scored)).pi_uplift))
                    scored))
  unfolding choose conclude
  choose-best r scored n =
      if_safe (r.interaction_safe) (by_choice (first_certified (sort_by_uplift scored)) refl)
    where
      Result : Bool → DecisionResult F → Type 0
      Result b x =
          ((x.decision ≡ reuse) ↔ ((b ≡ true) × Any (λ c. is_ready c ≡ true) scored))
          × ((x.decision ≡ fallback)
              ⊎ (Any (λ c. (is_ready c ≡ true) × IsChosen x c) scored
                  × All (λ d. (is_ready d ≡ false) ⊎ (d.pi_uplift ≼ x.pi_uplift)) scored))

      by_choice :
          (x : Option (Scored F))
          → first_certified (sort_by_uplift scored) ≡ x
          → Result true (conclude r scored x)
      by_choice none e = (
        (
          λ d. cc d,
          λ h.
              absurd
                (first_certified-some (sort_by_uplift scored) (sort_by_uplift-Any _ scored h.1) e),
        ),
        inl refl,
      )
      by_choice (some c) e =
          let found = Any-sort_by_uplift _ scored (
            first_certified-ready (IsChosen (conclude r scored (some c))) (sort_by_uplift scored) c
              e (refl, refl, refl)) in
          (
            (λ d. (refl, Any-mono _ _ (λ x k. k.0) scored found), λ h. refl),
            inr (
              found,
              All-sort_by_uplift _ scored (
                  first_certified-best (sort_by_uplift scored) c
                    (sort_by_uplift-All IsNumeric scored n) (sort_by_uplift-Descends scored n) e),
            ),
          )

      if_safe :
          (b : Bool)
          → Result true (conclude r scored (first_certified (sort_by_uplift scored)))
          → Result b
              (conclude r scored (if b then first_certified (sort_by_uplift scored) else none))
      if_safe true k = k
      if_safe false k = ((λ d. cc d, λ h. cc h.0), inl refl)
