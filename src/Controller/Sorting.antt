-- ===== src/Controller/Sorting.antt =====
-- cact/decision_controller.py, step 4: the members of the sorted chain.
use aaai.Prelude.{List, [], ◌∷◌, All, Any, inl, inr, Bool-cases}
use aaai.Float.{Float, ◌<?◌}
use aaai.Controller.{Scored, insert_by_uplift, sort_by_uplift}

module _ {F : Type 0} ⦃o : Float F⦄ (P : Scored F → Type 0) where
  All-insert_by_uplift :
      (c : Scored F) (ds : List (Scored F)) → All P (insert_by_uplift c ds) → P c × All P ds
  unfolding insert_by_uplift
  All-insert_by_uplift c [] h = h
  All-insert_by_uplift c (d ∷ ds) h = elim (Bool-cases (c.pi_uplift <? d.pi_uplift)) [
    | inl e ↦
        let k : All P (d ∷ insert_by_uplift c ds) = rw e at h in
        let rest = All-insert_by_uplift c ds k.1 in (rest.0, (k.0, rest.1))
    | inr e ↦ rw e at h
  ]

  pub All-sort_by_uplift : (cs : List (Scored F)) → All P (sort_by_uplift cs) → All P cs
  unfolding sort_by_uplift
  All-sort_by_uplift [] h = tt
  All-sort_by_uplift (c ∷ cs) h =
      let k = All-insert_by_uplift c (sort_by_uplift cs) h in (k.0, All-sort_by_uplift cs k.1)

  Any-insert_by_uplift :
      (c : Scored F) (ds : List (Scored F)) → Any P (insert_by_uplift c ds) → Any P (c ∷ ds)
  unfolding insert_by_uplift
  Any-insert_by_uplift c [] h = h
  Any-insert_by_uplift c (d ∷ ds) h = elim (Bool-cases (c.pi_uplift <? d.pi_uplift)) [
    | inl e ↦ sift (Any-insert_by_uplift c ds) (rw e at h)
    | inr e ↦ rw e at h
  ]
    where
      place : Any P (c ∷ ds) → Any P (c ∷ d ∷ ds)
      place (inl p) = inl p
      place (inr p) = inr (inr p)

      sift :
          (Any P (insert_by_uplift c ds) → Any P (c ∷ ds))
          → Any P (d ∷ insert_by_uplift c ds)
          → Any P (c ∷ d ∷ ds)
      sift f (inl p) = inr (inl p)
      sift f (inr p) = place (f p)

  pub Any-sort_by_uplift : (cs : List (Scored F)) → Any P (sort_by_uplift cs) → Any P cs
  unfolding sort_by_uplift
  Any-sort_by_uplift [] h = h
  Any-sort_by_uplift (c ∷ cs) h =
      go (Any-sort_by_uplift cs) (Any-insert_by_uplift c (sort_by_uplift cs) h)
    where
      go : (Any P (sort_by_uplift cs) → Any P cs) → Any P (c ∷ sort_by_uplift cs) → Any P (c ∷ cs)
      go f (inl p) = inl p
      go f (inr p) = inr (f p)

  insert_by_uplift-Any :
      (c : Scored F) (ds : List (Scored F)) → Any P (c ∷ ds) → Any P (insert_by_uplift c ds)
  unfolding insert_by_uplift
  insert_by_uplift-Any c [] h = h
  insert_by_uplift-Any c (d ∷ ds) h = elim (Bool-cases (c.pi_uplift <? d.pi_uplift)) [
    | inl e ↦ rw e (sink (insert_by_uplift-Any c ds) h)
    | inr e ↦ rw e h
  ]
    where
      sink :
          (Any P (c ∷ ds) → Any P (insert_by_uplift c ds))
          → Any P (c ∷ d ∷ ds)
          → Any P (d ∷ insert_by_uplift c ds)
      sink f (inl p) = inr (f (inl p))
      sink f (inr (inl p)) = inl p
      sink f (inr (inr p)) = inr (f (inr p))

  pub sort_by_uplift-Any : (cs : List (Scored F)) → Any P cs → Any P (sort_by_uplift cs)
  unfolding sort_by_uplift
  sort_by_uplift-Any (c ∷ cs) (inl p) = insert_by_uplift-Any c (sort_by_uplift cs) (inl p)
  sort_by_uplift-Any (c ∷ cs) (inr p) =
      insert_by_uplift-Any c (sort_by_uplift cs) (inr (sort_by_uplift-Any cs p))
  sort_by_uplift-Any [] h = h
