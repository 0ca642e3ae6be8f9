-- ===== src/Buckets/Groups.antt =====
-- cact/context_bucket.py, `maybe_merge`: what each group holds.
use aaai.Prelude.{
  subst, sym, ◌≡◌, refl, String, true, false, List, [], ◌∷◌, ◌++◌, length, Dict, All, All-append,
  ltb, Bool-cases, inl, inr,
}
use aaai.Float.{Float}
use aaai.Contract.Extract.{is_listed}
use aaai.Buckets.{ContextBucket, Support, has_support, is_similar, grow, merge_from}

module _ {F : Type 0} ⦃o : Float F⦄ (betaln : F → F → F) (digamma : F → F) (cb : ContextBucket F)
    (stats : Dict (Support F)) where
  -- A group is headed by a bucket with little support, and holds at least one more; each further one
  -- has little support and is similar to the head.
  abbrev pub IsGroup : List String → Type 0
  IsGroup [] = ⊥
  IsGroup (b1 ∷ []) = ⊥
  IsGroup (b1 ∷ b2 ∷ rest) =
      (has_support cb stats b1 ≡ false)
      × All
          (λ b. (has_support cb stats b ≡ false) × (is_similar betaln digamma cb stats b1 b ≡ true))
          (b2 ∷ rest)

  -- The head, and the buckets behind it.
  abbrev IsHeaded : String → List String → Type 0
  IsHeaded b1 [] = ⊥
  IsHeaded b1 (x ∷ xs) =
      (x ≡ b1)
      × All
          (λ b. (has_support cb stats b ≡ false) × (is_similar betaln digamma cb stats b1 b ≡ true))
          xs

  IsHeaded-snoc :
      (b1 b2 : String) (g : List String)
      → IsHeaded b1 g
      → has_support cb stats b2 ≡ false
      → is_similar betaln digamma cb stats b1 b2 ≡ true
      → IsHeaded b1 (g ++ b2 ∷ [])
  IsHeaded-snoc b1 b2 (x ∷ xs) h p q = (h.0, All-append _ xs (b2 ∷ []) h.1 ((p, q), tt))
  IsHeaded-snoc b1 b2 [] h p q = absurd h

  grow-IsHeaded :
      (b1 : String) (rest g used : List String)
      → IsHeaded b1 g
      → IsHeaded b1 (grow betaln digamma cb stats b1 (g, used) rest).0
  unfolding grow
  grow-IsHeaded b1 [] g used h = h
  grow-IsHeaded b1 (b2 ∷ rest) g used h = elim (Bool-cases (is_listed b2 used)) [
    | inl e ↦ rw e (grow-IsHeaded b1 rest g used h)
    | inr e ↦ elim (Bool-cases (has_support cb stats b2)) [
      | inl p ↦ rw (e, p) (grow-IsHeaded b1 rest g used h)
      | inr p ↦ elim (Bool-cases (is_similar betaln digamma cb stats b1 b2)) [
        | inl q ↦
            rw (e, p, q)
              (grow-IsHeaded b1 rest (g ++ b2 ∷ []) (b2 ∷ used) (IsHeaded-snoc b1 b2 g h p q))
        | inr q ↦ rw (e, p, q) (grow-IsHeaded b1 rest g used h)
      ]
    ]
  ]

  IsHeaded-IsGroup :
      (b1 : String) (g : List String)
      → IsHeaded b1 g
      → has_support cb stats b1 ≡ false
      → ltb 1 (length g) ≡ true
      → IsGroup g
  IsHeaded-IsGroup b1 (x ∷ y ∷ ys) h p l = subst (λ z. IsGroup (z ∷ y ∷ ys)) (sym h.0) (p, h.1)
  IsHeaded-IsGroup b1 (x ∷ []) h p l = cc l
  IsHeaded-IsGroup b1 [] h p l = h

  pub merge_from-IsGroup :
      (bs used : List String) → All IsGroup (merge_from betaln digamma cb stats used bs)
  unfolding merge_from
  merge_from-IsGroup [] used = tt
  merge_from-IsGroup (b1 ∷ rest) used = elim (Bool-cases (is_listed b1 used)) [
    | inl e ↦ rw e (merge_from-IsGroup rest used)
    | inr e ↦ elim (Bool-cases (has_support cb stats b1)) [
      | inl p ↦ rw (e, p) (merge_from-IsGroup rest (b1 ∷ used))
      | inr p ↦
          elim (Bool-cases
            (ltb 1 (length (grow betaln digamma cb stats b1 (b1 ∷ [], b1 ∷ used) rest).0))) [
              | inl l ↦
                  rw (e, p, l)
                    (
                      IsHeaded-IsGroup b1 _ (grow-IsHeaded b1 rest (b1 ∷ []) (b1 ∷ used) (refl, tt))
                          p l,
                      merge_from-IsGroup rest
                          (grow betaln digamma cb stats b1 (b1 ∷ [], b1 ∷ used) rest).1,
                    )
              | inr l ↦
                  rw (e, p, l)
                    (merge_from-IsGroup rest
                      (grow betaln digamma cb stats b1 (b1 ∷ [], b1 ∷ used) rest).1)
            ]
    ]
  ]
