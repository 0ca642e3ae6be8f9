-- ===== src/Buckets/Disjoint.antt =====
-- cact/context_bucket.py, `maybe_merge`: how the groups relate to the set of the used buckets.
use aaai.Prelude.{
  ◌≡◌, refl, String, true, false, List, [], ◌∷◌, ◌++◌, eq_iff, eq_refl, length, Dict, All, All-mono,
  All-append, ltb, arith, Bool-cases, inl, inr,
}
use aaai.Float.{Float}
use aaai.Contract.Extract.{is_listed}
use aaai.Buckets.{ContextBucket, Support, has_support, is_similar, grow, merge_from}

abbrev pub flatten {ℓ} : {A : Type ℓ} → List (List A) → List A
flatten [] = []
flatten (xs ∷ xss) = xs ++ flatten xss

-- No text stands twice in the list.
abbrev pub IsDistinct : List String → Type 0
IsDistinct [] = Unit
IsDistinct (x ∷ xs) = (is_listed x xs ≡ false) × IsDistinct xs

-- No text of the list stands in the other one.
abbrev IsFresh : List String → List String → Type 0
IsFresh used xs = All (λ x. is_listed x used ≡ false) xs

unlisted-append :
    (x : String) (xs ys : List String)
    → is_listed x xs ≡ false
    → is_listed x ys ≡ false
    → is_listed x (xs ++ ys) ≡ false
unfolding is_listed
unlisted-append x [] ys h k = k
unlisted-append x (y ∷ xs) ys h k = ground (arith, unlisted-append x xs ys)

unlisted_head : (x : String) (xs ys : List String) → IsFresh (x ∷ xs) ys → is_listed x ys ≡ false
unfolding is_listed
unlisted_head x xs [] h = refl
unlisted_head x xs (y ∷ ys) h =
    ground (arith, h.0, unlisted_head x xs ys h.1, eq_iff x y, eq_iff y x)

unlisted_tail :
    (x y : String) (xs : List String) → is_listed y (x ∷ xs) ≡ false → is_listed y xs ≡ false
unfolding is_listed
unlisted_tail x y xs h = ground arith

listed_cons :
    (x y : String) (xs : List String) → is_listed y xs ≡ true → is_listed y (x ∷ xs) ≡ true
unfolding is_listed
listed_cons x y xs h = ground arith

IsDistinct-append :
    (xs ys : List String) → IsDistinct xs → IsDistinct ys → IsFresh xs ys → IsDistinct (xs ++ ys)
IsDistinct-append [] ys d e f = e
IsDistinct-append (x ∷ xs) ys d e f = (
  unlisted-append x xs ys d.0 (unlisted_head x xs ys f),
  IsDistinct-append xs ys d.1 e (All-mono _ _ (λ y. unlisted_tail x y xs) ys f),
)

-- What lies outside of a set lies outside of a list that the set holds.
unlisted_of_inside :
    (used g : List String) (b : String)
    → All (λ x. is_listed x used ≡ true) g
    → is_listed b used ≡ false
    → is_listed b g ≡ false
unfolding is_listed
unlisted_of_inside used [] b h k = refl
unlisted_of_inside used (x ∷ g) b h k =
    ground (arith, unlisted_of_inside used g b h.1 k, h.0, eq_iff b x)

-- A group and the set of the used buckets, against the set before the group.
record IsGrown (before g used : List String) : Type 0 where
  distinct : IsDistinct g
  inside : All (λ x. is_listed x used ≡ true) g
  fresh : IsFresh before g
  kept : (x : String) → is_listed x used ≡ false → is_listed x before ≡ false

IsGrown-add :
    (before g used : List String) (b : String)
    → is_listed b used ≡ false
    → IsGrown before g used
    → IsGrown before (g ++ b ∷ []) (b ∷ used)
unfolding is_listed
IsGrown-add before g used b e h = record {
  distinct =
      IsDistinct-append g (b ∷ []) h.distinct (refl, tt)
        (unlisted_of_inside used g b h.inside e, tt);
  inside =
      All-append _ g (b ∷ []) (All-mono _ _ (λ x. listed_cons b x used) g h.inside)
        (ground (arith, eq_refl b), tt);
  fresh = All-append _ g (b ∷ []) h.fresh (h.kept b e, tt);
  kept = λ x k. h.kept x (unlisted_tail b x used k);
}

IsGrown-start :
    (used : List String) (b : String) → is_listed b used ≡ false → IsGrown used (b ∷ []) (b ∷ used)
unfolding is_listed
IsGrown-start used b e = record {
  distinct = (refl, tt);
  inside = (ground (arith, eq_refl b), tt);
  fresh = (e, tt);
  kept = λ x. unlisted_tail b x used;
}

module _ {F : Type 0} ⦃o : Float F⦄ (betaln : F → F → F) (digamma : F → F) (cb : ContextBucket F)
    (stats : Dict (Support F)) where
  grow-IsGrown :
      (b1 : String) (rest before g used : List String)
      → IsGrown before g used
      → IsGrown before
          (grow betaln digamma cb stats b1 (g, used) rest).0
          (grow betaln digamma cb stats b1 (g, used) rest).1
  unfolding grow
  grow-IsGrown b1 [] before g used h = h
  grow-IsGrown b1 (b2 ∷ rest) before g used h = elim (Bool-cases (is_listed b2 used)) [
    | inl e ↦ rw e (grow-IsGrown b1 rest before g used h)
    | inr e ↦ elim (Bool-cases (has_support cb stats b2)) [
      | inl p ↦ rw (e, p) (grow-IsGrown b1 rest before g used h)
      | inr p ↦ elim (Bool-cases (is_similar betaln digamma cb stats b1 b2)) [
        | inl q ↦
            rw (e, p, q)
              (grow-IsGrown b1 rest before (g ++ b2 ∷ []) (b2 ∷ used)
                (IsGrown-add before g used b2 e h))
        | inr q ↦ rw (e, p, q) (grow-IsGrown b1 rest before g used h)
      ]
    ]
  ]

  -- What the groups hold, against the set of the used buckets.
  abbrev IsApart : List String → List (List String) → Type 0
  IsApart used groups = IsDistinct (flatten groups) × IsFresh used (flatten groups)

  IsApart-weaken :
      (before used : List String) (groups : List (List String))
      → ((x : String) → is_listed x used ≡ false → is_listed x before ≡ false)
      → IsApart used groups
      → IsApart before groups
  IsApart-weaken before used groups f h = (h.0, All-mono _ _ f (flatten groups) h.1)

  IsApart-cons :
      (before g used : List String) (groups : List (List String))
      → IsGrown before g used
      → IsApart used groups
      → IsApart before (g ∷ groups)
  IsApart-cons before g used groups h k = (
    IsDistinct-append g (flatten groups) h.distinct k.0
        (All-mono _ _ (λ y. unlisted_of_inside used g y h.inside) (flatten groups) k.1),
    All-append _ g (flatten groups) h.fresh (All-mono _ _ h.kept (flatten groups) k.1),
  )

  pub merge_from-IsApart :
      (bs used : List String) → IsApart used (merge_from betaln digamma cb stats used bs)
  unfolding merge_from
  merge_from-IsApart [] used = (tt, tt)
  merge_from-IsApart (b1 ∷ rest) used = elim (Bool-cases (is_listed b1 used)) [
    | inl e ↦ rw e (merge_from-IsApart rest used)
    | inr e ↦ elim (Bool-cases (has_support cb stats b1)) [
      | inl p ↦
          rw (e, p)
            (IsApart-weaken used (b1 ∷ used) (merge_from betaln digamma cb stats (b1 ∷ used) rest)
              (λ x. unlisted_tail b1 x used) (merge_from-IsApart rest (b1 ∷ used)))
      | inr p ↦
          let end = grow betaln digamma cb stats b1 (b1 ∷ [], b1 ∷ used) rest in
          let groups = merge_from betaln digamma cb stats end.1 rest in
          let grown = grow-IsGrown b1 rest used (b1 ∷ []) (b1 ∷ used) (IsGrown-start used b1 e) in
          let others = merge_from-IsApart rest end.1 in
          elim (Bool-cases
            (ltb 1 (length (grow betaln digamma cb stats b1 (b1 ∷ [], b1 ∷ used) rest).0))) [
              | inl l ↦ rw (e, p, l) (IsApart-cons used end.0 end.1 groups grown others)
              | inr l ↦ rw (e, p, l) (IsApart-weaken used end.1 groups grown.kept others)
            ]
    ]
  ]
