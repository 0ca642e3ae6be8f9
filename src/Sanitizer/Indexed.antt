-- ===== src/Sanitizer/Indexed.antt =====
-- cact/bank_sanitizer.py, `_deduplicate`: sums over the groups of items and over the entries whose
-- index is used or not.
use aaai.Prelude.{
  ℕ, suc, ◌+◌, ◌≤◌, ◌≡◌, refl, String, Bool, true, false, ◌||◌, ◌⊎◌, List, [], ◌∷◌, ◌++◌, ◌==◌,
  or_else, if◌then◌else◌, nat_eq, Dict, get, put, All, All-mono, Bool-cases, inl, inr, arith,
}
use aaai.Sanitizer.{Item, dedup_key}
use aaai.Sanitizer.Dedup.{is_used_index, by_group, enumerate}

module _ {ℓ} {A : Type ℓ} where
  abbrev pub sum : (A → ℕ) → List A → ℕ
  sum w [] = 0
  sum w (x ∷ xs) = w x + sum w xs

  pub sum-append : (w : A → ℕ) (xs ys : List A) → sum w (xs ++ ys) ≡ sum w xs + sum w ys
  sum-append w [] ys = omega arith
  sum-append w (x ∷ xs) ys = omega (arith, sum-append w xs ys)

module _ {F : Type 0} (w : Item F → ℕ) where
  abbrev pub grouped : Dict (List (Item F)) → ℕ
  grouped groups = sum (λ e. sum w e.1) groups

  grouped-put :
      (groups : Dict (List (Item F))) (k : String) (c : Item F)
      → grouped (put groups k (or_else (get groups k) [] ++ c ∷ [])) ≡ grouped groups + w c
  unfolding get put
  grouped-put [] k c = omega arith
  grouped-put ((j, v) ∷ groups) k c = elim (Bool-cases (j == k)) [
    | inl e ↦ rw e (omega (arith, sum-append w v (c ∷ [])))
    | inr e ↦ rw e (omega (arith, grouped-put groups k c))
  ]

  pub by_group-grouped :
      (cs : List (Item F)) (groups : Dict (List (Item F)))
      → grouped (by_group cs groups) ≡ grouped groups + sum w cs
  unfolding by_group
  by_group-grouped [] groups = omega arith
  by_group-grouped (c ∷ cs) groups = omega (
    arith,
    by_group-grouped cs
        (put groups (dedup_key c) (or_else (get groups (dedup_key c)) [] ++ c ∷ [])),
    grouped-put groups (dedup_key c) c,
  )

  -- The weight of the items whose index is not used, and of those at an index.
  abbrev pub unused : List ℕ → List (ℕ × Item F) → ℕ
  unused used = sum (λ e. if is_used_index e.0 used then 0 else w e.1)

  abbrev at_index : ℕ → List (ℕ × Item F) → ℕ
  at_index j = sum (λ e. if nat_eq j e.0 then w e.1 else 0)

  pub unused-use :
      (all : List (ℕ × Item F)) (j : ℕ) (used : List ℕ)
      → is_used_index j used ≡ false
      → unused (j ∷ used) all + at_index j all ≡ unused used all
  unfolding is_used_index
  unused-use [] j used h = omega arith
  unused-use ((i, b) ∷ all) j used h = ground (arith, unused-use all j used h)

  at_index-enumerate : (cs : List (Item F)) (k j : ℕ) → suc j ≤ k → at_index j (enumerate k cs) ≡ 0
  unfolding enumerate
  at_index-enumerate [] k j h = refl
  at_index-enumerate (c ∷ cs) k j h = ground (arith, at_index-enumerate cs (suc k) j (omega arith))

  -- Each entry's index is its own.
  abbrev pub IsIndexed : List (ℕ × Item F) → List (ℕ × Item F) → Type 0
  IsIndexed all = All (λ e. at_index e.0 all ≡ w e.1)

  enumerate_ge : (cs : List (Item F)) (k : ℕ) → All (λ e. k ≤ e.0) (enumerate k cs)
  unfolding enumerate
  enumerate_ge [] k = tt
  enumerate_ge (c ∷ cs) k = (
    omega arith,
    All-mono _ _ (λ e h. omega arith) (enumerate (suc k) cs) (enumerate_ge cs (suc k)),
  )

  later-IsIndexed :
      (k : ℕ) (c : Item F) (all xs : List (ℕ × Item F))
      → IsIndexed all xs
      → All (λ e. suc k ≤ e.0) xs
      → IsIndexed ((k, c) ∷ all) xs
  later-IsIndexed k c all [] h g = tt
  later-IsIndexed k c all ((i, b) ∷ xs) h g =
      (ground (arith, h.0, g.0), later-IsIndexed k c all xs h.1 g.1)

  pub enumerate-IsIndexed :
      (cs : List (Item F)) (k : ℕ) → IsIndexed (enumerate k cs) (enumerate k cs)
  unfolding enumerate
  enumerate-IsIndexed [] k = tt
  enumerate-IsIndexed (c ∷ cs) k = (
    ground (arith, at_index-enumerate cs (suc k) k (omega arith)),
    later-IsIndexed k c (enumerate (suc k) cs) (enumerate (suc k) cs)
        (enumerate-IsIndexed cs (suc k)) (enumerate_ge cs (suc k)),
  )

  pub unused-enumerate : (cs : List (Item F)) (k : ℕ) → unused [] (enumerate k cs) ≡ sum w cs
  unfolding enumerate is_used_index
  unused-enumerate [] k = refl
  unused-enumerate (c ∷ cs) k = omega (arith, unused-enumerate cs (suc k))

module _ {F : Type 0} where
  -- An index that stands in a list of entries.
  unfoldable pub has_index : ℕ → List (ℕ × Item F) → Bool
  has_index j [] = false
  has_index j ((i, b) ∷ xs) = nat_eq i j || has_index j xs

  abbrev pub IsCovered : List ℕ → List (ℕ × Item F) → List (ℕ × Item F) → Type 0
  IsCovered used rest = All (λ e. (is_used_index e.0 used ≡ true) ⊎ (has_index e.0 rest ≡ true))

  pub all-IsCovered : (xs : List (ℕ × Item F)) → IsCovered [] xs xs
  unfolding has_index
  all-IsCovered [] = tt
  all-IsCovered ((i, b) ∷ xs) =
      (inr (ground arith), All-mono _ _ (λ e h. ground arith) xs (all-IsCovered xs))
