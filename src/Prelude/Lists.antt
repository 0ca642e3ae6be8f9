-- ===== src/Prelude/Lists.antt =====
-- Lists over the native numbers, and predicates on their elements.
use Prim.Native.Nat.{ℕ, suc, ◌+◌}
use mathlib.Core.Path.{◌≡◌, refl}
use mathlib.Core.Bool.{Bool, true, false, not}
use mathlib.Core.Logic.{◌↔◌, ◌⊎◌, inl, inr}
use mathlib.Core.List.{List, [], ◌∷◌, ◌++◌}
use native.Mathlib.Omega.{arith}
use aaai.Prelude.Tests.{Bool-cases, if◌then◌else◌}

module _ {ℓ} {A : Type ℓ} where
  abbrev pub length : List A → ℕ
  length [] = 0
  length (x ∷ xs) = suc (length xs)

  abbrev pub is_nil : List A → Bool
  is_nil [] = true
  is_nil (x ∷ xs) = false

  -- A comprehension with a condition.
  abbrev pub filter_by : (A → Bool) → List A → List A
  filter_by p [] = []
  filter_by p (x ∷ xs) = let rest = filter_by p xs in if p x then x ∷ rest else rest

  pub length-append : (xs ys : List A) → length (xs ++ ys) ≡ length xs + length ys
  length-append [] ys = omega arith
  length-append (x ∷ xs) ys = omega (arith, length-append xs ys)

module _ {ℓ} {A : Type ℓ} where
  abbrev pub All : (A → Type 0) → List A → Type 0
  All P [] = Unit
  All P (x ∷ xs) = P x × All P xs

  abbrev pub Any : (A → Type 0) → List A → Type 0
  Any P [] = ⊥
  Any P (x ∷ xs) = P x ⊎ Any P xs

module _ {ℓ} {A : Type ℓ} where
  pub All-mono : (P Q : A → Type 0) → ((x : A) → P x → Q x) → (xs : List A) → All P xs → All Q xs
  All-mono P Q f [] h = tt
  All-mono P Q f (x ∷ xs) h = (f x h.0, All-mono P Q f xs h.1)

  pub Any-mono : (P Q : A → Type 0) → ((x : A) → P x → Q x) → (xs : List A) → Any P xs → Any Q xs
  Any-mono P Q f [] h = h
  Any-mono P Q f (x ∷ xs) (inl h) = inl (f x h)
  Any-mono P Q f (x ∷ xs) (inr h) = inr (Any-mono P Q f xs h)

  pub All-append : (P : A → Type 0) (xs ys : List A) → All P xs → All P ys → All P (xs ++ ys)
  All-append P [] ys hx hy = hy
  All-append P (x ∷ xs) ys hx hy = (hx.0, All-append P xs ys hx.1 hy)

  -- Whatever a comprehension keeps stood in the list and passed the test.
  pub Any-filter_by :
      (P : A → Type 0) (p : A → Bool) (xs : List A)
      → Any P (filter_by p xs)
      → Any (λ x. P x × (p x ≡ true)) xs
  Any-filter_by P p [] h = h
  Any-filter_by P p (x ∷ xs) h = kept (p x) refl h (Any-filter_by P p xs)
    where
      kept :
          (b : Bool)
          → p x ≡ b
          → Any P (if b then x ∷ filter_by p xs else filter_by p xs)
          → (Any P (filter_by p xs) → Any (λ y. P y × (p y ≡ true)) xs)
          → Any (λ y. P y × (p y ≡ true)) (x ∷ xs)
      kept true e (inl a) ih = inl (a, e)
      kept true e (inr a) ih = inr (ih a)
      kept false e a ih = inr (ih a)

  -- No element fails a test exactly when all pass it.
  pub is_nil-filter_not :
      (p : A → Bool) (xs : List A)
      → (is_nil (filter_by (λ x. not (p x)) xs) ≡ true) ↔ All (λ x. p x ≡ true) xs
  is_nil-filter_not p [] = (λ _. tt, λ _. refl)
  is_nil-filter_not p (x ∷ xs) = (
    λ h. ground (arith, (is_nil-filter_not p xs).0),
    λ h. ground (arith, (is_nil-filter_not p xs).1),
  )

  pub is_nil-filter_by :
      (p : A → Bool) (xs : List A) → (is_nil (filter_by p xs) ≡ true) ↔ All (λ x. p x ≡ false) xs
  is_nil-filter_by p [] = (λ _. tt, λ _. refl)
  is_nil-filter_by p (x ∷ xs) = (
    λ h. ground (arith, (is_nil-filter_by p xs).0),
    λ h. ground (arith, (is_nil-filter_by p xs).1),
  )

  pub All-filter_by : (p : A → Bool) (xs : List A) → All (λ x. p x ≡ true) (filter_by p xs)
  All-filter_by p [] = tt
  All-filter_by p (x ∷ xs) = elim (Bool-cases (p x)) [
    | inl e ↦ rw e (e, All-filter_by p xs)
    | inr e ↦ rw e (All-filter_by p xs)
  ]
