-- ===== src/Float.antt =====
-- Python's `float`: the operations that the code uses, on a type of doubles with NaN among them,
-- and what the code takes from scipy, numpy, hashlib and random.
pub mod Order
pub mod Scaled
use aaai.Prelude.{ℕ, Bool, String, List, [], ◌∷◌, if◌then◌else◌}

pub record Float (F : Type 0) : Type 0 where
  -- `lit n d` is the literal n / 10 ^ d
  pub lit : ℕ → ℕ → F
  pub add : F → F → F
  pub sub : F → F → F
  pub mul : F → F → F
  pub div : F → F → F
  pub pow : F → ℕ → F
  pub neg : F → F
  pub abs : F → F
  pub round : F → ℕ → F
  -- `int(x)`, of a value that is not negative
  pub trunc : F → ℕ
  pub le : F → F → Bool
  pub lt : F → F → Bool

-- scipy's Beta quantile and distribution functions, the generators of numpy and random, whose
-- state is a number, the first eight bytes of a SHA-256 digest, and the text of a float.
pub record Sampler (F : Type 0) : Type 0 where
  pub ppf : F → F → F → F
  pub cdf : F → F → F → F
  pub uniform : ℕ → F × ℕ
  pub beta : F → F → ℕ → F × ℕ
  pub betas : F → F → ℕ → ℕ → List F × ℕ
  pub default_rng : ℕ → ℕ
  pub digest_word : String → ℕ
  pub show : F → String

module _ {F : Type 0} ⦃o : Float F⦄ where
  infixl 65 ◌⊕◌ ◌⊖◌
  infixl 70 ◌⊗◌ ◌⊘◌
  infix 50 ◌≤?◌ ◌<?◌
  abbrev pub lit : ℕ → ℕ → F
  lit n d = o.lit n d

  abbrev pub ◌⊕◌ : F → F → F
  a ⊕ b = o.add a b

  abbrev pub ◌⊖◌ : F → F → F
  a ⊖ b = o.sub a b

  abbrev pub ◌⊗◌ : F → F → F
  a ⊗ b = o.mul a b

  abbrev pub ◌⊘◌ : F → F → F
  a ⊘ b = o.div a b

  abbrev pub ◌≤?◌ : F → F → Bool
  a ≤? b = o.le a b

  abbrev pub ◌<?◌ : F → F → Bool
  a <? b = o.lt a b

  -- `max(a, b)` and `min(a, b)` keep the first argument unless the second one is beyond it.
  unfoldable pub py_max : F → F → F
  py_max a b = if a <? b then b else a

  unfoldable pub py_min : F → F → F
  py_min a b = if b <? a then b else a

  -- `sum(xs)`, from the left
  unfoldable pub sum_from : F → List F → F
  sum_from acc [] = acc
  sum_from acc (x ∷ xs) = sum_from (acc ⊕ x) xs

  unfoldable pub py_sum : List F → F
  py_sum = sum_from (lit 0 0)

  -- `max(lo, min(hi, x))`
  unfoldable pub clamp : F → F → F → F
  clamp lo hi x = py_max lo (py_min hi x)
