-- ===== src/Float/Order.antt =====
-- The order of the doubles: what IEEE 754 says of `<=` and `<`, NaN included, and what `max` and
-- `min` make of it.
use aaai.Prelude.{ℕ, ◌≤◌, ◌≡◌, true, false, arith}
use aaai.Float.{Float, lit, ◌⊕◌, ◌⊖◌, ◌≤?◌, ◌<?◌, py_max, py_min, clamp}

module _ {F : Type 0} ⦃o : Float F⦄ where
  infix 4 ◌≼◌
  abbrev pub ◌≼◌ : F → F → Type 0
  a ≼ b = a ≤? b ≡ true

-- NaN is the one value that is not `<=` itself. Literals are ordered as they are written; adding or
-- taking away a small literal, which is never negative, is rounded to the right side.
pub record IsOrdered (F : Type 0) ⦃o : Float F⦄ : Type 0 where
  pub lit_mono : (a b d : ℕ) → a ≤ b → lit a d ≼ lit {F = F} b d
  pub refl_of_le : (x y : F) → x ≼ y → (x ≼ x) × (y ≼ y)
  pub le_trans : (x y z : F) → x ≼ y → y ≼ z → x ≼ z
  pub le_of_lt : (x y : F) → (x <? y) ≡ true → x ≼ y
  pub lt_trans : (x y z : F) → (x <? y) ≡ true → (y <? z) ≡ true → (x <? z) ≡ true
  pub sub-lit-le : (x : F) (n d : ℕ) → n ≤ 1000 → x ≼ x → x ⊖ lit n d ≼ x
  pub le-add-lit : (x : F) (n d : ℕ) → n ≤ 1000 → x ≼ x → x ≼ x ⊕ lit n d
  -- where the difference is not NaN
  pub sub-le : (x c : F) → x ≼ x → lit 0 1 ≼ c → x ⊖ c ≼ x ⊖ c → x ⊖ c ≼ x
  pub not-lt_of_le : (x y : F) → x ≼ y → (y <? x) ≡ false
  pub le_of_not-lt : (x y : F) → x ≼ x → y ≼ y → (y <? x) ≡ false → x ≼ y

module _ {F : Type 0} ⦃o : Float F⦄ (laws : IsOrdered F) where
  open laws use {refl_of_le, le_trans, le_of_lt, le_of_not-lt}

  -- `max(lo, min(hi, x))` lies in the range for every x, NaN included.
  pub clamp_bounds : (lo hi x : F) → lo ≼ hi → (lo ≼ clamp lo hi x) × (clamp lo hi x ≼ hi)
  unfolding clamp py_max py_min
  clamp_bounds lo hi x h =
      ground (arith, refl_of_le lo hi h, le_of_lt x hi, le_of_lt lo x, le_of_lt lo hi)

  pub py_max-ge_left : (a b : F) → a ≼ a → a ≼ py_max a b
  unfolding py_max
  py_max-ge_left a b h = ground (arith, le_of_lt a b)

  pub py_max-le : (a b c : F) → a ≼ c → b ≼ c → py_max a b ≼ c
  unfolding py_max
  py_max-le a b c h k = ground arith

  pub py_min-le_left : (a b : F) → a ≼ a → py_min a b ≼ a
  unfolding py_min
  py_min-le_left a b h = ground (arith, le_of_lt b a)

  pub le-py_min : (a b c : F) → c ≼ a → c ≼ b → c ≼ py_min a b
  unfolding py_min
  le-py_min a b c h k = ground arith
