-- ===== src/Float/Scaled.antt =====
-- A concrete instance of the interface, for tests and witnesses: fixed-point numbers in units of
-- 10 ^ -8. It shows that the laws of the order can be met; the program's floats are doubles.
use native.Mathlib.Nat.{mul-le-mul_right}
use aaai.Prelude.{ℕ, zero, suc, ◌-◌, ◌+◌, ◌*◌, ◌/◌, ◌^◌, ◌≤◌, ◌≡◌, true, [], ◌∷◌, arith}
use aaai.Prelude.Int.{ℤ, pos, negsuc, ◌+ℤ◌, ◌-ℤ◌, ◌*ℤ◌, pos_part, neg_part, sub_ℕ, ltb_ℤ, leb_ℤ}
use aaai.Float.{Float, Sampler}
use aaai.Float.Order.{IsOrdered}

abbrev pub unit : ℕ
unit = 100000000

-- Division by a positive number, towards zero.
abbrev over : ℤ → ℕ → ℤ
over a b = sub_ℕ (pos_part a / b) (neg_part a / b)

abbrev ratio : ℤ → ℤ → ℤ
ratio a (pos b) = over (a *ℤ pos unit) b
ratio a (negsuc b) = over (a *ℤ negsuc (unit - 1)) (suc b)

abbrev power : ℤ → ℕ → ℤ
power a zero = pos unit
power a (suc n) = over (power a n *ℤ a) unit

instance abbrev pub scaled_float : Float ℤ
scaled_float = record {
  lit = λ n d. pos (n * 10 ^ (8 - d));
  add = ◌+ℤ◌;
  sub = ◌-ℤ◌;
  mul = λ a b. over (a *ℤ b) unit;
  div = ratio;
  pow = power;
  neg = λ a. pos 0 -ℤ a;
  abs = λ a. pos (pos_part a + neg_part a);
  round = λ a _. a;
  trunc = λ a. pos_part a / unit;
  le = leb_ℤ;
  lt = ltb_ℤ;
}

-- The quantile is the mean here, and every draw is the mean of its distribution.
abbrev mean : ℤ → ℤ → ℤ
mean a b = ratio a (a +ℤ b)

instance abbrev pub scaled_sampler : Sampler ℤ
scaled_sampler = record {
  ppf = λ _ a b. mean a b;
  cdf = λ _ a b. mean a b;
  uniform = λ n. (pos 0, n + 1);
  beta = λ a b n. (mean a b, n + 1);
  betas = λ a b _ n. (mean a b ∷ [], n + 1);
  default_rng = λ n. n;
  digest_word = λ _. 0;
  show = λ _. "0.05";
}

lit_mono : (a b c : ℕ) → a ≤ b → leb_ℤ (pos (a * c)) (pos (b * c)) ≡ true
lit_mono a b c h = grind (arith, mul-le-mul_right)

pub scaled-IsOrdered : IsOrdered ℤ
scaled-IsOrdered = record {
  lit_mono = λ a b d h. lit_mono a b (10 ^ (8 - d)) h;
  refl_of_le = λ x y h. ground arith;
  le_trans = λ x y z h k. ground arith;
  le_of_lt = λ x y h. ground arith;
  lt_trans = λ x y z h k. ground arith;
  sub-lit-le = λ x n d _ h. ground arith;
  le-add-lit = λ x n d _ h. ground arith;
  sub-le = λ x c _ h k. ground arith;
  not-lt_of_le = λ x y h. ground arith;
  le_of_not-lt = λ x y h k e. ground arith;
}
