-- ===== src/Base/Bits.antt =====
-- Masks and disjoint ors at variables. Both come from the recursion on binary digits that the
-- native operations stand for: one lemma takes a step, the others take as many as they need.
use Prim.Native.Nat.{
  ℕ, zero, suc, ◌+◌, ◌-◌, ◌*◌, ◌/◌, ◌%◌, ◌^◌, ◌≤◌, ◌<◌, min, max, bit_and, bit_or, digits,
  bit_and-bitwise, bit_or-bitwise,
}
use mathlib.Core.Path.{◌≡◌, refl, sym, ap, ◌∙◌}
use native.Mathlib.Nat.{pow-suc, mul_assoc}
use native.Mathlib.Omega.{arith}

module _ (last : ℕ → ℕ) (f : ℕ → ℕ → ℕ) where
  digits_zero : (n b : ℕ) → digits last f n 0 b ≡ last b
  digits_zero zero b = refl
  digits_zero (suc n) b = refl

  -- Fuel beyond the first number is not used.
  digits_more : (n k a b : ℕ) → a ≤ n → digits last f (n + k) a b ≡ digits last f n a b
  digits_more n k zero b h = digits_zero (n + k) b ∙ sym (digits_zero n b)
  digits_more zero k (suc a) b h = absurd (omega arith)
  digits_more (suc n) k (suc a) b h =
      let more : suc n + k ≡ suc (n + k) = omega arith in
      rw more (rw (digits_more n k (suc a / 2) (b / 2) (omega arith)) refl)

  digits_half : (a b : ℕ) → digits last f a (suc a / 2) b ≡ digits last f (suc a / 2) (suc a / 2) b
  digits_half a b =
      let rest : a ≡ suc a / 2 + (a - suc a / 2) = omega arith in
      ap (λ n. digits last f n (suc a / 2) b) rest
      ∙ digits_more (suc a / 2) (a - suc a / 2) (suc a / 2) b (omega arith)

bit_and_step : (a b : ℕ) → bit_and a b ≡ bit_and (a / 2) (b / 2) * 2 + min (a % 2) (b % 2)
bit_and_step zero b = omega (arith, bit_and-bitwise 0 b, bit_and-bitwise 0 (b / 2))
bit_and_step (suc a) b = omega (
  arith,
  bit_and-bitwise (suc a) b,
  bit_and-bitwise (suc a / 2) (b / 2),
  digits_half (λ b. 0) min a (b / 2),
)

bit_or_step : (a b : ℕ) → bit_or a b ≡ bit_or (a / 2) (b / 2) * 2 + max (a % 2) (b % 2)
bit_or_step zero b = omega (arith, bit_or-bitwise 0 b, bit_or-bitwise 0 (b / 2))
bit_or_step (suc a) b = omega (
  arith,
  bit_or-bitwise (suc a) b,
  bit_or-bitwise (suc a / 2) (b / 2),
  digits_half (λ b. b) max a (b / 2),
)

and_none : (n a : ℕ) → a ≤ n → bit_and a 0 ≡ 0
and_none n zero h = refl
and_none zero (suc a) h = absurd (omega arith)
and_none (suc n) (suc a) h =
    omega (arith, bit_and_step (suc a) 0, and_none n (suc a / 2) (omega arith))

or_none : (n a : ℕ) → a ≤ n → bit_or a 0 ≡ a
or_none n zero h = refl
or_none zero (suc a) h = absurd (omega arith)
or_none (suc n) (suc a) h =
    omega (arith, bit_or_step (suc a) 0, or_none n (suc a / 2) (omega arith))

and_1 : (a : ℕ) → bit_and a 0x01 ≡ a % 2
and_1 a = omega (arith, bit_and_step a 0x01, and_none (a / 2) (a / 2) (omega arith))

-- The mask of the two lowest bits, and so on.
pub and_3 : (a : ℕ) → bit_and a 0x03 ≡ a % 4
and_3 a = omega (arith, bit_and_step a 0x03, and_1 (a / 2))

and_7 : (a : ℕ) → bit_and a 0x07 ≡ a % 8
and_7 a = omega (arith, bit_and_step a 0x07, and_3 (a / 2))

pub and_15 : (a : ℕ) → bit_and a 0x0f ≡ a % 16
and_15 a = omega (arith, bit_and_step a 0x0f, and_7 (a / 2))

and_31 : (a : ℕ) → bit_and a 0x1f ≡ a % 32
and_31 a = omega (arith, bit_and_step a 0x1f, and_15 (a / 2))

pub and_63 : (a : ℕ) → bit_and a 0x3f ≡ a % 64
and_63 a = omega (arith, bit_and_step a 0x3f, and_31 (a / 2))

and_127 : (a : ℕ) → bit_and a 0x7f ≡ a % 128
and_127 a = omega (arith, bit_and_step a 0x7f, and_63 (a / 2))

pub and_255 : (a : ℕ) → bit_and a 0xff ≡ a % 256
and_255 a = omega (arith, bit_and_step a 0xff, and_127 (a / 2))

or_double : (a d : ℕ) → bit_or (a * 2) d ≡ bit_or a (d / 2) * 2 + d % 2
or_double a d =
    let half : a * 2 / 2 ≡ a = omega arith in
    omega (arith, bit_or_step (a * 2) d, ap (λ (x : ℕ). bit_or x (d / 2)) half)

-- An or with a number below the lowest bit that can be set is a sum.
pub or_below : (k a d : ℕ) → d < 2 ^ k → bit_or (a * 2 ^ k) d ≡ a * 2 ^ k + d
or_below zero a d h =
    let none : d ≡ 0 = omega arith in
    rw none (omega (arith, or_none (a * 2 ^ 0) (a * 2 ^ 0) (omega arith)))
or_below (suc k) a d h =
    let double : a * 2 ^ suc k ≡ a * 2 ^ k * 2 = simp (pow-suc, mul_assoc) in
    let small : d / 2 < 2 ^ k = omega (arith, pow-suc 2 k) in
    rw double (omega (arith, or_double (a * 2 ^ k) d, or_below k a (d / 2) small))
