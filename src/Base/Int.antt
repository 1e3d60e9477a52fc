-- ===== src/Base/Int.antt =====
-- Signed integers over the native numbers, and the `int` that counts.
use Prim.Native.Nat.{ℕ, zero, suc, ◌+◌, ◌-◌, ◌^◌, ◌≤◌}
use mathlib.Core.Path.{◌≡◌}
use mathlib.Core.Bool.{Bool, true, false}
use native.Mathlib.Omega.{arith}
use co_bridge.Base.Tests.{nat_eq, ltb, if◌then◌else◌, Bool-cases}
use mathlib.Core.Logic.{inl, inr}

-- `negsuc n` is -(n + 1).
pub data ℤ : Type 0 where
  pos : ℕ → ℤ
  negsuc : ℕ → ℤ

-- A C++ `int` of 32 bits that is stepped by one. A step over its bounds has no defined behaviour: it leads to
-- `overflowed`, and what the model does with that says nothing of the program.
pub data Count : Type 0 where
  int : ℤ → Count
  overflowed : Count

-- `++` and `--`
abbrev pub increment : Count → Count
increment (int (pos n)) = if ltb n (2 ^ 31 - 1) then int (pos (suc n)) else overflowed
increment (int (negsuc zero)) = int (pos 0)
increment (int (negsuc (suc n))) = int (negsuc n)
increment overflowed = overflowed

abbrev pub decrement : Count → Count
decrement (int (pos zero)) = int (negsuc 0)
decrement (int (pos (suc n))) = int (pos n)
decrement (int (negsuc n)) = if ltb n (2 ^ 31 - 1) then int (negsuc (suc n)) else overflowed
decrement overflowed = overflowed

-- `z == n` for a number `n`.
abbrev pub is_nat : ℕ → Count → Bool
is_nat n (int (pos m)) = nat_eq m n
is_nat n (int (negsuc m)) = false
is_nat n overflowed = false

-- At least `n`, unless it has overflowed.
abbrev pub HasAtLeast : ℕ → Count → Type 0
HasAtLeast n (int (pos m)) = n ≤ m
HasAtLeast n (int (negsuc m)) = ⊥
HasAtLeast n overflowed = Unit

pub HasAtLeast-increment : (n : ℕ) (z : Count) → HasAtLeast n z → HasAtLeast (n + 1) (increment z)
HasAtLeast-increment n (int (pos m)) h = elim (Bool-cases (ltb m (2 ^ 31 - 1))) [
  | inl below ↦ rw below (omega arith)
  | inr above ↦ rw above tt
]
HasAtLeast-increment n (int (negsuc m)) h = elim h [ ]
HasAtLeast-increment n overflowed h = tt

pub HasAtLeast-decrement : (n : ℕ) (z : Count) → HasAtLeast (n + 1) z → HasAtLeast n (decrement z)
HasAtLeast-decrement n (int (pos zero)) h = absurd (omega arith)
HasAtLeast-decrement n (int (pos (suc m))) h = omega arith
HasAtLeast-decrement n (int (negsuc m)) h = elim h [ ]
HasAtLeast-decrement n overflowed h = tt

pub HasAtLeast-lower : (m n : ℕ) (z : Count) → m ≤ n → HasAtLeast n z → HasAtLeast m z
HasAtLeast-lower m n (int (pos k)) h i = omega arith
HasAtLeast-lower m n (int (negsuc k)) h i = elim i [ ]
HasAtLeast-lower m n overflowed h i = tt

-- A count that an increment takes to 1 was 0.
pub HasAtLeast-first : (n : ℕ) (z : Count) → is_nat 1 (increment z) ≡ true → HasAtLeast n z → n ≡ 0
HasAtLeast-first n (int (pos m)) e h = ground arith
HasAtLeast-first n (int (negsuc m)) e h = elim h [ ]
HasAtLeast-first n overflowed e h = absurd (cc e)

pub is_nat-HasAtLeast : (n : ℕ) (z : Count) → is_nat n z ≡ true → HasAtLeast n z
is_nat-HasAtLeast n (int (pos m)) e = ground arith
is_nat-HasAtLeast n (int (negsuc m)) e = cc
is_nat-HasAtLeast n overflowed e = tt
