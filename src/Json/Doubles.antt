-- ===== src/Json/Doubles.antt =====
-- `static_cast<double>` of an integer, as the 64 bits of the nearest double; of two that are as near, the even one.
use co_bridge.Base.{ℕ, zero, suc, ◌+◌, ◌-◌, ◌*◌, ◌/◌, ◌%◌, ◌^◌, ltb, leb, if◌then◌else◌}
use co_bridge.Base.Int.{ℤ, pos, negsuc}

-- The place of the highest binary digit of a number below 2 ^ fuel.
unfoldable pub highest_place : ℕ → ℕ → ℕ
highest_place zero n = 0
highest_place (suc fuel) n =
    let rest = highest_place fuel (n / 2) in if ltb n 2 then 0 else suc rest

-- The quotient, rounded.
unfoldable pub rounded : ℕ → ℕ → ℕ
rounded n d =
    let q = n / d in
    let twice = 2 * (n % d) in if ltb twice d then q else if ltb d twice then q + 1 else q + q % 2

-- The significand has 53 digits, of which the highest counts as one more in the exponent.
unfoldable pub double_of_nat : ℕ → ℕ
unfolding highest_place rounded
double_of_nat zero = 0
double_of_nat (suc m) =
    let n = suc m in
    let place = highest_place 64 n in
    let significand = if leb place 52 then n * 2 ^ (52 - place) else rounded n (2 ^ (place - 52)) in
    (place + 1022) * 2 ^ 52 + significand

unfoldable pub double_of : ℤ → ℕ
unfolding double_of_nat
double_of (pos n) = double_of_nat n
double_of (negsuc n) = 2 ^ 63 + double_of_nat (suc n)
