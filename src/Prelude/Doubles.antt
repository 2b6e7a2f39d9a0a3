-- ===== src/Prelude/Doubles.antt =====
-- Integers in JavaScript's numbers, which are doubles: the integer that an operation returns is the
-- double nearest to the exact result. Exponents are unbounded here: no result is an infinity.
use Prim.Native.Nat.{ℕ, zero, suc, ◌+◌, ◌*◌, ◌/◌, ◌%◌, ◌^◌, ◌≤◌}
use mathlib.Core.Path.{◌≡◌}
use native.Mathlib.Omega.{arith}
use sobkichu.Prelude.Tests.{ltb, leb, if◌then◌else◌}
use sobkichu.Prelude.Int.{ℤ, pos, negsuc, pos_part, neg_part, ◌-ℤ◌, floor_div}

-- The magnitude of an integer.
abbrev pub magnitude : ℤ → ℕ
magnitude n = pos_part n + neg_part n

-- The whole number nearest to n / d, the even one of two that are as near.
abbrev nearest : ℕ → ℕ → ℕ
nearest n d =
    if ltb (2 * (n % d)) d
    then n / d
    else if ltb d (2 * (n % d))
    then n / d + 1
    else n / d + n / d % 2

-- The multiple of the step that is nearest to n / d, at the first step of 53 bits: the step doubles
-- up to then. A fuel of 1024 is enough, since no double has a greater exponent.
unfoldable nearest_from : ℕ → ℕ → ℕ → ℕ → ℕ
nearest_from zero step n d = step * nearest n (d * step)
nearest_from (suc fuel) step n d =
    let rest = nearest_from fuel (2 * step) n d in
    if ltb n (2 ^ 53 * (d * step)) then step * nearest n (d * step) else rest

unfoldable pub nearest_double : ℤ → ℤ
unfolding nearest_from
nearest_double (pos n) = pos (nearest_from 1024 1 n 1)
nearest_double (negsuc n) = pos 0 -ℤ pos (nearest_from 1024 1 (n + 1) 1)

-- An integer result: itself up to 2^53, where the doubles hold every integer.
abbrev pub double : ℤ → ℤ
double n = if leb (magnitude n) (2 ^ 53) then n else nearest_double n

-- The quotient by 100 as a double, in steps of 1/64 or more, and its floor.
unfoldable pub nearest_hundredth : ℤ → ℤ
unfolding nearest_from
nearest_hundredth (pos n) = pos (nearest_from 1024 1 (64 * n) 100 / 64)
nearest_hundredth (negsuc n) = pos 0 -ℤ pos ((nearest_from 1024 1 (64 * (n + 1)) 100 + 63) / 64)

-- `Math.floor(n / 100)`. Up to 2^53 the quotient's double is within 1/128 of it, so that it does not
-- reach the next integer, which is at least 1/100 away.
abbrev pub floor_hundredth : ℤ → ℤ
floor_hundredth n = if leb (magnitude n) (2 ^ 53) then floor_div n 100 else nearest_hundredth n

-- An integer up to 2^53 is its own double.
pub double_exact : (n : ℤ) → magnitude n ≤ 2 ^ 53 → double n ≡ n
double_exact n h = ground arith

pub floor_hundredth_exact : (n : ℤ) → magnitude n ≤ 2 ^ 53 → floor_hundredth n ≡ floor_div n 100
floor_hundredth_exact n h = ground arith
