-- ===== src/Catalog/Radius.antt =====
-- The rounding of a radius.
use native.Mathlib.Nat.{add-mul, div-lt_iff_lt-mul, mod-lt, div-add-mod'}
use sobkichu.Prelude.{
  ℕ, zero, suc, ◌+◌, ◌*◌, ◌/◌, ◌%◌, ◌^◌, ◌<◌, ◌≤◌, ◌≡◌, arith, true, false, Bool, Bool-cases, inl,
  inr, ltb, ◌||◌, ◌&&◌, ◌==◌, ==_iff, if◌then◌else◌,
}
use sobkichu.Catalog.Search.{unit, spacing, round_half_even, to_metres}

-- The widest spacing that a search for it can reach.
abbrev widest : ℕ → ℕ → ℕ
widest zero step = step
widest (suc fuel) step = widest fuel (2 * step)

ltb-lt : (a b : ℕ) → ltb a b ≡ true → a < b
ltb-lt a b h = ground arith

-- The spacing leaves 53 bits, if the fuel is enough for the number.
spacing_enough :
    (fuel n step : ℕ)
    → 0 < step
    → n < 2 ^ 53 * widest fuel step
    → (0 < spacing fuel n step) × (n / spacing fuel n step < 2 ^ 53)
unfolding spacing
spacing_enough zero n step given h = (given, (div-lt_iff_lt-mul given).1 h)
spacing_enough (suc fuel) n step given h = elim (Bool-cases (ltb (n / step) (2 ^ 53))) [
  | inl fits ↦ rw fits (given, ltb-lt (n / step) (2 ^ 53) fits)
  | inr more ↦ rw more (spacing_enough fuel n (2 * step) (omega arith) h)
]

step_widest : (k step : ℕ) → step ≤ widest k step
step_widest zero step = omega arith
step_widest (suc k) step = let more = step_widest k (2 * step) in omega arith

fits_true : (a b : ℕ) → a < b → ltb a b ≡ true
fits_true a b h = ground arith

-- The spacing is no wider than the number needs.
spacing_narrow :
    (k fuel n step : ℕ)
    → 0 < step
    → n < 2 ^ 53 * widest k step
    → spacing fuel n step ≤ widest k step
unfolding spacing
spacing_narrow k zero n step some_step h = step_widest k step
spacing_narrow zero (suc fuel) n step some_step h =
    rw (fits_true (n / step) (2 ^ 53) ((div-lt_iff_lt-mul some_step).1 h)) (omega arith)
spacing_narrow (suc k) (suc fuel) n step some_step h = elim (Bool-cases (ltb (n / step) (2 ^ 53))) [
  | inl fits ↦ rw fits (step_widest (suc k) step)
  | inr more ↦ rw more (spacing_narrow k fuel n (2 * step) (omega arith) h)
]

next_multiple : (q step : ℕ) → (q + 1) * step ≡ q * step + step
next_multiple q step = rw (add-mul q 1 step) (omega arith)

below_half :
    (r step : ℕ) (even : Bool) → (ltb (2 * r) step || (2 * r == step && even)) ≡ true → 2 * r ≤ step
below_half r step even h = ground (arith, ==_iff (2 * r) step)

above_half :
    (r step : ℕ) (even : Bool)
    → (ltb (2 * r) step || (2 * r == step && even)) ≡ false
    → step ≤ 2 * r
above_half r step even h = ground (arith, ==_iff (2 * r) step)

near_below :
    (n t r step : ℕ) → t + r ≡ n → 2 * r ≤ step → (2 * n ≤ 2 * t + step) × (2 * t ≤ 2 * n + step)
near_below n t r step split half = (omega arith, omega arith)

near_above :
    (n t r step : ℕ)
    → t + r ≡ n
    → r < step
    → step ≤ 2 * r
    → (2 * n ≤ 2 * (t + step) + step) × (2 * (t + step) ≤ 2 * n + step)
near_above n t r step split small half = (omega arith, omega arith)

-- The choice between the multiple below and the one above.
chosen :
    (n q r step : ℕ)
    → q * step + r ≡ n
    → r < step
    → let rounded =
        (if ltb (2 * r) step || (2 * r == step && q % 2 == 0) then q * step else (q + 1) * step) in
      (2 * n ≤ 2 * rounded + step) × (2 * rounded ≤ 2 * n + step)
chosen n q r step split small =
    elim (Bool-cases (ltb (2 * r) step || (2 * r == step && q % 2 == 0))) [
      | inl down ↦
          rw down (near_below n (q * step) r step split (below_half r step (q % 2 == 0) down))
      | inr up ↦
          rw (up, next_multiple q step)
            (near_above n (q * step) r step split small (above_half r step (q % 2 == 0) up))
    ]

-- Rounding moves a number by half a step at most.
round_half_even_near :
    (n step : ℕ)
    → 0 < step
    → (2 * n ≤ 2 * round_half_even n step + step) × (2 * round_half_even n step ≤ 2 * n + step)
unfolding round_half_even
round_half_even_near n step given =
    chosen n (n / step) (n % step) step (div-add-mod' n step) (mod-lt n given)

-- The metres of a radius of up to ten kilometres are within 2^-40 of a metre of its product by 1000.
pub to_metres_near :
    (radius : ℕ)
    → radius ≤ 10 * unit
    → (radius * 1000 ≤ to_metres radius + 4096) × (to_metres radius ≤ radius * 1000 + 4096)
unfolding to_metres
to_metres_near radius small =
    let (some_step, _) = spacing_enough 14 (radius * 1000) 1 (omega arith) (omega arith) in
    let narrow = spacing_narrow 13 14 (radius * 1000) 1 (omega arith) (omega arith) in
    let (low, high) =
      round_half_even_near (radius * 1000) (spacing 14 (radius * 1000) 1) some_step in
    (omega arith, omega arith)
