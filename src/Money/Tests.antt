-- ===== src/Money/Tests.antt =====
-- Amounts read, printed and split.
use sobkichu.Money.Decimal.{IsDigit}
use sobkichu.Prelude.{
  nearest_double, nearest_hundredth, All, Text, ◌+ℤ◌, floor_div, pad_start, pad_end, any_char,
  is_space, trim, is_digits, ◌≡◌, refl, arith, ◌≤◌, ◌*◌, ◌^◌, pos, negsuc, ◌*ℤ◌, ◌≤ℤ◌, true, [],
  ◌∷◌, ok, err, money_error, lit, value,
}
use sobkichu.Money.{
  int, absolute, max_safe_integer, negate_if, taka_to_poisha, poisha_to_taka, percentage_of, sum,
}
use sobkichu.Money.Parse.{taka_to_poisha_exact}
use sobkichu.Money.RoundTrip.{taka_to_poisha-poisha_to_taka}
use sobkichu.Money.Rounding.{IsHundredthDown, percentage_of-IsHundredthDown}

reads : taka_to_poisha (lit " 1234.5 ") ≡ ok (pos 123450)
unfolding taka_to_poisha lit is_digits trim is_space any_char value pad_end
reads = refl

prints : poisha_to_taka (int (negsuc 4)) ≡ ok (lit "-0.05")
unfolding poisha_to_taka lit pad_start
prints = refl

too_precise : taka_to_poisha (lit "1.005") ≡ err (money_error "BDT amount has sub-poisha precision")
unfolding taka_to_poisha lit is_digits trim is_space any_char
too_precise = refl

reads_long : taka_to_poisha (lit "-12.3400") ≡ ok (negsuc 1233)
unfolding taka_to_poisha lit is_digits trim is_space any_char value pad_end
reads_long = refl

tenth_run : percentage_of (int (negsuc 14)) (pos 10) ≡ ok (negsuc 1)
unfolding percentage_of floor_div ◌*ℤ◌
tenth_run = refl

-- Above 2^53 a tenth can be rounded up: the exact one is 900719925474096.9.
tenth_rounded_up : percentage_of (int (pos 9007199254740969)) (pos 10) ≡ ok (pos 900719925474097)
unfolding percentage_of nearest_double nearest_hundredth ◌*ℤ◌
tenth_rounded_up = refl

odd_sum : sum (int (pos 9007199254740992) ∷ int (pos 1) ∷ []) ≡ ok (pos 9007199254740992)
unfolding sum nearest_double ◌+ℤ◌
odd_sum = refl

sum_run : sum (int (pos 7) ∷ int (negsuc 2) ∷ []) ≡ ok (pos 4)
unfolding sum ◌+ℤ◌
sum_run = refl

taka_to_poisha-poisha_to_taka_example :
    (t : Text) × (poisha_to_taka (int (negsuc 123449)) ≡ ok t)
    × (taka_to_poisha t ≡ ok (negsuc 123449))
taka_to_poisha-poisha_to_taka_example = taka_to_poisha-poisha_to_taka (negsuc 123449) (omega arith)

two_digits : All IsDigit (lit "12")
unfolding lit
two_digits = ((omega arith, omega arith), ((omega arith, omega arith), tt))

four_digits : All IsDigit (lit "3400")
unfolding lit
four_digits = (
  (omega arith, omega arith),
  ((omega arith, omega arith), ((omega arith, omega arith), ((omega arith, omega arith), tt))),
)

taka_to_poisha_exact_example :
    (absolute (negsuc 1233) * 10 ^ 4 ≡ value (lit "123400") * 100)
    × (absolute (negsuc 1233) ≤ max_safe_integer)
    × (negsuc 1233 ≡ negate_if true (absolute (negsuc 1233)))
unfolding lit
taka_to_poisha_exact_example =
    taka_to_poisha_exact true (lit "12") (lit "3400") (λ e. cc) two_digits (λ e. cc) four_digits
      (negsuc 1233) reads_long

percentage_of-IsHundredthDown_example :
    IsHundredthDown (negsuc 14 *ℤ pos 10) (negsuc 1) × (pos 0 ≤ℤ pos 10) × (pos 10 ≤ℤ pos 100)
unfolding ◌*ℤ◌
percentage_of-IsHundredthDown_example =
    percentage_of-IsHundredthDown (negsuc 14) (pos 10) (negsuc 1) (omega arith) tenth_run
