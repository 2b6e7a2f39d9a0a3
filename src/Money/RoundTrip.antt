-- ===== src/Money/RoundTrip.antt =====
-- `poishaToTaka` and `takaToPoisha` one after the other.
use sobkichu.Prelude.{
  ℕ, zero, suc, ◌+◌, ◌/◌, ◌%◌, ◌<◌, ◌≡◌, false, inl, inr, [], ◌∷◌, ◌++◌, arith, Text, any_char,
  pad_start, pad_end, value_from, value, ltb, ltb_ℤ, ℤ, pos, negsuc, ok,
}
use sobkichu.Money.{
  int, dot, negate_if, poisha_of, taka_to_poisha, digits, absolute, sign, poisha_to_taka,
  max_safe_integer,
}
use sobkichu.Money.Decimal.{value-digits, digits-IsDigit, digits-ne-nil, digits_below_hundred}
use sobkichu.Money.Parse.{minus_if, taka_to_poisha_decimal}

-- The two decimals that `poishaToTaka` prints.
cents : ℕ → Text
cents n = pad_start 2 b'0' (digits n)

cents_lem : (n : ℕ) → n < 100 → cents n ≡ (b'0' + n / 10) ∷ (b'0' + n % 10) ∷ []
unfolding cents pad_start
cents_lem n h = elim (digits_below_hundred n h) [
  | inl (small, e) ↦ rw e (ground arith)
  | inr (big, e) ↦ rw e (ground arith)
]

pub sign-minus_if : (n : ℤ) → sign n ≡ minus_if (ltb_ℤ n (pos 0))
sign-minus_if (pos n) = ground arith
sign-minus_if (negsuc n) = ground arith

negate_if-absolute : (n : ℤ) → negate_if (ltb_ℤ n (pos 0)) (absolute n) ≡ n
negate_if-absolute (pos zero) = ground arith
negate_if-absolute (pos (suc n)) = ground arith
negate_if-absolute (negsuc n) = ground arith

poisha_of-digits :
    (a : ℕ) → poisha_of (digits (a / 100)) ((b'0' + a % 100 / 10) ∷ (b'0' + a % 100 % 10) ∷ []) ≡ a
unfolding poisha_of pad_end
poisha_of-digits a = rw value-digits (unfold value value_from in omega arith)

-- The print of an amount in range: whole taka, a point and two decimals.
pub poisha_to_taka_decimal :
    (n : ℤ)
    → absolute n < 1000000000000
    → poisha_to_taka (int n)
      ≡ ok (
          minus_if (ltb_ℤ n (pos 0))
          ++ digits (absolute n / 100)
          ++ dot ∷ (b'0' + absolute n % 100 / 10) ∷ (b'0' + absolute n % 100 % 10) ∷ [])
unfolding poisha_to_taka
poisha_to_taka_decimal n h =
    let in_range : ltb 9999999999 (absolute n / 100) ≡ false = ground arith in
    rw (in_range, sign-minus_if n) (unfold cents in rw (cents_lem (absolute n % 100) (omega arith)))

-- Every amount of at most twelve digits is printed, and its print is read back as the amount.
pub taka_to_poisha-poisha_to_taka :
    (n : ℤ)
    → absolute n < 1000000000000
    → (t : Text) × (poisha_to_taka (int n) ≡ ok t) × (taka_to_poisha t ≡ ok n)
unfolding any_char
taka_to_poisha-poisha_to_taka n h =
    let in_range : ltb max_safe_integer (absolute n) ≡ false = ground arith in
    let decimals = (b'0' + absolute n % 100 / 10) ∷ (b'0' + absolute n % 100 % 10) ∷ [] in
    let read =
      taka_to_poisha_decimal (ltb_ℤ n (pos 0)) (digits (absolute n / 100)) decimals
        (digits-ne-nil _) (digits-IsDigit _) (cc) (omega arith) in
    (
      _,
      poisha_to_taka_decimal n h,
      rw (read, poisha_of-digits (absolute n), in_range, negate_if-absolute n),
    )
