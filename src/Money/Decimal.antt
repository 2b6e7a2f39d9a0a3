-- ===== src/Money/Decimal.antt =====
-- Decimal digits: what `digits` prints, and what `value` reads.
use sobkichu.Prelude.{
  ℕ, zero, suc, ◌+◌, ◌-◌, ◌*◌, ◌/◌, ◌%◌, ◌≤◌, ◌<◌, ◌≡◌, ◌≢◌, refl, ◌∙◌, true, ◌⊎◌, inl, [], ◌∷◌,
  ◌++◌, arith, Text, All, is_digit, is_digits, is_empty, all_chars, value_from, value,
}
use sobkichu.Money.{digits_from, digits}

abbrev pub IsDigit : ℕ → Type 0
IsDigit c = (b'0' ≤ c) × (c ≤ b'9')

pub all_chars-is_digit : (s : Text) → All IsDigit s → all_chars is_digit s ≡ true
unfolding all_chars
all_chars-is_digit [] h = refl
all_chars-is_digit (c ∷ s) h = ground (arith, all_chars-is_digit s h.1)

pub is_digits_of_All : (s : Text) → s ≢ [] → All IsDigit s → is_digits s ≡ true
unfolding is_digits is_empty
is_digits_of_All [] n h = absurd (n refl)
is_digits_of_All (c ∷ s) n h = all_chars-is_digit (c ∷ s) h

pub value_from-digits_from :
    (fuel n : ℕ) (out : Text) → n < fuel → value_from 0 (digits_from fuel n out) ≡ value_from n out
unfolding digits_from value_from
value_from-digits_from zero n out h = absurd (omega arith)
value_from-digits_from (suc fuel) n out h =
    ground (arith, value_from-digits_from fuel (n / 10) ((b'0' + n % 10) ∷ out))

-- Reading the digits of a number gives the number: the fuel of `digits` is enough.
pub value-digits : (n : ℕ) → value (digits n) ≡ n
unfolding digits value
value-digits n = value_from-digits_from (suc n) n [] (omega arith) ∙ unfold value_from in refl

pub digits_from-IsDigit :
    (fuel n : ℕ) (out : Text) → All IsDigit out → All IsDigit (digits_from fuel n out)
unfolding digits_from
digits_from-IsDigit zero n out h = h
digits_from-IsDigit (suc fuel) n out h =
    ground (arith, digits_from-IsDigit fuel (n / 10) ((b'0' + n % 10) ∷ out))

pub digits-IsDigit : (n : ℕ) → All IsDigit (digits n)
unfolding digits
digits-IsDigit n = digits_from-IsDigit (suc n) n [] tt

pub digits_from-ne-nil : (fuel n : ℕ) (out : Text) → out ≢ [] → digits_from fuel n out ≢ []
unfolding digits_from
digits_from-ne-nil zero n out h = h
digits_from-ne-nil (suc fuel) n out h =
    ground (arith, digits_from-ne-nil fuel (n / 10) ((b'0' + n % 10) ∷ out))

pub digits-ne-nil : (n : ℕ) → digits n ≢ []
unfolding digits digits_from
digits-ne-nil n = ground (arith, digits_from-ne-nil n (n / 10) ((b'0' + n % 10) ∷ []))

pub value_from-append : (n : ℕ) (s t : Text) → value_from n (s ++ t) ≡ value_from (value_from n s) t
unfolding value_from
value_from-append n [] t = refl
value_from-append n (c ∷ s) t = value_from-append (n * 10 + (c - b'0')) s t

-- A number below a hundred has one digit or two.
pub digits_below_hundred :
    (n : ℕ)
    → n < 100
    → (n < 10) × (digits n ≡ (b'0' + n) ∷ [])
      ⊎ (10 ≤ n) × (digits n ≡ (b'0' + n / 10) ∷ (b'0' + n % 10) ∷ [])
unfolding digits digits_from
digits_below_hundred zero h = inl (omega arith, refl)
digits_below_hundred (suc n) h = ground arith
