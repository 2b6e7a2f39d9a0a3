-- ===== src/Money/Parse.antt =====
-- How `takaToPoisha` reads a text of digits with a decimal point.
use sobkichu.Prelude.{
  ℕ, zero, suc, ◌+◌, ◌-◌, ◌*◌, ◌^◌, ◌≤◌, ◌≡◌, ◌≢◌, refl, ◌∙◌, Bool, true, false, some, [], ◌∷◌,
  ◌++◌, reverse, arith, length, drop, Text, All, All-append, All-reverse, All-imp, is_space, trim,
  trim_start, any_char, pad_end, value_from, value, ltb, ℤ, ok, money_error, ◌>>◌, throw_if,
  throw_if-eq-ok, >>=-eq-ok, sym,
}
use mathlib.Core.List.{reverse-reverse}
use native.Mathlib.Nat.{pow-suc}
use sobkichu.Money.{
  dot, minus, before_dot, after_dot, has_minus, drop_minus, is_amount, fraction_or_empty,
  is_nonzero_digit, negate_if, poisha_of, taka_to_poisha, absolute, max_safe_integer,
}
use sobkichu.Money.Decimal.{IsDigit, is_digits_of_All, value_from-append}

abbrev IsPlain : ℕ → Type 0
IsPlain c = is_space c ≡ false

trim_start_plain : (s : Text) → All IsPlain s → trim_start s ≡ s
unfolding trim_start
trim_start_plain [] h = refl
trim_start_plain (c ∷ s) h = rw h.0

pub trim_plain : (s : Text) → All IsPlain s → trim s ≡ s
unfolding trim
trim_plain s h =
    rw (trim_start_plain s h, trim_start_plain (reverse s) (All-reverse IsPlain s h))
      (reverse-reverse s)

digit-IsPlain : (c : ℕ) → IsDigit c → IsPlain c
unfolding is_space
digit-IsPlain c h = ground arith

digits-IsPlain : (s : Text) → All IsDigit s → All IsPlain s
digits-IsPlain = All-imp IsDigit IsPlain digit-IsPlain

pub before_dot_digits : (s t : Text) → All IsDigit s → before_dot (s ++ dot ∷ t) ≡ s
unfolding before_dot
before_dot_digits [] t h = refl
before_dot_digits (c ∷ s) t h = ground (arith, before_dot_digits s t h.1)

pub after_dot_digits : (s t : Text) → All IsDigit s → after_dot (s ++ dot ∷ t) ≡ some t
unfolding after_dot
after_dot_digits [] t h = refl
after_dot_digits (c ∷ s) t h = ground (arith, after_dot_digits s t h.1)

pub no_dot_digits : (s : Text) → All IsDigit s → before_dot s ≡ s
unfolding before_dot
no_dot_digits [] h = refl
no_dot_digits (c ∷ s) h = ground (arith, no_dot_digits s h.1)

abbrev pub minus_if : Bool → Text
minus_if true = minus ∷ []
minus_if false = []

decimal-IsPlain :
    (negative : Bool) (w f : Text)
    → All IsDigit w
    → All IsDigit f
    → All IsPlain (minus_if negative ++ w ++ dot ∷ f)
unfolding is_space
decimal-IsPlain true w f hw hf =
    (refl, All-append IsPlain w (dot ∷ f) (digits-IsPlain w hw) (refl, digits-IsPlain f hf))
decimal-IsPlain false w f hw hf =
    All-append IsPlain w (dot ∷ f) (digits-IsPlain w hw) (refl, digits-IsPlain f hf)

minus_split :
    (negative : Bool) (w t : Text)
    → w ≢ []
    → All IsDigit w
    → (has_minus (minus_if negative ++ w ++ t) ≡ negative)
      × (drop_minus (minus_if negative ++ w ++ t) ≡ w ++ t)
unfolding has_minus drop_minus
minus_split negative [] t n h = absurd (n refl)
minus_split true (c ∷ w) t n h = (refl, refl)
minus_split false (c ∷ w) t n h = (ground arith, ground arith)

-- Behind the tests of its shape, a decimal is refused for its precision or its size, or read.
pub taka_to_poisha_decimal :
    (negative : Bool) (w f : Text)
    → w ≢ []
    → All IsDigit w
    → f ≢ []
    → All IsDigit f
    → taka_to_poisha (minus_if negative ++ w ++ dot ∷ f) ≡ (
        throw_if
          (any_char is_nonzero_digit (drop 2 f))
          (money_error "BDT amount has sub-poisha precision")
        >> (throw_if
              (ltb max_safe_integer (poisha_of w f))
              (money_error "BDT amount out of safe range")
            >> ok (negate_if negative (poisha_of w f))))
unfolding taka_to_poisha is_amount fraction_or_empty poisha_of
taka_to_poisha_decimal negative w f nw hw nf hf = rw (
  trim_plain _ (decimal-IsPlain negative w f hw hf),
  (minus_split negative w (dot ∷ f) nw hw).0,
  (minus_split negative w (dot ∷ f) nw hw).1,
  before_dot_digits w f hw,
  after_dot_digits w f hw,
  is_digits_of_All w nw hw,
  is_digits_of_All f nf hf,
  no_dot_digits f hf,
)

value_from_zeros :
    (n : ℕ) (r : Text)
    → All IsDigit r
    → any_char is_nonzero_digit r ≡ false
    → value_from n r ≡ n * 10 ^ length r
unfolding value_from any_char
value_from_zeros n [] h z = omega arith
value_from_zeros n (c ∷ r) h z =
    let zero_digit : c ≡ b'0' = ground arith in
    let rest : any_char is_nonzero_digit r ≡ false = ground arith in
    rw (zero_digit, value_from_zeros (n * 10 + (b'0' - b'0')) r h.1 rest, pow-suc) (grind arith)

poisha_of_two :
    (w : Text) (a b : ℕ) (r : Text)
    → poisha_of w (a ∷ b ∷ r) ≡ (value_from 0 w * 10 + (a - b'0')) * 10 + (b - b'0')
unfolding poisha_of value value_from pad_end
poisha_of_two w a b r = omega arith

-- Hundredths of a number with `k` decimals, all but two of them zero.
scale_hundred : (p t : ℕ) → p * (t * 10 * 10) ≡ p * t * 100
scale_hundred p t = grind arith

poisha_of_exact :
    (w f : Text)
    → f ≢ []
    → All IsDigit f
    → any_char is_nonzero_digit (drop 2 f) ≡ false
    → poisha_of w f * 10 ^ length f ≡ value (w ++ f) * 100
poisha_of_exact w [] n h z = absurd (n refl)
poisha_of_exact w (a ∷ []) n h z =
    unfold poisha_of pad_end value in rw value_from-append (unfold value_from in omega arith)
poisha_of_exact w (a ∷ b ∷ r) n h z =
    let tail = value_from_zeros ((value_from 0 w * 10 + (a - b'0')) * 10 + (b - b'0')) r h.1.1 z in
    unfold value in
    rw (poisha_of_two, value_from-append, pow-suc, pow-suc)
      (unfold value_from in rw tail (scale_hundred _ _))

absolute-negate_if : (negative : Bool) (k : ℕ) → absolute (negate_if negative k) ≡ k
absolute-negate_if true zero = refl
absolute-negate_if true (suc k) = omega arith
absolute-negate_if false zero = refl
absolute-negate_if false (suc k) = omega arith

-- `takaToPoisha` never rounds: where it reads a decimal of any number of places, its result is the
-- exact value of the digits in hundredths, within the safe integers, with the sign of the text.
pub taka_to_poisha_exact :
    (negative : Bool) (w f : Text)
    → w ≢ []
    → All IsDigit w
    → f ≢ []
    → All IsDigit f
    → (p : ℤ) → taka_to_poisha (minus_if negative ++ w ++ dot ∷ f) ≡ ok p
    → (absolute p * 10 ^ length f ≡ value (w ++ f) * 100)
      × (absolute p ≤ max_safe_integer)
      × (p ≡ negate_if negative (absolute p))
taka_to_poisha_exact negative w f nw hw nf hf p e =
    let steps = sym (taka_to_poisha_decimal negative w f nw hw nf hf) ∙ e in
    let (_, precise, rest) = >>=-eq-ok (throw_if _ _) _ steps in
    let (_, safe, result) = >>=-eq-ok (throw_if _ _) _ rest in
    let digits_zero = throw_if-eq-ok (any_char is_nonzero_digit (drop 2 f)) _ precise in
    let in_range = throw_if-eq-ok (ltb max_safe_integer (poisha_of w f)) _ safe in
    let size : absolute p ≡ poisha_of w f =
      ground (arith, absolute-negate_if negative (poisha_of w f)) in
    (
      rw size (poisha_of_exact w f nf hf digits_zero),
      rw size (ground arith),
      rw size (ground arith),
    )
