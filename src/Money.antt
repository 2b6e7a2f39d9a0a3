-- ===== src/Money.antt =====
-- api/src/common/money.ts: amounts in poisha (1/100 taka), as integers. A JavaScript number is an
-- integer or any other value, which every operation here tests for. Sums, products and percentages
-- are those of doubles, which are exact up to 2^53; the text of an amount that is longer is refused
-- in exact arithmetic and in doubles alike.
pub mod Decimal
pub mod RoundTrip
pub mod Parse
pub mod Rounding
mod Tests
use sobkichu.Prelude.{
  ℕ, zero, suc, ◌+◌, ◌-◌, ◌*◌, ◌/◌, ◌%◌, ◌^◌, ◌≡◌, refl, Bool, true, false, ◌&&◌, ◌||◌, not, Option,
  none, some, List, [], ◌∷◌, ◌++◌, ltb, leb, ◌==◌, if◌then◌else◌, ℤ, pos, negsuc, pos_part,
  neg_part, ◌+ℤ◌, ◌*ℤ◌, ltb_ℤ, leb_ℤ, double, floor_hundredth, Result, ok, err, ◌>>=◌, ◌>>◌,
  throw_if, Exception, money_error, Text, is_digits, any_char, trim, pad_start, pad_end, value,
  take, drop,
}

-- `other` is a number that is no integer: a fraction, an infinity or NaN.
pub data Number : Type 0 where
  int : ℤ → Number
  other : Number

-- `Number.isInteger`, with the integer that it finds.
abbrev pub integer_or_throw : Number → Exception → Result ℤ
integer_or_throw (int n) e = ok n
integer_or_throw other e = err e

-- The largest whole part that is not above `MAX_TAKA`, 9_999_999_999.99.
abbrev pub max_whole_taka : ℕ
max_whole_taka = 9999999999

-- `Number.MAX_SAFE_INTEGER`
abbrev pub max_safe_integer : ℕ
max_safe_integer = 2 ^ 53 - 1

abbrev pub dot : ℕ
dot = b'.'

abbrev pub minus : ℕ
minus = b'-'

-- The two parts of `text.split('.')` that are used: the text before the first dot, and what
-- follows it, up to the next one.
unfoldable pub before_dot : Text → Text
before_dot [] = []
before_dot (c ∷ s) = if c == dot then [] else c ∷ before_dot s

-- `none` where there is no dot.
unfoldable pub after_dot : Text → Option Text
after_dot [] = none
after_dot (c ∷ s) = if c == dot then some s else after_dot s

-- `text.startsWith('-')`
unfoldable pub has_minus : Text → Bool
has_minus [] = false
has_minus (c ∷ s) = c == minus

-- `text.replace('-', '')` of a text that has its minus, if any, in front.
unfoldable pub drop_minus : Text → Text
drop_minus [] = []
drop_minus (c ∷ s) = if c == minus then s else c ∷ s

-- `/^-?\d+(\.\d+)?$/`
unfoldable pub is_amount : Text → Bool
unfolding before_dot after_dot drop_minus
is_amount text =
    let body = drop_minus text in
    is_digits (before_dot body)
    && elim (after_dot body) [ none ↦ true | some fraction ↦ is_digits fraction ]

-- The default of `const [whole, fraction = '']`.
unfoldable pub fraction_or_empty : Option Text → Text
unfolding before_dot
fraction_or_empty none = []
fraction_or_empty (some s) = before_dot s

-- `/[1-9]/.test(…)`
abbrev pub is_nonzero_digit : ℕ → Bool
is_nonzero_digit c = leb b'1' c && leb c b'9'

abbrev pub negate_if : Bool → ℕ → ℤ
negate_if negative zero = pos zero
negate_if true (suc n) = negsuc n
negate_if false (suc n) = pos (suc n)

-- The value of the whole part and of the first two decimals, in poisha.
unfoldable pub poisha_of : Text → Text → ℕ
poisha_of whole fraction = value whole * 100 + value (take 2 (pad_end 2 b'0' fraction))

-- `takaToPoisha` of a string.
unfoldable pub taka_to_poisha : Text → Result ℤ
unfolding is_amount has_minus drop_minus before_dot after_dot fraction_or_empty poisha_of
taka_to_poisha amount = do
  let text = trim amount
  throw_if (not (is_amount text)) (money_error "Not a valid BDT amount")
  let negative = has_minus text
  let whole = before_dot (drop_minus text)
  let fraction = fraction_or_empty (after_dot (drop_minus text))
  throw_if (any_char is_nonzero_digit (drop 2 fraction))
      (money_error "BDT amount has sub-poisha precision")
  let poisha = poisha_of whole fraction
  throw_if (ltb max_safe_integer poisha) (money_error "BDT amount out of safe range")
  ok (negate_if negative poisha)

-- `String(n)` of a natural number, by rounds of division: a digit for each.
unfoldable pub digits_from : ℕ → ℕ → Text → Text
digits_from zero n out = out
digits_from (suc fuel) n out =
    let rest = digits_from fuel (n / 10) ((b'0' + n % 10) ∷ out) in
    if ltb n 10 then (b'0' + n) ∷ out else rest

-- A number is below 10 to the power of its own value, so this fuel is enough.
unfoldable pub digits : ℕ → Text
unfolding digits_from
digits n = digits_from (suc n) n []

abbrev pub absolute : ℤ → ℕ
absolute n = pos_part n + neg_part n

-- The sign that `poishaToTaka` prints.
abbrev pub sign : ℤ → Text
sign n = if ltb_ℤ n (pos 0) then minus ∷ [] else []

-- `poishaToTaka`
unfoldable pub poisha_to_taka : Number → Result Text
unfolding digits
poisha_to_taka poisha = do
  n ← integer_or_throw poisha (money_error "Poisha must be an integer")
  let whole = absolute n / 100
  let fraction = pad_start 2 b'0' (digits (absolute n % 100))
  throw_if (ltb max_whole_taka whole) (money_error "Amount exceeds NUMERIC(12,2)")
  ok (sign n ++ digits whole ++ dot ∷ fraction)

-- `percentageOf`, at a percentage that is an integer.
unfoldable pub percentage_of : Number → ℤ → Result ℤ
percentage_of amount percent = do
  n ← integer_or_throw amount (money_error "Amount must be integer poisha")
  throw_if (not (leb_ℤ (pos 0) percent && leb_ℤ percent (pos 100)))
      (money_error "Percent must be between 0 and 100")
  ok (floor_hundredth (double (n *ℤ percent)))

-- The `reduce` of `sum`, from a total so far.
unfoldable pub sum_from : ℤ → List Number → Result ℤ
sum_from total [] = ok total
sum_from total (amount ∷ amounts) = do
  n ← integer_or_throw amount (money_error "Amount must be integer poisha")
  sum_from (double (total +ℤ n)) amounts

unfoldable pub sum : List Number → Result ℤ
unfolding sum_from
sum amounts = sum_from (pos 0) amounts

-- `multiply`
unfoldable pub multiply : Number → Number → Result ℤ
multiply unit_price quantity = do
  price ← integer_or_throw unit_price (money_error "Unit price must be integer poisha")
  count ← integer_or_throw quantity (money_error "Quantity must be a positive integer")
  throw_if (ltb_ℤ count (pos 1)) (money_error "Quantity must be a positive integer")
  ok (double (price *ℤ count))
