-- ===== src/Identity/Numbers.antt =====
-- api/src/identity/domain/nid.ts, and normaliseBdPhone of otp.ts.
use sobkichu.Prelude.{
  ℕ, Bool, false, ◌&&◌, ◌||◌, Option, none, some, [], ◌∷◌, leb, ◌==◌, if◌then◌else◌, Text, is_digit,
  is_digits, is_space, all_chars, strip, length,
}

-- `[\s-]`
unfoldable pub is_blank_or_dash : ℕ → Bool
is_blank_or_dash c = is_space c || c == b'-'

-- `VALID_LENGTHS`
unfoldable pub is_nid_length : ℕ → Bool
is_nid_length n = n == 10 || n == 13 || n == 17

unfoldable pub normalise_nid_number : Text → Option Text
unfolding is_nid_length
normalise_nid_number input =
    let digits = strip is_blank_or_dash input in
    if is_digits digits && is_nid_length (length digits) then some digits else none

-- `[\s\-()]`
unfoldable pub is_separator : ℕ → Bool
is_separator c = is_space c || c == b'-' || c == b'(' || c == b')'

-- `.replace(/^\+/, '')`
unfoldable pub drop_plus : Text → Text
drop_plus [] = []
drop_plus (c ∷ s) = if c == b'+' then s else c ∷ s

-- `1[3-9]\d{8}`, the number within the country.
unfoldable pub is_mobile : Text → Bool
is_mobile (a ∷ b ∷ s) =
    a == b'1' && leb b'3' b && leb b b'9' && all_chars is_digit s && length s == 8
is_mobile (a ∷ []) = false
is_mobile [] = false

-- `/^01[3-9]\d{8}$/`
unfoldable pub is_local : Text → Bool
unfolding is_mobile
is_local [] = false
is_local (a ∷ s) = a == b'0' && is_mobile s

-- `/^8801[3-9]\d{8}$/`
unfoldable pub is_international : Text → Bool
unfolding is_mobile
is_international (a ∷ b ∷ c ∷ s) = a == b'8' && b == b'8' && c == b'0' && is_mobile s
is_international (a ∷ b ∷ []) = false
is_international (a ∷ []) = false
is_international [] = false

-- `digits.slice(1)`
unfoldable pub drop_first : Text → Text
drop_first [] = []
drop_first (c ∷ s) = s

unfoldable pub canonical_phone : Text → Option Text
unfolding is_local is_international drop_first
canonical_phone digits =
    if is_local digits
    then some (b'+' ∷ b'8' ∷ b'8' ∷ b'0' ∷ drop_first digits)
    else if is_international digits
    then some (b'+' ∷ digits)
    else none

unfoldable pub normalise_bd_phone : Text → Option Text
unfolding canonical_phone drop_plus
normalise_bd_phone input = canonical_phone (drop_plus (strip is_separator input))
