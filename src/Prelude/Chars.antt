-- ===== src/Prelude/Chars.antt =====
-- Text as the list of its UTF-16 code units, with the operations of `String.prototype` and the
-- character classes of the regular expressions that the program uses.
use Prim.Native.Nat.{ℕ, ◌+◌, ◌-◌, ◌*◌}
use Prim.Native.Char.{code}
use Prim.Native.String.{String}
use mathlib.Core.Path.{◌≡◌, refl}
use mathlib.Core.Logic.{◌↔◌}
use mathlib.Core.Bool.{Bool, true, false, ◌&&◌, ◌||◌, not}
use mathlib.Core.Option.{Option, none, some}
use mathlib.Core.List.{List, [], ◌∷◌, ◌++◌, reverse}
use native.Mathlib.Omega.{arith}
use sobkichu.Prelude.Tests.{leb, ◌==◌, if◌then◌else◌}
use sobkichu.Prelude.Lists.{length, replicate}

abbrev pub Text : Type 0
Text = List ℕ

abbrev pub codes : String → Text
codes String.[] = []
codes (String.◌∷◌ c s) = code c ∷ codes s

-- A literal of the source.
unfoldable pub lit : String → Text
lit s = codes s

-- `a === b` on strings
unfoldable pub text_eq : Text → Text → Bool
text_eq [] [] = true
text_eq [] (_ ∷ _) = false
text_eq (_ ∷ _) [] = false
text_eq (a ∷ s) (b ∷ t) = a == b && text_eq s t

pub text_eq_iff : (s t : Text) → (text_eq s t ≡ true) ↔ (s ≡ t)
unfolding text_eq
text_eq_iff [] [] = ground arith
text_eq_iff [] (b ∷ t) = ground arith
text_eq_iff (a ∷ s) [] = ground arith
text_eq_iff (a ∷ s) (b ∷ t) = ground (arith, text_eq_iff s t)

pub text_eq_refl : (s : Text) → text_eq s s ≡ true
text_eq_refl s = (text_eq_iff s s).1 refl

pub text_eq-flip : (s t : Text) → text_eq s t ≡ false → text_eq t s ≡ false
unfolding text_eq
text_eq-flip [] [] h = h
text_eq-flip [] (b ∷ t) h = refl
text_eq-flip (a ∷ s) [] h = refl
text_eq-flip (a ∷ s) (b ∷ t) h = ground (arith, text_eq-flip s t)

-- `\d`
abbrev pub is_digit : ℕ → Bool
is_digit c = leb b'0' c && leb c b'9'

-- `\s`: white space and line ends of ECMAScript.
unfoldable pub is_space : ℕ → Bool
is_space c =
    (leb 9 c && leb c 13)
    || c == 32
    || c == 160
    || c == 5760
    || (leb 8192 c && leb c 8202)
    || c == 8232
    || c == 8233
    || c == 8239
    || c == 8287
    || c == 12288
    || c == 65279

-- Every character passes the test: the class with `*`, anchored at both ends.
unfoldable pub all_chars : (ℕ → Bool) → Text → Bool
all_chars p [] = true
all_chars p (c ∷ s) = p c && all_chars p s

-- Some character passes the test: an unanchored class.
unfoldable pub any_char : (ℕ → Bool) → Text → Bool
any_char p [] = false
any_char p (c ∷ s) = p c || any_char p s

unfoldable pub is_empty : Text → Bool
is_empty [] = true
is_empty (_ ∷ _) = false

-- A text that is there and not empty, as the condition of an `if` reads it.
unfoldable pub truthy : Option Text → Option Text
unfolding is_empty
truthy none = none
truthy (some s) = if is_empty s then none else some s

pub truthy-some :
    (o : Option Text) {s : Text} → truthy o ≡ some s → (o ≡ some s) × (is_empty s ≡ false)
unfolding truthy
truthy-some none h = cc
truthy-some (some s) h = ground arith

-- `/^\d+$/`
unfoldable pub is_digits : Text → Bool
unfolding all_chars is_empty
is_digits s = not (is_empty s) && all_chars is_digit s

-- `s.replace(/[…]/g, '')`
unfoldable pub strip : (ℕ → Bool) → Text → Text
strip p [] = []
strip p (c ∷ s) = if p c then strip p s else c ∷ strip p s

unfoldable pub trim_start : Text → Text
trim_start [] = []
trim_start (c ∷ s) = let rest = trim_start s in if is_space c then rest else c ∷ s

unfoldable pub trim : Text → Text
unfolding trim_start
trim s = reverse (trim_start (reverse (trim_start s)))

-- `s.padStart(n, c)` and `s.padEnd(n, c)`, for one character `c`.
unfoldable pub pad_start : ℕ → ℕ → Text → Text
pad_start n c s = replicate (n - length s) c ++ s

unfoldable pub pad_end : ℕ → ℕ → Text → Text
pad_end n c s = s ++ replicate (n - length s) c

-- `Number(s)` of a text of decimal digits.
unfoldable pub value_from : ℕ → Text → ℕ
value_from n [] = n
value_from n (c ∷ s) = value_from (n * 10 + (c - b'0')) s

unfoldable pub value : Text → ℕ
unfolding value_from
value s = value_from 0 s
