-- ===== src/Money/Rounding.antt =====
-- `percentageOf`, `sum` and `multiply`: which way they round, and what they refuse.
use sobkichu.Prelude.{
  ◌+◌, ◌*◌, ◌^◌, ◌≤◌, ◌<◌, ◌≡◌, arith, List, [], ◌∷◌, ◌∙◌, ℤ, pos, negsuc, pos_part, neg_part, ◌+ℤ◌,
  ◌*ℤ◌, ◌≤ℤ◌, floor_div, int_laws, ok, subst, magnitude, double, double_exact, All,
}
use sobkichu.Money.{Number, int, other, percentage_of, sum_from, sum}

-- `c` is `a / 100` rounded down, on the parts of the two integers.
abbrev pub IsHundredthDown : ℤ → ℤ → Type 0
IsHundredthDown a c =
    (pos_part c * 100 + neg_part a ≤ pos_part a + neg_part c * 100)
    × (pos_part a + neg_part c * 100 < pos_part c * 100 + 100 + neg_part a)

pub floor_div-IsHundredthDown : (a : ℤ) → IsHundredthDown a (floor_div a 100)
unfolding floor_div
floor_div-IsHundredthDown (pos n) = omega arith
floor_div-IsHundredthDown (negsuc n) = omega arith

-- A percentage of an integer amount is the exact hundredth rounded towards minus infinity, where the
-- product of the two numbers is at most 2^53 in magnitude, and it is computed for percentages from 0
-- to 100 only.
pub percentage_of-IsHundredthDown :
    (n percent c : ℤ)
    → magnitude (n *ℤ percent) ≤ 2 ^ 53
    → percentage_of (int n) percent ≡ ok c
    → IsHundredthDown (n *ℤ percent) c × (pos 0 ≤ℤ percent) × (percent ≤ℤ pos 100)
unfolding percentage_of
percentage_of-IsHundredthDown n percent c small h =
    ground (arith, floor_div-IsHundredthDown (n *ℤ percent))

-- The integers of a list of numbers, added up.
abbrev pub total_of : List Number → ℤ
total_of [] = pos 0
total_of (int n ∷ xs) = n +ℤ total_of xs
total_of (other ∷ xs) = total_of xs

-- A number that is no negative integer.
abbrev pub IsNonNegative : Number → Type 0
IsNonNegative (int n) = pos 0 ≤ℤ n
IsNonNegative other = Unit

pub total_of_nonnegative : (xs : List Number) → All IsNonNegative xs → pos 0 ≤ℤ total_of xs
total_of_nonnegative [] h = omega arith
total_of_nonnegative (int n ∷ xs) (first, rest) =
    let low = total_of_nonnegative xs rest in omega int_laws
total_of_nonnegative (other ∷ xs) (first, rest) = total_of_nonnegative xs rest

neg_part-+ℤ : (a b : ℤ) → pos 0 ≤ℤ a → pos 0 ≤ℤ b → neg_part (a +ℤ b) ≡ 0
unfolding ◌+ℤ◌
neg_part-+ℤ a b h k = ground arith

added_exactly :
    (total n rest : ℤ)
    → pos 0 ≤ℤ total
    → pos 0 ≤ℤ n
    → pos 0 ≤ℤ rest
    → total +ℤ (n +ℤ rest) ≤ℤ pos (2 ^ 53)
    → double (total +ℤ n) ≡ total +ℤ n
added_exactly total n rest a b c small =
    double_exact (total +ℤ n) (omega (int_laws, neg_part-+ℤ total n a b))

pub sum_from-eq-total_of :
    (xs : List Number) (total t : ℤ)
    → All IsNonNegative xs
    → pos 0 ≤ℤ total
    → total +ℤ total_of xs ≤ℤ pos (2 ^ 53)
    → sum_from total xs ≡ ok t
    → t ≡ total +ℤ total_of xs
unfolding sum_from
sum_from-eq-total_of [] total t low from_zero small h = grind int_laws
sum_from-eq-total_of (int n ∷ xs) total t (first, rest) from_zero small h =
    let exact =
      added_exactly total n (total_of xs) from_zero first (total_of_nonnegative xs rest) small in
    sum_from-eq-total_of xs (total +ℤ n) t rest (omega int_laws) (omega int_laws)
      (subst (λ s. sum_from s xs ≡ ok t) exact h)
    ∙ omega int_laws
sum_from-eq-total_of (other ∷ xs) total t low from_zero small h = cc

-- Numbers that are not negative and whose sum is at most 2^53 are summed exactly.
pub sum-eq-total_of :
    (xs : List Number) (t : ℤ)
    → All IsNonNegative xs
    → total_of xs ≤ℤ pos (2 ^ 53)
    → sum xs ≡ ok t
    → t ≡ total_of xs
unfolding sum
sum-eq-total_of xs t low small h =
    sum_from-eq-total_of xs (pos 0) t low (omega arith) (omega int_laws) h ∙ omega int_laws
