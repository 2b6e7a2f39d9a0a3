-- ===== src/AdvanceCap/Laws.antt =====
-- The ceiling on an advance, and the check of an advance against it.
use mathlib.Core.List.{Memᴰ}
use mathlib.Core.List.Memᴰ.{head, tail}
use sobkichu.Prelude.{
  Bool, All, ◌&&◌, subst, sym, int_laws, magnitude, double_exact, ◌^◌, ◌+◌, ◌*◌, ◌≤◌, ◌≡◌, ◌≢◌, ◌↔◌,
  refl, arith, true, false, List, [], ◌∷◌, ◌++◌, ℤ, pos, negsuc, pos_part, neg_part, ◌*ℤ◌, ◌≤ℤ◌,
  inl, inr, ◌∙◌, Result-cases, ok, ◌+ℤ◌,
}
use sobkichu.Money.{Number, int, other, percentage_of}
use sobkichu.Money.Rounding.{
  total_of, IsNonNegative, percentage_of-IsHundredthDown, sum-eq-total_of,
}
use sobkichu.AdvanceCap.{
  standard_advance_percent, CartLine, AdvanceCapInput, AdvanceCapReason, escrow,
  all_items_ready_to_ship, standard_cap, AdvanceCapResult, every_ready, compute_advance_cap,
  within_cap, assert_advance_within_cap, cart_subtotal, line_totals,
}

-- Ten times a tenth, on the parts: the product of an amount and 10.
*ℤ_ten :
    (a : ℤ) → (pos_part (a *ℤ pos 10) + neg_part a * 10 ≡ neg_part (a *ℤ pos 10) + pos_part a * 10)
unfolding ◌*ℤ◌
*ℤ_ten (pos n) = ground arith
*ℤ_ten (negsuc n) = ground arith

-- `tenth` is at most a tenth
-- of the total, and the next poisha is above it.
abbrev pub IsTenthDown : ℤ → ℤ → Type 0
IsTenthDown total tenth =
    (pos_part tenth * 10 + neg_part total ≤ pos_part total + neg_part tenth * 10)
    × (pos_part total + neg_part tenth * 10 ≤ pos_part tenth * 10 + 9 + neg_part total)

-- A total whose tenth is computed from a product that doubles hold.
abbrev pub IsTenfoldSafe : ℤ → Type 0
IsTenfoldSafe total = magnitude total * 10 ≤ 2 ^ 53

product_safe : (total : ℤ) → IsTenfoldSafe total → magnitude (total *ℤ pos 10) ≤ 2 ^ 53
unfolding ◌*ℤ◌
product_safe (pos n) h = ground arith
product_safe (negsuc n) h = ground arith

pub percentage_of-IsTenthDown :
    (total c : ℤ)
    → IsTenfoldSafe total
    → percentage_of (int total) standard_advance_percent ≡ ok c
    → IsTenthDown total c
percentage_of-IsTenthDown total c safe h =
    let (bounds, _, _) =
      percentage_of-IsHundredthDown total standard_advance_percent c (product_safe total safe) h in
    omega (arith, *ℤ_ten total)

-- A line that can be sent at once, and a cart with one that cannot.
abbrev pub IsReady : CartLine → Type 0
IsReady line = line.ready_to_ship ≡ true

abbrev pub HasUnready : List CartLine → Type 0
HasUnready lines = (line : CartLine) × Memᴰ line lines × (line.ready_to_ship ≡ false)

-- What the reason of a ceiling says of the order, and of the ceiling.
abbrev pub Justifies : AdvanceCapReason → AdvanceCapInput → ℤ → Type 0
Justifies escrow input cap = (input.is_escrow ≡ true) × (cap ≡ input.total)
Justifies all_items_ready_to_ship input cap =
    (input.is_escrow ≡ false) × All IsReady input.lines × (cap ≡ input.total)
Justifies standard_cap input cap =
    (input.is_escrow ≡ false) × HasUnready input.lines × IsTenthDown input.total cap

-- The snapshot of the lines' readiness, which is stored with the order.
abbrev pub IsSnapshot : List CartLine → Bool → Type 0
IsSnapshot lines true = All IsReady lines
IsSnapshot lines false = HasUnready lines

pub every_ready-IsSnapshot : (lines : List CartLine) → IsSnapshot lines (every_ready lines)
unfolding every_ready
every_ready-IsSnapshot [] = tt
every_ready-IsSnapshot (line ∷ lines) =
    split line.ready_to_ship (every_ready lines) refl (every_ready-IsSnapshot lines)
  where
    split :
        (first rest : Bool)
        → line.ready_to_ship ≡ first
        → IsSnapshot lines rest
        → IsSnapshot (line ∷ lines) (first && rest)
    split true true h s = (h, s)
    split true false h (unready, member, not_ready) = (unready, tail member, not_ready)
    split false rest h s = (line, head refl, h)

-- What each branch of the rule tests, and the ceiling that it gives.
abbrev Tests : AdvanceCapReason → AdvanceCapInput → ℤ → Type 0
Tests escrow input cap = (input.is_escrow ≡ true) × (cap ≡ input.total)
Tests all_items_ready_to_ship input cap =
    (input.is_escrow ≡ false) × (every_ready input.lines ≡ true) × (cap ≡ input.total)
Tests standard_cap input cap =
    (input.is_escrow ≡ false) × (every_ready input.lines ≡ false) × IsTenthDown input.total cap

compute_advance_cap-Tests :
    (input : AdvanceCapInput) (r : AdvanceCapResult)
    → IsTenfoldSafe input.total
    → compute_advance_cap input ≡ ok r
    → Tests r.reason input r.cap × (r.all_ready ≡ every_ready input.lines) × (input.lines ≢ [])
unfolding compute_advance_cap
compute_advance_cap-Tests input r safe h =
    elim (Result-cases (percentage_of (int input.total) standard_advance_percent)) [
      | inl (tenth, e) ↦ ground (arith, percentage_of-IsTenthDown input.total tenth safe e)
      | inr (_, e) ↦ ground arith
    ]

Tests-Justifies :
    (reason : AdvanceCapReason) (input : AdvanceCapInput) (cap : ℤ)
    → Tests reason input cap
    → Justifies reason input cap
Tests-Justifies escrow input cap h = h
Tests-Justifies all_items_ready_to_ship input cap (held, ready, same) =
    (held, subst (IsSnapshot input.lines) ready (every_ready-IsSnapshot input.lines), same)
Tests-Justifies standard_cap input cap (held, ready, tenth) =
    (held, subst (IsSnapshot input.lines) ready (every_ready-IsSnapshot input.lines), tenth)

-- Every ceiling that is computed is justified by its reason: the whole total through escrow, or the
-- whole total where all lines are ready to ship, or otherwise, with some line that is not, a tenth
-- of the total, rounded down. The cart is not empty, and the snapshot says whether all lines are
-- ready. The total is one whose tenfold is at most 2^53 in magnitude.
pub compute_advance_cap-Justifies :
    (input : AdvanceCapInput) (r : AdvanceCapResult)
    → IsTenfoldSafe input.total
    → compute_advance_cap input ≡ ok r
    → Justifies r.reason input r.cap × IsSnapshot input.lines r.all_ready × (input.lines ≢ [])
compute_advance_cap-Justifies input r safe h =
    let (tested, snapshot, nonempty) = compute_advance_cap-Tests input r safe h in
    (
      Tests-Justifies r.reason input r.cap tested,
      subst (IsSnapshot input.lines) (sym snapshot) (every_ready-IsSnapshot input.lines),
      nonempty,
    )

every_ready_mixed :
    (xs ys : List CartLine) (line : CartLine)
    → line.ready_to_ship ≡ false
    → every_ready (xs ++ line ∷ ys) ≡ false
unfolding every_ready
every_ready_mixed [] ys line h = rw h
every_ready_mixed (x ∷ xs) ys line h = ground (arith, every_ready_mixed xs ys line h)

-- Without escrow, and at a total whose tenfold is at most 2^53 in magnitude, one line that is not ready to ship, wherever it stands in the cart, holds the
-- ceiling of the whole order to a tenth of the total.
pub mixed_cart_cap :
    (xs ys : List CartLine) (line : CartLine) (total : ℤ) (r : AdvanceCapResult)
    → line.ready_to_ship ≡ false
    → IsTenfoldSafe total
    → compute_advance_cap (record { lines = xs ++ line ∷ ys; total = total; is_escrow = false })
      ≡ ok r
    → (r.reason ≡ standard_cap) × IsTenthDown total r.cap
unfolding compute_advance_cap
mixed_cart_cap xs ys line total r h safe e =
    elim (Result-cases (percentage_of (int total) standard_advance_percent)) [
      | inl (tenth, p) ↦
          ground
            (arith, percentage_of-IsTenthDown total tenth safe p, every_ready_mixed xs ys line h)
      | inr (_, p) ↦ ground (arith, every_ready_mixed xs ys line h)
    ]

-- An advance passes exactly if it is an integer from zero up to the ceiling, and then unchanged:
-- no request is lowered to the ceiling.
pub assert_advance_within_cap_iff :
    (requested : Number) (r : AdvanceCapResult) (a : ℤ)
    → (assert_advance_within_cap requested r ≡ within_cap a)
      ↔ ((requested ≡ int a) × (pos 0 ≤ℤ a) × (a ≤ℤ r.cap))
unfolding assert_advance_within_cap
assert_advance_within_cap_iff (int n) r a = (λ h. ground arith, λ h. ground arith)
assert_advance_within_cap_iff other r a = (λ h. cc, λ h. cc)

-- The price of the goods: each unit price times its quantity.
abbrev pub goods : List CartLine → ℤ
goods [] = pos 0
goods (line ∷ lines) = line.unit_price *ℤ line.quantity +ℤ goods lines

-- A line whose price and quantity are not negative.
abbrev pub IsPositive : CartLine → Type 0
IsPositive line = (pos 0 ≤ℤ line.unit_price) × (pos 0 ≤ℤ line.quantity)

*ℤ_nonnegative : (a b : ℤ) → pos 0 ≤ℤ a → pos 0 ≤ℤ b → neg_part (a *ℤ b) ≡ 0
unfolding ◌*ℤ◌
*ℤ_nonnegative a b h k = ground arith

pub goods_nonnegative : (lines : List CartLine) → All IsPositive lines → pos 0 ≤ℤ goods lines
goods_nonnegative [] h = omega arith
goods_nonnegative (line ∷ lines) ((price, quantity), rest) =
    let low = goods_nonnegative lines rest in
    let first = *ℤ_nonnegative line.unit_price line.quantity price quantity in omega int_laws

-- The totals of the lines are exact, and not negative, where the goods cost at most 2^53 poisha.
line_totals_exact :
    (lines : List CartLine)
    → All IsPositive lines
    → goods lines ≤ℤ pos (2 ^ 53)
    → All IsNonNegative (line_totals lines) × (total_of (line_totals lines) ≡ goods lines)
unfolding line_totals
line_totals_exact [] low small = (tt, refl)
line_totals_exact (line ∷ lines) ((price, quantity), rest) small =
    let low = goods_nonnegative lines rest in
    let first = *ℤ_nonnegative line.unit_price line.quantity price quantity in
    let exact = double_exact (line.unit_price *ℤ line.quantity) (omega int_laws) in
    let (others, same) = line_totals_exact lines rest (omega int_laws) in
    ((subst (λ n. pos 0 ≤ℤ n) (sym exact) (omega arith), others), rw (exact, same))

pub cart_subtotal-eq-goods :
    (lines : List CartLine) (s : ℤ)
    → All IsPositive lines
    → goods lines ≤ℤ pos (2 ^ 53)
    → cart_subtotal lines ≡ ok s
    → s ≡ goods lines
unfolding cart_subtotal
cart_subtotal-eq-goods lines s low small h =
    let (nonnegative, same) = line_totals_exact lines low small in
    sum-eq-total_of (line_totals lines) s nonnegative
      (subst (λ t. t ≤ℤ pos (2 ^ 53)) (sym same) small) h
    ∙ same
