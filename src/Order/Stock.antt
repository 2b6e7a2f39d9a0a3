-- ===== src/Order/Stock.antt =====
-- How far the stock check of a cart reaches.
use sobkichu.Prelude.{
  ◌≡◌, arith, ℤ, pos, ◌+ℤ◌, ◌≤ℤ◌, int_laws, some, List, [], ◌∷◌, All, ok, Text, ℕ, zero, suc,
}
use sobkichu.Ports.{ResolvedCartLine}
use sobkichu.Order.Service.{assert_cart_is_orderable}
use sobkichu.Order.Gates.{IsOrderable, assert_cart_is_orderable_iff}

-- A cart that names the same line n times.
abbrev pub repeated : ℕ → ResolvedCartLine → List ResolvedCartLine
repeated zero line = []
repeated (suc n) line = line ∷ repeated n line

abbrev pub total_quantity : List ResolvedCartLine → ℤ
total_quantity [] = pos 0
total_quantity (line ∷ lines) = line.quantity +ℤ total_quantity lines

repeated-IsOrderable :
    (n : ℕ) (line : ResolvedCartLine) (role : Text)
    → IsOrderable role line
    → All (IsOrderable role) (repeated n line)
repeated-IsOrderable zero line role h = tt
repeated-IsOrderable (suc n) line role h = (h, repeated-IsOrderable n line role h)

total_quantity-repeated :
    (n : ℕ) (line : ResolvedCartLine)
    → pos 1 ≤ℤ line.quantity
    → pos n ≤ℤ total_quantity (repeated n line)
total_quantity-repeated zero line h = omega arith
total_quantity-repeated (suc n) line h =
    let tail = total_quantity-repeated n line h in grind int_laws

-- The stock is compared with each line alone: a line that passes the cart check also passes it
-- as often as one likes, so that the cart asks for more than any stock.
pub repeated_lines_exceed_stock :
    (line : ResolvedCartLine) (role : Text) (stock : ℕ)
    → line.stock_qty ≡ some (pos stock)
    → assert_cart_is_orderable (line ∷ []) role ≡ ok tt
    → (assert_cart_is_orderable (repeated (suc stock) line) role ≡ ok tt)
      × (pos (suc stock) ≤ℤ total_quantity (repeated (suc stock) line))
repeated_lines_exceed_stock line role stock tracked h =
    let (one, _) = (assert_cart_is_orderable_iff (line ∷ []) role).0 h in
    (
      (assert_cart_is_orderable_iff (repeated (suc stock) line) role).1
          (repeated-IsOrderable (suc stock) line role one),
      total_quantity-repeated (suc stock) line one.positive,
    )
