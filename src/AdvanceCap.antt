-- ===== src/AdvanceCap.antt =====
-- api/src/order/domain/advance-cap.ts: the ceiling on the advance payment of an order. Quantities
-- are whole numbers, as the request's validation makes them.
pub mod Laws
mod Tests
use sobkichu.Prelude.{
  ℕ, ◌+◌, ◌≡◌, refl, Bool, true, false, ◌&&◌, List, [], ◌∷◌, map, leb, if◌then◌else◌, ℤ, pos,
  negsuc, ◌*ℤ◌, double, ltb_ℤ, Result, ok, err, ◌>>=◌, ◌>>◌, throw_if, Exception, plain_error,
  bad_request, String, Text,
}
use sobkichu.Money.{Number, int, other, percentage_of, integer_or_throw, sum}

abbrev pub standard_advance_percent : ℤ
standard_advance_percent = pos 10

pub record CartLine : Type 0 where
  pub listing_id : Text
  pub quantity : ℤ
  pub unit_price : ℤ
  pub ready_to_ship : Bool

pub record AdvanceCapInput : Type 0 where
  pub lines : List CartLine
  pub total : ℤ
  pub is_escrow : Bool

pub data AdvanceCapReason : Type 0 where
  escrow all_items_ready_to_ship standard_cap : AdvanceCapReason

pub record AdvanceCapResult : Type 0 where
  pub cap : ℤ
  pub reason : AdvanceCapReason
  pub all_ready : Bool
  pub explanation_key : String

-- `lines.every((line) => line.readyToShip)`
unfoldable pub every_ready : List CartLine → Bool
every_ready [] = true
every_ready (line ∷ lines) = line.ready_to_ship && every_ready lines

abbrev pub no_lines : List CartLine → Bool
no_lines [] = true
no_lines (_ ∷ _) = false

unfoldable pub compute_advance_cap : AdvanceCapInput → Result AdvanceCapResult
compute_advance_cap input = do
  throw_if (no_lines input.lines) (plain_error "Cannot compute an advance cap for an empty cart")
  let ready = every_ready input.lines
  if input.is_escrow
      then ok (record {
        cap = input.total;
        reason = escrow;
        all_ready = ready;
        explanation_key = "checkout.advance.escrow_full_allowed";
      })
      else if ready
      then ok (record {
        cap = input.total;
        reason = all_items_ready_to_ship;
        all_ready = ready;
        explanation_key = "checkout.advance.ready_to_ship_full_allowed";
      })
      else (percentage_of (int input.total) standard_advance_percent >>= λ tenth. ok (record {
        cap = tenth;
        reason = standard_cap;
        all_ready = ready;
        explanation_key = "checkout.advance.capped_at_ten_percent";
      }))

-- `AdvanceCapExceededError` beside the other errors that the check throws.
pub data AdvanceError : Type 0 where
  not_poisha : AdvanceError
  exceeds_cap : (requested cap : ℤ) → AdvanceCapReason → AdvanceError

-- What `assertAdvanceWithinCap` returns: the requested amount, or the error that it throws.
pub data AdvanceCheck : Type 0 where
  within_cap : ℤ → AdvanceCheck
  refused : AdvanceError → AdvanceCheck

unfoldable pub assert_advance_within_cap : Number → AdvanceCapResult → AdvanceCheck
assert_advance_within_cap (int requested) result =
    if ltb_ℤ requested (pos 0)
    then refused not_poisha
    else if ltb_ℤ result.cap requested
    then refused (exceeds_cap requested result.cap result.reason)
    else within_cap requested
assert_advance_within_cap other result = refused not_poisha

line_totals : List CartLine → List Number
line_totals [] = []
line_totals (line ∷ lines) = int (double (line.unit_price *ℤ line.quantity)) ∷ line_totals lines

-- `cartSubtotal`
unfoldable pub cart_subtotal : List CartLine → Result ℤ
unfolding line_totals
cart_subtotal lines = sum (line_totals lines)
