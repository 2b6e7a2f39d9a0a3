-- ===== src/Order/Service.antt =====
-- api/src/order/order.service.ts: order creation. `escrow_enabled` is the setting ESCROW_ENABLED.
use sobkichu.Prelude.{
  ℤ, pos, Bool, true, false, not, ◌&&◌, Option, none, some, List, [], ◌∷◌, ◌++◌, if◌then◌else◌,
  eqb_ℤ, ltb_ℤ, Result, ok, err, ◌>>=◌, ◌>>◌, throw_if, or_throw, truthy, bad_request, forbidden,
  plain_error, String, Text, lit, text_eq, take,
}
use sobkichu.Money.{Number, int, sum, poisha_to_taka}
use sobkichu.Database.{Db, OrderStatus, PaymentMethod}
use sobkichu.Database.Transaction
use sobkichu.Database.Transaction.{Engine, M, pure, with_transaction}
use sobkichu.DeliveryClock.{is_same_city}
use sobkichu.AdvanceCap.{
  CartLine, AdvanceCapReason, AdvanceCapResult, compute_advance_cap, AdvanceCheck, within_cap,
  refused, not_poisha, exceeds_cap, assert_advance_within_cap, cart_subtotal,
}
use sobkichu.Notification.ChannelPolicy.{order_confirmed}
use sobkichu.Notification.Adapter.{NotificationRequest, notify}
use sobkichu.Ports.{Ports, ResolvedCartLine, RequestedCartLine, MerchantSummary}
use sobkichu.Order.Repository.{
  NewOrderItem, NewOrderRecord, insert_order, insert_items, record_status_event,
  insert_pending_transaction,
}

pub record CreateOrderCommand : Type 0 where
  pub customer_user_id : Text
  pub merchant_role_id : Text
  pub delivery_location_id : Text
  pub payment_method : PaymentMethod
  pub lines : List RequestedCartLine
  pub requested_advance : Number
  pub delivery_fee : Number

pub record CreatedOrder : Type 0 where
  pub order_id : Text
  pub total_bdt : Text
  pub advance_cap_bdt : Text
  pub advance_amount_bdt : Text
  pub is_same_city : Bool
  pub advance_explanation_key : String

abbrev pub is_cod : PaymentMethod → Bool
is_cod PaymentMethod.cod = true
is_cod _ = false

abbrev pub is_escrow_method : PaymentMethod → Bool
is_escrow_method PaymentMethod.escrow = true
is_escrow_method _ = false

-- `line.stockQty !== null && line.quantity > line.stockQty`
abbrev pub exceeds_stock : ℤ → Option ℤ → Bool
exceeds_stock quantity none = false
exceeds_stock quantity (some stock) = ltb_ℤ stock quantity

-- The body of the loop of `assertCartIsOrderable`.
unfoldable pub assert_line_orderable : Text → ResolvedCartLine → Result (Unit {0})
assert_line_orderable merchant_role_id line = do
  throw_if (not line.is_active) (bad_request "error.checkout.listing_unavailable")
  throw_if line.category_restricted (bad_request "error.checkout.category_prohibited")
  throw_if line.category_requires_dgda_licence
      (bad_request "error.checkout.category_requires_licence")
  throw_if (not (text_eq line.merchant_role_id merchant_role_id))
      (bad_request "error.checkout.multiple_merchants")
  throw_if (exceeds_stock line.quantity line.stock_qty)
      (bad_request "error.checkout.insufficient_stock")
  throw_if (ltb_ℤ line.quantity (pos 1)) (bad_request "error.checkout.invalid_quantity")

unfoldable pub assert_cart_is_orderable : List ResolvedCartLine → Text → Result (Unit {0})
unfolding assert_line_orderable
assert_cart_is_orderable [] merchant_role_id = ok tt
assert_cart_is_orderable (line ∷ lines) merchant_role_id =
    assert_line_orderable merchant_role_id line >> assert_cart_is_orderable lines merchant_role_id

-- Step 2, the merchant's eligibility, which ends in the pickup location.
unfoldable pub eligible_pickup : MerchantSummary → Result Text
unfolding truthy
eligible_pickup merchant = do
  throw_if (not merchant.is_active) (bad_request "error.checkout.merchant_unavailable")
  throw_if (not merchant.kyc_verified) (forbidden "error.checkout.merchant_not_verified")
  or_throw (truthy merchant.pickup_location_id)
      (bad_request "error.checkout.merchant_no_pickup_address")

abbrev pub cart_line : ResolvedCartLine → CartLine
cart_line line = record {
  listing_id = line.listing_id;
  quantity = line.quantity;
  unit_price = line.unit_price;
  ready_to_ship = line.ready_to_ship;
}

unfoldable pub cart_lines : List ResolvedCartLine → List CartLine
cart_lines [] = []
cart_lines (line ∷ lines) = cart_line line ∷ cart_lines lines

-- The `catch` around `assertAdvanceWithinCap`.
unfoldable pub accepted_advance : AdvanceCheck → Result ℤ
accepted_advance (within_cap requested) = ok requested
accepted_advance (refused not_poisha) =
    err (plain_error "Requested advance must be non-negative poisha")
accepted_advance (refused (exceeds_cap requested cap reason)) =
    err (bad_request "error.checkout.advance_exceeds_cap")

-- The money of an order: step 4.
pub record Quote : Type 0 where
  pub subtotal : ℤ
  pub total : ℤ
  pub cap : AdvanceCapResult
  pub advance : ℤ

unfoldable pub quote : Bool → CreateOrderCommand → List CartLine → Result Quote
unfolding accepted_advance
quote escrow_enabled command lines = do
  subtotal ← cart_subtotal lines
  total ← sum (int subtotal ∷ command.delivery_fee ∷ [])
  cap ← compute_advance_cap (record {
    lines = lines;
    total = total;
    is_escrow = is_escrow_method command.payment_method && escrow_enabled;
  })
  advance ← accepted_advance (assert_advance_within_cap command.requested_advance cap)
  throw_if (is_cod command.payment_method && not (eqb_ℤ advance (pos 0)))
      (bad_request "error.checkout.cod_cannot_have_advance")
  ok (record { subtotal = subtotal; total = total; cap = cap; advance = advance })

unfoldable pub new_items : List ResolvedCartLine → Result (List NewOrderItem)
new_items [] = ok []
new_items (line ∷ lines) = do
  price ← poisha_to_taka (int line.unit_price)
  rest ← new_items lines
  ok (
      record {
        listing_id = line.listing_id;
        quantity = line.quantity;
        unit_price_bdt = price;
        ready_to_ship_at_order = line.ready_to_ship;
      }
      ∷ rest)

abbrev pub is_escrow_reason : AdvanceCapReason → Bool
is_escrow_reason AdvanceCapReason.escrow = true
is_escrow_reason _ = false

-- The record of step 5, with its amounts printed.
unfoldable pub new_record :
    CreateOrderCommand → List ResolvedCartLine → Bool → Quote → Result NewOrderRecord
unfolding new_items
new_record command resolved same_city quoted = do
  subtotal ← poisha_to_taka (int quoted.subtotal)
  fee ← poisha_to_taka command.delivery_fee
  total ← poisha_to_taka (int quoted.total)
  advance ← poisha_to_taka (int quoted.advance)
  cap ← poisha_to_taka (int quoted.cap.cap)
  items ← new_items resolved
  ok (record {
    customer_user_id = command.customer_user_id;
    merchant_role_id = command.merchant_role_id;
    delivery_location_id = command.delivery_location_id;
    payment_method = command.payment_method;
    subtotal_bdt = subtotal;
    delivery_fee_bdt = fee;
    total_bdt = total;
    advance_amount_bdt = advance;
    advance_cap_bdt = cap;
    is_escrow = is_escrow_reason quoted.cap.reason;
    all_items_ready_to_ship = quoted.cap.all_ready;
    is_same_city = same_city;
    items = items;
  })

abbrev pub no_requested_lines : List RequestedCartLine → Bool
no_requested_lines [] = true
no_requested_lines (_ ∷ _) = false

pub record Prepared : Type 0 where
  pub new : NewOrderRecord
  pub explanation_key : String

-- `createOrder` up to its transaction.
unfoldable pub prepare_order : Bool → Ports → Db → CreateOrderCommand → Result Prepared
unfolding cart_lines
prepare_order escrow_enabled ports db command = do
  throw_if (no_requested_lines command.lines) (bad_request "error.checkout.empty_cart")
  resolved ← ports.resolve_cart_lines db command.lines
  assert_cart_is_orderable resolved command.merchant_role_id
  merchant ← ports.find_merchant db command.merchant_role_id
  pickup_id ← eligible_pickup merchant
  pickup ← ports.find_location db pickup_id
  delivery ← ports.find_location db command.delivery_location_id
  quoted ← quote escrow_enabled command (cart_lines resolved)
  new ← new_record command resolved (is_same_city pickup delivery) quoted
  ok (record { new = new; explanation_key = quoted.cap.explanation_key })

unfoldable pub order_request : NewOrderRecord → Text → NotificationRequest
unfolding lit
order_request new id = record {
  user_id = new.customer_user_id;
  event = order_confirmed;
  params = ("orderRef", take 8 id) ∷ [];
  order_id = some id;
  dedupe_key = lit "order-created:" ++ id;
}

-- The transaction of step 5. A cash-on-delivery order waits for its total, any other for its advance.
unfoldable pub write_order : Engine → NewOrderRecord → M Text
unfolding order_request
write_order engine new = Transaction.◌>>=◌ (insert_order engine new) (λ id.
    Transaction.◌>>◌ (insert_items engine id new.items) (
      Transaction.◌>>◌
        (record_status_event engine (record {
          order_id = id;
          from_status = none;
          to_status = OrderStatus.created;
          actor_role_id = none;
          note_key = some "order.event.created";
        }))
        (Transaction.◌>>◌
          (insert_pending_transaction engine (record {
            order_id = id;
            method = new.payment_method;
            amount_bdt =
                if is_cod new.payment_method then new.total_bdt else new.advance_amount_bdt;
            is_advance = not (is_cod new.payment_method);
          }))
          (Transaction.◌>>◌ (notify engine (order_request new id)) (pure id)))))

abbrev pub created_order : Prepared → Text → CreatedOrder
created_order prepared id = record {
  order_id = id;
  total_bdt = prepared.new.total_bdt;
  advance_cap_bdt = prepared.new.advance_cap_bdt;
  advance_amount_bdt = prepared.new.advance_amount_bdt;
  is_same_city = prepared.new.is_same_city;
  advance_explanation_key = prepared.explanation_key;
}

abbrev pub answered : Prepared → Result Text × Db → Result CreatedOrder × Db
answered prepared (ok id, db) = (ok (created_order prepared id), db)
answered prepared (err e, db) = (err e, db)

unfoldable pub create_prepared : Engine → Result Prepared → Db → Result CreatedOrder × Db
unfolding write_order
create_prepared engine (err e) db = (err e, db)
create_prepared engine (ok prepared) db =
    answered prepared (with_transaction engine (write_order engine prepared.new) db)

-- `createOrder`
unfoldable pub create_order :
    Bool → Engine → Ports → CreateOrderCommand → Db → Result CreatedOrder × Db
unfolding prepare_order create_prepared
create_order escrow_enabled engine ports command db =
    create_prepared engine (prepare_order escrow_enabled ports db command) db
