-- ===== src/Order/Columns.antt =====
-- The rows of a created order, column by column.
use sobkichu.Prelude.{◌≡◌, ◌↔◌, Bool, true, false, none, some, List, [], ◌∷◌, ◌++◌, ok, Text}
use sobkichu.Money.{int, poisha_to_taka}
use sobkichu.Database.{Db, OrderStatus, PaymentMethod, OrderRow, OrderItemRow, SettlementStatus}
use sobkichu.Database.Transaction.{Engine}
use sobkichu.AdvanceCap.{AdvanceCapReason}
use sobkichu.Ports.{ResolvedCartLine}
use sobkichu.Order.Repository.{update_orders, with_status}
use sobkichu.Order.Service.{CreateOrderCommand, CreatedOrder, Quote}

-- The amounts of an order as they are stored.
pub record Amounts : Type 0 where
  pub subtotal : Text
  pub fee : Text
  pub total : Text
  pub advance : Text
  pub cap : Text

-- Each is the text of an amount of the quote, or of the delivery fee.
pub record IsPrinted (command : CreateOrderCommand) (quoted : Quote) (amounts : Amounts)
    : Type 0 where
  pub subtotal : poisha_to_taka (int quoted.subtotal) ≡ ok amounts.subtotal
  pub fee : poisha_to_taka command.delivery_fee ≡ ok amounts.fee
  pub total : poisha_to_taka (int quoted.total) ≡ ok amounts.total
  pub advance : poisha_to_taka (int quoted.advance) ≡ ok amounts.advance
  pub cap : poisha_to_taka (int quoted.cap.cap) ≡ ok amounts.cap

-- The rows of the items: one for each line of the cart, in its order.
abbrev pub IsItemised : Text → List ResolvedCartLine → List OrderItemRow → Type 0
IsItemised id [] rows = rows ≡ []
IsItemised id (line ∷ lines) rows =
    (price : Text) × (rest : List OrderItemRow) × (poisha_to_taka (int line.unit_price) ≡ ok price)
    × (rows
        ≡ record {
          order_id = id;
          listing_id = line.listing_id;
          quantity = line.quantity;
          unit_price_bdt = price;
          ready_to_ship_at_order = line.ready_to_ship;
        }
          ∷ rest)
    × IsItemised id lines rest

-- What the first payment of an order is for: the total on delivery, and else the advance.
abbrev pub IsCharge : PaymentMethod → Amounts → Text → Bool → Type 0
IsCharge PaymentMethod.cod amounts amount is_advance =
    (amount ≡ amounts.total) × (is_advance ≡ false)
IsCharge _ amounts amount is_advance = (amount ≡ amounts.advance) × (is_advance ≡ true)

-- What the creation of an order leaves in the database, and what the call answers.
pub record IsStored (engine : Engine) (command : CreateOrderCommand) (db db' : Db)
    (resolved : List ResolvedCartLine) (quoted : Quote) (same_city : Bool) (created : CreatedOrder)
    : Type 0 where
  pub amounts : Amounts
  pub printed : IsPrinted command quoted amounts
  pub is_escrow : Bool
  pub escrowed : (is_escrow ≡ true) ↔ (quoted.cap.reason ≡ AdvanceCapReason.escrow)
  pub rows : List OrderItemRow
  pub itemised : IsItemised (engine.new_id db) resolved rows
  pub amount : Text
  pub is_advance : Bool
  pub charge : IsCharge command.payment_method amounts amount is_advance
  pub row : OrderRow
  pub is_row : row ≡ record {
    id = engine.new_id db;
    customer_user_id = command.customer_user_id;
    merchant_role_id = command.merchant_role_id;
    delivery_location_id = command.delivery_location_id;
    status = OrderStatus.created;
    payment_method = command.payment_method;
    subtotal_bdt = amounts.subtotal;
    delivery_fee_bdt = amounts.fee;
    total_bdt = amounts.total;
    advance_amount_bdt = amounts.advance;
    advance_cap_bdt = amounts.cap;
    is_escrow = is_escrow;
    all_items_ready_to_ship = quoted.cap.all_ready;
    is_same_city = same_city;
    advance_paid_at = none;
    delivery_deadline_at = none;
  }
  -- The tables before the payment: a row with the new id would get the status too.
  pub before : Db
  pub opened : before ≡ record db {
    orders =
        update_orders (engine.new_id db) (with_status OrderStatus.created) db.orders ++ row ∷ [];
    items = db.items ++ rows;
    events =
        db.events
        ++ record {
          order_id = engine.new_id db;
          from_status = none;
          to_status = OrderStatus.created;
          actor_role_id = none;
          note_key = some "order.event.created";
        }
          ∷ [];
  }
  pub charged : db' ≡ record before {
    transactions =
        db.transactions
        ++ record {
          id = engine.new_id before;
          order_id = engine.new_id db;
          method = command.payment_method;
          amount_bdt = amount;
          status = SettlementStatus.pending;
          aggregator = none;
          aggregator_ref = none;
          is_advance = is_advance;
          occurred_at = engine.now before;
          settled_at = none;
        }
          ∷ [];
    outbox = db'.outbox;
  }
  pub answer : created ≡ record {
    order_id = engine.new_id db;
    total_bdt = amounts.total;
    advance_cap_bdt = amounts.cap;
    advance_amount_bdt = amounts.advance;
    is_same_city = same_city;
    advance_explanation_key = quoted.cap.explanation_key;
  }
