-- ===== src/Order/Repository.antt =====
-- api/src/order/order.repository.ts: the statements on app_order, order_item, order_status_event
-- and transaction. Each is the state that it leaves.
use sobkichu.Prelude.{ℤ, Bool, none, some, List, [], ◌∷◌, ◌++◌, if◌then◌else◌, Text, text_eq}
use sobkichu.Database.{
  Db, OrderStatus, PaymentMethod, OrderRow, OrderItemRow, StatusEvent, TransactionRow,
  SettlementStatus,
}
use sobkichu.Database.Transaction.{Engine, M, ◌>>=◌, ◌>>◌, pure, execute, query}
use sobkichu.DeliveryClock.{Date}

pub record NewOrderItem : Type 0 where
  pub listing_id : Text
  pub quantity : ℤ
  pub unit_price_bdt : Text
  pub ready_to_ship_at_order : Bool

pub record NewOrderRecord : Type 0 where
  pub customer_user_id : Text
  pub merchant_role_id : Text
  pub delivery_location_id : Text
  pub payment_method : PaymentMethod
  pub subtotal_bdt : Text
  pub delivery_fee_bdt : Text
  pub total_bdt : Text
  pub advance_amount_bdt : Text
  pub advance_cap_bdt : Text
  pub is_escrow : Bool
  pub all_items_ready_to_ship : Bool
  pub is_same_city : Bool
  pub items : List NewOrderItem

pub record PendingTransaction : Type 0 where
  pub order_id : Text
  pub method : PaymentMethod
  pub amount_bdt : Text
  pub is_advance : Bool

unfoldable pub order_row : Text → NewOrderRecord → OrderRow
order_row id new = record {
  id = id;
  customer_user_id = new.customer_user_id;
  merchant_role_id = new.merchant_role_id;
  delivery_location_id = new.delivery_location_id;
  status = OrderStatus.created;
  payment_method = new.payment_method;
  subtotal_bdt = new.subtotal_bdt;
  delivery_fee_bdt = new.delivery_fee_bdt;
  total_bdt = new.total_bdt;
  advance_amount_bdt = new.advance_amount_bdt;
  advance_cap_bdt = new.advance_cap_bdt;
  is_escrow = new.is_escrow;
  all_items_ready_to_ship = new.all_items_ready_to_ship;
  is_same_city = new.is_same_city;
  advance_paid_at = none;
  delivery_deadline_at = none;
}

-- `insertOrder`: the row gets the id that the engine makes, which the call returns.
unfoldable pub insert_order : Engine → NewOrderRecord → M Text
unfolding order_row
insert_order engine new = do
  id ← query (λ db. engine.new_id db)
  execute engine (λ db. record db { orders = db.orders ++ order_row id new ∷ [] })
  pure id

unfoldable pub item_row : Text → NewOrderItem → OrderItemRow
item_row order_id item = record {
  order_id = order_id;
  listing_id = item.listing_id;
  quantity = item.quantity;
  unit_price_bdt = item.unit_price_bdt;
  ready_to_ship_at_order = item.ready_to_ship_at_order;
}

unfoldable pub insert_item : Text → NewOrderItem → Db → Db
unfolding item_row
insert_item order_id item db = record db { items = db.items ++ item_row order_id item ∷ [] }

-- `insertItems`: a statement for each item.
unfoldable pub insert_items : Engine → Text → List NewOrderItem → M (Unit {0})
unfolding insert_item
insert_items engine order_id [] = pure tt
insert_items engine order_id (item ∷ items) =
    execute engine (insert_item order_id item) >> insert_items engine order_id items

-- An UPDATE of the rows with an id.
unfoldable pub update_orders : Text → (OrderRow → OrderRow) → List OrderRow → List OrderRow
update_orders id f [] = []
update_orders id f (row ∷ rows) =
    (if text_eq row.id id then f row else row) ∷ update_orders id f rows

abbrev pub with_status : OrderStatus → OrderRow → OrderRow
with_status status row = record row { status = status }

-- `recordStatusEvent`: the event is appended, and the order's status follows it.
unfoldable pub record_status_event : Engine → StatusEvent → M (Unit {0})
unfolding update_orders
record_status_event engine event =
    execute engine (λ db. record db { events = db.events ++ event ∷ [] })
    >> execute engine (λ db. record db {
      orders = update_orders event.order_id (with_status event.to_status) db.orders;
    })

unfoldable pub transaction_row : Engine → PendingTransaction → Db → TransactionRow
transaction_row engine payment db = record {
  id = engine.new_id db;
  order_id = payment.order_id;
  method = payment.method;
  amount_bdt = payment.amount_bdt;
  status = SettlementStatus.pending;
  aggregator = none;
  aggregator_ref = none;
  is_advance = payment.is_advance;
  occurred_at = engine.now db;
  settled_at = none;
}

unfoldable pub insert_pending_transaction : Engine → PendingTransaction → M (Unit {0})
unfolding transaction_row
insert_pending_transaction engine payment =
    execute engine
      (λ db. record db { transactions = db.transactions ++ transaction_row engine payment db ∷ [] })

abbrev pub with_clock : Date → Date → OrderRow → OrderRow
with_clock paid deadline row = record row {
  advance_paid_at = some paid;
  delivery_deadline_at = some deadline;
}

unfoldable pub stamp_delivery_clock : Engine → Text → Date → Date → M (Unit {0})
unfolding update_orders
stamp_delivery_clock engine order_id paid deadline =
    execute engine
      (λ db. record db { orders = update_orders order_id (with_clock paid deadline) db.orders })
