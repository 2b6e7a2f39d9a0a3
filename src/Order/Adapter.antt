-- ===== src/Order/Adapter.antt =====
-- api/src/order/order.adapter.ts: what payments may do to an order, in their own transaction.
use sobkichu.Prelude.{Bool, Option, none, some, List, [], ◌∷◌, if◌then◌else◌, String, Text, text_eq}
use sobkichu.Database.{OrderStatus, OrderRow}
use sobkichu.Database.Transaction.{Engine, M, ◌>>=◌, query}
use sobkichu.DeliveryClock.{Date}
use sobkichu.Order.Repository.{record_status_event, stamp_delivery_clock}

pub record OrderForSettlement : Type 0 where
  pub order_id : Text
  pub is_same_city : Bool
  pub advance_paid_at : Option Date
  pub status : OrderStatus

-- The first row with an id, if there is one.
unfoldable pub find_order : Text → List OrderRow → Option OrderRow
find_order id [] = none
find_order id (row ∷ rows) = if text_eq row.id id then some row else find_order id rows

abbrev pub settlement_view : Option OrderRow → Option OrderForSettlement
settlement_view none = none
settlement_view (some row) = some (record {
  order_id = row.id;
  is_same_city = row.is_same_city;
  advance_paid_at = row.advance_paid_at;
  status = row.status;
})

unfoldable pub find_for_settlement : Text → M (Option OrderForSettlement)
unfolding find_order
find_for_settlement order_id = query (λ db. settlement_view (find_order order_id db.orders))

abbrev pub customer_of : Option OrderRow → Option Text
customer_of none = none
customer_of (some row) = some row.customer_user_id

unfoldable pub find_customer : Text → M (Option Text)
unfolding find_order
find_customer order_id = query (λ db. customer_of (find_order order_id db.orders))

-- `rows[0]?.status ?? null`
abbrev pub status_of : Option OrderRow → Option OrderStatus
status_of none = none
status_of (some row) = some row.status

unfoldable pub transition_status : Engine → Text → OrderStatus → String → M (Unit {0})
unfolding find_order
transition_status engine order_id to_status note_key =
    query (λ db. status_of (find_order order_id db.orders)) >>= λ from_status.
    record_status_event engine (record {
      order_id = order_id;
      from_status = from_status;
      to_status = to_status;
      actor_role_id = none;
      note_key = some note_key;
    })

unfoldable pub start_delivery_clock : Engine → Text → Date → Date → M (Unit {0})
start_delivery_clock = stamp_delivery_clock
