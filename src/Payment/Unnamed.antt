-- ===== src/Payment/Unnamed.antt =====
-- The orders that a settlement notice does not name.
use sobkichu.Prelude.{
  err, false, text_eq, ◌≡◌, refl, arith, Bool, true, Option-cases, inl, inr, Option, none, some,
  List, [], ◌∷◌, if◌then◌else◌, Result, ok, String, Text,
}
use sobkichu.Database.{Db, OrderStatus, OrderRow, TransactionRow}
use sobkichu.DeliveryClock.{Date, DeliveryDeadline, compute_delivery_deadline}
use sobkichu.Order.Repository.{update_orders, with_status, with_clock}
use sobkichu.Order.Adapter.{OrderForSettlement, settlement_view, find_order}
use sobkichu.Payment.Repository.{find_pending}
use sobkichu.Payment.Service.{SettlementOutcome, settled, failed, SettlementNotice}
use sobkichu.Payment.Effect.{
  moved, marked_settled, marked_failed, clocked, clock_effect, start_effect, advance_effect,
  pending_effect, settlement_effect,
}

abbrev pub found_update : Text → (OrderRow → OrderRow) → Option OrderRow → Option OrderRow
found_update id f none = none
found_update id f (some row) = some (if text_eq row.id id then f row else row)

-- Looking an order up behind an UPDATE that keeps the ids.
pub find_order-with_status :
    (order_id id : Text) (status : OrderStatus) (rows : List OrderRow)
    → find_order order_id (update_orders id (with_status status) rows)
      ≡ found_update id (with_status status) (find_order order_id rows)
unfolding find_order update_orders
find_order-with_status order_id id status [] = refl
find_order-with_status order_id id status (row ∷ rows) =
    ground (arith, find_order-with_status order_id id status rows)

pub find_order-with_clock :
    (order_id id : Text) (paid deadline : Date) (rows : List OrderRow)
    → find_order order_id (update_orders id (with_clock paid deadline) rows)
      ≡ found_update id (with_clock paid deadline) (find_order order_id rows)
unfolding find_order update_orders
find_order-with_clock order_id id paid deadline [] = refl
find_order-with_clock order_id id paid deadline (row ∷ rows) =
    ground (arith, find_order-with_clock order_id id paid deadline rows)

pub find_order-id :
    (order_id : Text) (rows : List OrderRow) (row : OrderRow)
    → find_order order_id rows ≡ some row
    → text_eq row.id order_id ≡ true
unfolding find_order
find_order-id order_id [] row h = cc
find_order-id order_id (r ∷ rows) row h = ground (arith, find_order-id order_id rows row)

module _ (notice : SettlementNotice) where
  -- An order that a notice does not name stays as it is.
  module _ (order_id : Text) (row : OrderRow)
      (unnamed : text_eq row.id notice.order_id ≡ false) where
    moved-other :
        (status : OrderStatus) (key : String) (db : Db)
        → find_order order_id db.orders ≡ some row
        → find_order order_id (moved notice.order_id status key db).orders ≡ some row
    unfolding moved
    moved-other status key db found =
        ground (arith, find_order-with_status order_id notice.order_id status db.orders)

    clocked-other :
        (deadline : Date) (db : Db)
        → find_order order_id db.orders ≡ some row
        → find_order order_id (clocked notice deadline db).orders ≡ some row
    unfolding clocked
    clocked-other deadline db found = ground (
      arith,
      find_order-with_clock order_id notice.order_id notice.occurred_at deadline db.orders,
    )

    clock_effect-other :
        (db : Db) (deadline : Result DeliveryDeadline)
        → find_order order_id db.orders ≡ some row
        → find_order order_id (clock_effect notice db deadline).1.orders ≡ some row
    clock_effect-other db (ok deadline) found = clocked-other deadline.deadline_at db found
    clock_effect-other db (err e) found = found

    start_effect-other :
        (db : Db) (order : Option OrderForSettlement)
        → find_order order_id db.orders ≡ some row
        → find_order order_id (start_effect notice db order).1.orders ≡ some row
    start_effect-other db none found = found
    start_effect-other db (some order) found = elim (Option-cases order.advance_paid_at) [
      | inl unset ↦ rw unset (
          clock_effect-other db (compute_delivery_deadline notice.occurred_at order.is_same_city)
            found)
      | inr (paid, started) ↦ rw started found
    ]

    advance_effect-other :
        (db : Db) (is_advance : Bool)
        → find_order order_id db.orders ≡ some row
        → find_order order_id (advance_effect notice db is_advance).1.orders ≡ some row
    advance_effect-other db true found =
        start_effect-other db (settlement_view (find_order notice.order_id db.orders)) found
    advance_effect-other db false found = found

    pending_effect-other :
        (db : Db) (p : TransactionRow) (outcome : SettlementOutcome)
        → find_order order_id db.orders ≡ some row
        → find_order order_id (pending_effect notice db p outcome).1.orders ≡ some row
    pending_effect-other db p failed found =
        moved-other OrderStatus.awaiting_payment "order.event.payment_failed"
          (marked_failed notice p.id db) (unfold marked_failed in found)
    pending_effect-other db p settled found =
        advance_effect-other
          (moved notice.order_id OrderStatus.confirmed "order.event.payment_received"
            (marked_settled notice p.id db))
          p.is_advance
          (moved-other OrderStatus.confirmed "order.event.payment_received"
            (marked_settled notice p.id db) (unfold marked_settled in found))

    pub settlement_effect-other :
        (db : Db)
        → find_order order_id db.orders ≡ some row
        → find_order order_id (settlement_effect notice db).1.orders ≡ some row
    unfolding settlement_effect
    settlement_effect-other db found =
        elim (Option-cases (find_pending notice.order_id db.transactions)) [
          | inl nothing ↦ ground arith
          | inr (p, is_p) ↦ ground (arith, pending_effect-other db p notice.outcome found)
        ]
