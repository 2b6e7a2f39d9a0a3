-- ===== src/Payment/Effect.antt =====
-- What a settlement promises of the tables: the result of a notice and the state that it leaves, as
-- one function of the state, with no statement, no failure and no outbox.
use sobkichu.Prelude.{
  Bool, true, false, Option, none, some, [], ◌∷◌, ◌++◌, if◌then◌else◌, Result, ok, err, String,
  Text,
}
use sobkichu.Money.{taka_to_poisha}
use sobkichu.Database.{Db, OrderStatus, TransactionRow}
use sobkichu.DeliveryClock.{Date, DeliveryDeadline, compute_delivery_deadline}
use sobkichu.Order.Repository.{update_orders, with_status, with_clock}
use sobkichu.Order.Adapter.{OrderForSettlement, find_order, settlement_view, status_of}
use sobkichu.Payment.Repository.{
  find_ref, find_pending, update_transactions, settled_row, failed_row,
}
use sobkichu.Payment.Service.{
  SettlementOutcome, settled, failed, SettlementNotice, SettlementResult, applied, duplicate,
  rejected, number_eq,
}

-- An order moves to a status, and the timeline says from which.
unfoldable pub moved : Text → OrderStatus → String → Db → Db
moved order_id to_status note_key db = record db {
  events =
      db.events
      ++ record {
        order_id = order_id;
        from_status = status_of (find_order order_id db.orders);
        to_status = to_status;
        actor_role_id = none;
        note_key = some note_key;
      }
        ∷ [];
  orders = update_orders order_id (with_status to_status) db.orders;
}

unfoldable pub marked_settled : SettlementNotice → Text → Db → Db
marked_settled notice id db = record db {
  transactions =
      update_transactions id
        (settled_row notice.aggregator notice.aggregator_ref notice.occurred_at) db.transactions;
}

unfoldable pub marked_failed : SettlementNotice → Text → Db → Db
marked_failed notice id db = record db {
  transactions =
      update_transactions id (failed_row notice.aggregator notice.aggregator_ref) db.transactions;
}

unfoldable pub clocked : SettlementNotice → Date → Db → Db
clocked notice deadline db = record db {
  orders = update_orders notice.order_id (with_clock notice.occurred_at deadline) db.orders;
}

-- A deadline that cannot be computed makes the call throw; the value here is then not used.
abbrev pub clock_effect : SettlementNotice → Db → Result DeliveryDeadline → SettlementResult × Db
clock_effect notice db (ok deadline) =
    (applied notice.order_id (some deadline.deadline_at), clocked notice deadline.deadline_at db)
clock_effect notice db (err e) = (rejected "", db)

abbrev pub start_effect : SettlementNotice → Db → Option OrderForSettlement → SettlementResult × Db
start_effect notice db none = (rejected "order_not_found", db)
start_effect notice db (some order) = elim order.advance_paid_at [
  | some paid ↦ (applied notice.order_id none, db)
  | none ↦ clock_effect notice db (compute_delivery_deadline notice.occurred_at order.is_same_city)
]

abbrev pub advance_effect : SettlementNotice → Db → Bool → SettlementResult × Db
advance_effect notice db true =
    start_effect notice db (settlement_view (find_order notice.order_id db.orders))
advance_effect notice db false = (applied notice.order_id none, db)

abbrev pub pending_effect :
    SettlementNotice → Db → TransactionRow → SettlementOutcome → SettlementResult × Db
pending_effect notice db pending failed = (
  applied notice.order_id none,
  moved notice.order_id OrderStatus.awaiting_payment "order.event.payment_failed"
      (marked_failed notice pending.id db),
)
pending_effect notice db pending settled =
    advance_effect notice
      (moved notice.order_id OrderStatus.confirmed "order.event.payment_received"
        (marked_settled notice pending.id db))
      pending.is_advance

abbrev pub amount_effect : SettlementNotice → Db → Option TransactionRow → SettlementResult × Db
amount_effect notice db none = (rejected "no_pending_transaction", db)
amount_effect notice db (some pending) = elim (taka_to_poisha pending.amount_bdt) [
  | ok expected ↦
      if number_eq notice.amount expected
      then pending_effect notice db pending notice.outcome
      else (rejected "amount_mismatch", db)
  | err e ↦ (rejected "", db)
]

abbrev pub new_effect : SettlementNotice → Db → Option TransactionRow → SettlementResult × Db
new_effect notice db (some existing) = (duplicate existing.order_id, db)
new_effect notice db none = amount_effect notice db (find_pending notice.order_id db.transactions)

unfoldable pub settlement_effect : SettlementNotice → Db → SettlementResult × Db
settlement_effect notice db =
    new_effect notice db (find_ref notice.aggregator notice.aggregator_ref db.transactions)
