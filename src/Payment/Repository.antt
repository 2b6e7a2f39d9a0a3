-- ===== src/Payment/Repository.antt =====
-- api/src/payment/payment.repository.ts: the statements on the transaction table.
use sobkichu.Prelude.{
  Bool, true, false, ◌&&◌, Option, none, some, List, [], ◌∷◌, leb, if◌then◌else◌, Text, text_eq,
}
use sobkichu.Database.{TransactionRow, SettlementStatus}
use sobkichu.Database.Transaction.{Engine, M, execute, query}
use sobkichu.DeliveryClock.{Date}

-- `column = $1`, which no NULL satisfies.
abbrev pub column_eq : Option Text → Text → Bool
column_eq none key = false
column_eq (some value) key = text_eq value key

unfoldable pub has_ref : Text → Text → TransactionRow → Bool
has_ref aggregator ref row = column_eq row.aggregator aggregator && column_eq row.aggregator_ref ref

unfoldable pub find_ref : Text → Text → List TransactionRow → Option TransactionRow
unfolding has_ref
find_ref aggregator ref [] = none
find_ref aggregator ref (row ∷ rows) =
    if has_ref aggregator ref row then some row else find_ref aggregator ref rows

unfoldable pub find_by_aggregator_ref : Text → Text → M (Option TransactionRow)
unfolding find_ref
find_by_aggregator_ref aggregator ref = query (λ db. find_ref aggregator ref db.transactions)

abbrev pub is_pending : SettlementStatus → Bool
is_pending SettlementStatus.pending = true
is_pending _ = false

unfoldable pub pending_for : Text → TransactionRow → Bool
pending_for order_id row = text_eq row.order_id order_id && is_pending row.status

-- The row that occurred first of a row and the rows after it, of which one is known.
abbrev pub earlier : TransactionRow → Option TransactionRow → TransactionRow
earlier row none = row
earlier row (some later) = if leb row.occurred_at later.occurred_at then row else later

-- `ORDER BY occurred_at LIMIT 1` over the pending rows of an order.
unfoldable pub find_pending : Text → List TransactionRow → Option TransactionRow
unfolding pending_for
find_pending order_id [] = none
find_pending order_id (row ∷ rows) =
    if pending_for order_id row
    then some (earlier row (find_pending order_id rows))
    else find_pending order_id rows

unfoldable pub find_pending_for_order : Text → M (Option TransactionRow)
unfolding find_pending
find_pending_for_order order_id = query (λ db. find_pending order_id db.transactions)

-- An UPDATE of the rows with an id.
unfoldable pub update_transactions :
    Text → (TransactionRow → TransactionRow) → List TransactionRow → List TransactionRow
update_transactions id f [] = []
update_transactions id f (row ∷ rows) =
    (if text_eq row.id id then f row else row) ∷ update_transactions id f rows

abbrev pub settled_row : Text → Text → Date → TransactionRow → TransactionRow
settled_row aggregator ref settled_at row = record row {
  status = SettlementStatus.settled;
  aggregator = some aggregator;
  aggregator_ref = some ref;
  settled_at = some settled_at;
}

unfoldable pub mark_settled : Engine → Text → Text → Text → Date → M (Unit {0})
unfolding update_transactions
mark_settled engine id aggregator ref settled_at = execute engine (λ db. record db {
  transactions = update_transactions id (settled_row aggregator ref settled_at) db.transactions;
})

abbrev pub failed_row : Text → Text → TransactionRow → TransactionRow
failed_row aggregator ref row = record row {
  status = SettlementStatus.failed;
  aggregator = some aggregator;
  aggregator_ref = some ref;
}

unfoldable pub mark_failed : Engine → Text → Text → Text → M (Unit {0})
unfolding update_transactions
mark_failed engine id aggregator ref = execute engine (λ db. record db {
  transactions = update_transactions id (failed_row aggregator ref) db.transactions;
})
