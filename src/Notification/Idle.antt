-- ===== src/Notification/Idle.antt =====
-- Batches on a database that refuses nothing.
use sobkichu.Prelude.{◌≡◌, none, List, Result, ok, err}
use sobkichu.Database.{Db, OutboxRow}
use sobkichu.Database.Transaction.{Engine, with_transaction, M, with_transaction-ok}
use sobkichu.Notification.Delivery.{mark_sent}
use sobkichu.Notification.Render.{Entry}
use sobkichu.Notification.Dispatcher.{DispatchSummary, Gateways, DeliveryOutcome, mark_if_sent}
use sobkichu.Notification.Returns.{Returns, execute-Returns}

deliver_then :
    (next : DeliveryOutcome → Db → Result DispatchSummary × Db)
    → Result DeliveryOutcome
    → Db
    → Result DispatchSummary × Db
deliver_then next r out = elim r as (λ _. Result DispatchSummary × Db) [
  | err e ↦ (err e, out)
  | ok o ↦ next o out
]

module _ (engine : Engine) (accepts : (d : Db) → engine.refuses d ≡ none)
    (commits : (d : Db) → engine.commits d ≡ none) (gateways : Gateways)
    (templates : List Entry) where
  committed :
      {A : Type 0} (work : M A) (db : Db)
      → Returns work db
      → (a : A) × (db' : Db) × (with_transaction engine work db ≡ (ok a, db'))
  committed work db (a, d, e) = (a, d, with_transaction-ok engine work db d a e (commits d))

  mark_if_sent_returns :
      (row : OutboxRow) (db : Db) (u : Unit {0})
      → (v : Unit {0}) × (db' : Db) × (mark_if_sent engine row (ok u) db ≡ (ok v, db'))
  unfolding mark_if_sent mark_sent
  mark_if_sent_returns row db u =
      committed (mark_sent engine row.id) db (execute-Returns engine accepts _ db)
