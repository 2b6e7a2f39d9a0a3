-- ===== src/Notification/Dispatcher.antt =====
-- api/src/notification/notification.dispatcher.ts: one batch of deliveries, each recorded in a
-- transaction of its own. The gateways are parameters, whose answer may depend on the moment.
use sobkichu.Prelude.{
  ℕ, ◌+◌, Option, none, some, List, [], ◌∷◌, Result, ok, err, ◌>>=◌, Exception, bad_request,
  forbidden, not_found, conflict, unauthorized, money_error, missing_template, plain_error,
  database_error, Text, lit, length,
}
use sobkichu.Database.{Db, Channel, sms, push, OutboxRow}
use sobkichu.Database.Transaction.{Engine, with_transaction}
use sobkichu.Notification.Delivery.{claim_pending, mark_sent, mark_failed}
use sobkichu.Notification.Render.{Entry, RenderedMessage, render_template}

abbrev pub max_attempts : ℕ
max_attempts = 5

abbrev pub batch_size : ℕ
batch_size = 50

pub record DispatchSummary : Type 0 where
  pub claimed : ℕ
  pub sent : ℕ
  pub failed : ℕ

-- What a gateway throws, if it does: `send(phone, body)` and `send(userId, title, body)`.
pub record Gateways : Type 0 where
  pub send_sms : Db → Text → Text → Option Exception
  pub send_push : Db → Text → Text → Text → Option Exception

abbrev pub throw_some : Option Exception → Result (Unit {0})
throw_some none = ok tt
throw_some (some e) = err e

abbrev pub call_gateway : Gateways → Db → Channel → OutboxRow → RenderedMessage → Result (Unit {0})
call_gateway gateways db sms row message =
    throw_some (gateways.send_sms db row.phone_e164 message.body)
call_gateway gateways db push row message =
    throw_some (gateways.send_push db row.user_id message.title message.body)

unfoldable pub send_row : Gateways → List Entry → OutboxRow → Db → Result (Unit {0})
unfolding render_template lit
send_row gateways templates row db = do
  message ← render_template templates (lit row.template_key) row.language row.params
  call_gateway gateways db row.channel row message

-- `error.message`
unfoldable pub message_of : Exception → Text
unfolding lit
message_of (bad_request s) = lit s
message_of (forbidden s) = lit s
message_of (not_found s) = lit s
message_of (conflict s) = lit s
message_of (unauthorized s) = lit s
message_of (money_error s) = lit s
message_of (missing_template s) = lit s
message_of (plain_error s) = lit s
message_of (database_error code s) = lit s

-- The constructors are the two results of `deliver`.
pub data DeliveryOutcome : Type 0 where
  was_sent was_failed : DeliveryOutcome

-- The `try` of `deliver`: a row that is sent is marked, in a transaction.
unfoldable pub mark_if_sent : Engine → OutboxRow → Result (Unit {0}) → Db → Result (Unit {0}) × Db
mark_if_sent engine row (ok _) db = with_transaction engine (mark_sent engine row.id) db
mark_if_sent engine row (err e) db = (err e, db)

abbrev pub failed_outcome : Result (Unit {0}) × Db → Result DeliveryOutcome × Db
failed_outcome (ok _, db) = (ok was_failed, db)
failed_outcome (err e, db) = (err e, db)

-- The `catch` of `deliver`.
unfoldable pub record_outcome :
    Engine → OutboxRow → Result (Unit {0}) × Db → Result DeliveryOutcome × Db
unfolding message_of
record_outcome engine row (ok _, db) = (ok was_sent, db)
record_outcome engine row (err e, db) =
    failed_outcome
      (with_transaction engine (mark_failed engine row.id (message_of e) max_attempts) db)

unfoldable pub deliver :
    Engine → Gateways → List Entry → OutboxRow → Db → Result DeliveryOutcome × Db
unfolding record_outcome mark_if_sent send_row
deliver engine gateways templates row db =
    record_outcome engine row (mark_if_sent engine row (send_row gateways templates row db) db)

abbrev pub count_outcome : DeliveryOutcome → DispatchSummary → DispatchSummary
count_outcome was_sent summary = record summary { sent = summary.sent + 1 }
count_outcome was_failed summary = record summary { failed = summary.failed + 1 }

-- The loop of `dispatchBatch`, which a throw in `deliver` leaves.
unfoldable pub deliver_all :
    Engine
    → Gateways
    → List Entry
    → List OutboxRow
    → DispatchSummary
    → Db
    → Result DispatchSummary × Db
unfolding deliver
deliver_all engine gateways templates [] summary db = (ok summary, db)
deliver_all engine gateways templates (row ∷ rows) summary db =
    let (answer, db') = deliver engine gateways templates row db in
    elim answer [
      | err e ↦ (err e, db')
      | ok outcome ↦ deliver_all engine gateways templates rows (count_outcome outcome summary) db'
    ]

abbrev pub started : List OutboxRow → DispatchSummary
started rows = record { claimed = length rows; sent = 0; failed = 0 }

abbrev pub deliver_claimed :
    Engine → Gateways → List Entry → Result (List OutboxRow) × Db → Result DispatchSummary × Db
deliver_claimed engine gateways templates (err e, db) = (err e, db)
deliver_claimed engine gateways templates (ok rows, db) =
    deliver_all engine gateways templates rows (started rows) db

unfoldable pub dispatch_batch :
    Engine → Gateways → List Entry → ℕ → Db → Result DispatchSummary × Db
unfolding deliver_all
dispatch_batch engine gateways templates limit db =
    deliver_claimed engine gateways templates (with_transaction engine (claim_pending limit) db)
