-- ===== src/Notification/Delivery.antt =====
-- api/src/notification/notification.repository.ts: what the dispatcher claims, and how it records an
-- attempt to deliver.
use sobkichu.Prelude.{
  ℕ, ◌+◌, Bool, true, false, some, List, [], ◌∷◌, leb, if◌then◌else◌, take, Text, text_eq,
}
use sobkichu.Database.{OutboxRow, NotificationStatus}
use sobkichu.Database.Transaction.{Engine, M, execute, query}

abbrev pub awaits : NotificationStatus → Bool
awaits NotificationStatus.pending = true
awaits _ = false

unfoldable pub pending_rows : List OutboxRow → List OutboxRow
pending_rows [] = []
pending_rows (row ∷ rows) = if awaits row.status then row ∷ pending_rows rows else pending_rows rows

-- `ORDER BY created_at`
unfoldable pub insert_by_age : OutboxRow → List OutboxRow → List OutboxRow
insert_by_age row [] = row ∷ []
insert_by_age row (next ∷ rows) =
    if leb row.created_at next.created_at then row ∷ next ∷ rows else next ∷ insert_by_age row rows

unfoldable pub by_age : List OutboxRow → List OutboxRow
unfolding insert_by_age
by_age [] = []
by_age (row ∷ rows) = insert_by_age row (by_age rows)

-- The rows of one batch, the oldest first.
unfoldable pub claimed : ℕ → List OutboxRow → List OutboxRow
unfolding by_age pending_rows
claimed limit rows = take limit (by_age (pending_rows rows))

unfoldable pub claim_pending : ℕ → M (List OutboxRow)
unfolding claimed
claim_pending limit = query (λ db. claimed limit db.outbox)

-- An UPDATE of the rows with an id.
unfoldable pub update_outbox : Text → (OutboxRow → OutboxRow) → List OutboxRow → List OutboxRow
update_outbox id f [] = []
update_outbox id f (row ∷ rows) =
    (if text_eq row.id id then f row else row) ∷ update_outbox id f rows

abbrev pub sent_row : ℕ → OutboxRow → OutboxRow
sent_row now row = record row {
  status = NotificationStatus.sent;
  sent_at = some now;
  attempts = row.attempts + 1;
}

unfoldable pub mark_sent : Engine → Text → M (Unit {0})
unfolding update_outbox
mark_sent engine id =
    execute engine
      (λ db. record db { outbox = update_outbox id (sent_row (engine.now db)) db.outbox })

abbrev pub attempted_row : Text → ℕ → OutboxRow → OutboxRow
attempted_row error max_attempts row = record row {
  attempts = row.attempts + 1;
  last_error = some (take 500 error);
  status =
      if leb max_attempts (row.attempts + 1)
      then NotificationStatus.abandoned
      else NotificationStatus.pending;
}

unfoldable pub mark_failed : Engine → Text → Text → ℕ → M (Unit {0})
unfolding update_outbox
mark_failed engine id error max_attempts =
    execute engine
      (λ db. record db { outbox = update_outbox id (attempted_row error max_attempts) db.outbox })
