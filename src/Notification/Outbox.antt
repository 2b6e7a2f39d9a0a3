-- ===== src/Notification/Outbox.antt =====
-- api/src/notification/notification.repository.ts: the statements on notification_outbox.
use sobkichu.Prelude.{
  Bool, true, false, Option, none, List, [], ◌∷◌, ◌++◌, if◌then◌else◌, String, Text, text_eq,
}
use sobkichu.Database.{Db, OutboxRow, Channel, NotificationStatus}
use sobkichu.Database.Transaction.{Engine, M, execute}

pub record OutboxEntry : Type 0 where
  pub user_id : Text
  pub phone_e164 : Text
  pub language : Text
  pub channel : Channel
  pub template_key : String
  pub params : List (String × Text)
  pub order_id : Option Text
  pub dedupe_key : Text

-- A row of the outbox has this dedupe key.
unfoldable pub has_dedupe_key : Text → List OutboxRow → Bool
has_dedupe_key key [] = false
has_dedupe_key key (row ∷ rows) =
    if text_eq row.dedupe_key key then true else has_dedupe_key key rows

-- The row that an INSERT of an entry makes, with the defaults of the table.
unfoldable pub new_row : Engine → OutboxEntry → Db → OutboxRow
new_row engine entry db = record {
  id = engine.new_id db;
  user_id = entry.user_id;
  phone_e164 = entry.phone_e164;
  language = entry.language;
  channel = entry.channel;
  template_key = entry.template_key;
  params = entry.params;
  order_id = entry.order_id;
  dedupe_key = entry.dedupe_key;
  status = NotificationStatus.pending;
  attempts = 0;
  created_at = engine.now db;
  sent_at = none;
  last_error = none;
}

-- `INSERT … ON CONFLICT (dedupe_key) DO NOTHING`
unfoldable pub insert_entry : Engine → OutboxEntry → Db → Db
unfolding new_row
insert_entry engine entry db =
    if has_dedupe_key entry.dedupe_key db.outbox
    then db
    else record db { outbox = db.outbox ++ new_row engine entry db ∷ [] }

-- `NotificationRepository.enqueue`
unfoldable pub enqueue : Engine → OutboxEntry → M (Unit {0})
enqueue engine entry = execute engine (insert_entry engine entry)
