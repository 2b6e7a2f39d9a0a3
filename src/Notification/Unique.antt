-- ===== src/Notification/Unique.antt =====
-- The dedupe keys of the outbox.
use sobkichu.Prelude.{
  ◌≡◌, refl, arith, true, false, inl, inr, Bool-cases, Option, none, some, List, [], ◌∷◌, ◌++◌,
  if◌then◌else◌, ok, Text, text_eq, text_eq_iff,
}
use sobkichu.Database.{Db, UserRow, OutboxRow, Channel}
use sobkichu.Database.Transaction.{Engine, execute-eq-ok, bind-eq-ok}
use sobkichu.Notification.ChannelPolicy.{channels_for}
use sobkichu.Notification.Outbox.{OutboxEntry, has_dedupe_key, new_row, insert_entry, enqueue}
use sobkichu.Notification.Adapter.{
  NotificationRequest, find_user, entry_for, enqueue_channels, notify_found, notify,
}

pub notify-eq-ok :
    (engine : Engine) (request : NotificationRequest) (db db' : Db) {u : Unit {0}}
    → notify engine request db ≡ ok (u, db')
    → (user : UserRow) × (find_user request.user_id db.users ≡ some user)
      × (enqueue_channels engine request user (channels_for request.event) db ≡ ok (u, db'))
unfolding notify
notify-eq-ok engine request db db' {u} h = found (find_user request.user_id db.users) h
  where
    found :
        (o : Option UserRow)
        → notify_found engine request o db ≡ ok (u, db')
        → (user : UserRow) × (o ≡ some user)
          × (enqueue_channels engine request user (channels_for request.event) db ≡ ok (u, db'))
    found none e = cc
    found (some user) e = (user, refl, e)

abbrev pub OnlyOutbox : Db → Db → Type 0
OnlyOutbox db db' = db' ≡ record db { outbox = db'.outbox }

insert_entry-OnlyOutbox :
    (engine : Engine) (entry : OutboxEntry) (db : Db) → OnlyOutbox db (insert_entry engine entry db)
unfolding insert_entry
insert_entry-OnlyOutbox engine entry db = ground arith

enqueue_channels-OnlyOutbox :
    (engine : Engine) (request : NotificationRequest) (user : UserRow) (channels : List Channel)
    (db db' : Db) {u : Unit {0}}
    → enqueue_channels engine request user channels db ≡ ok (u, db')
    → OnlyOutbox db db'
unfolding enqueue_channels enqueue
enqueue_channels-OnlyOutbox engine request user [] db db' h = cc
enqueue_channels-OnlyOutbox engine request user (c ∷ cs) db db' h =
    let (_, mid, first, rest) = bind-eq-ok (enqueue engine (entry_for request user c)) _ db h in
    let step = execute-eq-ok engine _ db mid first in
    let tail = enqueue_channels-OnlyOutbox engine request user cs mid db' rest in
    cc (insert_entry-OnlyOutbox engine (entry_for request user c) db)

pub notify-OnlyOutbox :
    (engine : Engine) (request : NotificationRequest) (db db' : Db) {u : Unit {0}}
    → notify engine request db ≡ ok (u, db')
    → OnlyOutbox db db'
notify-OnlyOutbox engine request db db' h =
    let (user, _, sent) = notify-eq-ok engine request db db' h in
    enqueue_channels-OnlyOutbox engine request user (channels_for request.event) db db' sent

pub has_dedupe_key-append :
    (key : Text) (xs : List OutboxRow) (row : OutboxRow)
    → has_dedupe_key key (xs ++ row ∷ [])
      ≡ (if has_dedupe_key key xs then true else text_eq row.dedupe_key key)
unfolding has_dedupe_key
has_dedupe_key-append key [] row = ground arith
has_dedupe_key-append key (x ∷ xs) row = ground (arith, has_dedupe_key-append key xs row)

-- No two rows of the outbox have the same dedupe key.
abbrev pub HasDistinctKeys : List OutboxRow → Type 0
HasDistinctKeys [] = Unit
HasDistinctKeys (row ∷ rows) = (has_dedupe_key row.dedupe_key rows ≡ false) × HasDistinctKeys rows

append-HasDistinctKeys :
    (rows : List OutboxRow) (row : OutboxRow)
    → HasDistinctKeys rows
    → has_dedupe_key row.dedupe_key rows ≡ false
    → HasDistinctKeys (rows ++ row ∷ [])
unfolding has_dedupe_key
append-HasDistinctKeys [] row h fresh = (refl, tt)
append-HasDistinctKeys (x ∷ xs) row h fresh =
    let tail = append-HasDistinctKeys xs row h.1 (ground arith) in
    (
      ground (
        arith,
        has_dedupe_key-append x.dedupe_key xs row,
        text_eq_iff x.dedupe_key row.dedupe_key,
        text_eq_iff row.dedupe_key x.dedupe_key,
      ),
      tail,
    )

insert_entry-HasDistinctKeys :
    (engine : Engine) (entry : OutboxEntry) (db : Db)
    → HasDistinctKeys db.outbox
    → HasDistinctKeys (insert_entry engine entry db).outbox
unfolding insert_entry
insert_entry-HasDistinctKeys engine entry db h =
    elim (Bool-cases (has_dedupe_key entry.dedupe_key db.outbox)) [
      | inl old ↦ rw old h
      | inr fresh ↦
          rw fresh
            (append-HasDistinctKeys db.outbox (new_row engine entry db) h (unfold new_row in fresh))
    ]

enqueue_channels-HasDistinctKeys :
    (engine : Engine) (request : NotificationRequest) (user : UserRow) (channels : List Channel)
    (db db' : Db) {u : Unit {0}}
    → enqueue_channels engine request user channels db ≡ ok (u, db')
    → HasDistinctKeys db.outbox
    → HasDistinctKeys db'.outbox
unfolding enqueue_channels enqueue
enqueue_channels-HasDistinctKeys engine request user [] db db' h d =
    let same : db' ≡ db = cc in rw same d
enqueue_channels-HasDistinctKeys engine request user (c ∷ cs) db db' h d =
    let (_, mid, first, rest) = bind-eq-ok (enqueue engine (entry_for request user c)) _ db h in
    let step = execute-eq-ok engine _ db mid first in
    enqueue_channels-HasDistinctKeys engine request user cs mid db' rest
      (rw step (insert_entry-HasDistinctKeys engine (entry_for request user c) db d))

-- Queuing a notification never puts two rows with one dedupe key into the outbox.
pub notify-HasDistinctKeys :
    (engine : Engine) (request : NotificationRequest) (db db' : Db) {u : Unit {0}}
    → notify engine request db ≡ ok (u, db')
    → HasDistinctKeys db.outbox
    → HasDistinctKeys db'.outbox
notify-HasDistinctKeys engine request db db' h d =
    let (user, _, sent) = notify-eq-ok engine request db db' h in
    enqueue_channels-HasDistinctKeys engine request user (channels_for request.event) db db' sent d
