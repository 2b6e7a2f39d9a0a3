-- ===== src/Notification/Mandatory.antt =====
-- The SMS of an event, and a notification that is queued again.
use sobkichu.Prelude.{
  ◌≡◌, refl, ◌∙◌, ap, arith, true, ◌⊎◌, inl, inr, none, some, List, [], ◌∷◌, ok, All, Text,
  text_eq_refl,
}
use sobkichu.Database.{Db, UserRow, OutboxRow, Channel, sms}
use sobkichu.Database.Transaction.{Engine, execute-eq-ok, bind-eq-ok, bind-ok, execute-same}
use sobkichu.Notification.ChannelPolicy.{
  NotifiableEvent, otp, order_confirmed, payment_received, payment_failed, out_for_delivery,
  delivered, channels_for, requires_sms,
}
use sobkichu.Notification.Outbox.{OutboxEntry, has_dedupe_key, new_row, insert_entry, enqueue}
use sobkichu.Notification.Unique.{notify-eq-ok, notify-OnlyOutbox, has_dedupe_key-append}
use sobkichu.Notification.Adapter.{
  NotificationRequest, find_user, channel_key, entry_for, enqueue_channels, notify_found, notify,
}

abbrev pub Includes : Channel → List Channel → Type 0
Includes c [] = ⊥
Includes c (x ∷ xs) = (x ≡ c) ⊎ Includes c xs

-- SMS is among the channels of every event, and the flag that says so is set.
pub sms_mandatory :
    (event : NotifiableEvent) → (requires_sms event ≡ true) × Includes sms (channels_for event)
unfolding requires_sms channels_for
sms_mandatory otp = (refl, inl refl)
sms_mandatory order_confirmed = (refl, inr (inl refl))
sms_mandatory payment_received = (refl, inr (inl refl))
sms_mandatory payment_failed = (refl, inr (inl refl))
sms_mandatory out_for_delivery = (refl, inr (inl refl))
sms_mandatory delivered = (refl, inr (inl refl))

insert_entry_keeps :
    (engine : Engine) (entry : OutboxEntry) (key : Text) (db : Db)
    → has_dedupe_key key db.outbox ≡ true
    → has_dedupe_key key (insert_entry engine entry db).outbox ≡ true
unfolding insert_entry
insert_entry_keeps engine entry key db h =
    ground (arith, has_dedupe_key-append key db.outbox (new_row engine entry db))

insert_entry_queues :
    (engine : Engine) (entry : OutboxEntry) (db : Db)
    → has_dedupe_key entry.dedupe_key (insert_entry engine entry db).outbox ≡ true
unfolding insert_entry new_row
insert_entry_queues engine entry db = ground (
  arith,
  has_dedupe_key-append entry.dedupe_key db.outbox (new_row engine entry db),
  text_eq_refl entry.dedupe_key,
)

enqueue_channels_keeps :
    (engine : Engine) (request : NotificationRequest) (user : UserRow) (channels : List Channel)
    (key : Text) (db db' : Db) {u : Unit {0}}
    → enqueue_channels engine request user channels db ≡ ok (u, db')
    → has_dedupe_key key db.outbox ≡ true
    → has_dedupe_key key db'.outbox ≡ true
unfolding enqueue_channels enqueue
enqueue_channels_keeps engine request user [] key db db' h k = let same : db' ≡ db = cc in rw same k
enqueue_channels_keeps engine request user (c ∷ cs) key db db' h k =
    let (_, mid, first, rest) = bind-eq-ok (enqueue engine (entry_for request user c)) _ db h in
    let step = execute-eq-ok engine _ db mid first in
    enqueue_channels_keeps engine request user cs key mid db' rest
      (rw step (insert_entry_keeps engine (entry_for request user c) key db k))

enqueue_channels_queues :
    (engine : Engine) (request : NotificationRequest) (user : UserRow) (channels : List Channel)
    (c : Channel) (db db' : Db) {u : Unit {0}}
    → enqueue_channels engine request user channels db ≡ ok (u, db')
    → Includes c channels
    → has_dedupe_key (channel_key request c) db'.outbox ≡ true
unfolding enqueue_channels enqueue
enqueue_channels_queues engine request user [] c db db' h k = absurd k
enqueue_channels_queues engine request user (x ∷ cs) c db db' h (inr k) =
    let (_, mid, first, rest) = bind-eq-ok (enqueue engine (entry_for request user x)) _ db h in
    enqueue_channels_queues engine request user cs c mid db' rest k
enqueue_channels_queues engine request user (x ∷ cs) c db db' h (inl same) =
    let (_, mid, first, rest) = bind-eq-ok (enqueue engine (entry_for request user x)) _ db h in
    let step = execute-eq-ok engine _ db mid first in
    rw (← same) (
      enqueue_channels_keeps engine request user cs (channel_key request x) mid db' rest
        (rw step (unfold entry_for in insert_entry_queues engine (entry_for request user x) db)))

-- Every listed channel has its row already.
abbrev AllQueued : NotificationRequest → List OutboxRow → List Channel → Type 0
AllQueued request rows = All (λ c. has_dedupe_key (channel_key request c) rows ≡ true)

enqueue_channels_again :
    (engine : Engine) (request : NotificationRequest) (user : UserRow) (channels : List Channel)
    (db : Db)
    → engine.refuses db ≡ none
    → AllQueued request db.outbox channels
    → enqueue_channels engine request user channels db ≡ ok (tt, db)
unfolding enqueue_channels enqueue
enqueue_channels_again engine request user [] db up h = refl
enqueue_channels_again engine request user (c ∷ cs) db up h =
    let entry = entry_for request user c in
    let same : insert_entry engine entry db ≡ db = unfold insert_entry entry_for in rw (h.0) in
    let first : enqueue engine entry db ≡ ok (tt, db) = execute-same engine _ db same up in
    bind-ok (enqueue engine entry) _ first ∙ enqueue_channels_again engine request user cs db up h.1

all_queued :
    (request : NotificationRequest) (rows : List OutboxRow) (all channels : List Channel)
    → ((c : Channel) → Includes c all → has_dedupe_key (channel_key request c) rows ≡ true)
    → ((c : Channel) → Includes c channels → Includes c all)
    → AllQueued request rows channels
all_queued request rows all [] has sub = tt
all_queued request rows all (c ∷ cs) has sub =
    (has c (sub c (inl refl)), all_queued request rows all cs has (λ x k. sub x (inr k)))

-- A request that is queued a second time, as a replayed webhook does, adds no row: the database
-- stays as the first call left it.
pub notify_idempotent :
    (engine : Engine) (request : NotificationRequest) (db db' : Db) {u : Unit {0}}
    → engine.refuses db' ≡ none
    → notify engine request db ≡ ok (u, db')
    → notify engine request db' ≡ ok (tt, db')
notify_idempotent engine request db db' up h =
    let (user, found, sent) = notify-eq-ok engine request db db' h in
    let frame = notify-OnlyOutbox engine request db db' h in
    let still : find_user request.user_id db'.users ≡ some user =
      ap (λ d. find_user request.user_id d.users) frame ∙ found in
    unfold notify notify_found in
    rw still (
      enqueue_channels_again engine request user (channels_for request.event) db' up (
        all_queued request db'.outbox (channels_for request.event) (channels_for request.event)
          (λ c.
            enqueue_channels_queues engine request user (channels_for request.event) c db db' sent)
          (λ c k. k)))
