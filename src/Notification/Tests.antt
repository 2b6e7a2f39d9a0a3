-- ===== src/Notification/Tests.antt =====
-- Notifications to the buyer of the small shop.
use sobkichu.Notification.Outbox.{insert_entry, enqueue, has_dedupe_key}
use sobkichu.Database.Transaction.{execute}
use sobkichu.Notification.ChannelPolicy.{channels_for, delivered}
use sobkichu.Notification.Adapter.{channel_key, notify, NotificationRequest}
use sobkichu.Prelude.{
  lit, text_eq, arith, List, All, ◌≡◌, refl, some, [], ◌∷◌, ok, err, plain_error,
}
use sobkichu.Database.{OutboxRow, Db}
use sobkichu.Notification.Delivery.{claim_pending, mark_failed}
use sobkichu.Notification.Claims.{HasAttemptsLeft}
use sobkichu.Notification.Unique.{HasDistinctKeys, notify-HasDistinctKeys}
use sobkichu.Fixtures.{calm, shop}

abbrev request : NotificationRequest
request = record {
  user_id = lit "u1";
  event = delivered;
  params = ("orderRef", lit "o-1") ∷ [];
  order_id = some (lit "o-1");
  dedupe_key = lit "delivered:o-1";
}

abbrev box : Db → Db
box db = elim (notify calm request db) [ ok (_, db') ↦ db' | err _ ↦ db ]

abbrev after : Db
after = box shop

notified : notify calm request shop ≡ ok (tt, after)
unfolding notify lit text_eq channels_for enqueue execute
notified = refl

stranger :
    notify calm (record request { user_id = lit "u9" }) shop
    ≡ err (plain_error "Cannot notify unknown user")
unfolding notify lit text_eq
stranger = refl

notify-HasDistinctKeys_example : HasDistinctKeys after.outbox
notify-HasDistinctKeys_example = notify-HasDistinctKeys calm request shop after notified tt

abbrev batch : List OutboxRow
batch = elim (claim_pending 1 after) [ ok (rows, _) ↦ rows | err _ ↦ [] ]

batch_run : claim_pending 1 after ≡ ok (batch, after)
unfolding claim_pending
batch_run = refl

abbrev tried : Db
tried = elim (mark_failed calm (lit "o-1") (lit "no route") 5 after) [
  | ok (_, db') ↦ db'
  | err _ ↦ after
]

tried_run : mark_failed calm (lit "o-1") (lit "no route") 5 after ≡ ok (tt, tried)
unfolding mark_failed lit execute
tried_run = refl

fresh_rows : All (HasAttemptsLeft 5) after.outbox
unfolding notify lit text_eq channels_for enqueue execute insert_entry has_dedupe_key channel_key
fresh_rows = ((λ _. omega arith), ((λ _. omega arith), tt))
