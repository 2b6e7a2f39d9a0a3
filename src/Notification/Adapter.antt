-- ===== src/Notification/Adapter.antt =====
-- api/src/notification/notification.adapter.ts: one outbox row for each channel of the event,
-- inside the caller's transaction.
use sobkichu.Prelude.{
  Option, none, some, List, [], ◌∷◌, ◌++◌, if◌then◌else◌, String, Text, lit, text_eq, plain_error,
}
use sobkichu.Database.{UserRow, Channel, push, sms}
use sobkichu.Database.Transaction.{Engine, M, ◌>>=◌, ◌>>◌, pure, throw, query}
use sobkichu.Notification.ChannelPolicy.{NotifiableEvent, channels_for, template_key_for}
use sobkichu.Notification.Outbox.{OutboxEntry, enqueue}

pub record NotificationRequest : Type 0 where
  pub user_id : Text
  pub event : NotifiableEvent
  pub params : List (String × Text)
  pub order_id : Option Text
  pub dedupe_key : Text

unfoldable pub find_user : Text → List UserRow → Option UserRow
find_user id [] = none
find_user id (row ∷ rows) = if text_eq row.id id then some row else find_user id rows

unfoldable pub channel_name : Channel → Text
unfolding lit
channel_name push = lit "push"
channel_name sms = lit "sms"

unfoldable pub channel_key : NotificationRequest → Channel → Text
unfolding channel_name lit
channel_key request channel = request.dedupe_key ++ lit ":" ++ channel_name channel

unfoldable pub entry_for : NotificationRequest → UserRow → Channel → OutboxEntry
entry_for request recipient channel = record {
  user_id = request.user_id;
  phone_e164 = recipient.phone_e164;
  language = recipient.language_preference;
  channel = channel;
  template_key = template_key_for request.event;
  params = request.params;
  order_id = request.order_id;
  dedupe_key = channel_key request channel;
}

-- The loop over the channels.
unfoldable pub enqueue_channels :
    Engine → NotificationRequest → UserRow → List Channel → M (Unit {0})
unfolding entry_for
enqueue_channels engine request recipient [] = pure tt
enqueue_channels engine request recipient (channel ∷ channels) =
    enqueue engine (entry_for request recipient channel)
    >> enqueue_channels engine request recipient channels

-- `const recipient = rows[0]; if (!recipient) throw …`
unfoldable pub notify_found : Engine → NotificationRequest → Option UserRow → M (Unit {0})
unfolding enqueue_channels
notify_found engine request none = throw (plain_error "Cannot notify unknown user")
notify_found engine request (some user) =
    enqueue_channels engine request user (channels_for request.event)

-- `NotificationAdapter.enqueue`
unfoldable pub notify : Engine → NotificationRequest → M (Unit {0})
unfolding find_user notify_found
notify engine request =
    query (λ db. find_user request.user_id db.users) >>= notify_found engine request
