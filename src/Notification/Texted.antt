-- ===== src/Notification/Texted.antt =====
-- The SMS that a notification leaves in the outbox.
use mathlib.Core.List.{Memᴰ}
use sobkichu.Prelude.{◌≡◌, List, ◌++◌, lit}
use sobkichu.Database.{UserRow, OutboxRow, sms, NotificationStatus}
use sobkichu.Notification.Adapter.{NotificationRequest}

-- The row of a request's SMS: to the user's number and in the user's language, not sent yet.
pub record IsTexted (request : NotificationRequest) (user : UserRow) (row : OutboxRow)
    : Type 0 where
  pub by_sms : row.channel ≡ sms
  pub owner : row.user_id ≡ request.user_id
  pub number : row.phone_e164 ≡ user.phone_e164
  pub language : row.language ≡ user.language_preference
  pub params : row.params ≡ request.params
  pub order : row.order_id ≡ request.order_id
  pub key : row.dedupe_key ≡ request.dedupe_key ++ lit ":sms"
  pub waits : row.status ≡ NotificationStatus.pending
  pub untried : row.attempts ≡ 0
