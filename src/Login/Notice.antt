-- ===== src/Login/Notice.antt =====
-- api/src/identity/auth.service.ts: the transaction of `requestOtp`.
use sobkichu.Prelude.{ℕ, ◌/◌, none, [], ◌∷◌, ◌++◌, Text, lit}
use sobkichu.Money.{digits}
use sobkichu.Database.Transaction.{Engine, M, ◌>>=◌, ◌>>◌, pure}
use sobkichu.Notification.ChannelPolicy.{otp}
use sobkichu.Notification.Adapter.{NotificationRequest, notify}
use sobkichu.Identity.Users.{find_or_create_by_phone}

-- The minute of the clock is in the dedupe key.
unfoldable pub login_key : Text → ℕ → Text
unfolding lit
login_key phone now = lit "otp:" ++ phone ++ lit ":" ++ digits (now / 60000)

unfoldable pub login_notice : Text → Text → Text → ℕ → NotificationRequest
unfolding login_key
login_notice user_id phone code now = record {
  user_id = user_id;
  event = otp;
  params = ("code", code) ∷ [];
  order_id = none;
  dedupe_key = login_key phone now;
}

unfoldable pub queue_code : Engine → Text → Text → ℕ → M Text
unfolding login_notice
queue_code engine phone code now = do
  id ← find_or_create_by_phone engine phone
  notify engine (login_notice id phone code now)
  pure id
