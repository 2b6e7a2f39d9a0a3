-- ===== src/Login/Resent.antt =====
-- The messages of a request for a code.
use sobkichu.Prelude.{ℕ, ◌++◌, Text, lit}
use sobkichu.Login.World.{World}
use sobkichu.Login.Notice.{login_key}

-- The dedupe key of the message of a code: the number and the minute.
abbrev pub message_key : Text → ℕ → Text
message_key phone now = login_key phone now ++ lit ":" ++ lit "sms"
