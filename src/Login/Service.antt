-- ===== src/Login/Service.antt =====
-- api/src/identity/auth.service.ts: `requestOtp` and `verifyOtp`. A call reads the clock once, which
-- is an argument, and so is the number that `randomInt` draws.
use sobkichu.Prelude.{
  ℕ, true, false, Option, none, some, ◌++◌, ℤ, pos, Result, or_throw, plain_error, Text, lit,
  truthy,
}
use sobkichu.Node.{Node}
use sobkichu.Database.{UserRow}
use sobkichu.Database.Transaction.{Engine}
use sobkichu.DeliveryClock.{instant}
use sobkichu.RateLimit.{Redis, RateLimitDecision, RateLimitPolicy, hit, otp_request, otp_verify}
use sobkichu.Session.Token.{JsonText, issue_session_token}
use sobkichu.Identity.Numbers.{normalise_bd_phone}
use sobkichu.Identity.Otp.{
  Crypto, OtpChallenge, VerifyReason, wrong, VerifyOutcome, accepted, declined, issue_otp,
}
use sobkichu.Identity.Otp
use sobkichu.Identity.Users.{find_by_phone}
use sobkichu.Identity.Roles.{session_secret}
use sobkichu.Login.World.{App, ◌>>=◌, ◌>>◌, pure, lift, write_cache, in_transaction}
use sobkichu.Login.Store.{Cache, ChallengeJson, save, load, record_attempt, consume}
use sobkichu.Login.Notice.{queue_code}

pub data RequestOtpResult : Type 0 where
  sent : ℤ → RequestOtpResult
  invalid_phone : RequestOtpResult
  rate_limited : ℤ → RequestOtpResult

pub data VerifyOtpResult : Type 0 where
  authenticated : Text → Text → VerifyOtpResult
  rejected : VerifyReason → VerifyOtpResult
  invalid_phone : VerifyOtpResult
  rate_limited : ℤ → VerifyOtpResult

-- What the service is built with, and what node:crypto and JSON give it.
pub record Collaborators (State : Type 0) : Type 0 where
  pub limiter : Redis State
  pub cache : Cache State
  pub challenges : ChallengeJson
  pub crypto : Crypto
  pub node : Node
  pub json : JsonText
  pub engine : Engine
  pub otp_setting : Option Text
  pub session_setting : Option Text

abbrev pub otp_secret : Option Text → Result Text
otp_secret secret = or_throw (truthy secret) (plain_error "OTP_SECRET is not configured")

module _ {State : Type 0} (c : Collaborators State) where
  abbrev pub hit_limit : Text → RateLimitPolicy → App State RateLimitDecision
  hit_limit key policy = write_cache (hit c.limiter key policy)

  -- `requestOtp` once the limiter has let it pass.
  unfoldable pub send_code : Text → ℤ → ℕ → ℕ → App State RequestOtpResult
  unfolding truthy
  send_code phone reset now random = do
    secret ← lift (otp_secret c.otp_setting)
    issued ← lift (issue_otp c.crypto secret (instant (pos now)) random)
    save c.cache c.challenges phone issued.challenge
    in_transaction c.engine (queue_code c.engine phone issued.code now)
    pure (sent reset)

  unfoldable pub request_phone : Option Text → ℕ → ℕ → App State RequestOtpResult
  unfolding send_code lit
  request_phone none now random = pure RequestOtpResult.invalid_phone
  request_phone (some phone) now random = do
    decision ← hit_limit (lit "otp:request:" ++ phone) otp_request
    elim decision.allowed [
      | true ↦ send_code phone decision.reset_seconds now random
      | false ↦ pure (RequestOtpResult.rate_limited decision.reset_seconds)
    ]

  unfoldable pub request_otp : Text → ℕ → ℕ → App State RequestOtpResult
  unfolding request_phone
  request_otp raw_phone now random = request_phone (normalise_bd_phone raw_phone) now random

  -- The end of a login: the user by the number.
  unfoldable pub open_session : ℕ → Option UserRow → App State VerifyOtpResult
  unfolding truthy
  open_session now none = pure (rejected wrong)
  open_session now (some user) = do
    key ← lift (session_secret c.session_setting)
    token ← lift (issue_session_token c.node c.json user.id none key now)
    pure (authenticated token user.id)

  unfoldable pub count_attempt : Text → Option OtpChallenge → App State (Unit {0})
  count_attempt phone none = pure tt
  count_attempt phone (some challenge) = record_attempt c.cache c.challenges phone challenge

  unfoldable pub settle_outcome :
      Text → Option OtpChallenge → ℕ → VerifyOutcome → App State VerifyOtpResult
  unfolding open_session count_attempt
  settle_outcome phone challenge now (declined reason) =
      count_attempt phone challenge >> pure (rejected reason)
  settle_outcome phone challenge now accepted = do
    consume c.cache c.challenges phone
    user ← in_transaction c.engine (find_by_phone phone)
    open_session now user

  -- `verifyOtp` once the limiter has let it pass.
  unfoldable pub exchange_code : Text → Text → ℕ → App State VerifyOtpResult
  unfolding truthy settle_outcome
  exchange_code phone code now = do
    challenge ← load c.cache c.challenges phone
    secret ← lift (otp_secret c.otp_setting)
    outcome ← lift (Otp.verify_otp c.crypto challenge code secret (instant (pos now)))
    settle_outcome phone challenge now outcome

  unfoldable pub verify_phone : Option Text → Text → ℕ → App State VerifyOtpResult
  unfolding exchange_code lit
  verify_phone none code now = pure VerifyOtpResult.invalid_phone
  verify_phone (some phone) code now = do
    decision ← hit_limit (lit "otp:verify:" ++ phone) otp_verify
    elim decision.allowed [
      | true ↦ exchange_code phone code now
      | false ↦ pure (VerifyOtpResult.rate_limited decision.reset_seconds)
    ]

  unfoldable pub verify_otp : Text → Text → ℕ → App State VerifyOtpResult
  unfolding verify_phone
  verify_otp raw_phone code now = verify_phone (normalise_bd_phone raw_phone) code now
