-- ===== src/Login/Exchange.antt =====
-- The steps of the exchange of a code for a session.
use sobkichu.Prelude.{
  ℕ, ◌≡◌, refl, ap, ◌∙◌, true, false, Bool, Option, none, some, ◌++◌, pos, ok, Text, lit, is_empty,
  truthy,
}
use sobkichu.Database.{UserRow}
use sobkichu.Database.Transaction.{with_transaction-ok}
use sobkichu.DeliveryClock.{instant}
use sobkichu.RateLimit.{hit, otp_verify}
use sobkichu.Session.Token.{issue_session_token}
use sobkichu.Identity.Numbers.{normalise_bd_phone}
use sobkichu.Identity.Otp.{OtpChallenge, VerifyOutcome, accepted}
use sobkichu.Identity.Otp
use sobkichu.Identity.Users.{find_phone, find_by_phone}
use sobkichu.Identity.Roles.{session_secret}
use sobkichu.Login.World.{World, App, pure, lift, in_transaction, bind-ok}
use sobkichu.Login.Store.{load, consume, otp_key}
use sobkichu.Login.Service.{
  Collaborators, VerifyOtpResult, authenticated, otp_secret, open_session, settle_outcome,
  exchange_code, verify_phone, verify_otp,
}
use sobkichu.Login.Laws.{IsCache, IsChallengeJson}
use sobkichu.Login.Stored.{consume_done}

-- A setting that is configured.
abbrev pub Configured : Option Text → Text → Type 0
Configured setting key = (setting ≡ some key) × (is_empty key ≡ false)

secret_ok :
    (setting : Option Text) (key : Text) → Configured setting key → otp_secret setting ≡ ok key
unfolding truthy
secret_ok setting key (is_key, given) = rw (is_key, given) refl

session_ok :
    (setting : Option Text) (key : Text) → Configured setting key → session_secret setting ≡ ok key
unfolding truthy
session_ok setting key (is_key, given) = rw (is_key, given) refl

module _ {State : Type 0} (c : Collaborators State) (phone : Text) where
  abbrev verify_key : Text
  verify_key = lit "otp:verify:" ++ phone

  -- The world once the limiter has counted the attempt.
  abbrev pub tried : World State → World State
  tried w = record w { cache = (hit c.limiter verify_key otp_verify w.cache).1 }

  abbrev pub may_try : World State → Bool
  may_try w = (hit c.limiter verify_key otp_verify w.cache).0.allowed

module _ {State : Type 0} (c : Collaborators State) (phone : Text) (now : ℕ) where
  pub verify_allowed :
      (raw code : Text) (w : World State)
      → normalise_bd_phone raw ≡ some phone
      → may_try c phone w ≡ true
      → verify_otp c raw code now w ≡ exchange_code c phone code now (tried c phone w)
  unfolding verify_otp verify_phone
  verify_allowed raw code w given allowed =
      ap (λ p. verify_phone c p code now w) given
      ∙ ap
          (λ b.
            (elim b as (λ _. App State VerifyOtpResult) [
              | true ↦ exchange_code c phone code now
              | false ↦ pure (
                  VerifyOtpResult.rate_limited
                    (hit c.limiter (verify_key c phone) otp_verify w.cache).0.reset_seconds)
            ])
              (tried c phone w))
          allowed

  pub exchanged :
      (code secret : Text) (challenge : Option OtpChallenge) (outcome : VerifyOutcome)
      (w : World State)
      → Configured c.otp_setting secret
      → load c.cache c.challenges phone w ≡ (ok challenge, w)
      → Otp.verify_otp c.crypto challenge code secret (instant (pos now)) ≡ ok outcome
      → exchange_code c phone code now w ≡ settle_outcome c phone challenge now outcome w
  unfolding exchange_code
  exchanged code secret challenge outcome w configured loaded verified =
      bind-ok (load c.cache c.challenges phone) _ loaded
      ∙ bind-ok (lift (otp_secret c.otp_setting)) _
          (ap (λ r. (r, w)) (secret_ok c.otp_setting secret configured))
      ∙ bind-ok (lift (Otp.verify_otp c.crypto challenge code secret (instant (pos now)))) _
          (ap (λ r. (r, w)) verified)

  pub found_user :
      (user : Option UserRow) (w : World State)
      → find_phone phone w.db.users ≡ user
      → c.engine.commits w.db ≡ none
      → in_transaction c.engine (find_by_phone phone) w ≡ (ok user, w)
  unfolding find_by_phone
  found_user user w found commits =
      ap (λ p. (p.0, record w { db = p.1 }))
        (with_transaction-ok c.engine (find_by_phone phone) w.db w.db user
          (ap (λ u. ok (u, w.db)) found) commits)

  pub opened :
      (user : UserRow) (key token : Text) (w : World State)
      → Configured c.session_setting key
      → issue_session_token c.node c.json user.id none key now ≡ ok token
      → open_session c now (some user) w ≡ (ok (authenticated token user.id), w)
  unfolding open_session
  opened user key token w configured issued =
      bind-ok (lift (session_secret c.session_setting)) _
        (ap (λ r. (r, w)) (session_ok c.session_setting key configured))
      ∙ bind-ok (lift (issue_session_token c.node c.json user.id none key now)) _
          (ap (λ r. (r, w)) issued)

  -- An accepted code of a known user opens a session, and the challenge is gone.
  pub settled_session :
      (value : Text → State → Option Text) (is_cache : IsCache c.limiter c.cache value)
      (is_json : IsChallengeJson c.challenges) (challenge : Option OtpChallenge) (user : UserRow)
      (key token : Text) (w : World State)
      → find_phone phone w.db.users ≡ some user
      → c.engine.commits w.db ≡ none
      → Configured c.session_setting key
      → issue_session_token c.node c.json user.id none key now ≡ ok token
      → (out : World State) × (settle_outcome c phone challenge now accepted w
          ≡ (ok (authenticated token user.id), out))
        × (out.db ≡ w.db)
        × (value (otp_key phone) out.cache ≡ none)
  unfolding settle_outcome
  settled_session value is_cache is_json challenge user key token w found commits configured
        issued =
      let (out, done, same, gone) =
        consume_done c.limiter c.cache c.challenges value is_cache is_json phone w in
      (
        out,
        bind-ok (consume c.cache c.challenges phone) _ done
            ∙ bind-ok (in_transaction c.engine (find_by_phone phone)) _ (
                found_user (some user) out (ap (λ d. find_phone phone d.users) same ∙ found)
                  (ap c.engine.commits same ∙ commits))
            ∙ opened user key token out configured issued,
        same,
        gone,
      )
