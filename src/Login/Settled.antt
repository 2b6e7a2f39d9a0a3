-- ===== src/Login/Settled.antt =====
-- The parts of an answer to a code.
use sobkichu.Prelude.{
  ℕ, ◌≡◌, ap, ◌∙◌, sym, true, false, Bool, Option, some, ◌++◌, ℤ, pos, Result, ok, or_throw-eq-ok,
  truthy-some, ◌⊎◌, inl, inr, Text, lit,
}
use sobkichu.DeliveryClock.{instant}
use sobkichu.RateLimit.{RateLimitDecision, hit, otp_verify}
use sobkichu.Identity.Numbers.{normalise_bd_phone}
use sobkichu.Identity.Otp.{OtpChallenge, VerifyOutcome}
use sobkichu.Identity.Otp
use sobkichu.Login.World.{World, App, pure, lift, read_cache, bind-eq-ok}
use sobkichu.Login.Store.{otp_key, load}
use sobkichu.Login.Service.{
  Collaborators, VerifyOtpResult, otp_secret, settle_outcome, exchange_code, verify_phone,
  verify_otp,
}
use sobkichu.Login.Sent.{lifted}
use sobkichu.Login.Exchange.{tried, Configured}

-- The world that is left once a world's cache is read: that world.
pub read_left :
    {State A : Type 0} (f : State → Result A) (w out : World State) {a : A}
    → read_cache f w ≡ (ok a, out)
    → (f w.cache ≡ ok a) × (out ≡ w)
read_left f w out h = (ap (λ p. p.0) h, sym (ap (λ p. p.1) h))

module _ {State : Type 0} (c : Collaborators State) (phone : Text) where
  pub loaded_unchanged :
      (challenge : Option OtpChallenge) (w out : World State)
      → load c.cache c.challenges phone w ≡ (ok challenge, out)
      → out ≡ w
  unfolding load
  loaded_unchanged challenge w out h =
      let (raw, w1, first, h1) = bind-eq-ok (read_cache (c.cache.get (otp_key phone))) _ w h in
      let (_, same) = read_left (c.cache.get (otp_key phone)) w w1 first in
      let (_, kept) = lifted _ w1 out h1 in kept ∙ same

  -- The challenge that was loaded, what the code came to, and the rest.
  pub record IsSettled (code : Text) (now : ℕ) (w : World State) (answer : VerifyOtpResult)
      (out : World State) : Type 0 where
    pub challenge : Option OtpChallenge
    pub is_loaded : load c.cache c.challenges phone w ≡ (ok challenge, w)
    pub secret : Text
    pub is_secret : Configured c.otp_setting secret
    pub outcome : VerifyOutcome
    pub is_outcome : Otp.verify_otp c.crypto challenge code secret (instant (pos now)) ≡ ok outcome
    pub settles : settle_outcome c phone challenge now outcome w ≡ (ok answer, out)

  pub exchange-IsSettled :
      (code : Text) (now : ℕ) (w out : World State) {answer : VerifyOtpResult}
      → exchange_code c phone code now w ≡ (ok answer, out)
      → IsSettled code now w answer out
  unfolding exchange_code
  exchange-IsSettled code now w out h =
      let (challenge, w1, first, h1) = bind-eq-ok (load c.cache c.challenges phone) _ w h in
      let same1 = loaded_unchanged challenge w w1 first in
      let (secret, w2, second, h2) = bind-eq-ok (lift (otp_secret c.otp_setting)) _ w1 h1 in
      let (has_secret, same2) = lifted _ w1 w2 second in
      let (outcome, w3, third, h3) =
        bind-eq-ok (lift (Otp.verify_otp c.crypto challenge code secret (instant (pos now)))) _ w2
          h2 in
      let (verified, same3) = lifted _ w2 w3 third in
      record {
        challenge = challenge;
        is_loaded = first ∙ ap (λ o. (ok challenge, o)) same1;
        secret = secret;
        is_secret = truthy-some c.otp_setting (or_throw-eq-ok _ _ has_secret);
        outcome = outcome;
        is_outcome = verified;
        settles =
            ap (settle_outcome c phone challenge now outcome) (sym (same3 ∙ same2 ∙ same1)) ∙ h3;
      }

  -- An answer to a code of the number, unless the limiter refused it.
  pub verify_answered :
      (raw code : Text) (now : ℕ) (w out : World State) (answer : VerifyOtpResult)
      → normalise_bd_phone raw ≡ some phone
      → verify_otp c raw code now w ≡ (ok answer, out)
      → (exchange_code c phone code now (tried c phone w) ≡ (ok answer, out))
        ⊎ ((seconds : ℤ) × (answer ≡ VerifyOtpResult.rate_limited seconds))
  unfolding verify_otp verify_phone
  verify_answered raw code now w out answer given h =
      split decision.allowed (sym (ap (λ p. verify_phone c p code now w) given) ∙ h)
    where
      decision : RateLimitDecision
      decision = (hit c.limiter (lit "otp:verify:" ++ phone) otp_verify w.cache).0

      split :
          (allowed : Bool)
          → (elim allowed as (λ _. App State VerifyOtpResult) [
            | true ↦ exchange_code c phone code now
            | false ↦ pure (VerifyOtpResult.rate_limited decision.reset_seconds)
          ])
              (tried c phone w)
            ≡ (ok answer, out)
          → (exchange_code c phone code now (tried c phone w) ≡ (ok answer, out))
            ⊎ ((seconds : ℤ) × (answer ≡ VerifyOtpResult.rate_limited seconds))
      split true e = inl e
      split false e = inr (decision.reset_seconds, cc)
