-- ===== src/Login/Sent.antt =====
-- What a request for a code did that sent one.
use sobkichu.Prelude.{
  ℕ, ◌≡◌, ap, ◌∙◌, sym, true, false, Bool, inl, inr, none, some, ◌++◌, ℤ, pos, Result, ok,
  or_throw-eq-ok, truthy-some, Text, lit, is_empty,
}
use sobkichu.Database.Transaction.{
  Engine, M, with_transaction, with_transaction_atomic, with_transaction-commits,
}
use sobkichu.DeliveryClock.{instant}
use sobkichu.RateLimit.{RateLimitDecision, hit, otp_request}
use sobkichu.Identity.Numbers.{normalise_bd_phone}
use sobkichu.Identity.Otp.{IssuedOtp, issue_otp}
use sobkichu.Login.World.{World, App, pure, lift, in_transaction, bind-eq-ok}
use sobkichu.Login.Store.{save}
use sobkichu.Login.Notice.{queue_code}
use sobkichu.Login.Service.{
  Collaborators, RequestOtpResult, sent, otp_secret, send_code, request_phone, request_otp,
}

-- A transaction that returned has done its work and is committed.
pub committed :
    {State A : Type 0} (engine : Engine) (work : M A) (w out : World State) {a : A}
    → in_transaction engine work w ≡ (ok a, out)
    → (work w.db ≡ ok (a, out.db)) × (engine.commits out.db ≡ none) × (out.cache ≡ w.cache)
committed engine work w out {a} h =
    let same : with_transaction engine work w.db ≡ (ok a, out.db) = ap (λ p. (p.0, p.1.db)) h in
    (
      elim (with_transaction_atomic engine work w.db (ok a) out.db same) [
        | inl (e, thrown, _) ↦ absurd (cc)
        | inr (b, returned, worked) ↦ cc
      ],
      with_transaction-commits engine work w.db out.db a same,
      sym (ap (λ p. p.1.cache) h),
    )

pub lifted :
    {State A : Type 0} (r : Result A) (w out : World State) {a : A}
    → lift r w ≡ (ok a, out)
    → (r ≡ ok a) × (out ≡ w)
lifted r w out h = (ap (λ p. p.0) h, sym (ap (λ p. p.1) h))

module _ {State : Type 0} (c : Collaborators State) (phone : Text) (now random : ℕ)
    (w : World State) where
  -- The world once the limiter has counted the request.
  abbrev pub counted : World State
  counted = record w { cache = (hit c.limiter (lit "otp:request:" ++ phone) otp_request w.cache).1 }

  pub record IsSent (out : World State) : Type 0 where
    pub secret : Text
    pub issued : IssuedOtp
    pub saved : World State
    pub user_id : Text
    pub is_secret : c.otp_setting ≡ some secret
    pub secret_given : is_empty secret ≡ false
    pub is_issued : issue_otp c.crypto secret (instant (pos now)) random ≡ ok issued
    pub is_saved : save c.cache c.challenges phone issued.challenge counted ≡ (ok tt, saved)
    pub queued : queue_code c.engine phone issued.code now saved.db ≡ ok (user_id, out.db)
    pub commits : c.engine.commits out.db ≡ none
    pub kept : out.cache ≡ saved.cache

  sent_code :
      (reset reset' : ℤ) (out : World State)
      → send_code c phone reset now random counted ≡ (ok (sent reset'), out)
      → IsSent out
  unfolding send_code
  sent_code reset reset' out h =
      let (secret, w1, first, h1) = bind-eq-ok (lift (otp_secret c.otp_setting)) _ counted h in
      let (has_secret, same1) = lifted _ counted w1 first in
      let (is_secret, given) = truthy-some c.otp_setting (or_throw-eq-ok _ _ has_secret) in
      let (issued, w2, second, h2) =
        bind-eq-ok (lift (issue_otp c.crypto secret (instant (pos now)) random)) _ w1 h1 in
      let (is_issued, same2) = lifted _ w1 w2 second in
      let (_, saved, third, h3) =
        bind-eq-ok (save c.cache c.challenges phone issued.challenge) _ w2 h2 in
      let (user_id, w4, fourth, h4) =
        bind-eq-ok (in_transaction c.engine (queue_code c.engine phone issued.code now)) _ saved
          h3 in
      let (queued, commits, kept) = committed c.engine _ saved w4 fourth in
      let last : w4 ≡ out = ap (λ p. p.1) h4 in
      record {
        secret = secret;
        issued = issued;
        saved = saved;
        user_id = user_id;
        is_secret = is_secret;
        secret_given = given;
        is_issued = is_issued;
        is_saved =
            ap (save c.cache c.challenges phone issued.challenge) (sym (same2 ∙ same1)) ∙ third;
        queued = queued ∙ ap (λ o. ok (user_id, o.db)) last;
        commits = ap (λ o. c.engine.commits o.db) (sym last) ∙ commits;
        kept = ap (λ o. o.cache) (sym last) ∙ kept;
      }

  abbrev decision : RateLimitDecision
  decision = (hit c.limiter (lit "otp:request:" ++ phone) otp_request w.cache).0

  sent_phone :
      (reset : ℤ) (out : World State)
      → request_phone c (some phone) now random w ≡ (ok (sent reset), out)
      → IsSent out
  unfolding request_phone
  sent_phone reset out h = split decision.allowed h
    where
      split :
          (allowed : Bool)
          → (elim allowed as (λ _. App State RequestOtpResult) [
            | true ↦ send_code c phone decision.reset_seconds now random
            | false ↦ pure (RequestOtpResult.rate_limited decision.reset_seconds)
          ])
              counted
            ≡ (ok (sent reset), out)
          → IsSent out
      split true e = sent_code decision.reset_seconds reset out e
      split false e = absurd (cc)

  -- A request that answers that the code is sent.
  pub request_sent :
      (raw : Text) (reset : ℤ) (out : World State)
      → normalise_bd_phone raw ≡ some phone
      → request_otp c raw now random w ≡ (ok (sent reset), out)
      → IsSent out
  unfolding request_otp
  request_sent raw reset out given h =
      sent_phone reset out (sym (ap (λ p. request_phone c p now random w) given) ∙ h)
