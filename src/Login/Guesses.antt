-- ===== src/Login/Guesses.antt =====
-- The guesses at a code that are rejected.
use sobkichu.Prelude.{
  ℕ, zero, suc, ◌+◌, ◌≡◌, ap, ◌∙◌, sym, subst, true, false, Option, none, some, ◌⊎◌, inl, inr, ℤ,
  pos, ltb_ℤ, ok, Text,
}
use sobkichu.Database.{UserRow}
use sobkichu.DeliveryClock.{instant}
use sobkichu.Identity.Numbers.{normalise_bd_phone}
use sobkichu.Identity.Otp.{OtpChallenge, VerifyOutcome, VerifyReason, accepted, declined}
use sobkichu.Identity.Otp
use sobkichu.Identity.Users.{find_by_phone}
use sobkichu.Identity.Roles.{session_secret}
use sobkichu.Session.Token.{issue_session_token}
use sobkichu.Login.World.{World, App, pure, lift, read_cache, in_transaction, bind-eq-ok}
use sobkichu.Login.Store.{otp_key, consume, write_challenge, record_attempt}
use sobkichu.Login.Service.{
  Collaborators, VerifyOtpResult, rejected, open_session, count_attempt, settle_outcome,
  exchange_code, verify_otp,
}
use sobkichu.Login.Laws.{IsCache, IsChallengeJson}
use sobkichu.Login.Sent.{committed, lifted}
use sobkichu.Login.Stored.{
  Holds, Holds-value, load_held, load_absent, write_challenge-Holds, consume_done,
}
use sobkichu.Login.Exchange.{tried}
use sobkichu.Login.Settled.{read_left, exchange-IsSettled}
use sobkichu.Login.Opened.{absent_declined}

abbrev pub guessed : OtpChallenge → ℕ → OtpChallenge
guessed challenge n = record challenge { attempts = n }

module _ {State : Type 0} (c : Collaborators State) (value : Text → State → Option Text)
    (is_cache : IsCache c.limiter c.cache value) (is_json : IsChallengeJson c.challenges)
    (phone : Text) where
  abbrev pub HoldsHere : OtpChallenge → State → Type 0
  HoldsHere challenge s =
      Holds c.limiter c.cache c.challenges value is_cache is_json phone challenge s

  -- Rejected codes of the number while its challenge has time to live, and other changes that keep
  -- the challenge, in the order in which they happen. The index is the number of codes.
  pub data Guesses : ℕ → World State → World State → Type 0 where
    stop : {w : World State} → Guesses zero w w
    guess :
        {n : ℕ} {w mid out : World State} (raw code : Text) (now : ℕ) (reason : VerifyReason)
        (seconds : ℤ)
        → normalise_bd_phone raw ≡ some phone
        → c.cache.ttl (otp_key phone) (tried c phone w).cache ≡ ok seconds
        → ltb_ℤ (pos 0) seconds ≡ true
        → verify_otp c raw code now w ≡ (ok (rejected reason), mid)
        → Guesses n mid out
        → Guesses (suc n) w out
    passes :
        {n : ℕ} {w mid out : World State}
        → value (otp_key phone) mid.cache ≡ value (otp_key phone) w.cache
        → Guesses n mid out
        → Guesses n w out

  -- The challenge with a number of attempts, or none.
  abbrev pub Left : OtpChallenge → ℕ → State → Type 0
  Left challenge n s = HoldsHere (guessed challenge n) s ⊎ (value (otp_key phone) s ≡ none)

  recorded :
      (challenge : OtpChallenge) (seconds : ℤ) (w out : World State)
      → c.cache.ttl (otp_key phone) w.cache ≡ ok seconds
      → ltb_ℤ (pos 0) seconds ≡ true
      → record_attempt c.cache c.challenges phone challenge w ≡ (ok tt, out)
      → HoldsHere (guessed challenge (challenge.attempts + 1)) out.cache
  unfolding record_attempt
  recorded challenge seconds w out lives positive h =
      let (ttl, w1, first, h1) = bind-eq-ok (read_cache (c.cache.ttl (otp_key phone))) _ w h in
      let (read, same) = read_left (c.cache.ttl (otp_key phone)) w w1 first in
      let is_seconds : ttl ≡ seconds = cc in
      let over = ap (λ t. ltb_ℤ (pos 0) t) is_seconds ∙ positive in
      (write_challenge-Holds c.limiter c.cache c.challenges value is_cache is_json phone challenge
        (challenge.attempts + 1) ttl w1 out over
        (sym (
            ap
              (λ b.
                (elim b as (λ _. App State (Unit {0})) [
                  | true ↦
                      write_challenge c.cache c.challenges challenge (challenge.attempts + 1) ttl
                        (otp_key phone)
                  | false ↦ pure tt
                ])
                  w1)
              over)
          ∙ h1)).0

  open_session_keeps :
      (now : ℕ) (found : Option UserRow) (w out : World State) {answer : VerifyOtpResult}
      → open_session c now found w ≡ (ok answer, out)
      → out ≡ w
  unfolding open_session
  open_session_keeps now none w out h = sym (ap (λ p. p.1) h)
  open_session_keeps now (some user) w out h =
      let (key, w1, first, h1) = bind-eq-ok (lift (session_secret c.session_setting)) _ w h in
      let (token, w2, second, h2) =
        bind-eq-ok (lift (issue_session_token c.node c.json user.id none key now)) _ w1 h1 in
      let (_, same1) = lifted _ w w1 first in
      let (_, same2) = lifted _ w1 w2 second in sym (ap (λ p. p.1) h2) ∙ same2 ∙ same1

  settled_guess :
      (challenge : OtpChallenge) (now : ℕ) (outcome : VerifyOutcome) (reason : VerifyReason)
      (seconds : ℤ) (w out : World State)
      → c.cache.ttl (otp_key phone) w.cache ≡ ok seconds
      → ltb_ℤ (pos 0) seconds ≡ true
      → settle_outcome c phone (some challenge) now outcome w ≡ (ok (rejected reason), out)
      → Left challenge (challenge.attempts + 1) out.cache
  unfolding settle_outcome count_attempt
  settled_guess challenge now (declined why) reason seconds w out lives positive h =
      let (_, w1, first, h1) =
        bind-eq-ok (record_attempt c.cache c.challenges phone challenge) _ w h in
      let last : w1 ≡ out = ap (λ p. p.1) h1 in
      inl (
        subst (λ o. HoldsHere (guessed challenge (challenge.attempts + 1)) o.cache) last
          (recorded challenge seconds w w1 lives positive first))
  settled_guess challenge now accepted reason seconds w out lives positive h =
      let (_, w1, first, h1) = bind-eq-ok (consume c.cache c.challenges phone) _ w h in
      let (found, w2, second, h2) =
        bind-eq-ok (in_transaction c.engine (find_by_phone phone)) _ w1 h1 in
      let (_, _, same) = committed c.engine (find_by_phone phone) w1 w2 second in
      let (left, done, _, gone) =
        consume_done c.limiter c.cache c.challenges value is_cache is_json phone w in
      let is_left : left ≡ w1 = ap (λ p. p.1) (sym done ∙ first) in
      inr (
        ap (λ o. value (otp_key phone) o.cache) (open_session_keeps now found w2 out h2)
        ∙ ap (value (otp_key phone)) (same ∙ ap (λ o. o.cache) (sym is_left))
        ∙ gone)

  pub Left-value :
      (challenge : OtpChallenge) (n : ℕ) (s s' : State)
      → value (otp_key phone) s' ≡ value (otp_key phone) s
      → Left challenge n s
      → Left challenge n s'
  Left-value challenge n s s' same (inl held) = inl (
      Holds-value c.limiter c.cache c.challenges value is_cache is_json phone (guessed challenge n)
        s s' same held)
  Left-value challenge n s s' same (inr absent) = inr (same ∙ absent)

  settled_absent :
      (now : ℕ) (code secret : Text) (outcome : VerifyOutcome) (w out : World State)
      {answer : VerifyOtpResult}
      → Otp.verify_otp c.crypto none code secret (instant (pos now)) ≡ ok outcome
      → settle_outcome c phone none now outcome w ≡ (ok answer, out)
      → out ≡ w
  unfolding settle_outcome count_attempt
  settled_absent now code secret (declined why) w out verified h = sym (ap (λ p. p.1) h)
  settled_absent now code secret accepted w out verified h =
      absurd (absent_declined c.crypto code secret (instant (pos now)) verified)

  -- A step of the run.
  pub one_guess :
      (challenge : OtpChallenge) (n now : ℕ) (code : Text) (reason : VerifyReason) (seconds : ℤ)
      (w out : World State)
      → c.cache.ttl (otp_key phone) w.cache ≡ ok seconds
      → ltb_ℤ (pos 0) seconds ≡ true
      → Left challenge n w.cache
      → exchange_code c phone code now w ≡ (ok (rejected reason), out)
      → Left challenge (n + 1) out.cache
  one_guess challenge n now code reason seconds w out lives positive (inl held) h =
      let done = exchange-IsSettled c phone code now w out h in
      let loaded =
        load_held c.limiter c.cache c.challenges value is_cache is_json phone (guessed challenge n)
          w held in
      let found : done.challenge ≡ some (guessed challenge n) = cc (loaded, done.is_loaded) in
      settled_guess (guessed challenge n) now done.outcome reason seconds w out lives positive
        (ap (λ o. settle_outcome c phone o now done.outcome w) (sym found) ∙ done.settles)
  one_guess challenge n now code reason seconds w out lives positive (inr absent) h =
      let done = exchange-IsSettled c phone code now w out h in
      let loaded =
        load_absent c.limiter c.cache c.challenges value is_cache is_json phone w absent in
      let found : done.challenge ≡ none = cc (loaded, done.is_loaded) in
      let kept =
        settled_absent now code done.secret done.outcome w out
          (ap (λ o. Otp.verify_otp c.crypto o code done.secret (instant (pos now))) (sym found)
            ∙ done.is_outcome)
          (ap (λ o. settle_outcome c phone o now done.outcome w) (sym found) ∙ done.settles) in
      inr (ap (λ o. value (otp_key phone) o.cache) kept ∙ absent)
