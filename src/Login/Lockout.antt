-- ===== src/Login/Lockout.antt =====
-- A challenge is closed after five guesses.
use sobkichu.Prelude.{
  ℕ, suc, ◌+◌, ◌≤◌, ◌≡◌, ◌≢◌, ap, subst, arith, Option, some, inl, inr, pos, ok, Text,
}
use sobkichu.DeliveryClock.{instant}
use sobkichu.Identity.Numbers.{normalise_bd_phone}
use sobkichu.Identity.Otp.{OtpChallenge}
use sobkichu.Identity.Acceptance.{verify_otp_iff}
use sobkichu.Login.World.{World}
use sobkichu.Login.Service.{Collaborators, authenticated, rejected, verify_otp}
use sobkichu.Login.Laws.{IsCache, IsChallengeJson}
use sobkichu.Login.Stored.{Holds-value, load_held, hit_keeps}
use sobkichu.Login.Exchange.{tried}
use sobkichu.Login.Settled.{verify_answered}
use sobkichu.Login.Opened.{verify-IsOpened}
use sobkichu.Login.Once.{absent_closed}
use sobkichu.Login.Guesses.{
  guessed, HoldsHere, Guesses, stop, guess, passes, Left, Left-value, one_guess,
}

module _ {State : Type 0} (c : Collaborators State) (value : Text → State → Option Text)
    (is_cache : IsCache c.limiter c.cache value) (is_json : IsChallengeJson c.challenges)
    (phone : Text) where
  Guesses-Left :
      (challenge : OtpChallenge) {m : ℕ} (n : ℕ) {w out : World State}
      → Guesses c value is_cache is_json phone m w out
      → Left c value is_cache is_json phone challenge n w.cache
      → Left c value is_cache is_json phone challenge (n + m) out.cache
  Guesses-Left challenge n {w = w} stop left =
      subst (λ k. Left c value is_cache is_json phone challenge k w.cache) (omega arith) left
  Guesses-Left challenge {m = suc m} n {w = w} {out = out}
        (guess {mid = mid} raw code now reason seconds given lives positive answered rest) left =
      let before =
        Left-value c value is_cache is_json phone challenge n w.cache (tried c phone w).cache
          (hit_keeps c.limiter c.cache c.challenges value is_cache is_json phone _ _ w.cache)
          left in
      elim (verify_answered c phone raw code now w mid (rejected reason) given answered) [
        | inl ran ↦
            let after =
              one_guess c value is_cache is_json phone challenge n now code reason seconds
                (tried c phone w) mid lives positive before ran in
            subst (λ k. Left c value is_cache is_json phone challenge k out.cache) (omega arith)
              (Guesses-Left challenge (n + 1) rest after)
        | inr (wait, limited) ↦ absurd (cc)
      ]
  Guesses-Left challenge n {w = w} (passes {mid = mid} same rest) left =
      Guesses-Left challenge n rest
        (Left-value c value is_cache is_json phone challenge n w.cache mid.cache same left)

  locked :
      (challenge : OtpChallenge) (raw code : Text) (now : ℕ) (w out : World State)
      (token user_id : Text)
      → normalise_bd_phone raw ≡ some phone
      → 5 ≤ challenge.attempts
      → HoldsHere c value is_cache is_json phone challenge w.cache
      → verify_otp c raw code now w ≢ (ok (authenticated token user_id), out)
  locked challenge raw code now w out token user_id given many held h =
      let opened = verify-IsOpened c phone raw code now w out token user_id given h in
      let still =
        Holds-value c.limiter c.cache c.challenges value is_cache is_json phone challenge w.cache
          (tried c phone w).cache
          (hit_keeps c.limiter c.cache c.challenges value is_cache is_json phone _ _ w.cache)
          held in
      let loaded =
        load_held c.limiter c.cache c.challenges value is_cache is_json phone challenge
          (tried c phone w) still in
      let found : opened.challenge ≡ challenge = cc (loaded, opened.is_loaded) in
      let few =
        (verify_otp_iff c.crypto opened.challenge code opened.secret (instant (pos now))).0
          opened.passes in
      let same = ap (λ o. o.attempts) found in let below = few.0 in absurd (omega arith)

  -- While Redis is up and JSON does what it documents: after rejected codes, each while the challenge
  -- had time to live, that make five attempts with those that the challenge had, no code opens a
  -- session for the number, not even the right one, whatever else has kept the challenge meanwhile.
  pub fifth_attempt_closes :
      (challenge : OtpChallenge) (raw code : Text) (now m : ℕ) (w mid out : World State)
      (token user_id : Text)
      → HoldsHere c value is_cache is_json phone challenge w.cache
      → Guesses c value is_cache is_json phone m w mid
      → 5 ≤ challenge.attempts + m
      → normalise_bd_phone raw ≡ some phone
      → verify_otp c raw code now mid ≢ (ok (authenticated token user_id), out)
  fifth_attempt_closes challenge raw code now m w mid out token user_id held guesses many given =
      elim (Guesses-Left challenge challenge.attempts guesses (inl held)) [
        | inl counted ↦
            locked (guessed challenge (challenge.attempts + m)) raw code now mid out token user_id
              given many counted
        | inr gone ↦
            absent_closed c value is_cache is_json phone raw code now mid out token user_id given
              gone
      ]
