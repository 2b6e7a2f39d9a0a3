-- ===== src/Login/Once.antt =====
-- A code is used once.
use sobkichu.Prelude.{ℕ, ◌≡◌, ◌≢◌, ap, ◌∙◌, sym, Option, none, some, Result, ok, Text}
use sobkichu.Identity.Numbers.{normalise_bd_phone}
use sobkichu.Identity.Otp.{OtpChallenge}
use sobkichu.Login.World.{World}
use sobkichu.Login.Store.{otp_key}
use sobkichu.Login.Service.{Collaborators, authenticated, verify_otp}
use sobkichu.Login.Laws.{IsCache, IsChallengeJson}
use sobkichu.Login.Stored.{load_absent, hit_keeps, consume_done}
use sobkichu.Login.Exchange.{tried}
use sobkichu.Login.Opened.{IsOpened, verify-IsOpened}

not_both :
    {State : Type 0} {w w' : World State} {challenge : OtpChallenge}
    (r : Result (Option OtpChallenge) × World State)
    → r ≡ (ok none, w)
    → r ≢ (ok (some challenge), w')
not_both r h e = cc

module _ {State : Type 0} (c : Collaborators State) (value : Text → State → Option Text)
    (is_cache : IsCache c.limiter c.cache value) (is_json : IsChallengeJson c.challenges)
    (phone : Text) where
  -- No session is opened while no challenge is stored.
  pub absent_closed :
      (raw code : Text) (now : ℕ) (w out : World State) (token user_id : Text)
      → normalise_bd_phone raw ≡ some phone
      → value (otp_key phone) w.cache ≡ none
      → verify_otp c raw code now w ≢ (ok (authenticated token user_id), out)
  absent_closed raw code now w out token user_id given absent h =
      let opened = verify-IsOpened c phone raw code now w out token user_id given h in
      let empty =
        load_absent c.limiter c.cache c.challenges value is_cache is_json phone (tried c phone w) (
          hit_keeps c.limiter c.cache c.challenges value is_cache is_json phone _ _ w.cache
          ∙ absent) in
      not_both _ empty opened.is_loaded

  opened_gone :
      (code : Text) (now : ℕ) (w out : World State) (token user_id : Text)
      → IsOpened c phone code now w token user_id out
      → value (otp_key phone) out.cache ≡ none
  opened_gone code now w out token user_id opened =
      let (left, done, _, gone) =
        consume_done c.limiter c.cache c.challenges value is_cache is_json phone w in
      let same : left ≡ opened.consumed = ap (λ p. p.1) (sym done ∙ opened.is_consumed) in
      ap (value (otp_key phone)) (opened.same_cache ∙ ap (λ o. o.cache) (sym same)) ∙ gone

  -- While Redis is up and JSON does what it documents: once a code has opened a session, no code opens
  -- another for the number, in any spelling, until the store has a value for it again.
  pub login_once :
      (raw again code other : Text) (now next : ℕ) (w out mid after : World State)
      (token user_id token' user_id' : Text)
      → normalise_bd_phone raw ≡ some phone
      → normalise_bd_phone again ≡ some phone
      → verify_otp c raw code now w ≡ (ok (authenticated token user_id), out)
      → value (otp_key phone) mid.cache ≡ value (otp_key phone) out.cache
      → verify_otp c again other next mid ≢ (ok (authenticated token' user_id'), after)
  login_once raw again code other now next w out mid after token user_id token' user_id' given
        given' h kept =
      absent_closed again other next mid after token' user_id' given' (
        kept
        ∙ opened_gone code now (tried c phone w) out token user_id
            (verify-IsOpened c phone raw code now w out token user_id given h))
