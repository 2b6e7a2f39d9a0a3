-- ===== src/Login/Opened.antt =====
-- What opens a session.
use sobkichu.Prelude.{
  inl, inr, ℕ, ◌≡◌, ◌≢◌, refl, ap, ◌∙◌, sym, Option, none, some, pos, ok, or_throw-eq-ok,
  truthy-some, Text,
}
use sobkichu.Database.{UserRow}
use sobkichu.DeliveryClock.{Date, instant}
use sobkichu.Session.Token.{issue_session_token}
use sobkichu.Identity.Numbers.{normalise_bd_phone}
use sobkichu.Identity.Otp.{Crypto, OtpChallenge, VerifyOutcome, accepted, declined, is_after, wrong}
use sobkichu.Identity.Otp
use sobkichu.Identity.Users.{find_phone, find_by_phone}
use sobkichu.Identity.Roles.{session_secret}
use sobkichu.Login.World.{World, lift, in_transaction, bind-eq-ok}
use sobkichu.Login.Store.{load, consume}
use sobkichu.Login.Service.{
  Collaborators, authenticated, open_session, count_attempt, settle_outcome, exchange_code,
  verify_otp,
}
use sobkichu.Login.Settled.{exchange-IsSettled, verify_answered}
use sobkichu.Login.Sent.{lifted, committed}
use sobkichu.Login.Exchange.{tried, Configured}

pub absent_declined :
    (crypto : Crypto) (code secret : Text) (now : Date)
    → Otp.verify_otp crypto none code secret now ≢ ok accepted
unfolding Otp.verify_otp
absent_declined crypto code secret now h = cc

module _ {State : Type 0} (c : Collaborators State) (phone : Text) where
  -- The session of a login: the code passed on the challenge that was stored, and the user has the
  -- number.
  pub record IsOpened (code : Text) (now : ℕ) (w : World State) (token user_id : Text)
      (out : World State) : Type 0 where
    pub challenge : OtpChallenge
    pub is_loaded : load c.cache c.challenges phone w ≡ (ok (some challenge), w)
    pub secret : Text
    pub is_secret : Configured c.otp_setting secret
    pub passes :
        Otp.verify_otp c.crypto (some challenge) code secret (instant (pos now)) ≡ ok accepted
    pub consumed : World State
    pub is_consumed : consume c.cache c.challenges phone w ≡ (ok tt, consumed)
    pub user : UserRow
    pub is_user : find_phone phone out.db.users ≡ some user
    pub has_id : user.id ≡ user_id
    pub key : Text
    pub is_key : Configured c.session_setting key
    pub issued : issue_session_token c.node c.json user_id none key now ≡ ok token
    pub same_cache : out.cache ≡ consumed.cache

  opened_session :
      (now : ℕ) (found : Option UserRow) (w out : World State) (token user_id : Text)
      → open_session c now found w ≡ (ok (authenticated token user_id), out)
      → (user : UserRow) × (key : Text) × (found ≡ some user)
        × (user.id ≡ user_id)
        × Configured c.session_setting key
        × (issue_session_token c.node c.json user_id none key now ≡ ok token)
        × (out ≡ w)
  unfolding open_session
  opened_session now none w out token user_id h = absurd (cc)
  opened_session now (some user) w out token user_id h =
      let (key, w1, first, h1) = bind-eq-ok (lift (session_secret c.session_setting)) _ w h in
      let (has_key, same1) = lifted _ w w1 first in
      let (text, w2, second, h2) =
        bind-eq-ok (lift (issue_session_token c.node c.json user.id none key now)) _ w1 h1 in
      let (issued, same2) = lifted _ w1 w2 second in
      let is_token : text ≡ token = cc in
      let is_id : user.id ≡ user_id = cc in
      let last : out ≡ w2 = sym (ap (λ p. p.1) h2) in
      (
        user,
        key,
        refl,
        is_id,
        truthy-some c.session_setting (or_throw-eq-ok _ _ has_key),
        ap (λ i. issue_session_token c.node c.json i none key now) (sym is_id)
            ∙ issued
            ∙ ap ok is_token,
        last ∙ same2 ∙ same1,
      )

  settled_accepted :
      (code : Text) (now : ℕ) (challenge : OtpChallenge) (secret : Text) (w out : World State)
      (token user_id : Text)
      → load c.cache c.challenges phone w ≡ (ok (some challenge), w)
      → Configured c.otp_setting secret
      → Otp.verify_otp c.crypto (some challenge) code secret (instant (pos now)) ≡ ok accepted
      → settle_outcome c phone (some challenge) now accepted w
        ≡ (ok (authenticated token user_id), out)
      → IsOpened code now w token user_id out
  unfolding settle_outcome find_by_phone
  settled_accepted code now challenge secret w out token user_id is_loaded is_secret passes h =
      let (_, w1, first, h1) = bind-eq-ok (consume c.cache c.challenges phone) _ w h in
      let (found, w2, second, h2) =
        bind-eq-ok (in_transaction c.engine (find_by_phone phone)) _ w1 h1 in
      let (read, _, same_cache) = committed c.engine (find_by_phone phone) w1 w2 second in
      let (user, key, is_found, has_id, is_key, issued, last) =
        opened_session now found w2 out token user_id h2 in
      let answer : find_phone phone w1.db.users ≡ found = cc in
      let kept : w1.db ≡ w2.db = cc in
      record {
        challenge = challenge;
        is_loaded = is_loaded;
        secret = secret;
        is_secret = is_secret;
        passes = passes;
        consumed = w1;
        is_consumed = first;
        user = user;
        is_user =
            ap (λ o. find_phone phone o.db.users) last
            ∙ ap (λ d. find_phone phone d.users) (sym kept)
            ∙ answer
            ∙ is_found;
        has_id = has_id;
        key = key;
        is_key = is_key;
        issued = issued;
        same_cache = ap (λ o. o.cache) last ∙ same_cache;
      }

  declined_ends :
      (challenge : Option OtpChallenge) (now : ℕ) (reason : Otp.VerifyReason) (w out : World State)
      (token user_id : Text)
      → settle_outcome c phone challenge now (declined reason) w
        ≢ (ok (authenticated token user_id), out)
  unfolding settle_outcome
  declined_ends challenge now reason w out token user_id h =
      let (_, w1, first, h1) = bind-eq-ok (count_attempt c phone challenge) _ w h in cc

  pub exchange-IsOpened :
      (code : Text) (now : ℕ) (w out : World State) (token user_id : Text)
      → exchange_code c phone code now w ≡ (ok (authenticated token user_id), out)
      → IsOpened code now w token user_id out
  exchange-IsOpened code now w out token user_id h =
      let done = exchange-IsSettled c phone code now w out h in
      split done.challenge done.outcome done.is_loaded done.is_secret done.is_outcome done.settles
    where
      split :
          {secret : Text} (challenge : Option OtpChallenge) (outcome : VerifyOutcome)
          → load c.cache c.challenges phone w ≡ (ok challenge, w)
          → Configured c.otp_setting secret
          → Otp.verify_otp c.crypto challenge code secret (instant (pos now)) ≡ ok outcome
          → settle_outcome c phone challenge now outcome w ≡ (ok (authenticated token user_id), out)
          → IsOpened code now w token user_id out
      split challenge (declined reason) is_loaded configured verified e =
          absurd (declined_ends challenge now reason w out token user_id e)
      split none accepted is_loaded configured verified e =
          absurd (absent_declined c.crypto code _ _ verified)
      split {secret} (some challenge) accepted is_loaded configured verified e =
          settled_accepted code now challenge secret w out token user_id is_loaded configured
            verified e

  pub verify-IsOpened :
      (raw code : Text) (now : ℕ) (w out : World State) (token user_id : Text)
      → normalise_bd_phone raw ≡ some phone
      → verify_otp c raw code now w ≡ (ok (authenticated token user_id), out)
      → IsOpened code now (tried c phone w) token user_id out
  verify-IsOpened raw code now w out token user_id given h =
      elim (verify_answered c phone raw code now w out (authenticated token user_id) given h) [
        | inl ran ↦ exchange-IsOpened code now (tried c phone w) out token user_id ran
        | inr (seconds, limited) ↦ absurd (cc)
      ]
