-- ===== src/Login/Admitted.antt =====
-- The way from a request for a code to a session.
use sobkichu.Prelude.{
  pos-+ℤ, ℕ, ◌+◌, ◌/◌, ◌<◌, ◌≤◌, ◌≡◌, ap, ◌∙◌, sym, subst, arith, true, false, Option, none, some,
  ◌++◌, ℤ, pos, ok, >>=-eq-ok, Text,
}
use sobkichu.Database.{Db, UserRow}
use sobkichu.Database.Transaction.{Engine}
use sobkichu.DeliveryClock.{Date, instant}
use sobkichu.Session.Token.{session_ttl_seconds}
use sobkichu.Session.Guard.{AuthenticatedCaller, bearer, can_activate}
use sobkichu.Session.Issued.{IsDocumented, issued_admitted}
use sobkichu.Identity.Numbers.{normalise_bd_phone}
use sobkichu.Identity.Otp.{Crypto, IssuedOtp, hash_code, generate_code, issue_otp, accepted}
use sobkichu.Identity.Otp
use sobkichu.Identity.Acceptance.{issue_otp-verify_otp}
use sobkichu.Identity.Users.{find_phone}
use sobkichu.Notification.Outbox.{OutboxEntry, insert_entry}
use sobkichu.Login.World.{World}
use sobkichu.Login.Store.{otp_key}
use sobkichu.Login.Service.{Collaborators, sent, authenticated, request_otp, verify_otp}
use sobkichu.Login.Laws.{IsCache, IsChallengeJson}
use sobkichu.Login.Stored.{Holds, Holds-value, load_held, hit_keeps, save-Holds}
use sobkichu.Login.Sent.{counted, IsSent, request_sent}
use sobkichu.Login.Queued.{queued_code}
use sobkichu.Login.Exchange.{Configured, tried, may_try, verify_allowed, exchanged, settled_session}

insert_entry-users :
    (engine : Engine) (entry : OutboxEntry) (db : Db)
    → (insert_entry engine entry db).users ≡ db.users
unfolding insert_entry
insert_entry-users engine entry db = ground arith

pub issued_code :
    (crypto : Crypto) (secret : Text) (now : Date) (random : ℕ) (issued : IssuedOtp)
    → issue_otp crypto secret now random ≡ ok issued
    → issued.code ≡ generate_code random
unfolding issue_otp
issued_code crypto secret now random issued h =
    let (hashed, _, made) = >>=-eq-ok (hash_code crypto (generate_code random) secret) _ h in cc

module _ {State : Type 0} (c : Collaborators State) (value : Text → State → Option Text)
    (is_cache : IsCache c.limiter c.cache value) (is_json : IsChallengeJson c.challenges)
    (phone : Text) where
  -- The challenge that is stored once a code is sent.
  pub sent-Holds :
      (now random : ℕ) (w out : World State) (is_sent : IsSent c phone now random w out)
      → Holds c.limiter c.cache c.challenges value is_cache is_json phone is_sent.issued.challenge
          out.cache
        × (is_sent.saved.db ≡ w.db)
  sent-Holds now random w out is_sent =
      let (held, same) =
        save-Holds c.limiter c.cache c.challenges value is_cache is_json phone
          is_sent.issued.challenge (counted c phone now random w) is_sent.saved is_sent.is_saved in
      (
        subst
            (λ s.
              Holds c.limiter c.cache c.challenges value is_cache is_json phone
                is_sent.issued.challenge s)
            (sym is_sent.kept) held,
        same,
      )

  -- The user whom a code was sent to.
  sent_user :
      (now random : ℕ) (w out : World State)
      → IsSent c phone now random w out
      → (user : UserRow) × (find_phone phone out.db.users ≡ some user)
  sent_user now random w out is_sent =
      let (mid, known, message) =
        queued_code c.engine phone is_sent.issued.code now is_sent.saved.db out.db is_sent.user_id
          is_sent.queued in
      (
        known.user,
        ap (λ d. find_phone phone d.users) message.inserted
            ∙ ap (find_phone phone) (insert_entry-users c.engine _ mid)
            ∙ known.is_user,
      )

  sent_accepted :
      (now waited random : ℕ) (w out : World State) (is_sent : IsSent c phone now random w out)
      → now ≤ 8000000000000000
      → waited ≤ 300000
      → random < 1000000
      → Otp.verify_otp c.crypto
          (some is_sent.issued.challenge)
          (generate_code random)
          is_sent.secret
          (instant (pos (now + waited)))
        ≡ ok accepted
  sent_accepted now waited random w out is_sent valid soon drawn =
      let (issued, made, _, passes) =
        issue_otp-verify_otp c.crypto is_sent.secret (pos now) waited random is_sent.secret_given
          (omega arith) soon drawn in
      let same : issued ≡ is_sent.issued = cc (is_sent.is_issued) in
      ap
        (λ i.
          Otp.verify_otp c.crypto (some i.challenge) (generate_code random) is_sent.secret
            (instant (pos (now + waited))))
        (sym same)
      ∙ ap
          (λ t.
            Otp.verify_otp c.crypto (some issued.challenge) t is_sent.secret
              (instant (pos (now + waited))))
          (sym (issued_code c.crypto is_sent.secret (instant (pos now)) random issued made))
      ∙ ap
          (λ t.
            Otp.verify_otp c.crypto (some issued.challenge) issued.code is_sent.secret (instant t))
          (sym (pos-+ℤ now waited))
      ∙ passes

  -- While Redis is up and Buffer, node:crypto and JSON do what they document: a code that was sent is
  -- exchanged for a session within five minutes, under any spelling of the number, if the challenge
  -- and the user are as the request left them, the limiter lets the attempt pass, the session secret
  -- is configured, the database commits a read, the clock is in the range of dates and the code was
  -- drawn below a million. The database stays as it was, the challenge is gone, and the token lets
  -- the user through the guard, with no role, for thirty days.
  pub login_admits :
      (documented : IsDocumented c.node c.json) (raw again key : Text) (now waited later random : ℕ)
      (reset : ℤ) (w out mid : World State) (caller : Option AuthenticatedCaller)
      → normalise_bd_phone raw ≡ some phone
      → normalise_bd_phone again ≡ some phone
      → request_otp c raw now random w ≡ (ok (sent reset), out)
      → now ≤ 8000000000000000
      → waited ≤ 300000
      → random < 1000000
      → value (otp_key phone) mid.cache ≡ value (otp_key phone) out.cache
      → find_phone phone mid.db.users ≡ find_phone phone out.db.users
      → c.engine.commits mid.db ≡ none
      → may_try c phone mid ≡ true
      → Configured c.session_setting key
      → later / 1000 < (now + waited) / 1000 + session_ttl_seconds
      → (user : UserRow) × (token : Text) × (after : World State) × (find_phone phone out.db.users
          ≡ some user)
        × (verify_otp c again (generate_code random) (now + waited) mid
            ≡ (ok (authenticated token user.id), after))
        × (after.db ≡ mid.db)
        × (value (otp_key phone) after.cache ≡ none)
        × (can_activate c.node c.json c.session_setting false (some (bearer ++ token)) caller later
            ≡ ok (some (record { user_id = user.id; active_role_id = none })))
  login_admits documented raw again key now waited later random reset w out mid caller given given'
        requested valid soon drawn kept known commits allowed configured alive =
      let is_sent = request_sent c phone now random w raw reset out given requested in
      let (held, _) = sent-Holds now random w out is_sent in
      let (user, is_user) = sent_user now random w out is_sent in
      let still =
        Holds-value c.limiter c.cache c.challenges value is_cache is_json phone
          is_sent.issued.challenge out.cache (tried c phone mid).cache
          (hit_keeps c.limiter c.cache c.challenges value is_cache is_json phone _ _ mid.cache
            ∙ kept)
          held in
      let (token, issued, admits, _) =
        issued_admitted c.node c.json documented user.id none key (now + waited) later caller
          configured.1 in
      let (after, settled, same, gone) =
        settled_session c phone (now + waited) value is_cache is_json
          (some is_sent.issued.challenge) user key token (tried c phone mid) (known ∙ is_user)
          commits configured issued in
      (
        user,
        token,
        after,
        is_user,
        verify_allowed c phone (now + waited) again (generate_code random) mid given' allowed
            ∙ exchanged c phone (now + waited) (generate_code random) is_sent.secret
                (some is_sent.issued.challenge) accepted (tried c phone mid)
                (is_sent.is_secret, is_sent.secret_given)
                (load_held c.limiter c.cache c.challenges value is_cache is_json phone
                  is_sent.issued.challenge (tried c phone mid) still)
                (sent_accepted now waited random w out is_sent valid soon drawn)
            ∙ settled,
        same,
        gone,
        ap (λ k. can_activate c.node c.json k false (some (bearer ++ token)) caller later)
              configured.0
            ∙ admits alive,
      )
