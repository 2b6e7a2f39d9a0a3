-- ===== src/Login/Tests.antt =====
-- A login at the store in memory.
use sobkichu.Session.Token.{sign, drop_padding, b64url, issue_session_token}
use sobkichu.Prelude.{
  is_digits, truthy, pad_start, is_empty, ◌+ℤ◌, all_chars, is_space, strip, ◌≡◌, ◌≢◌, refl, true,
  false, none, some, [], ◌∷◌, ◌++◌, if◌then◌else◌, pos, ok, err, Text, lit, arith, text_eq,
}
use sobkichu.Login.Store.{record_attempt, load, consume, write_challenge, save, otp_key}
use sobkichu.Login.Service.{
  verify_phone, settle_outcome, open_session, exchange_code, count_attempt, send_code,
  request_phone, sent, authenticated, rejected, request_otp, verify_otp,
}
use sobkichu.Identity.Otp.{
  verify_digest, is_after, compare_digests, hash_code, expiry, issue_otp, OtpChallenge, wrong,
  too_many_attempts, generate_code,
}
use sobkichu.RateLimit.{namespaced, decide, hit}
use sobkichu.Notification.Outbox.{new_row, insert_entry, enqueue, has_dedupe_key}
use sobkichu.Notification.ChannelPolicy.{template_key_for, policies, channels_for}
use sobkichu.Notification.Adapter.{
  notify_found, find_user, entry_for, enqueue_channels, channel_name, channel_key, notify,
}
use sobkichu.Money.{digits_from, digits}
use sobkichu.Login.Notice.{login_notice, login_key, queue_code}
use sobkichu.Identity.Users.{upsert_phone, find_by_phone, find_or_create_by_phone, find_phone}
use sobkichu.Identity.Numbers.{
  is_mobile, is_local, is_international, drop_plus, drop_first, canonical_phone, is_separator,
  normalise_bd_phone,
}
use sobkichu.Database.Transaction.{execute, with_transaction}
use sobkichu.DeliveryClock.{make_date, instant}
use sobkichu.Database.{UserRow}
use sobkichu.Session.Guard.{bearer, can_activate}
use sobkichu.Session.Toy.{toy-IsDocumented}
use sobkichu.Login.World.{World}
use sobkichu.Login.Stored.{Holds}
use sobkichu.Login.Admitted.{login_admits}
use sobkichu.Login.Once.{login_once}
use sobkichu.Login.Guesses.{stop, guess}
use sobkichu.Login.Exchange.{may_try}
use sobkichu.Login.Lockout.{fifth_attempt_closes}
use sobkichu.Login.Toy.{
  Memory, challenge_json, service, live_value, memory-IsCache, challenge_json-IsChallengeJson,
}
use sobkichu.Fixtures.{shop}
use sobkichu.Identity.Otp

abbrev fresh : World Memory
fresh = record { cache = record { counts = λ _. 0; values = λ _. none }; db = shop }

abbrev phone : Text
phone = lit "+8801711111111"

-- A request at the second minute, for the code 000042.
abbrev requested : World Memory
requested = (request_otp service (lit "01711-111111") 120000 42 fresh).1

request_run :
    request_otp service (lit "01711-111111") 120000 42 fresh ≡ (ok (sent (pos 900)), requested)
unfolding request_otp normalise_bd_phone strip is_separator is_space all_chars hit issue_otp save
    make_date ◌+ℤ◌ with_transaction queue_code find_or_create_by_phone text_eq execute notify
    canonical_phone drop_first drop_plus is_international is_local is_mobile expiry generate_code
    hash_code find_by_phone find_phone upsert_phone login_key login_notice request_phone send_code
    otp_key write_challenge digits digits_from channel_key channel_name enqueue_channels entry_for
    find_user notify_found channels_for policies template_key_for enqueue has_dedupe_key
    insert_entry new_row is_empty lit pad_start truthy decide namespaced
request_run = refl

abbrev opened : World Memory
opened = (verify_otp service (lit "8801711111111") (lit "000042") 180000 requested).1

abbrev token : Text
token = elim (issue_session_token service.node service.json (lit "u1") none (lit "k") 180000) [
  | ok s ↦ s
  | err e ↦ []
]

verify_run :
    verify_otp service (lit "8801711111111") (lit "000042") 180000 requested
    ≡ (ok (authenticated token (lit "u1")), opened)
unfolding verify_otp Otp.verify_otp normalise_bd_phone strip is_separator is_space all_chars hit
    request_otp issue_otp save make_date ◌+ℤ◌ with_transaction queue_code find_or_create_by_phone
    text_eq execute canonical_phone drop_first drop_plus is_international is_local is_mobile
    compare_digests expiry generate_code hash_code is_after verify_digest find_by_phone find_phone
    upsert_phone login_key login_notice count_attempt exchange_code open_session request_phone
    send_code settle_outcome verify_phone consume load otp_key record_attempt write_challenge digits
    digits_from channel_key channel_name enqueue_channels entry_for find_user notify notify_found
    channels_for policies template_key_for enqueue has_dedupe_key insert_entry new_row is_digits
    is_empty lit pad_start truthy decide namespaced b64url drop_padding issue_session_token sign
verify_run = refl

-- A challenge with four attempts, and a fifth.
abbrev guessed_at : OtpChallenge
guessed_at = record { code_hash = lit "000042"; expires_at = instant (pos 420000); attempts = 4 }

abbrev tired : World Memory
tired = record {
  cache = record {
    counts = λ _. 0;
    values = λ key.
        if text_eq key (otp_key phone)
        then some (
            challenge_json.stringify
              (record { code_hash = lit "000042"; expires_at = 0 ∷ 420000 ∷ []; attempts = 4 }))
        else none;
  };
  db = shop;
}

abbrev closed : World Memory
closed = (verify_otp service phone (lit "000041") 180000 tired).1

guess_run : verify_otp service phone (lit "000041") 180000 tired ≡ (ok (rejected wrong), closed)
unfolding verify_otp Otp.verify_otp normalise_bd_phone strip is_separator is_space all_chars hit
    request_otp issue_otp save make_date ◌+ℤ◌ with_transaction queue_code find_or_create_by_phone
    text_eq execute canonical_phone drop_first drop_plus is_international is_local is_mobile
    compare_digests expiry generate_code hash_code is_after verify_digest find_by_phone find_phone
    upsert_phone login_key login_notice count_attempt exchange_code open_session request_phone
    send_code settle_outcome verify_phone consume load otp_key record_attempt write_challenge digits
    digits_from channel_key channel_name enqueue_channels entry_for find_user notify notify_found
    channels_for policies template_key_for enqueue has_dedupe_key insert_entry new_row is_digits
    is_empty lit pad_start truthy decide namespaced b64url drop_padding issue_session_token sign
guess_run = refl

tired-Holds :
    Holds service.limiter service.cache service.challenges live_value memory-IsCache
      challenge_json-IsChallengeJson phone guessed_at tired.cache
unfolding otp_key lit text_eq
tired-Holds = record {
  stored = record { code_hash = lit "000042"; expires_at = 0 ∷ 420000 ∷ []; attempts = 4 };
  same_hash = refl;
  same_expiry = refl;
  same_attempts = refl;
  is_value = refl;
}

plain_number : normalise_bd_phone phone ≡ some phone
unfolding normalise_bd_phone strip lit is_separator is_space all_chars
plain_number = refl

local_number : normalise_bd_phone (lit "01711-111111") ≡ some phone
unfolding normalise_bd_phone strip lit is_separator is_space all_chars
local_number = refl

international_number : normalise_bd_phone (lit "8801711111111") ≡ some phone
unfolding normalise_bd_phone strip lit is_separator is_space all_chars
international_number = refl

u1_found : find_phone phone requested.db.users ≡ find_phone phone requested.db.users
u1_found = refl

may_login : may_try service phone requested ≡ true
unfolding verify_otp Otp.verify_otp normalise_bd_phone strip is_separator is_space all_chars hit
    request_otp issue_otp save make_date ◌+ℤ◌ with_transaction queue_code find_or_create_by_phone
    text_eq execute canonical_phone drop_first drop_plus is_international is_local is_mobile
    compare_digests expiry generate_code hash_code is_after verify_digest find_by_phone find_phone
    upsert_phone login_key login_notice count_attempt exchange_code open_session request_phone
    send_code settle_outcome verify_phone consume load otp_key record_attempt write_challenge digits
    digits_from channel_key channel_name enqueue_channels entry_for find_user notify notify_found
    channels_for policies template_key_for enqueue has_dedupe_key insert_entry new_row is_digits
    is_empty lit pad_start truthy decide namespaced b64url drop_padding issue_session_token sign
may_login = refl

login_admits_example :
    (user : UserRow) × (token : Text) × (after : World Memory) × (find_phone phone
        requested.db.users
      ≡ some user)
    × (verify_otp service (lit "8801711111111") (generate_code 42) 180000 requested
        ≡ (ok (authenticated token user.id), after))
    × (after.db ≡ requested.db)
    × (live_value (otp_key phone) after.cache ≡ none)
    × (can_activate service.node service.json service.session_setting false
          (some (bearer ++ token))
          none
          5000000
        ≡ ok (some (record { user_id = user.id; active_role_id = none })))
unfolding is_empty lit
login_admits_example =
    login_admits service live_value memory-IsCache challenge_json-IsChallengeJson phone
      toy-IsDocumented (lit "01711-111111") (lit "8801711111111") (lit "k") 120000 60000 5000000 42
      (pos 900) fresh requested requested none local_number international_number request_run
      (omega arith) (omega arith) (omega arith) refl refl refl may_login (refl, refl) (omega arith)

login_once_example :
    (verify_otp service phone (lit "000042") 190000 opened)
    ≢ (ok (authenticated (lit "t") (lit "u1")), opened)
login_once_example =
    login_once service live_value memory-IsCache challenge_json-IsChallengeJson phone
      (lit "8801711111111") phone (lit "000042") (lit "000042") 180000 190000 requested opened
      opened opened token (lit "u1") (lit "t") (lit "u1") international_number plain_number
      verify_run refl

fifth_attempt_closes_example :
    verify_otp service phone (lit "000042") 190000 closed
    ≢ (ok (authenticated (lit "t") (lit "u1")), closed)
fifth_attempt_closes_example =
    fifth_attempt_closes service live_value memory-IsCache challenge_json-IsChallengeJson phone
      guessed_at phone (lit "000042") 190000 1 tired closed closed (lit "t") (lit "u1") tired-Holds
      (guess phone (lit "000041") 180000 wrong (pos 300) plain_number refl refl guess_run stop)
      (omega arith) plain_number
