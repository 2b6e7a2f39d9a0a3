-- ===== src/Identity/Otp.antt =====
-- api/src/identity/domain/otp.ts: one-time passwords. `Crypto` is node:crypto, and `random` is the
-- number that `randomInt` draws.
use sobkichu.Prelude.{
  ℕ, ◌*◌, Bool, false, not, ◌||◌, Option, none, some, List, leb, ◌==◌, if◌then◌else◌, pos, ◌+ℤ◌,
  ltb_ℤ, Result, ok, ◌>>=◌, ◌>>◌, throw_if, plain_error, Text, text_eq, is_digits, is_empty,
  pad_start, length,
}
use sobkichu.Money.{digits}
use sobkichu.DeliveryClock.{Date, instant, invalid, make_date}

abbrev pub otp_length : ℕ
otp_length = 6

abbrev pub otp_ttl_seconds : ℕ
otp_ttl_seconds = 300

abbrev pub max_verify_attempts : ℕ
max_verify_attempts = 5

-- The HMAC of a text under a secret, in hexadecimal, and the bytes of a hexadecimal text.
pub record Crypto : Type 0 where
  pub hmac : Text → Text → Text
  pub from_hex : Text → List ℕ

pub record OtpChallenge : Type 0 where
  pub code_hash : Text
  pub expires_at : Date
  pub attempts : ℕ

pub record IssuedOtp : Type 0 where
  pub code : Text
  pub challenge : OtpChallenge

pub data VerifyReason : Type 0 where
  wrong expired too_many_attempts : VerifyReason

pub data VerifyOutcome : Type 0 where
  accepted : VerifyOutcome
  declined : VerifyReason → VerifyOutcome

unfoldable pub generate_code : ℕ → Text
generate_code random = pad_start otp_length b'0' (digits random)

unfoldable pub hash_code : Crypto → Text → Text → Result Text
hash_code crypto code secret = do
  throw_if (is_empty secret) (plain_error "OTP secret is not configured")
  ok (crypto.hmac secret code)

-- `new Date(now.getTime() + OTP_TTL_SECONDS * 1000)`
unfoldable pub expiry : Date → Date
expiry invalid = invalid
expiry (instant now) = make_date (now +ℤ pos (otp_ttl_seconds * 1000))

unfoldable pub issue_otp : Crypto → Text → Date → ℕ → Result IssuedOtp
unfolding generate_code hash_code expiry
issue_otp crypto secret now random = do
  code_hash ← hash_code crypto (generate_code random) secret
  ok (record {
    code = generate_code random;
    challenge = record { code_hash = code_hash; expires_at = expiry now; attempts = 0 };
  })

-- `now.getTime() > expiresAt.getTime()`
unfoldable pub is_after : Date → Date → Bool
is_after (instant now) (instant expires) = ltb_ℤ expires now
is_after invalid expires = false
is_after (instant now) invalid = false

-- The comparison of the two digests.
unfoldable pub compare_digests : List ℕ → List ℕ → VerifyOutcome
compare_digests expected actual =
    if not (length expected == length actual)
    then declined wrong
    else if text_eq expected actual
    then accepted
    else declined wrong

unfoldable pub verify_digest : Crypto → OtpChallenge → Text → Text → Result VerifyOutcome
unfolding hash_code compare_digests
verify_digest crypto challenge submitted secret = do
  actual ← hash_code crypto submitted secret
  ok (compare_digests (crypto.from_hex challenge.code_hash) (crypto.from_hex actual))

unfoldable pub verify_otp : Crypto → Option OtpChallenge → Text → Text → Date → Result VerifyOutcome
unfolding verify_digest is_after
verify_otp crypto none submitted secret now = ok (declined wrong)
verify_otp crypto (some challenge) submitted secret now =
    if leb max_verify_attempts challenge.attempts
    then ok (declined too_many_attempts)
    else if is_after now challenge.expires_at
    then ok (declined expired)
    else if not (is_digits submitted) || not (length submitted == otp_length)
    then ok (declined wrong)
    else verify_digest crypto challenge submitted secret
