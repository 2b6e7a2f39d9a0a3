-- ===== src/Login/Store.antt =====
-- api/src/identity/otp.store.ts. Redis and JSON are parameters, and so are the texts of dates.
use sobkichu.Prelude.{
  ℕ, ◌+◌, true, false, Option, none, some, ◌++◌, ℤ, pos, ltb_ℤ, Result, ok, err, plain_error, Text,
  lit, truthy,
}
use sobkichu.DeliveryClock.{Date}
use sobkichu.Identity.Otp.{OtpChallenge, otp_ttl_seconds}
use sobkichu.Login.World.{App, ◌>>=◌, pure, lift, read_cache, try_cache}

-- GET, TTL, SET with EX, and DEL; each may throw.
pub record Cache (State : Type 0) : Type 0 where
  pub get : Text → State → Result (Option Text)
  pub ttl : Text → State → Result ℤ
  pub set_ex : Text → Text → ℤ → State → Result (Unit {0}) × State
  pub del : Text → State → Result (Unit {0}) × State

pub record StoredChallenge : Type 0 where
  pub code_hash : Text
  pub expires_at : Text
  pub attempts : ℕ

-- JSON of a stored challenge, and dates as texts: `parse` gives nothing where it throws, and
-- `to_iso` throws on an invalid date.
pub record ChallengeJson : Type 0 where
  pub stringify : StoredChallenge → Text
  pub parse : Text → Option StoredChallenge
  pub to_iso : Date → Result Text
  pub of_iso : Text → Date

unfoldable pub otp_key : Text → Text
unfolding lit
otp_key phone = lit "otp:" ++ phone

module _ {State : Type 0} (cache : Cache State) (json : ChallengeJson) where
  -- The text that is stored, with the number of attempts.
  unfoldable pub write_challenge : OtpChallenge → ℕ → ℤ → Text → App State (Unit {0})
  write_challenge challenge attempts seconds key = do
    expires_at ← lift (json.to_iso challenge.expires_at)
    try_cache (
        cache.set_ex key
          (json.stringify (record {
            code_hash = challenge.code_hash;
            expires_at = expires_at;
            attempts = attempts;
          }))
          seconds)

  unfoldable pub save : Text → OtpChallenge → App State (Unit {0})
  unfolding write_challenge otp_key
  save phone challenge =
      write_challenge challenge challenge.attempts (pos otp_ttl_seconds) (otp_key phone)

  abbrev pub challenge_of : StoredChallenge → OtpChallenge
  challenge_of stored = record {
    code_hash = stored.code_hash;
    expires_at = json.of_iso stored.expires_at;
    attempts = stored.attempts;
  }

  abbrev pub parse_challenge : Option StoredChallenge → Result (Option OtpChallenge)
  parse_challenge none = err (plain_error "SyntaxError")
  parse_challenge (some stored) = ok (some (challenge_of stored))

  abbrev pub read_raw : Option Text → Result (Option OtpChallenge)
  read_raw none = ok none
  read_raw (some raw) = parse_challenge (json.parse raw)

  unfoldable pub load : Text → App State (Option OtpChallenge)
  unfolding otp_key truthy
  load phone = do raw ← read_cache (cache.get (otp_key phone)); lift (read_raw (truthy raw))

  unfoldable pub record_attempt : Text → OtpChallenge → App State (Unit {0})
  unfolding write_challenge otp_key
  record_attempt phone challenge = do
    ttl ← read_cache (cache.ttl (otp_key phone))
    elim (ltb_ℤ (pos 0) ttl) [
      | true ↦ write_challenge challenge (challenge.attempts + 1) ttl (otp_key phone)
      | false ↦ pure tt
    ]

  -- `del` answers the number of keys, which is not read.
  unfoldable pub consume : Text → App State (Unit {0})
  unfolding otp_key
  consume phone = try_cache (cache.del (otp_key phone))
