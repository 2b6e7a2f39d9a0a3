-- ===== src/Login/Laws.antt =====
-- What Redis and JSON document of the calls that the login makes.
use sobkichu.Prelude.{
  ℕ, ◌≡◌, refl, true, false, Option, none, some, ℤ, pos, ltb_ℤ, ok, Text, text_eq, is_empty, lit,
}
use sobkichu.RateLimit.{Redis, namespaced}
use sobkichu.DeliveryClock.{Date}
use sobkichu.Login.Store.{Cache, StoredChallenge, ChallengeJson, otp_key}

-- GET reads the value that is live, SET with a positive EX and DEL succeed and change their key
-- alone, and the counters of the limiter are other keys: Redis while it is up.
pub record IsCache {State : Type 0} (limiter : Redis State) (cache : Cache State)
    (value : Text → State → Option Text) : Type 0 where
  pub gets : (key : Text) (s : State) → cache.get key s ≡ ok (value key s)
  pub set_done :
      (key text : Text) (seconds : ℤ) (s : State)
      → ltb_ℤ (pos 0) seconds ≡ true
      → (cache.set_ex key text seconds s).0 ≡ ok tt
  pub sets :
      (key text : Text) (seconds : ℤ) (s : State)
      → ltb_ℤ (pos 0) seconds ≡ true
      → value key (cache.set_ex key text seconds s).1 ≡ some text
  pub del_done : (key : Text) (s : State) → (cache.del key s).0 ≡ ok tt
  pub dels : (key : Text) (s : State) → value key (cache.del key s).1 ≡ none
  pub counts_apart :
      (key other : Text) (window : ℕ) (s : State)
      → text_eq key other ≡ false
      → value key (limiter.exec other window s).1 ≡ value key s

-- A challenge comes back from its text, which is not empty, and a date from its own.
pub record IsChallengeJson (json : ChallengeJson) : Type 0 where
  pub parse_back : (stored : StoredChallenge) → json.parse (json.stringify stored) ≡ some stored
  pub text_given : (stored : StoredChallenge) → is_empty (json.stringify stored) ≡ false
  pub date_back : (date : Date) (text : Text) → json.to_iso date ≡ ok text → json.of_iso text ≡ date

-- The key of a challenge is no counter.
pub otp_key_apart : (phone key : Text) → text_eq (otp_key phone) (namespaced key) ≡ false
unfolding otp_key namespaced lit text_eq
otp_key_apart phone key = refl
