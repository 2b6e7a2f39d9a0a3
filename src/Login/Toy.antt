-- ===== src/Login/Toy.antt =====
-- A store in memory, and a small instance of JSON and of node:crypto, which the tests use.
use sobkichu.Prelude.{
  is_empty, sym, ◌==◌, ℕ, ◌+◌, ◌≡◌, refl, ap, Option, none, some, [], ◌∷◌, ◌++◌, length, take, drop,
  take_prefix, drop_prefix, if◌then◌else◌, pos, negsuc, Result, ok, err, plain_error, Text, text_eq,
  text_eq_refl, lit,
}
use sobkichu.DeliveryClock.{Date, instant, invalid}
use sobkichu.RateLimit.{Redis}
use sobkichu.Identity.Otp.{Crypto}
use sobkichu.Session.Toy.{toy, toy_json}
use sobkichu.Login.Store.{Cache, StoredChallenge, ChallengeJson}
use sobkichu.Login.Service.{Collaborators}
use sobkichu.Login.Laws.{IsCache, IsChallengeJson}
use sobkichu.Fixtures.{calm}

pub record Memory : Type 0 where
  pub counts : Text → ℕ
  pub values : Text → Option Text

abbrev assign : {A : Type 0} → Text → A → (Text → A) → Text → A
assign key a f other = if text_eq other key then a else f other

abbrev memory : Redis Memory
memory = record {
  exec = λ key window s. (
    some (s.counts key + 1, pos window),
    record s { counts = assign key (s.counts key + 1) s.counts },
  );
}

abbrev store : Cache Memory
store = record {
  get = λ key s. ok (s.values key);
  ttl = λ key s. ok (pos 300);
  set_ex = λ key text seconds s. (ok tt, record s { values = assign key (some text) s.values });
  del = λ key s. (ok tt, record s { values = assign key none s.values });
}

abbrev write_date : Date → Result Text
write_date (instant (pos n)) = ok (0 ∷ n ∷ [])
write_date (instant (negsuc n)) = ok (1 ∷ n ∷ [])
write_date invalid = err (plain_error "Invalid time value")

abbrev read_date : Text → Date
read_date [] = invalid
read_date (sign ∷ []) = invalid
read_date (sign ∷ n ∷ s) = if sign == 0 then instant (pos n) else instant (negsuc n)

abbrev read_stored : Text → Option StoredChallenge
read_stored [] = none
read_stored (attempts ∷ []) = none
read_stored (attempts ∷ n ∷ s) =
    some (record { code_hash = take n s; expires_at = drop n s; attempts = attempts })

abbrev pub challenge_json : ChallengeJson
challenge_json = record {
  stringify =
      λ stored. stored.attempts ∷ length stored.code_hash ∷ (stored.code_hash ++ stored.expires_at);
  parse = read_stored;
  to_iso = write_date;
  of_iso = read_date;
}

-- The digest of a code is the code.
abbrev plain : Crypto
plain = record { hmac = λ key code. code; from_hex = λ s. s }

abbrev pub service : Collaborators Memory
service = record {
  limiter = memory;
  cache = store;
  challenges = challenge_json;
  crypto = plain;
  node = toy;
  json = toy_json;
  engine = calm;
  otp_setting = some (lit "o");
  session_setting = some (lit "k");
}

abbrev pub live_value : Text → Memory → Option Text
live_value key s = s.values key

pub memory-IsCache : IsCache memory store live_value
memory-IsCache = record {
  gets = λ key s. refl;
  set_done = λ key text seconds s positive. refl;
  sets = λ key text seconds s positive.
      ap (λ b. if b then some text else s.values key) (text_eq_refl key);
  del_done = λ key s. refl;
  dels = λ key s. ap (λ b. if b then none else s.values key) (text_eq_refl key);
  counts_apart = λ key other window s h. refl;
}

dated : (date : Date) (text : Text) → write_date date ≡ ok text → read_date text ≡ date
dated (instant (pos n)) text h = let same : 0 ∷ n ∷ [] ≡ text = cc in ap read_date (sym same)
dated (instant (negsuc n)) text h = let same : 1 ∷ n ∷ [] ≡ text = cc in ap read_date (sym same)
dated invalid text h = cc

pub challenge_json-IsChallengeJson : IsChallengeJson challenge_json
unfolding is_empty
challenge_json-IsChallengeJson = record {
  parse_back = λ stored.
      rw
        (
          take_prefix stored.code_hash stored.expires_at,
          drop_prefix stored.code_hash stored.expires_at,
        )
        refl;
  text_given = λ stored. refl;
  date_back = dated;
}
