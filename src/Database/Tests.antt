-- ===== src/Database/Tests.antt =====
-- A transaction that throws, and one that commits.
use sobkichu.Prelude.{Result, ◌≡◌, refl, none, [], ◌∷◌, err, plain_error, Text, lit}
use sobkichu.Database.{Db, UserRow, VerificationStatus}
use sobkichu.Database.Transaction.{Engine, M, ◌>>◌, throw, execute, with_transaction}

abbrev empty : Db
empty = record {
  users = [];
  roles = [];
  locations = [];
  kyc_submissions = [];
  categories = [];
  listings = [];
  orders = [];
  items = [];
  events = [];
  transactions = [];
  outbox = [];
}

abbrev accepting : Engine
accepting = record { refuses = λ _. none; commits = λ _. none; new_id = λ _. lit "n"; now = λ _. 0 }

abbrev someone : UserRow
someone = record {
  id = lit "u1";
  phone_e164 = lit "+8801";
  language_preference = lit "bn";
  nid_number = none;
  nid_verification_status = VerificationStatus.unverified;
}

-- A statement, and a throw behind it.
abbrev work : M Text
work =
    execute accepting (λ db. record db { users = someone ∷ db.users }) >> throw (plain_error "stop")

abbrev stopped : Result Text
stopped = err (plain_error "stop")

rolled_back : with_transaction accepting work empty ≡ (err (plain_error "stop"), empty)
unfolding with_transaction execute
rolled_back = refl
