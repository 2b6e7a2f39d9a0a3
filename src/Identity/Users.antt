-- ===== src/Identity/Users.antt =====
-- api/src/identity/user.repository.ts: the statements on app_user, role and kyc_submission.
use sobkichu.Prelude.{
  Bool, true, false, ◌&&◌, Option, none, some, List, [], ◌∷◌, ◌++◌, if◌then◌else◌, String, Text,
  text_eq, lit,
}
use sobkichu.Database.{Db, UserRow, RoleRow, RoleType, VerificationStatus}
use sobkichu.Database.Transaction.{Engine, M, ◌>>=◌, ◌>>◌, pure, query, execute}
use sobkichu.Adapters.{is_merchant, is_verified}

unfoldable pub find_phone : Text → List UserRow → Option UserRow
find_phone phone [] = none
find_phone phone (row ∷ rows) =
    if text_eq row.phone_e164 phone then some row else find_phone phone rows

unfoldable pub find_by_phone : Text → M (Option UserRow)
unfolding find_phone
find_by_phone phone = query (λ db. find_phone phone db.users)

-- The defaults of the schema: Bangla, and no identity card.
abbrev pub new_user : Text → Text → UserRow
new_user id phone = record {
  id = id;
  phone_e164 = phone;
  language_preference = lit "bn";
  nid_number = none;
  nid_verification_status = VerificationStatus.unverified;
}

abbrev pub append_user : UserRow → Db → Db
append_user user db = record db { users = db.users ++ user ∷ [] }

-- The two ends of the upsert: `updated_at` is not modelled.
unfoldable pub upsert_phone : Engine → Text → Option UserRow → M Text
unfolding lit
upsert_phone engine phone (some user) = execute engine (λ db. db) >> pure user.id
upsert_phone engine phone none = do
  id ← query (λ db. engine.new_id db)
  execute engine (append_user (new_user id phone))
  pure id

unfoldable pub find_or_create_by_phone : Engine → Text → M Text
unfolding upsert_phone find_by_phone
find_or_create_by_phone engine phone = find_by_phone phone >>= upsert_phone engine phone

pub record ActiveRole : Type 0 where
  pub id : Text
  pub type : RoleType
  pub kyc_verified : Bool

abbrev pub active_role : RoleRow → ActiveRole
active_role row = record { id = row.id; type = row.type; kyc_verified = is_verified row.kyc_status }

-- `WHERE user_id = $1 AND is_active`
unfoldable pub roles_of : Text → List RoleRow → List ActiveRole
roles_of user_id [] = []
roles_of user_id (row ∷ rows) =
    let rest = roles_of user_id rows in
    if text_eq row.user_id user_id && row.is_active then active_role row ∷ rest else rest

unfoldable pub find_roles : Text → M (List ActiveRole)
unfolding roles_of
find_roles user_id = query (λ db. roles_of user_id db.roles)

-- The conflict on `(user_id, type)`.
unfoldable pub has_merchant_role : Text → List RoleRow → Bool
has_merchant_role user_id [] = false
has_merchant_role user_id (row ∷ rows) =
    if text_eq row.user_id user_id && is_merchant row.type
    then true
    else has_merchant_role user_id rows

abbrev pub merchant_role : Text → Text → Text → List (String × Option Text) → RoleRow
merchant_role id user_id pickup_location_id profile = record {
  id = id;
  user_id = user_id;
  type = RoleType.merchant;
  profile = profile;
  kyc_status = VerificationStatus.unverified;
  is_active = true;
  pickup_location_id = some pickup_location_id;
}

abbrev pub append_role : RoleRow → Db → Db
append_role role db = record db { roles = db.roles ++ role ∷ [] }

unfoldable pub insert_merchant_role :
    Engine → Text → Text → List (String × Option Text) → Bool → M (Option Text)
insert_merchant_role engine user_id pickup_location_id profile true = pure none
insert_merchant_role engine user_id pickup_location_id profile false = do
  id ← query (λ db. engine.new_id db)
  execute engine (append_role (merchant_role id user_id pickup_location_id profile))
  pure (some id)

unfoldable pub create_merchant_role :
    Engine → Text → Text → List (String × Option Text) → M (Option Text)
unfolding has_merchant_role insert_merchant_role
create_merchant_role engine user_id pickup_location_id profile =
    query (λ db. has_merchant_role user_id db.roles)
    >>= insert_merchant_role engine user_id pickup_location_id profile

abbrev pub submitted_user : Text → UserRow → UserRow
submitted_user nid_number user = record user {
  nid_number = some nid_number;
  nid_verification_status = VerificationStatus.pending;
}

unfoldable pub update_users : Text → (UserRow → UserRow) → List UserRow → List UserRow
update_users id f [] = []
update_users id f (row ∷ rows) =
    if text_eq row.id id then f row ∷ update_users id f rows else row ∷ update_users id f rows

unfoldable pub update_roles : Text → (RoleRow → RoleRow) → List RoleRow → List RoleRow
update_roles id f [] = []
update_roles id f (row ∷ rows) =
    if text_eq row.id id then f row ∷ update_roles id f rows else row ∷ update_roles id f rows

abbrev pub pending_role : RoleRow → RoleRow
pending_role row = record row { kyc_status = VerificationStatus.pending }

-- The three statements of `submitKyc`.
unfoldable pub set_nid : Text → Text → Db → Db
unfolding update_users
set_nid user_id nid_number db = record db {
  users = update_users user_id (submitted_user nid_number) db.users;
}

unfoldable pub set_pending : Text → Db → Db
unfolding update_roles
set_pending role_id db = record db { roles = update_roles role_id pending_role db.roles }

unfoldable pub append_submission : Engine → Text → List Text → Db → Db
append_submission engine role_id document_urls db = record db {
  kyc_submissions =
      db.kyc_submissions
      ++ record { id = engine.new_id db; role_id = role_id; document_urls = document_urls } ∷ [];
}

unfoldable pub submit_kyc : Engine → Text → Text → Text → List Text → M (Unit {0})
unfolding set_nid set_pending append_submission
submit_kyc engine user_id role_id nid_number document_urls =
    execute engine (set_nid user_id nid_number)
    >> (execute engine (set_pending role_id)
        >> execute engine (append_submission engine role_id document_urls))
