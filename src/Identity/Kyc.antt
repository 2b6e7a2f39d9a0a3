-- ===== src/Identity/Kyc.antt =====
-- api/src/identity/kyc.service.ts: the submission of an identity card.
use sobkichu.Prelude.{
  truthy, Option, none, some, List, [], ◌∷◌, if◌then◌else◌, Result, ok, err, bad_request, conflict,
  Text, text_eq,
}
use sobkichu.Database.{Db}
use sobkichu.Database.Transaction.{Engine, M, ◌>>=◌, throw, with_transaction}
use sobkichu.Identity.Numbers.{normalise_nid_number}
use sobkichu.Identity.Users.{ActiveRole, find_roles, submit_kyc}

pub record SubmitKycCommand : Type 0 where
  pub user_id : Text
  pub active_role_id : Option Text
  pub nid_number : Text
  pub document_urls : List Text

-- The only value of `SubmittedKyc`.
pub data SubmittedKyc : Type 0 where
  pending : SubmittedKyc

-- `roles.find((candidate) => candidate.id === activeRoleId)`
unfoldable pub find_role : Text → List ActiveRole → Option ActiveRole
find_role id [] = none
find_role id (role ∷ roles) = if text_eq role.id id then some role else find_role id roles

-- The transaction, once the role is looked up.
unfoldable pub submit_for_role : Engine → SubmitKycCommand → Text → Option ActiveRole → M (Unit {0})
submit_for_role engine command nid_number none = throw (bad_request "error.kyc.role_not_found")
submit_for_role engine command nid_number (some role) =
    if role.kyc_verified
    then throw (conflict "error.kyc.already_verified")
    else submit_kyc engine command.user_id role.id nid_number command.document_urls

unfoldable pub submit_work : Engine → SubmitKycCommand → Text → Text → M (Unit {0})
unfolding submit_for_role find_role find_roles
submit_work engine command role_id nid_number = find_roles command.user_id >>= λ roles.
    submit_for_role engine command nid_number (find_role role_id roles)

abbrev pub submitted : Result (Unit {0}) × Db → Result SubmittedKyc × Db
submitted (ok _, db) = (ok pending, db)
submitted (err e, db) = (err e, db)

unfoldable pub submit_to :
    Engine → SubmitKycCommand → Text → Option Text → Db → Result SubmittedKyc × Db
unfolding submit_work
submit_to engine command role_id none db = (err (bad_request "error.kyc.invalid_nid_format"), db)
submit_to engine command role_id (some nid_number) db =
    submitted (with_transaction engine (submit_work engine command role_id nid_number) db)

unfoldable pub submit_as : Engine → SubmitKycCommand → Option Text → Db → Result SubmittedKyc × Db
unfolding submit_to normalise_nid_number
submit_as engine command none db = (err (bad_request "error.kyc.no_active_role"), db)
submit_as engine command (some role_id) db =
    submit_to engine command role_id (normalise_nid_number command.nid_number) db

-- An empty id of a role counts as none.
unfoldable pub submit : Engine → SubmitKycCommand → Db → Result SubmittedKyc × Db
unfolding submit_as truthy
submit engine command db = submit_as engine command (truthy command.active_role_id) db
