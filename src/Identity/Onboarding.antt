-- ===== src/Identity/Onboarding.antt =====
-- api/src/identity/merchant-onboarding.service.ts: the registration of a merchant role.
use sobkichu.Prelude.{
  Bool, false, Option, none, some, List, [], ◌∷◌, if◌then◌else◌, Result, ok, err, Exception,
  bad_request, conflict, database_error, String, Text, text_eq, lit,
}
use sobkichu.Database.{Db}
use sobkichu.Database.Transaction.{Engine, with_transaction}
use sobkichu.Identity.Users.{create_merchant_role}

pub record CreateMerchantCommand : Type 0 where
  pub user_id : Text
  pub pickup_location_id : Text
  pub business_name_bn : Text
  pub business_name_en : Option Text

unfoldable pub is_foreign_key_violation : Exception → Bool
unfolding text_eq lit
is_foreign_key_violation (database_error code message) = text_eq (lit code) (lit "23503")
is_foreign_key_violation _ = false

abbrev pub profile_of : CreateMerchantCommand → List (String × Option Text)
profile_of command =
    ("businessNameBn", some command.business_name_bn)
    ∷ ("businessNameEn", command.business_name_en)
    ∷ []

-- The `catch`, and what follows the `try`: the result is the id of the role.
unfoldable pub registered : Result (Option Text) → Result Text
unfolding is_foreign_key_violation
registered (ok (some id)) = ok id
registered (ok none) = err (conflict "error.merchant.already_registered")
registered (err e) =
    if is_foreign_key_violation e
    then err (bad_request "error.merchant.pickup_location_not_found")
    else err e

unfoldable pub create_merchant : Engine → CreateMerchantCommand → Db → Result Text × Db
unfolding registered create_merchant_role
create_merchant engine command db =
    let (result, db') =
      with_transaction engine
        (create_merchant_role engine command.user_id command.pickup_location_id
          (profile_of command))
        db in
    (registered result, db')
