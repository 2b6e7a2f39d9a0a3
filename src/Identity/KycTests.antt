-- ===== src/Identity/KycTests.antt =====
-- A buyer of the small shop becomes a merchant and submits an identity card.
use sobkichu.Identity.Users.{has_merchant_role, submit_kyc}
use sobkichu.Prelude.{
  is_space, strip, is_digits, ℕ, zero, suc, ◌+◌, ◌<◌, ◌≤◌, ◌≡◌, refl, ap, false, Bool-cases, inl,
  inr, ◌⊎◌, none, some, List, [], ◌∷◌, ok, err, Exception, bad_request, conflict, database_error,
  Text, lit, text_eq, text_eq_iff, length, replicate, arith,
}
use sobkichu.Identity.Numbers.{is_blank_or_dash}
use sobkichu.Database.Transaction.{execute, with_transaction, Engine}
use sobkichu.Database.{Db, RoleRow}
use sobkichu.Identity.Kyc.{SubmitKycCommand, pending, submit}
use sobkichu.Identity.Onboarding.{CreateMerchantCommand, create_merchant}
use sobkichu.Identity.Verified.{verified_ids, has_role_id, IsRoleTable}
use sobkichu.Identity.Submitted.{IsSubmitted, submit_stores}
use sobkichu.Identity.Steps.{submission, onboarding, IdentitySteps, stay, next, steps_keep_verified}
use sobkichu.Fixtures.{calm, shop}

-- Fresh ids: longer than all that are in use.
abbrev total_length : List RoleRow → ℕ
total_length [] = 1
total_length (row ∷ rows) = length row.id + total_length rows

long_absent :
    (id : Text) (rows : List RoleRow) → total_length rows ≤ length id → has_role_id id rows ≡ false
unfolding has_role_id
long_absent id [] h = refl
long_absent id (row ∷ rows) h = elim (Bool-cases (text_eq row.id id)) [
  | inl same ↦
      let as_long = ap length ((text_eq_iff row.id id).0 same) in
      let more = total_pos rows in absurd (omega arith)
  | inr other ↦ rw other (long_absent id rows (omega arith))
]
  where
    total_pos : (rs : List RoleRow) → 0 < total_length rs
    total_pos [] = omega arith
    total_pos (r ∷ rs) = omega (arith, total_pos rs)

abbrev careful : Engine
careful = record calm { new_id = λ db. replicate (total_length db.roles) b'x' }

long_enough : (n : ℕ) → n ≤ length {A = ℕ} (replicate n b'x')
long_enough zero = omega arith
long_enough (suc n) = omega (arith, long_enough n)

careful_fresh : (db : Db) → has_role_id (careful.new_id db) db.roles ≡ false
careful_fresh db = long_absent (careful.new_id db) db.roles (long_enough (total_length db.roles))

abbrev shop_opens : CreateMerchantCommand
shop_opens = record {
  user_id = lit "u1";
  pickup_location_id = lit "l2";
  business_name_bn = lit "Dokan";
  business_name_en = none;
}

abbrev registered_db : Db
registered_db = (create_merchant careful shop_opens shop).1

abbrev new_role : Text
new_role = lit "xxx"

registered_run : create_merchant careful shop_opens shop ≡ (ok new_role, registered_db)
unfolding create_merchant lit with_transaction execute
registered_run = refl

second_shop :
    create_merchant careful shop_opens registered_db
    ≡ (err (conflict "error.merchant.already_registered"), registered_db)
unfolding create_merchant lit with_transaction execute
second_shop = refl

-- PostgreSQL refuses the pickup location.
abbrev strict : Engine
strict = record careful { refuses = λ _. some (database_error "23503" "violates foreign key") }

no_place :
    create_merchant strict shop_opens shop
    ≡ (err (bad_request "error.merchant.pickup_location_not_found"), shop)
unfolding create_merchant lit with_transaction execute
no_place = refl

abbrev card : SubmitKycCommand
card = record {
  user_id = lit "u1";
  active_role_id = some (lit "xxx");
  nid_number = lit "123-456 7890";
  document_urls = lit "nid.jpg" ∷ [];
}

abbrev submitted_db : Db
submitted_db = (submit careful card registered_db).1

submitted_run : submit careful card registered_db ≡ (ok pending, submitted_db)
unfolding submit lit is_digits strip is_blank_or_dash is_space with_transaction create_merchant
    execute submit_kyc
submitted_run = refl

not_mine :
    submit careful (record card { active_role_id = some (lit "m1") }) registered_db
    ≡ (err (bad_request "error.kyc.role_not_found"), registered_db)
unfolding submit lit is_digits strip is_blank_or_dash is_space with_transaction create_merchant
    execute
not_mine = refl

submit_stores_example :
    (((e : Exception) × (ok pending ≡ err e)) × (submitted_db ≡ registered_db))
    ⊎ ((ok pending ≡ ok pending) × IsSubmitted card registered_db submitted_db)
submit_stores_example =
    submit_stores careful card registered_db submitted_db (ok pending) submitted_run

abbrev history : IdentitySteps careful shop submitted_db
history =
    next (onboarding shop_opens (ok new_role) registered_run)
      (next (submission card (ok pending) submitted_run) stay)

shop_table : IsRoleTable shop.roles
unfolding has_role_id has_merchant_role
shop_table = (refl, (λ _. refl), tt)

steps_keep_verified_example :
    IsRoleTable submitted_db.roles × (verified_ids submitted_db.roles ≡ verified_ids shop.roles)
steps_keep_verified_example = steps_keep_verified careful careful_fresh history shop_table
