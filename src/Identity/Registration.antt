-- ===== src/Identity/Registration.antt =====
-- What the registration of a merchant leaves.
use sobkichu.Prelude.{
  ◌≡◌, refl, sym, ap, ◌∙◌, Bool, true, false, Bool-cases, inl, inr, ◌⊎◌, Option, none, some, List,
  Result, ok, err, Exception, Text, String, bad_request,
}
use sobkichu.Database.{Db, RoleRow}
use sobkichu.Database.Transaction.{
  Engine, execute, execute-eq-ok, bind-eq-ok, with_transaction, with_transaction_atomic,
}
use sobkichu.Identity.Users.{
  has_merchant_role, merchant_role, append_role, insert_merchant_role, create_merchant_role,
}
use sobkichu.Identity.Onboarding.{
  CreateMerchantCommand, profile_of, is_foreign_key_violation, registered, create_merchant,
}

-- The row of a registration: active, unverified, with a fresh id.
abbrev pub registration : Engine → CreateMerchantCommand → Db → RoleRow
registration engine command db =
    merchant_role (engine.new_id db) command.user_id command.pickup_location_id (profile_of command)

inserted :
    (engine : Engine) (user_id place : Text) (profile : List (String × Option Text)) (held : Bool)
    (db db' : Db) (answer : Option Text)
    → insert_merchant_role engine user_id place profile held db ≡ ok (answer, db')
    → ((answer ≡ none) × (db' ≡ db))
      ⊎ ((held ≡ false)
          × (answer ≡ some (engine.new_id db))
          × (db' ≡ append_role (merchant_role (engine.new_id db) user_id place profile) db))
unfolding insert_merchant_role
inserted engine user_id place profile true db db' answer h = inl (cc, cc)
inserted engine user_id place profile false db db' answer h =
    let new = append_role (merchant_role (engine.new_id db) user_id place profile) in
    let (_, mid, ran, last) = bind-eq-ok (execute engine new) _ db h in
    let left = execute-eq-ok engine new db mid ran in inr (refl, cc, cc)

registered_err : (e : Exception) → (x : Exception) × (registered (err e) ≡ err x)
unfolding registered
registered_err e = elim (Bool-cases (is_foreign_key_violation e)) [
  | inl foreign ↦ (bad_request "error.merchant.pickup_location_not_found", rw foreign refl)
  | inr other ↦ (e, rw other refl)
]

-- The two outcomes of a registration.
abbrev pub RegistrationEffect : Engine → CreateMerchantCommand → Db → Result Text → Db → Type 0
RegistrationEffect engine command db result db' =
    (((e : Exception) × (result ≡ err e)) × (db' ≡ db))
    ⊎ ((has_merchant_role command.user_id db.roles ≡ false)
        × (result ≡ ok (engine.new_id db))
        × (db' ≡ append_role (registration engine command db) db))

pub create_merchant_effect :
    (engine : Engine) (command : CreateMerchantCommand) (db db' : Db) (result : Result Text)
    → create_merchant engine command db ≡ (result, db')
    → RegistrationEffect engine command db result db'
unfolding create_merchant create_merchant_role registered
create_merchant_effect engine command db db' result h =
    let work =
      create_merchant_role engine command.user_id command.pickup_location_id (profile_of command) in
    let (r, out) = with_transaction engine work db in
    elim (with_transaction_atomic engine work db r out refl) [
      | inl (e, thrown, kept) ↦
          let seen = sym h ∙ ap (λ x. (registered x, out)) thrown in
          let (x, answers) = registered_err e in
          inl ((x, ap (λ p. p.0) seen ∙ answers), ap (λ p. p.1) seen ∙ kept)
      | inr (answer, returned, worked) ↦
          let seen = sym h ∙ ap (λ x. (registered x, out)) returned in
          elim (inserted engine command.user_id command.pickup_location_id (profile_of command)
            (has_merchant_role command.user_id db.roles) db out answer worked) [
              | inl (missing, kept) ↦
                  let told = seen ∙ ap (λ a. (registered (ok a), out)) missing in
                  inl ((_, ap (λ p. p.0) told), ap (λ p. p.1) told ∙ kept)
              | inr (free, given, left) ↦
                  let told = seen ∙ ap (λ a. (registered (ok a), out)) given in
                  inr (free, ap (λ p. p.0) told, ap (λ p. p.1) told ∙ left)
            ]
    ]
