-- ===== src/Identity/Steps.antt =====
-- Submissions and registrations that follow one another.
use sobkichu.Prelude.{◌≡◌, refl, sym, ◌∙◌, subst, false, inl, inr, Result, Text}
use sobkichu.Database.{Db}
use sobkichu.Database.Transaction.{Engine}
use sobkichu.Identity.Users.{
  has_merchant_role, append_role, set_nid, set_pending, append_submission,
}
use sobkichu.Identity.Kyc.{SubmitKycCommand, SubmittedKyc, submit}
use sobkichu.Identity.Onboarding.{CreateMerchantCommand, create_merchant}
use sobkichu.Identity.Verified.{
  verified_ids, has_role_id, IsRoleTable, found-Unverified, update_roles-verified,
  update_roles-IsRoleTable, append-verified, append-IsRoleTable,
}
use sobkichu.Identity.Submission.{IsAccepted, submission_effect, submit_effect}
use sobkichu.Identity.Registration.{registration, create_merchant_effect}

-- A call of `KycService.submit` or `MerchantOnboardingService.createMerchant`, whatever it answers.
pub data IdentityStep (engine : Engine) : Db → Db → Type 0 where
  submission :
      {db db' : Db} (command : SubmitKycCommand) (result : Result SubmittedKyc)
      → submit engine command db ≡ (result, db')
      → IdentityStep engine db db'
  onboarding :
      {db db' : Db} (command : CreateMerchantCommand) (result : Result Text)
      → create_merchant engine command db ≡ (result, db')
      → IdentityStep engine db db'

pub data IdentitySteps (engine : Engine) : Db → Db → Type 0 where
  stay : {db : Db} → IdentitySteps engine db db
  next :
      {db mid db' : Db}
      → IdentityStep engine db mid
      → IdentitySteps engine mid db'
      → IdentitySteps engine db db'

-- What the steps keep: the keys of the table, and who is verified.
abbrev pub KeepsVerified : Db → Db → Type 0
KeepsVerified db db' = IsRoleTable db'.roles × (verified_ids db'.roles ≡ verified_ids db.roles)

kept : {db db' : Db} → IsRoleTable db.roles → db' ≡ db → KeepsVerified db db'
kept {db} table same = subst (λ d. KeepsVerified db d) (sym same) (table, refl)

submission_keeps :
    (engine : Engine) (command : SubmitKycCommand) (role_id nid_number : Text) (db : Db)
    → IsRoleTable db.roles
    → IsAccepted command db role_id nid_number
    → KeepsVerified db (submission_effect engine command role_id nid_number db)
unfolding set_nid set_pending append_submission
submission_keeps engine command role_id nid_number db table accepted = (
  update_roles-IsRoleTable role_id db.roles table,
  update_roles-verified role_id db.roles (
      found-Unverified role_id command.user_id db.roles accepted.role table accepted.holds
        accepted.unverified),
)

registration_keeps :
    (engine : Engine) (command : CreateMerchantCommand) (db : Db)
    → IsRoleTable db.roles
    → has_role_id (engine.new_id db) db.roles ≡ false
    → has_merchant_role command.user_id db.roles ≡ false
    → KeepsVerified db (append_role (registration engine command db) db)
registration_keeps engine command db table fresh free = (
  append-IsRoleTable db.roles (registration engine command db) table fresh free,
  append-verified db.roles (registration engine command db) refl,
)

module _ (engine : Engine)
    (fresh : (db : Db) → has_role_id (engine.new_id db) db.roles ≡ false) where
  step_keeps :
      {db db' : Db} → IdentityStep engine db db' → IsRoleTable db.roles → KeepsVerified db db'
  step_keeps {db} {db' = db'} (submission command result run) table =
      elim (submit_effect engine command db db' result run) [
        | inl (_, same) ↦ kept table same
        | inr (role_id, nid_number, accepted, _, left) ↦
            subst (KeepsVerified db) (sym left)
              (submission_keeps engine command role_id nid_number db table accepted)
      ]
  step_keeps {db} {db' = db'} (onboarding command result run) table =
      elim (create_merchant_effect engine command db db' result run) [
        | inl (_, same) ↦ kept table same
        | inr (free, _, left) ↦
            subst (KeepsVerified db) (sym left)
              (registration_keeps engine command db table (fresh db) free)
      ]

  -- However many submissions and registrations follow one another, and whatever they answer, the
  -- roles that are verified stay the same ones, ids stay distinct and no user gets a second
  -- merchant role, if fresh ids are not in use.
  pub steps_keep_verified :
      {db db' : Db}
      → IdentitySteps engine db db'
      → IsRoleTable db.roles
      → IsRoleTable db'.roles × (verified_ids db'.roles ≡ verified_ids db.roles)
  steps_keep_verified stay table = (table, refl)
  steps_keep_verified (next step rest) table =
      let (kept_table, same) = step_keeps step table in
      let (last_table, later) = steps_keep_verified rest kept_table in (last_table, later ∙ same)
