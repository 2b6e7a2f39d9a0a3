-- ===== src/Identity/Submitted.antt =====
-- The submission of an identity card, column by column.
use sobkichu.Prelude.{
  ◌≡◌, ◌≢◌, refl, sym, ◌∙◌, ap, Bool-cases, inl, inr, ◌⊎◌, some, List, [], ◌∷◌, ◌++◌, Result, ok,
  err, Exception, false, Text, text_eq, text_eq_iff,
}
use sobkichu.Database.{Db, UserRow, RoleRow, VerificationStatus}
use sobkichu.Database.Transaction.{Engine}
use sobkichu.Adapters.{is_verified}
use sobkichu.Identity.Numbers.{normalise_nid_number}
use sobkichu.Identity.Users.{
  submitted_user, update_users, update_roles, pending_role, set_nid, set_pending, append_submission,
}
use sobkichu.Identity.Kyc.{SubmitKycCommand, SubmittedKyc, pending, submit}
use sobkichu.Identity.Held.{IsHeld, find_role-IsHeld}
use sobkichu.Identity.Submission.{submit_effect}

-- Two lists of one length, whose elements are related in their order.
abbrev pub Pointwise : {A : Type 0} (R : A → A → Type 0) → List A → List A → Type 0
Pointwise R [] ys = ys ≡ []
Pointwise {A} R (x ∷ xs) ys =
    (y : A) × (rest : List A) × (ys ≡ y ∷ rest) × R x y × Pointwise R xs rest

-- The user has the number, which waits for its check; the other users are as they were.
abbrev pub IsMarked : Text → Text → UserRow → UserRow → Type 0
IsMarked user_id nid_number user user' =
    ((user.id ≡ user_id)
      × (user' ≡ record user {
        nid_number = some nid_number;
        nid_verification_status = VerificationStatus.pending;
      }))
    ⊎ ((user.id ≢ user_id) × (user' ≡ user))

-- The role waits for its check; the other roles are as they were.
abbrev pub IsWaiting : Text → RoleRow → RoleRow → Type 0
IsWaiting role_id role role' =
    ((role.id ≡ role_id) × (role' ≡ record role { kyc_status = VerificationStatus.pending }))
    ⊎ ((role.id ≢ role_id) × (role' ≡ role))

-- A submission that is accepted, and what it leaves.
pub record IsSubmitted (command : SubmitKycCommand) (db db' : Db) : Type 0 where
  pub role_id : Text
  pub acting : command.active_role_id ≡ some role_id
  pub role : RoleRow
  pub held : IsHeld db.roles command.user_id role_id role
  pub unverified : role.kyc_status ≢ VerificationStatus.verified
  pub nid_number : Text
  pub readable : normalise_nid_number command.nid_number ≡ some nid_number
  pub users : List UserRow
  pub marked : Pointwise (IsMarked command.user_id nid_number) db.users users
  pub roles : List RoleRow
  pub waiting : Pointwise (IsWaiting role_id) db.roles roles
  pub submission_id : Text
  pub stored : db' ≡ record db {
    users = users;
    roles = roles;
    kyc_submissions =
        db.kyc_submissions
        ++ record { id = submission_id; role_id = role_id; document_urls = command.document_urls }
          ∷ [];
  }

differs : (s t : Text) → text_eq s t ≡ false → s ≢ t
differs s t h same = let found = (text_eq_iff s t).1 same in cc

update_users-Pointwise :
    (user_id nid_number : Text) (users : List UserRow)
    → Pointwise
        (IsMarked user_id nid_number)
        users
        (update_users user_id (submitted_user nid_number) users)
unfolding update_users
update_users-Pointwise user_id nid_number [] = refl
update_users-Pointwise user_id nid_number (user ∷ users) =
    let rest = update_users-Pointwise user_id nid_number users in
    elim (Bool-cases (text_eq user.id user_id)) [
      | inl own ↦ rw own (_, _, refl, inl ((text_eq_iff user.id user_id).0 own, refl), rest)
      | inr foreign ↦ rw foreign (_, _, refl, inr (differs user.id user_id foreign, refl), rest)
    ]

update_roles-Pointwise :
    (role_id : Text) (roles : List RoleRow)
    → Pointwise (IsWaiting role_id) roles (update_roles role_id pending_role roles)
unfolding update_roles
update_roles-Pointwise role_id [] = refl
update_roles-Pointwise role_id (role ∷ roles) =
    let rest = update_roles-Pointwise role_id roles in
    elim (Bool-cases (text_eq role.id role_id)) [
      | inl own ↦ rw own (_, _, refl, inl ((text_eq_iff role.id role_id).0 own, refl), rest)
      | inr foreign ↦ rw foreign (_, _, refl, inr (differs role.id role_id foreign, refl), rest)
    ]

not_verified :
    (status : VerificationStatus)
    → is_verified status ≡ false
    → status ≢ VerificationStatus.verified
not_verified status h e = cc

-- A submission that returns was for an active role of the user that is not verified yet, with a
-- number of the right form. It leaves the number on the user, waiting for its check, the role
-- waiting too, and the documents among the submissions, and all else as it was. One that throws
-- leaves the database as it was.
pub submit_stores :
    (engine : Engine) (command : SubmitKycCommand) (db db' : Db) (result : Result SubmittedKyc)
    → submit engine command db ≡ (result, db')
    → (((e : Exception) × (result ≡ err e)) × (db' ≡ db))
      ⊎ ((result ≡ ok pending) × IsSubmitted command db db')
unfolding set_nid set_pending append_submission
submit_stores engine command db db' result h = elim (submit_effect engine command db db' result h) [
  | inl thrown ↦ inl thrown
  | inr (role_id, nid_number, accepted, returned, left) ↦
      let (row, held, same) =
        find_role-IsHeld role_id command.user_id db.roles accepted.role accepted.holds in
      inr (
        returned,
        record {
          role_id = role_id;
          acting = accepted.acting;
          role = row;
          held = held;
          unverified =
              not_verified row.kyc_status
                (sym (ap (λ r. r.kyc_verified) same) ∙ accepted.unverified);
          nid_number = nid_number;
          readable = accepted.readable;
          users = update_users command.user_id (submitted_user nid_number) db.users;
          marked = update_users-Pointwise command.user_id nid_number db.users;
          roles = update_roles role_id pending_role db.roles;
          waiting = update_roles-Pointwise role_id db.roles;
          submission_id = _;
          stored = left;
        },
      )
]
