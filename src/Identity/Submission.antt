-- ===== src/Identity/Submission.antt =====
-- What the submission of an identity card leaves.
use sobkichu.Prelude.{
  truthy, truthy-some, ◌≡◌, refl, sym, ap, ◌∙◌, subst, false, Bool-cases, inl, inr, ◌⊎◌, Option,
  none, some, List, [], ◌∷◌, Result, ok, err, Exception, Text, text_eq_iff, arith,
}
use sobkichu.Database.{Db}
use sobkichu.Database.Transaction.{
  Engine, execute, execute-eq-ok, bind-eq-ok, with_transaction, with_transaction_atomic,
}
use sobkichu.Identity.Numbers.{normalise_nid_number}
use sobkichu.Identity.Users.{
  ActiveRole, roles_of, find_roles, set_nid, set_pending, append_submission, submit_kyc,
}
use sobkichu.Identity.Kyc.{
  SubmitKycCommand, SubmittedKyc, pending, find_role, submit_for_role, submit_work, submitted,
  submit_to, submit_as, submit,
}

-- The three writes of a submission.
abbrev pub submission_effect : Engine → SubmitKycCommand → Text → Text → Db → Db
submission_effect engine command role_id nid_number db =
    append_submission engine role_id command.document_urls
      (set_pending role_id (set_nid command.user_id nid_number db))

-- A submission that is accepted: for an active role of the user that is not verified yet.
pub record IsAccepted (command : SubmitKycCommand) (db : Db) (role_id nid_number : Text)
    : Type 0 where
  pub acting : command.active_role_id ≡ some role_id
  pub readable : normalise_nid_number command.nid_number ≡ some nid_number
  pub role : ActiveRole
  pub holds : find_role role_id (roles_of command.user_id db.roles) ≡ some role
  pub unverified : role.kyc_verified ≡ false

pub find_role_id :
    (id : Text) (roles : List ActiveRole) (role : ActiveRole)
    → find_role id roles ≡ some role
    → role.id ≡ id
unfolding find_role
find_role_id id [] role h = cc
find_role_id id (r ∷ roles) role h = ground (arith, text_eq_iff r.id id, find_role_id id roles role)

submit_kyc_effect :
    (engine : Engine) (user_id role_id nid_number : Text) (urls : List Text) (db db' : Db)
    {u : Unit {0}}
    → submit_kyc engine user_id role_id nid_number urls db ≡ ok (u, db')
    → db'
      ≡ append_submission engine role_id urls (set_pending role_id (set_nid user_id nid_number db))
unfolding submit_kyc
submit_kyc_effect engine user_id role_id nid_number urls db db' h =
    let (_, d1, first, h1) = bind-eq-ok (execute engine (set_nid user_id nid_number)) _ db h in
    let (_, d2, second, last) = bind-eq-ok (execute engine (set_pending role_id)) _ d1 h1 in
    execute-eq-ok engine _ d2 db' last
    ∙ ap (append_submission engine role_id urls) (
        execute-eq-ok engine _ d1 d2 second
        ∙ ap (set_pending role_id) (execute-eq-ok engine _ db d1 first))

submit_for_role_effect :
    (engine : Engine) (command : SubmitKycCommand) (role_id nid_number : Text)
    (found : Option ActiveRole) (db db' : Db) {u : Unit {0}}
    → find_role role_id (roles_of command.user_id db.roles) ≡ found
    → submit_for_role engine command nid_number found db ≡ ok (u, db')
    → ((role : ActiveRole) × (find_role role_id (roles_of command.user_id db.roles) ≡ some role)
        × (role.kyc_verified ≡ false))
      × (db' ≡ submission_effect engine command role_id nid_number db)
unfolding submit_for_role
submit_for_role_effect engine command role_id nid_number none db db' found h = absurd (cc)
submit_for_role_effect engine command role_id nid_number (some role) db db' found h =
    elim (Bool-cases role.kyc_verified) [
      | inl verified ↦ absurd (ground arith)
      | inr unverified ↦
          let left =
            submit_kyc_effect engine command.user_id role.id nid_number command.document_urls db db'
              (ground arith) in
          (
            (role, found, unverified),
            subst (λ id. db' ≡ submission_effect engine command id nid_number db)
                (find_role_id role_id (roles_of command.user_id db.roles) role found) left,
          )
    ]

submit_work_effect :
    (engine : Engine) (command : SubmitKycCommand) (role_id nid_number : Text) (db db' : Db)
    {u : Unit {0}}
    → submit_work engine command role_id nid_number db ≡ ok (u, db')
    → ((role : ActiveRole) × (find_role role_id (roles_of command.user_id db.roles) ≡ some role)
        × (role.kyc_verified ≡ false))
      × (db' ≡ submission_effect engine command role_id nid_number db)
unfolding submit_work find_roles
submit_work_effect engine command role_id nid_number db db' h =
    submit_for_role_effect engine command role_id nid_number
      (find_role role_id (roles_of command.user_id db.roles)) db db' refl h

-- The two outcomes of a submission.
abbrev pub SubmissionEffect : Engine → SubmitKycCommand → Db → Result SubmittedKyc → Db → Type 0
SubmissionEffect engine command db result db' =
    (((e : Exception) × (result ≡ err e)) × (db' ≡ db))
    ⊎ ((role_id : Text) × (nid_number : Text) × IsAccepted command db role_id nid_number
        × (result ≡ ok pending)
        × (db' ≡ submission_effect engine command role_id nid_number db))

submit_to_effect :
    (engine : Engine) (command : SubmitKycCommand) (role_id : Text) (nid : Option Text)
    (db db' : Db) (result : Result SubmittedKyc)
    → command.active_role_id ≡ some role_id
    → normalise_nid_number command.nid_number ≡ nid
    → submit_to engine command role_id nid db ≡ (result, db')
    → SubmissionEffect engine command db result db'
unfolding submit_to
submit_to_effect engine command role_id none db db' result acting readable h =
    inl ((_, ap (λ x. x.0) (sym h)), ap (λ x. x.1) (sym h))
submit_to_effect engine command role_id (some nid) db db' result acting readable h =
    let (r, out) = with_transaction engine (submit_work engine command role_id nid) db in
    elim (with_transaction_atomic engine (submit_work engine command role_id nid) db r out refl) [
      | inl (e, thrown, kept) ↦
          let seen = sym h ∙ ap (λ x. submitted (x, out)) thrown in
          inl ((e, ap (λ x. x.0) seen), ap (λ x. x.1) seen ∙ kept)
      | inr (u, returned, worked) ↦
          let seen = sym h ∙ ap (λ x. submitted (x, out)) returned in
          let ((role, holds, unverified), left) =
            submit_work_effect engine command role_id nid db out worked in
          inr (
            role_id,
            nid,
            record {
              acting = acting;
              readable = readable;
              role = role;
              holds = holds;
              unverified = unverified;
            },
            ap (λ x. x.0) seen,
            ap (λ x. x.1) seen ∙ left,
          )
    ]

submit_as_effect :
    (engine : Engine) (command : SubmitKycCommand) (acting : Option Text) (db db' : Db)
    (result : Result SubmittedKyc)
    → truthy command.active_role_id ≡ acting
    → submit_as engine command acting db ≡ (result, db')
    → SubmissionEffect engine command db result db'
unfolding submit_as
submit_as_effect engine command none db db' result acting h =
    inl ((_, ap (λ x. x.0) (sym h)), ap (λ x. x.1) (sym h))
submit_as_effect engine command (some role_id) db db' result acting h =
    submit_to_effect engine command role_id (normalise_nid_number command.nid_number) db db' result
      (truthy-some command.active_role_id acting).0 refl h

-- A submission that returns was for an active role of the user that is not verified yet, with a
-- number of the right form, and leaves exactly three writes: the number on the user, the role
-- pending, and the documents among the submissions. One that throws leaves the database as it was.
pub submit_effect :
    (engine : Engine) (command : SubmitKycCommand) (db db' : Db) (result : Result SubmittedKyc)
    → submit engine command db ≡ (result, db')
    → (((e : Exception) × (result ≡ err e)) × (db' ≡ db))
      ⊎ ((role_id : Text) × (nid_number : Text) × IsAccepted command db role_id nid_number
          × (result ≡ ok pending)
          × (db' ≡ submission_effect engine command role_id nid_number db))
unfolding submit
submit_effect engine command db db' result h =
    submit_as_effect engine command (truthy command.active_role_id) db db' result refl h
