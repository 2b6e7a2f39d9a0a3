-- ===== src/Identity/Switched.antt =====
-- The token of a switched role.
use sobkichu.Prelude.{
  ℕ, ◌+◌, ◌/◌, ◌<◌, ◌≡◌, refl, sym, ap, ◌∙◌, subst, false, inl, inr, Option, none, some, List, ◌++◌,
  Result, ok, >>=-eq-ok, or_throw-eq-ok, truthy-some, Text, is_empty,
}
use sobkichu.Node.{Node}
use sobkichu.Database.{Db, RoleRow, RoleType}
use sobkichu.Database.Transaction.{Engine, with_transaction_atomic}
use sobkichu.Session.Token.{JsonText, session_ttl_seconds, issue_session_token}
use sobkichu.Session.Guard.{AuthenticatedCaller, bearer, can_activate}
use sobkichu.Session.Issued.{IsDocumented, issued_admitted}
use sobkichu.Identity.Users.{ActiveRole, roles_of, find_roles}
use sobkichu.Identity.Kyc.{find_role}
use sobkichu.Identity.Held.{IsHeld, find_role-IsHeld}
use sobkichu.Identity.Submission.{find_role_id}
use sobkichu.Identity.Roles.{switched, list_roles, switch_found, switch_role}

listed :
    (engine : Engine) (user_id : Text) (db db' : Db) (roles : List ActiveRole)
    → list_roles engine user_id db ≡ (ok roles, db')
    → (roles ≡ roles_of user_id db.roles) × (db' ≡ db)
unfolding list_roles find_roles
listed engine user_id db db' roles h =
    elim (with_transaction_atomic engine (find_roles user_id) db (ok roles) db' h) [
      | inl (e, thrown, _) ↦ absurd (cc)
      | inr (found, returned, worked) ↦ (cc, cc)
    ]

-- How a role was switched.
pub record IsSwitched (node : Node) (json : JsonText) (secret : Option Text) (now : ℕ)
    (user_id : Text) (found : Option ActiveRole) (token : Text) (type : RoleType) : Type 0 where
  pub role : ActiveRole
  pub is_found : found ≡ some role
  pub has_type : role.type ≡ type
  pub key : Text
  pub is_key : secret ≡ some key
  pub key_given : is_empty key ≡ false
  pub issued : issue_session_token node json user_id (some role.id) key now ≡ ok token

found_switched :
    (node : Node) (json : JsonText) (secret : Option Text) (now : ℕ) (user_id : Text)
    (found : Option ActiveRole) (token : Text) (type : RoleType)
    → switch_found node json secret now user_id found ≡ ok (switched token type)
    → IsSwitched node json secret now user_id found token type
unfolding switch_found
found_switched node json secret now user_id none token type h = cc
found_switched node json secret now user_id (some role) token type h =
    let (key, first, h1) = >>=-eq-ok _ _ h in
    let (text, second, last) = >>=-eq-ok _ _ h1 in
    let (is_key, key_given) = truthy-some secret (or_throw-eq-ok _ _ first) in
    record {
      role = role;
      is_found = refl;
      has_type = cc;
      key = key;
      is_key = is_key;
      key_given = key_given;
      issued = second ∙ ap ok cc;
    }

abbrev as_role : Text → Text → Result (Option AuthenticatedCaller)
as_role user_id role_id = ok (some (record { user_id = user_id; active_role_id = some role_id }))

the_token : {s t : Text} → ok s ≡ ok t → s ≡ t
the_token h = cc

-- A role is switched only to an active role that the user holds, and the database stays as it was;
-- the token that is returned lets the user through the guard with that role until it expires, by
-- what is documented of Buffer, node:crypto and JSON.
pub switch_role_admits :
    (node : Node) (json : JsonText) (documented : IsDocumented node json) (secret : Option Text)
    (now later : ℕ) (engine : Engine) (user_id role_id token : Text) (type : RoleType) (db db' : Db)
    (caller : Option AuthenticatedCaller)
    → switch_role node json secret now engine user_id role_id db ≡ (ok (switched token type), db')
    → later / 1000 < now / 1000 + session_ttl_seconds
    → (db' ≡ db)
      × ((row : RoleRow) × IsHeld db.roles user_id role_id row × (row.type ≡ type))
      × (can_activate node json secret false (some (bearer ++ token)) caller later
          ≡ ok (some (record { user_id = user_id; active_role_id = some role_id })))
unfolding switch_role
switch_role_admits node json documented secret now later engine user_id role_id token type db db'
      caller h alive =
    let asked = list_roles engine user_id db in
    let (roles, answered, found) =
      >>=-eq-ok asked.0 (λ rs. switch_found node json secret now user_id (find_role role_id rs))
        (ap (λ p. p.0) h) in
    let done =
      found_switched node json secret now user_id (find_role role_id roles) token type found in
    let (is_roles, kept) =
      listed engine user_id db asked.1 roles (ap (λ a. (a, asked.1)) answered) in
    let held = subst (λ rs. find_role role_id rs ≡ some done.role) is_roles done.is_found in
    let (text, made, admits, _) =
      issued_admitted node json documented user_id (some done.role.id) done.key now later caller
        done.key_given in
    let same = the_token (sym made ∙ done.issued) in
    let (row, is_held, is_row) = find_role-IsHeld role_id user_id db.roles done.role held in
    (
      sym (ap (λ p. p.1) h) ∙ kept,
      (row, is_held, sym (ap (λ r. r.type) is_row) ∙ done.has_type),
      ap (λ s. can_activate node json s false (some (bearer ++ token)) caller later) done.is_key
          ∙ ap (λ t. can_activate node json (some done.key) false (some (bearer ++ t)) caller later)
              (sym same)
          ∙ admits alive
          ∙ ap (as_role user_id) (find_role_id role_id (roles_of user_id db.roles) done.role held),
    )
