-- ===== src/Identity/Verified.antt =====
-- The roles that are verified, and the updates of a submission and a registration.
use sobkichu.Prelude.{
  ◌≡◌, refl, ◌∙◌, subst, Bool, true, false, ◌&&◌, ◌||◌, Bool-cases, inl, inr, none, some, List, [],
  ◌∷◌, ◌++◌, if◌then◌else◌, Text, text_eq, text_eq_iff, text_eq-flip, arith, All,
}
use sobkichu.Database.{RoleRow}
use sobkichu.Adapters.{is_merchant, is_verified}
use sobkichu.Identity.Users.{ActiveRole, roles_of, has_merchant_role, update_roles, pending_role}
use sobkichu.Identity.Kyc.{find_role}

-- The roles that may transact, by their ids.
unfoldable pub verified_ids : List RoleRow → List Text
verified_ids [] = []
verified_ids (row ∷ rows) =
    let rest = verified_ids rows in if is_verified row.kyc_status then row.id ∷ rest else rest

unfoldable pub has_role_id : Text → List RoleRow → Bool
has_role_id id [] = false
has_role_id id (row ∷ rows) = text_eq row.id id || has_role_id id rows

-- The two keys of the table: ids are distinct, and a user has one merchant role at most.
abbrev pub IsRoleTable : List RoleRow → Type 0
IsRoleTable [] = Unit
IsRoleTable (row ∷ rows) =
    (has_role_id row.id rows ≡ false)
    × (is_merchant row.type ≡ true → has_merchant_role row.user_id rows ≡ false)
    × IsRoleTable rows

-- Every row with the id is unverified.
abbrev Unverified : Text → RoleRow → Type 0
Unverified id row = text_eq row.id id ≡ true → is_verified row.kyc_status ≡ false

absent-Unverified :
    (id : Text) (rows : List RoleRow) → has_role_id id rows ≡ false → All (Unverified id) rows
unfolding has_role_id
absent-Unverified id [] h = tt
absent-Unverified id (row ∷ rows) h =
    (λ same. ground arith, absent-Unverified id rows (ground arith))

absent_role :
    (id user_id : Text) (rows : List RoleRow)
    → has_role_id id rows ≡ false
    → find_role id (roles_of user_id rows) ≡ none
unfolding has_role_id find_role roles_of
absent_role id user_id [] h = refl
absent_role id user_id (row ∷ rows) h = ground (arith, absent_role id user_id rows)

-- The role that the service finds is the only one with its id.
pub found-Unverified :
    (id user_id : Text) (rows : List RoleRow) (role : ActiveRole)
    → IsRoleTable rows
    → find_role id (roles_of user_id rows) ≡ some role
    → role.kyc_verified ≡ false
    → All (Unverified id) rows
unfolding roles_of find_role
found-Unverified id user_id [] role table found unverified = tt
found-Unverified id user_id (row ∷ rows) role (fresh, _, table) found unverified =
    elim (Bool-cases (text_eq row.id id)) [
      | inl same ↦
          let is_id = (text_eq_iff row.id id).0 same in
          let absent = subst (λ t. has_role_id t rows ≡ false) is_id fresh in
          let missing = absent_role id user_id rows absent in
          (λ _. ground arith, absent-Unverified id rows absent)
      | inr other ↦ (
        λ same. ground arith,
        found-Unverified id user_id rows role table (ground arith) unverified,
      )
    ]

pub update_roles-verified :
    (id : Text) (rows : List RoleRow)
    → All (Unverified id) rows
    → verified_ids (update_roles id pending_role rows) ≡ verified_ids rows
unfolding verified_ids update_roles
update_roles-verified id [] h = refl
update_roles-verified id (row ∷ rows) (first, h) =
    ground (arith, update_roles-verified id rows h, first)

has_role_id-update_roles :
    (key id : Text) (rows : List RoleRow)
    → has_role_id key (update_roles id pending_role rows) ≡ has_role_id key rows
unfolding has_role_id update_roles
has_role_id-update_roles key id [] = refl
has_role_id-update_roles key id (row ∷ rows) = ground (arith, has_role_id-update_roles key id rows)

has_merchant_role-update_roles :
    (user_id id : Text) (rows : List RoleRow)
    → has_merchant_role user_id (update_roles id pending_role rows) ≡ has_merchant_role user_id rows
unfolding has_merchant_role update_roles
has_merchant_role-update_roles user_id id [] = refl
has_merchant_role-update_roles user_id id (row ∷ rows) =
    ground (arith, has_merchant_role-update_roles user_id id rows)

pub update_roles-IsRoleTable :
    (id : Text) (rows : List RoleRow)
    → IsRoleTable rows
    → IsRoleTable (update_roles id pending_role rows)
unfolding update_roles
update_roles-IsRoleTable id [] h = tt
update_roles-IsRoleTable id (row ∷ rows) (fresh, one, h) =
    let absent = has_role_id-update_roles row.id id rows ∙ fresh in
    let alone = λ (merchant : is_merchant row.type ≡ true).
      has_merchant_role-update_roles row.user_id id rows ∙ one merchant in
    let rest = update_roles-IsRoleTable id rows h in
    elim (Bool-cases (text_eq row.id id)) [
      | inl same ↦ rw same (absent, alone, rest)
      | inr other ↦ rw other (absent, alone, rest)
    ]

pub append-verified :
    (rows : List RoleRow) (row : RoleRow)
    → is_verified row.kyc_status ≡ false
    → verified_ids (rows ++ row ∷ []) ≡ verified_ids rows
unfolding verified_ids
append-verified [] row h = rw h refl
append-verified (r ∷ rows) row h = ground (arith, append-verified rows row h)

has_role_id-append :
    (id : Text) (rows : List RoleRow) (row : RoleRow)
    → has_role_id id (rows ++ row ∷ []) ≡ (has_role_id id rows || text_eq row.id id)
unfolding has_role_id
has_role_id-append id [] row = ground arith
has_role_id-append id (r ∷ rows) row = ground (arith, has_role_id-append id rows row)

has_merchant_role-append :
    (user_id : Text) (rows : List RoleRow) (row : RoleRow)
    → has_merchant_role user_id (rows ++ row ∷ [])
      ≡ (has_merchant_role user_id rows || (text_eq row.user_id user_id && is_merchant row.type))
unfolding has_merchant_role
has_merchant_role-append user_id [] row = ground arith
has_merchant_role-append user_id (r ∷ rows) row =
    ground (arith, has_merchant_role-append user_id rows row)

apart :
    (r row : RoleRow) (rows : List RoleRow)
    → has_role_id row.id (r ∷ rows) ≡ false
    → (text_eq row.id r.id ≡ false) × (has_role_id row.id rows ≡ false)
unfolding has_role_id
apart r row rows fresh = (text_eq-flip r.id row.id (ground arith), ground arith)

no_second :
    (r row : RoleRow) (rows : List RoleRow)
    → has_merchant_role row.user_id (r ∷ rows) ≡ false
    → (is_merchant r.type ≡ true → text_eq row.user_id r.user_id ≡ false)
      × (has_merchant_role row.user_id rows ≡ false)
unfolding has_merchant_role
no_second r row rows one =
    (λ merchant. text_eq-flip r.user_id row.user_id (ground arith), ground arith)

pub append-IsRoleTable :
    (rows : List RoleRow) (row : RoleRow)
    → IsRoleTable rows
    → has_role_id row.id rows ≡ false
    → has_merchant_role row.user_id rows ≡ false
    → IsRoleTable (rows ++ row ∷ [])
unfolding has_role_id has_merchant_role
append-IsRoleTable [] row h fresh one = (refl, (λ _. refl), tt)
append-IsRoleTable (r ∷ rows) row (fresh_r, one_r, h) fresh one =
    let (other_id, fresh_rows) = apart r row rows fresh in
    let (other_user, one_rows) = no_second r row rows one in
    (
      has_role_id-append r.id rows row ∙ rw (fresh_r, other_id) refl,
      λ merchant.
          has_merchant_role-append r.user_id rows row
          ∙ rw (one_r merchant, other_user merchant) refl,
      append-IsRoleTable rows row h fresh_rows one_rows,
    )
