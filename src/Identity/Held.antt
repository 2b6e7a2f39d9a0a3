-- ===== src/Identity/Held.antt =====
-- The roles that a user holds, as rows of the table.
use mathlib.Core.List.{Memᴰ}
use mathlib.Core.List.Memᴰ.{head, tail}
use sobkichu.Prelude.{
  ◌≡◌, refl, arith, Bool-cases, true, ◌&&◌, inl, inr, some, List, [], ◌∷◌, Text, text_eq,
  text_eq_iff,
}
use sobkichu.Database.{RoleRow}
use sobkichu.Identity.Users.{ActiveRole, active_role, roles_of}
use sobkichu.Identity.Kyc.{find_role}

-- An active row of the role table, of a user and with an id.
pub record IsHeld (roles : List RoleRow) (user_id role_id : Text) (row : RoleRow) : Type 0 where
  pub member : Memᴰ row roles
  pub named : row.id ≡ role_id
  pub owned : row.user_id ≡ user_id
  pub active : row.is_active ≡ true

IsHeld-tail :
    (first : RoleRow) (roles : List RoleRow) (user_id role_id : Text) (row : RoleRow)
    → IsHeld roles user_id role_id row
    → IsHeld (first ∷ roles) user_id role_id row
IsHeld-tail first roles user_id role_id row held = record {
  member = tail held.member;
  named = held.named;
  owned = held.owned;
  active = held.active;
}

-- A role that is looked up among those of a user is one that the user holds.
pub find_role-IsHeld :
    (role_id user_id : Text) (roles : List RoleRow) (role : ActiveRole)
    → find_role role_id (roles_of user_id roles) ≡ some role
    → (row : RoleRow) × IsHeld roles user_id role_id row × (role ≡ active_role row)
unfolding find_role roles_of
find_role-IsHeld role_id user_id [] role h = absurd (cc)
find_role-IsHeld role_id user_id (row ∷ roles) role h =
    elim (Bool-cases (text_eq row.user_id user_id && row.is_active)) [
      | inl listed ↦ elim (Bool-cases (text_eq row.id role_id)) [
        | inl named ↦ (
          row,
          record {
            member = head refl;
            named = (text_eq_iff row.id role_id).0 named;
            owned = (text_eq_iff row.user_id user_id).0 (ground arith);
            active = ground arith;
          },
          ground arith,
        )
        | inr other ↦
            let (found, held, same) = find_role-IsHeld role_id user_id roles role (ground arith) in
            (found, IsHeld-tail row roles user_id role_id found held, same)
      ]
      | inr unlisted ↦
          let (found, held, same) = find_role-IsHeld role_id user_id roles role (ground arith) in
          (found, IsHeld-tail row roles user_id role_id found held, same)
    ]
