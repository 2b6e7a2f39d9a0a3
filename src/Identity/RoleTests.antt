-- ===== src/Identity/RoleTests.antt =====
-- The merchant of the small shop switches into the role.
use sobkichu.Database.Transaction.{with_transaction}
use sobkichu.Prelude.{◌≡◌, refl, false, none, some, [], ◌++◌, ok, err, Text, lit, arith, text_eq}
use sobkichu.Database.{RoleRow, RoleType}
use sobkichu.Session.Token.{issue_session_token}
use sobkichu.Session.Guard.{bearer, can_activate}
use sobkichu.Session.Toy.{toy, toy_json, toy-IsDocumented}
use sobkichu.Identity.Held.{IsHeld}
use sobkichu.Identity.Roles.{switched, role_not_found, switch_role}
use sobkichu.Identity.Switched.{switch_role_admits}
use sobkichu.Fixtures.{calm, shop}

abbrev key : Text
key = lit "k"

abbrev token : Text
token = elim (issue_session_token toy toy_json (lit "u2") (some (lit "m1")) key 1000) [
  | ok s ↦ s
  | err e ↦ []
]

stranger :
    switch_role toy toy_json (some key) 1000 calm (lit "u1") (lit "m1") shop
    ≡ (ok role_not_found, shop)
unfolding switch_role lit with_transaction text_eq
stranger = refl

switched_run :
    switch_role toy toy_json (some key) 1000 calm (lit "u2") (lit "m1") shop
    ≡ (ok (switched token RoleType.merchant), shop)
unfolding switch_role lit issue_session_token with_transaction text_eq
switched_run = refl

switch_role_admits_example :
    (shop ≡ shop)
    × ((row : RoleRow) × IsHeld shop.roles (lit "u2") (lit "m1") row
        × (row.type ≡ RoleType.merchant))
    × (can_activate toy toy_json (some key) false (some (bearer ++ token)) none 5000
        ≡ ok (some (record { user_id = lit "u2"; active_role_id = some (lit "m1") })))
switch_role_admits_example =
    switch_role_admits toy toy_json toy-IsDocumented (some key) 1000 5000 calm (lit "u2") (lit "m1")
      token RoleType.merchant shop shop none switched_run (omega arith)
