-- ===== src/Identity/Roles.antt =====
-- api/src/identity/auth.service.ts: `listRoles` and `switchRole`. The setting SESSION_SECRET and the
-- clock are arguments.
use sobkichu.Prelude.{
  ℕ, Option, none, some, List, Result, ok, ◌>>=◌, or_throw, plain_error, Text, truthy,
}
use sobkichu.Node.{Node}
use sobkichu.Database.{Db, RoleType}
use sobkichu.Database.Transaction.{Engine, with_transaction}
use sobkichu.Session.Token.{JsonText, issue_session_token}
use sobkichu.Identity.Users.{ActiveRole, find_roles}
use sobkichu.Identity.Kyc.{find_role}

pub data SwitchRoleResult : Type 0 where
  switched : Text → RoleType → SwitchRoleResult
  role_not_found : SwitchRoleResult

abbrev pub session_secret : Option Text → Result Text
session_secret secret = or_throw (truthy secret) (plain_error "SESSION_SECRET is not configured")

unfoldable pub list_roles : Engine → Text → Db → Result (List ActiveRole) × Db
unfolding find_roles
list_roles engine user_id = with_transaction engine (find_roles user_id)

unfoldable pub switch_found :
    Node → JsonText → Option Text → ℕ → Text → Option ActiveRole → Result SwitchRoleResult
unfolding truthy issue_session_token
switch_found node json secret now user_id none = ok role_not_found
switch_found node json secret now user_id (some role) = do
  key ← session_secret secret
  token ← issue_session_token node json user_id (some role.id) key now
  ok (switched token role.type)

unfoldable pub switch_role :
    Node → JsonText → Option Text → ℕ → Engine → Text → Text → Db → Result SwitchRoleResult × Db
unfolding list_roles switch_found find_role
switch_role node json secret now engine user_id role_id db =
    let (answer, db') = list_roles engine user_id db in
    (answer >>= (λ roles. switch_found node json secret now user_id (find_role role_id roles)), db')
