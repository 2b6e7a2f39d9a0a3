-- ===== src/Session/Guard.antt =====
-- api/src/common/auth/auth.guard.ts. Whether a route is public and the setting SESSION_SECRET are
-- arguments.
use sobkichu.Prelude.{
  truthy, ℕ, Bool, true, false, Option, none, some, if◌then◌else◌, Result, ok, err, ◌>>=◌, or_throw,
  unauthorized, Text, lit, text_eq, take, drop, length,
}
use sobkichu.Node.{Node}
use sobkichu.Session.Token.{JsonText, TokenVerification, valid, not_valid, verify_session_token}

pub record AuthenticatedCaller : Type 0 where
  pub user_id : Text
  pub active_role_id : Option Text

unfoldable pub bearer : Text
unfolding lit
bearer = lit "Bearer "

-- `header?.startsWith('Bearer ')`, and the rest of the header.
unfoldable pub bearer_token : Option Text → Option Text
unfolding bearer text_eq
bearer_token none = none
bearer_token (some header) =
    if text_eq (take (length bearer) header) bearer
    then some (drop (length bearer) header)
    else none

abbrev pub caller_of : TokenVerification → Result AuthenticatedCaller
caller_of (not_valid reason) = err (unauthorized "error.auth.invalid_token")
caller_of (valid payload) =
    ok (record { user_id = payload.sub; active_role_id = payload.active_role_id })

-- The caller of a route that is not public.
unfoldable pub authenticate :
    Node → JsonText → Option Text → Option Text → ℕ → Result AuthenticatedCaller
unfolding bearer_token truthy verify_session_token
authenticate node json secret header now = do
  token ← or_throw (bearer_token header) (unauthorized "error.auth.missing_token")
  key ← or_throw (truthy secret) (unauthorized "error.auth.not_configured")
  result ← verify_session_token node json token key now
  caller_of result

-- `canActivate` returns true or throws; its result here is the caller of the request after it.
unfoldable pub can_activate :
    Node
    → JsonText
    → Option Text
    → Bool
    → Option Text
    → Option AuthenticatedCaller
    → ℕ
    → Result (Option AuthenticatedCaller)
unfolding authenticate
can_activate node json secret true header caller now = ok caller
can_activate node json secret false header caller now =
    authenticate node json secret header now >>= (λ found. ok (some found))
