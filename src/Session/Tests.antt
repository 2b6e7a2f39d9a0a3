-- ===== src/Session/Tests.antt =====
-- The theorems on sessions at a small instance of what they rest on.
use sobkichu.Prelude.{
  ◌≡◌, is_empty, refl, false, none, some, [], ◌∷◌, ◌++◌, ok, err, unauthorized, Text, lit, ◌<◌, ◌≤◌,
  ◌+◌, ◌/◌,
}
use sobkichu.Session.Token.{session_ttl_seconds, issue_session_token, sign}
use sobkichu.Session.Guard.{AuthenticatedCaller, bearer, can_activate}
use sobkichu.Session.Issued.{issued_admitted}
use sobkichu.Session.Admitted.{IsAuthentic, admitted-IsAuthentic}
use sobkichu.Session.Toy.{toy, toy_json, toy-IsDocumented}

abbrev key : Text
key = lit "k"

issued_admitted_example :
    (issued_text : Text) × (issue_session_token toy toy_json (lit "u") none key 1000
      ≡ ok issued_text)
    × (2500 / 1000 < 1000 / 1000 + session_ttl_seconds
        → can_activate toy toy_json (some key) false (some (bearer ++ issued_text)) none 2500
          ≡ ok (some (record { user_id = lit "u"; active_role_id = none })))
    × (1000 / 1000 + session_ttl_seconds ≤ 2500 / 1000
        → can_activate toy toy_json (some key) false (some (bearer ++ issued_text)) none 2500
          ≡ err (unauthorized "error.auth.invalid_token"))
unfolding lit is_empty
issued_admitted_example =
    issued_admitted toy toy_json toy-IsDocumented (lit "u") none key 1000 2500 none refl

-- A token that expires after one second.
abbrev part : Text
part = lit "BABB"

abbrev header : Text
header = bearer ++ (part ++ (b'.' ∷ sign toy part key))

abbrev nobody : AuthenticatedCaller
nobody = record { user_id = []; active_role_id = none }

let_through : can_activate toy toy_json (some key) false (some header) none 999 ≡ ok (some nobody)
unfolding can_activate lit
let_through = refl

too_late :
    can_activate toy toy_json (some key) false (some header) none 1000
    ≡ err (unauthorized "error.auth.invalid_token")
unfolding can_activate lit
too_late = refl

other_key :
    can_activate toy toy_json (some (lit "kk")) false (some header) none 999
    ≡ err (unauthorized "error.auth.invalid_token")
unfolding can_activate lit
other_key = refl

admitted-IsAuthentic_example :
    (caller : AuthenticatedCaller) × (some nobody ≡ some caller)
    × IsAuthentic toy toy_json (some key) (some header) 999 caller
admitted-IsAuthentic_example =
    admitted-IsAuthentic toy toy_json (some key) (some header) 999 none (some nobody) let_through
