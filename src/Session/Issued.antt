-- ===== src/Session/Issued.antt =====
-- Issued tokens at the guard.
use sobkichu.Prelude.{
  truthy, ℕ, ◌+◌, ◌/◌, ◌<◌, ◌≤◌, ◌≡◌, ◌≢◌, refl, ap, ◌∙◌, true, false, Option, some, List, [], ◌∷◌,
  ◌++◌, if◌then◌else◌, ◌>>=◌, ok, err, unauthorized, Text, text_eq, lit, is_empty, pos, ltb_ℤ,
  arith,
}
use sobkichu.Node.{Node, same_bytes_iff}
use sobkichu.Session.Token.{
  session_ttl_seconds, SessionPayload, JsonText, unparsable, parsed_value, ParsedPayload,
  TokenVerification, valid, not_valid, expired, b64url, from_b64url, sign, payload_at,
  issue_session_token, split_dots, check_fields, check_payload, check_parts, check_split,
  verify_session_token,
}
use sobkichu.Session.Guard.{
  AuthenticatedCaller, caller_of, bearer, bearer_token, authenticate, can_activate,
}
use sobkichu.Session.Base64.{IsBase64, from_b64url-b64url, b64url-IsUrl, b64url_nonempty, split_two}

-- What is documented of Buffer, node:crypto and JSON: base64, digests that have bytes, and that a
-- payload comes back from its JSON text, through UTF-8; the empty text is no JSON.
pub record IsDocumented (node : Node) (json : JsonText) : Type 0 where
  pub base64 : IsBase64 node
  pub digest_bytes : (key : Text) (bytes : List ℕ) → node.digest key bytes ≢ []
  pub json_back :
      (payload : SessionPayload)
      → json.parse (node.from_utf8 (node.utf8 (json.stringify payload)))
        ≡ parsed_value (record {
          sub = some payload.sub;
          active_role_id = payload.active_role_id;
          exp = some (pos payload.exp);
        })
  pub json_empty : json.parse (node.from_utf8 []) ≡ unparsable

bearer_token_back : (token : Text) → bearer_token (some (bearer ++ token)) ≡ some token
unfolding bearer_token bearer text_eq lit
bearer_token_back token = refl

truthy_key : (key : Text) → is_empty key ≡ false → truthy (some key) ≡ some key
unfolding truthy
truthy_key key h = rw h refl

authenticate_with :
    (node : Node) (json : JsonText) (secret header : Option Text) (now : ℕ) (token key : Text)
    (answer : TokenVerification)
    → bearer_token header ≡ some token
    → truthy secret ≡ some key
    → verify_session_token node json token key now ≡ ok answer
    → authenticate node json secret header now ≡ caller_of answer
unfolding authenticate
authenticate_with node json secret header now token key answer hb hk hv = rw (hb, hk, hv) refl

parts_pass :
    (node : Node) (json : JsonText) (p s key : Text) (now : ℕ) (fields : ParsedPayload)
    → is_empty p ≡ false
    → is_empty s ≡ false
    → node.utf8 s ≡ node.utf8 (sign node p key)
    → json.parse (node.from_utf8 (from_b64url node p)) ≡ parsed_value fields
    → check_parts node json p s key now ≡ ok (check_fields now fields)
unfolding check_parts check_payload
parts_pass node json p s key now fields hp hs signs carries =
    rw (hp, hs, (same_bytes_iff _ _).1 signs, carries) refl

module _ (node : Node) (json : JsonText) (documented : IsDocumented node json) (user : Text)
    (role : Option Text) (key : Text) (issued : ℕ) where
  payload : SessionPayload
  payload = payload_at user role (issued / 1000)

  part : Text
  part = b64url node (node.utf8 (json.stringify payload))

  stringify_nonempty : node.utf8 (json.stringify payload) ≢ []
  stringify_nonempty e =
      let back = documented.json_back payload in
      let gone = ap (λ b. json.parse (node.from_utf8 b)) e ∙ documented.json_empty in cc

  signature : Text
  signature = sign node part key

  token : Text
  token = part ++ (b'.' ∷ signature)

  issued_token :
      is_empty key ≡ false → issue_session_token node json user role key issued ≡ ok token
  unfolding issue_session_token token part payload signature
  issued_token given = rw given refl

  split_token : split_dots token ≡ (part, signature ∷ [])
  unfolding token signature part sign
  split_token =
      split_two part signature (b64url-IsUrl node documented.base64 _)
        (b64url-IsUrl node documented.base64 _)

  parts_given : (is_empty part ≡ false) × (is_empty signature ≡ false)
  unfolding part signature sign
  parts_given = (
    b64url_nonempty node documented.base64 _ stringify_nonempty,
    b64url_nonempty node documented.base64 _ (documented.digest_bytes _ _),
  )

  sign_is : node.utf8 signature ≡ node.utf8 (sign node part key)
  unfolding signature
  sign_is = refl

  parts_checked :
      (now : ℕ)
      → check_parts node json part signature key now
        ≡ ok (
            check_fields now
              (record { sub = some user; active_role_id = role; exp = some (pos payload.exp) }))
  unfolding part payload
  parts_checked now =
      parts_pass node json part signature key now _ parts_given.0 parts_given.1 sign_is (
        ap (λ b. json.parse (node.from_utf8 b))
          (from_b64url-b64url node documented.base64 (node.utf8 (json.stringify payload)))
        ∙ documented.json_back payload)

  token_checked :
      (now : ℕ)
      → is_empty key ≡ false
      → verify_session_token node json token key now
        ≡ ok (
            check_fields now
              (record { sub = some user; active_role_id = role; exp = some (pos payload.exp) }))
  unfolding verify_session_token check_split
  token_checked now given = rw (given, split_token) (parts_checked now)

  token_admitted :
      (now : ℕ)
      → is_empty key ≡ false
      → authenticate node json (some key) (some (bearer ++ token)) now
        ≡ caller_of (
            check_fields now
              (record { sub = some user; active_role_id = role; exp = some (pos payload.exp) }))
  token_admitted now given =
      authenticate_with node json (some key) (some (bearer ++ token)) now token key _
        (bearer_token_back token) (truthy_key key given) (token_checked now given)

  token_gives :
      (now : ℕ) (caller : Option AuthenticatedCaller)
      → is_empty key ≡ false
      → can_activate node json (some key) false (some (bearer ++ token)) caller now ≡ (
          caller_of (
            if ltb_ℤ (pos (now / 1000)) (pos payload.exp)
            then valid (record { sub = user; active_role_id = role })
            else not_valid expired)
          >>= (λ found. ok (some found)))
  unfolding can_activate check_fields
  token_gives now caller given = rw (token_admitted now given) refl

  runs :
      (now : ℕ)
      → now / 1000 < issued / 1000 + session_ttl_seconds
      → ltb_ℤ (pos (now / 1000)) (pos payload.exp) ≡ true
  unfolding payload
  runs now h = ground arith

  has_run :
      (now : ℕ)
      → issued / 1000 + session_ttl_seconds ≤ now / 1000
      → ltb_ℤ (pos (now / 1000)) (pos payload.exp) ≡ false
  unfolding payload
  has_run now h = ground arith

  -- The token that is issued to a user lets the user's requests through the guard, with the user's
  -- id and active role as their caller, for thirty days counted in whole seconds, and no longer.
  pub issued_admitted :
      (now : ℕ) (caller : Option AuthenticatedCaller)
      → is_empty key ≡ false
      → (issued_text : Text) × (issue_session_token node json user role key issued ≡ ok issued_text)
        × (now / 1000 < issued / 1000 + session_ttl_seconds
            → can_activate node json (some key) false (some (bearer ++ issued_text)) caller now
              ≡ ok (some (record { user_id = user; active_role_id = role })))
        × (issued / 1000 + session_ttl_seconds ≤ now / 1000
            → can_activate node json (some key) false (some (bearer ++ issued_text)) caller now
              ≡ err (unauthorized "error.auth.invalid_token"))
  unfolding can_activate
  issued_admitted now caller given = (
    token,
    issued_token given,
    λ alive. token_gives now caller given ∙ rw (runs now alive) refl,
    λ over. token_gives now caller given ∙ rw (has_run now over) refl,
  )
