-- ===== src/Session/Token.antt =====
-- api/src/common/auth/session-token.ts. The clock is an argument, in milliseconds since 1970, and
-- JSON is a parameter.
use sobkichu.Prelude.{
  ℕ, ◌+◌, ◌*◌, ◌/◌, not, ◌||◌, Option, none, some, List, [], ◌∷◌, ◌++◌, reverse, ◌==◌,
  if◌then◌else◌, map, ℤ, pos, ltb_ℤ, Result, ok, err, ◌>>◌, throw_if, plain_error, Text, is_empty,
}
use sobkichu.Node.{Node, same_bytes}

abbrev pub session_ttl_seconds : ℕ
session_ttl_seconds = 30 * 24 * 60 * 60

pub record SessionPayload : Type 0 where
  pub sub : Text
  pub active_role_id : Option Text
  pub iat : ℕ
  pub exp : ℕ

-- The fields that are read of a parsed object: `sub` if it is a text, `exp` if it is a number,
-- which stands as the least integer that is not below it.
pub record ParsedPayload : Type 0 where
  pub sub : Option Text
  pub active_role_id : Option Text
  pub exp : Option ℤ

-- What `JSON.parse` gives: it throws, or gives null or a value whose fields can be read.
pub data Parsed : Type 0 where
  unparsable null_value : Parsed
  parsed_value : ParsedPayload → Parsed

pub record JsonText : Type 0 where
  pub stringify : SessionPayload → Text
  pub parse : Text → Parsed

pub data InvalidReason : Type 0 where
  malformed bad_signature expired : InvalidReason

-- The payload of a valid token, as far as the callers read it.
pub record VerifiedPayload : Type 0 where
  pub sub : Text
  pub active_role_id : Option Text

pub data TokenVerification : Type 0 where
  valid : VerifiedPayload → TokenVerification
  not_valid : InvalidReason → TokenVerification

abbrev pub to_url : ℕ → ℕ
to_url c = if c == b'+' then b'-' else if c == b'/' then b'_' else c

abbrev pub of_url : ℕ → ℕ
of_url c = if c == b'-' then b'+' else if c == b'_' then b'/' else c

-- `.replace(/=+$/, '')`, from the end.
unfoldable pub drop_padding : Text → Text
drop_padding [] = []
drop_padding (c ∷ s) = let rest = drop_padding s in if c == b'=' then rest else c ∷ s

unfoldable pub b64url : Node → List ℕ → Text
unfolding drop_padding
b64url node input = reverse (drop_padding (reverse (map to_url (node.base64 input))))

unfoldable pub from_b64url : Node → Text → List ℕ
from_b64url node input = node.from_base64 (map of_url input)

unfoldable pub sign : Node → Text → Text → Text
unfolding b64url
sign node payload_part secret = b64url node (node.digest secret (node.utf8 payload_part))

abbrev pub payload_at : Text → Option Text → ℕ → SessionPayload
payload_at user_id role issued_at = record {
  sub = user_id;
  active_role_id = role;
  iat = issued_at;
  exp = issued_at + session_ttl_seconds;
}

unfoldable pub issue_session_token : Node → JsonText → Text → Option Text → Text → ℕ → Result Text
unfolding b64url sign
issue_session_token node json user_id role secret now = do
  throw_if (is_empty secret) (plain_error "SESSION_SECRET is not configured")
  let part = b64url node (node.utf8 (json.stringify (payload_at user_id role (now / 1000)))) in
      ok (part ++ (b'.' ∷ sign node part secret))

-- `token.split('.')`, as the first part and the others.
unfoldable pub split_dots : Text → Text × List Text
split_dots [] = ([], [])
split_dots (c ∷ s) =
    let (part, parts) = split_dots s in if c == b'.' then ([], part ∷ parts) else (c ∷ part, parts)

-- What is made of the parsed payload.
unfoldable pub check_fields : ℕ → ParsedPayload → TokenVerification
check_fields now payload = elim payload.sub [
  | none ↦ not_valid malformed
  | some sub ↦ elim payload.exp [
    | none ↦ not_valid malformed
    | some exp ↦
        if ltb_ℤ (pos (now / 1000)) exp
        then valid (record { sub = sub; active_role_id = payload.active_role_id })
        else not_valid expired
  ]
]

unfoldable pub check_payload : Parsed → ℕ → Result TokenVerification
unfolding check_fields
check_payload unparsable now = ok (not_valid malformed)
check_payload null_value now = err (plain_error "Cannot read properties of null")
check_payload (parsed_value payload) now = ok (check_fields now payload)

-- The token's two parts, once they are found.
unfoldable pub check_parts : Node → JsonText → Text → Text → Text → ℕ → Result TokenVerification
unfolding sign check_payload from_b64url same_bytes
check_parts node json payload_part signature_part secret now =
    if is_empty payload_part || is_empty signature_part
    then ok (not_valid malformed)
    else if not (same_bytes (node.utf8 signature_part) (node.utf8 (sign node payload_part secret)))
    then ok (not_valid bad_signature)
    else check_payload (json.parse (node.from_utf8 (from_b64url node payload_part))) now

unfoldable pub check_split :
    Node → JsonText → Text × List Text → Text → ℕ → Result TokenVerification
unfolding check_parts
check_split node json (payload_part, signature_part ∷ []) secret now =
    check_parts node json payload_part signature_part secret now
check_split node json (payload_part, []) secret now = ok (not_valid malformed)
check_split node json (payload_part, _ ∷ _ ∷ _) secret now = ok (not_valid malformed)

unfoldable pub verify_session_token : Node → JsonText → Text → Text → ℕ → Result TokenVerification
unfolding check_split split_dots
verify_session_token node json token secret now = do
  throw_if (is_empty secret) (plain_error "SESSION_SECRET is not configured")
  check_split node json (split_dots token) secret now
