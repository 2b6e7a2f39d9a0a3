-- ===== src/Session/Admitted.antt =====
-- Whom the guard lets through on a route that is not public.
use sobkichu.Prelude.{
  truthy-some, ℕ, ◌/◌, ◌≡◌, refl, sym, ap, ◌∙◌, true, false, Option, none, some, List, [], ◌∷◌,
  ◌++◌, length, take, drop, ok, Text, text_eq, text_eq_iff, is_empty, pos, ℤ, ltb_ℤ, arith,
  take-append-drop, >>=-eq-ok, or_throw-eq-ok, throw_if-next, ==_iff, plain_error, ◌||◌,
  if◌then◌else◌, ◌==◌, inl, inr, Bool-cases, Option-cases,
}
use sobkichu.Node.{Node, same_bytes, same_bytes_iff}
use sobkichu.Session.Token.{
  JsonText, Parsed, unparsable, null_value, parsed_value, ParsedPayload, TokenVerification, valid,
  not_valid, VerifiedPayload, from_b64url, sign, split_dots, check_fields, check_payload,
  check_parts, check_split, verify_session_token,
}
use sobkichu.Session.Guard.{
  AuthenticatedCaller, caller_of, bearer, bearer_token, authenticate, can_activate,
}

-- A header whose token the server has signed, which has not expired and names the caller.
pub record IsAuthentic (node : Node) (json : JsonText) (secret header : Option Text) (now : ℕ)
    (caller : AuthenticatedCaller) : Type 0 where
  pub key : Text
  pub part : Text
  pub signature : Text
  pub fields : ParsedPayload
  pub exp : ℤ
  pub is_key : secret ≡ some key
  pub is_header : header ≡ some (bearer ++ (part ++ (b'.' ∷ signature)))
  pub signs : node.utf8 signature ≡ node.utf8 (sign node part key)
  pub carries : json.parse (node.from_utf8 (from_b64url node part)) ≡ parsed_value fields
  pub has_sub : fields.sub ≡ some caller.user_id
  pub has_role : fields.active_role_id ≡ caller.active_role_id
  pub has_exp : fields.exp ≡ some exp
  pub alive : ltb_ℤ (pos (now / 1000)) exp ≡ true

after_prefix :
    (p s token : Text)
    → (if text_eq (take (length p) s) p then some (drop (length p) s) else none) ≡ some token
    → s ≡ p ++ token
after_prefix p s token h = elim (Bool-cases (text_eq (take (length p) s) p)) [
  | inl starts ↦
      let front = (text_eq_iff (take (length p) s) p).0 starts in
      let rest : drop (length p) s ≡ token = cc in
      sym (take-append-drop (length p) s) ∙ rw (front, rest) refl
  | inr other ↦ absurd (cc)
]

header_of :
    (header : Option Text) (token : Text)
    → bearer_token header ≡ some token
    → header ≡ some (bearer ++ token)
unfolding bearer_token
header_of none token h = cc
header_of (some s) token h = ap some (after_prefix bearer s token h)

-- Joining the parts with dots gives the text back.
joined : Text × List Text → Text
joined (part, []) = part
joined (part, next ∷ parts) = part ++ (b'.' ∷ joined (next, parts))

joined_step :
    (c : ℕ) (x : Text × List Text)
    → joined (if c == b'.' then ([], x.0 ∷ x.1) else (c ∷ x.0, x.1)) ≡ c ∷ joined x
unfolding joined
joined_step c (part, []) = ground (arith, ==_iff c b'.')
joined_step c (part, next ∷ parts) = ground (arith, ==_iff c b'.')

joined-split_dots : (s : Text) → joined (split_dots s) ≡ s
unfolding joined split_dots
joined-split_dots [] = refl
joined-split_dots (c ∷ s) = joined_step c (split_dots s) ∙ ap (λ t. c ∷ t) (joined-split_dots s)

joined_two :
    {parts : Text × List Text} {part signature : Text}
    → parts ≡ (part, signature ∷ [])
    → joined parts ≡ part ++ (b'.' ∷ signature)
unfolding joined
joined_two two = ap joined two

fields_valid :
    (now : ℕ) (fields : ParsedPayload) (payload : VerifiedPayload)
    → check_fields now fields ≡ valid payload
    → (exp : ℤ) × (fields.sub ≡ some payload.sub)
      × (fields.active_role_id ≡ payload.active_role_id)
      × (fields.exp ≡ some exp)
      × (ltb_ℤ (pos (now / 1000)) exp ≡ true)
unfolding check_fields
fields_valid now fields payload h = elim (Option-cases fields.sub) [
  | inl absent ↦ absurd (ground arith)
  | inr (sub, has_sub) ↦ elim (Option-cases fields.exp) [
    | inl absent ↦ absurd (ground arith)
    | inr (exp, has_exp) ↦ (exp, ground arith, ground arith, has_exp, ground arith)
  ]
]

payload_valid :
    (now : ℕ) (parsed : Parsed) (payload : VerifiedPayload)
    → check_payload parsed now ≡ ok (valid payload)
    → (fields : ParsedPayload) × (parsed ≡ parsed_value fields)
      × (check_fields now fields ≡ valid payload)
unfolding check_payload
payload_valid now unparsable payload h = cc
payload_valid now null_value payload h = cc
payload_valid now (parsed_value fields) payload h = (fields, refl, cc)

module _ (node : Node) (json : JsonText) (key : Text) (now : ℕ) (payload : VerifiedPayload) where
  parts_valid :
      (part signature : Text)
      → check_parts node json part signature key now ≡ ok (valid payload)
      → (node.utf8 signature ≡ node.utf8 (sign node part key))
        × (check_payload (json.parse (node.from_utf8 (from_b64url node part))) now
            ≡ ok (valid payload))
  unfolding check_parts
  parts_valid part signature h =
      let same = same_bytes_iff (node.utf8 signature) (node.utf8 (sign node part key)) in
      elim (Bool-cases (is_empty part || is_empty signature)) [
        | inl hollow ↦ absurd (cc)
        | inr full ↦
            elim (Bool-cases (same_bytes (node.utf8 signature) (node.utf8 (sign node part key)))) [
              | inl equal ↦ (same.0 equal, ground arith)
              | inr different ↦ absurd (ground arith)
            ]
      ]

  split_valid :
      (parts : Text × List Text)
      → check_split node json parts key now ≡ ok (valid payload)
      → (signature : Text) × (parts ≡ (parts.0, signature ∷ []))
        × (check_parts node json parts.0 signature key now ≡ ok (valid payload))
  unfolding check_split
  split_valid (part, []) h = cc
  split_valid (part, signature ∷ []) h = (signature, refl, h)
  split_valid (part, a ∷ b ∷ rest) h = cc

  token_valid :
      (token : Text)
      → verify_session_token node json token key now ≡ ok (valid payload)
      → (part : Text) × (signature : Text) × (token ≡ part ++ (b'.' ∷ signature))
        × (check_parts node json part signature key now ≡ ok (valid payload))
  unfolding verify_session_token
  token_valid token h =
      let (_, after) =
        throw_if-next (is_empty key) (plain_error "SESSION_SECRET is not configured")
          (check_split node json (split_dots token) key now) h in
      let (signature, two, checked) = split_valid (split_dots token) after in
      ((split_dots token).0, signature, sym (joined-split_dots token) ∙ joined_two two, checked)

caller_valid :
    (answer : TokenVerification) (caller : AuthenticatedCaller)
    → caller_of answer ≡ ok caller
    → answer ≡ valid (record { sub = caller.user_id; active_role_id = caller.active_role_id })
caller_valid (valid payload) caller h = cc
caller_valid (not_valid reason) caller h = cc

-- On a route that is not public the guard lets a request through only with a bearer token whose
-- payload part the server has signed with the configured secret, which names the caller that the
-- request gets and has not expired.
pub admitted-IsAuthentic :
    (node : Node) (json : JsonText) (secret header : Option Text) (now : ℕ)
    (before after : Option AuthenticatedCaller)
    → can_activate node json secret false header before now ≡ ok after
    → (caller : AuthenticatedCaller) × (after ≡ some caller)
      × IsAuthentic node json secret header now caller
unfolding can_activate authenticate
admitted-IsAuthentic node json secret header now before after h =
    let (caller, found, gives) = >>=-eq-ok _ _ h in
    let (token, first, h1) = >>=-eq-ok _ _ found in
    let (key, second, h2) = >>=-eq-ok _ _ h1 in
    let (is_key, _) = truthy-some secret (or_throw-eq-ok _ _ second) in
    let (answer, verified, named) = >>=-eq-ok _ _ h2 in
    let is_valid = caller_valid answer caller named in
    let (part, signature, is_token, checked) =
      token_valid node json key now _ token (verified ∙ ap ok is_valid) in
    let (signs, readable) = parts_valid node json key now _ part signature checked in
    let (fields, carries, usable) = payload_valid now _ _ readable in
    let (exp, has_sub, has_role, has_exp, alive) = fields_valid now fields _ usable in
    (
      caller,
      cc,
      record {
        key = key;
        part = part;
        signature = signature;
        fields = fields;
        exp = exp;
        is_key = is_key;
        is_header =
            header_of header token (or_throw-eq-ok _ _ first)
            ∙ ap (λ t. some (bearer ++ t)) is_token;
        signs = signs;
        carries = carries;
        has_sub = has_sub;
        has_role = has_role;
        has_exp = has_exp;
        alive = alive;
      },
    )
