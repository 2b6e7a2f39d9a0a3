-- ===== src/Payment/Signed.antt =====
-- Webhooks with and without a signature.
use sobkichu.Prelude.{
  truthy, truthy-some, ◌≡◌, refl, inl, inr, Bool, true, false, Option, some, List, ℕ, ok, err,
  Exception, Text, is_empty, arith, Result-cases, not, >>=-eq-ok, or_throw-eq-ok, throw_if-eq-ok,
}
use sobkichu.Node.{Node, same_bytes_iff}
use sobkichu.DeliveryClock.{Date}
use sobkichu.Database.{Db}
use sobkichu.Database.Transaction.{Engine}
use sobkichu.Payment.Service.{apply_settlement}
use sobkichu.Payment.Webhook.{
  raw_bytes, verify_webhook_signature, WebhookRequest, notice_of, admit, handle,
}

-- A request that carries the digest of its raw body under the secret of the server.
pub record IsSigned (node : Node) (secret : Option Text) (request : WebhookRequest) : Type 0 where
  pub key : Text
  pub body : List ℕ
  pub is_key : secret ≡ some key
  pub is_body : request.raw_body ≡ some body
  pub key_given : is_empty key ≡ false
  pub signature_given : is_empty request.signature ≡ false
  pub signs : node.from_hex request.signature ≡ node.digest key body

verified :
    (node : Node) (body : List ℕ) (signature key : Text)
    → verify_webhook_signature node (raw_bytes body) signature key ≡ true
    → (is_empty signature ≡ false)
      × (is_empty key ≡ false)
      × (node.from_hex signature ≡ node.digest key body)
unfolding verify_webhook_signature
verified node body signature key h =
    ground (arith, same_bytes_iff (node.from_hex signature) (node.digest key body))

verified_back :
    (node : Node) (body : List ℕ) (signature key : Text)
    → is_empty signature ≡ false
    → is_empty key ≡ false
    → node.from_hex signature ≡ node.digest key body
    → verify_webhook_signature node (raw_bytes body) signature key ≡ true
unfolding verify_webhook_signature
verified_back node body signature key s k h =
    ground (arith, same_bytes_iff (node.from_hex signature) (node.digest key body))

passed : (b : Bool) → not b ≡ false → b ≡ true
passed b h = ground arith

admit-IsSigned :
    (node : Node) (secret : Option Text) (request : WebhookRequest)
    → admit node secret request ≡ ok tt
    → IsSigned node secret request
unfolding admit
admit-IsSigned node secret request h =
    let (key, first, h1) = >>=-eq-ok _ _ h in
    let (body, second, h2) = >>=-eq-ok _ _ h1 in
    let (is_key, key_given) = truthy-some secret (or_throw-eq-ok (truthy secret) _ first) in
    let (signature_given, _, signs) =
      verified node body request.signature key (passed _ (throw_if-eq-ok _ _ h2)) in
    record {
      key = key;
      body = body;
      is_key = is_key;
      is_body = or_throw-eq-ok request.raw_body _ second;
      key_given = key_given;
      signature_given = signature_given;
      signs = signs;
    }

admitted :
    (node : Node) (secret : Option Text) (request : WebhookRequest)
    → IsSigned node secret request
    → admit node secret request ≡ ok tt
unfolding admit truthy
admitted node secret request signed =
    let verifies =
      verified_back node signed.body request.signature signed.key signed.signature_given
        signed.key_given signed.signs in
    rw (signed.is_key, signed.is_body, signed.key_given, verifies) refl

-- The handler applies the settlement that a webhook reports exactly if the signature, read as
-- hexadecimal, is the digest of the raw body under the secret that is configured. Any other
-- webhook gets an error, and the database stays as it was.
pub handle-IsSigned :
    (node : Node) (engine : Engine) (parse_date : Text → Date) (now : Date) (secret : Option Text)
    (request : WebhookRequest) (db : Db)
    → (IsSigned node secret request
        → handle node engine parse_date now secret request db
          ≡ apply_settlement engine (notice_of parse_date now request.dto) db)
      × (¬ IsSigned node secret request
          → (e : Exception) × (handle node engine parse_date now secret request db ≡ (err e, db)))
unfolding handle
handle-IsSigned node engine parse_date now secret request db = (
  λ signed. rw (handle, admitted node secret request signed) refl,
  λ unsigned. elim (Result-cases (admit node secret request)) [
    | inl (u, h) ↦ absurd (unsigned (admit-IsSigned node secret request h))
    | inr (e, h) ↦ (e, rw (handle, h) refl)
  ],
)
