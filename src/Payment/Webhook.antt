-- ===== src/Payment/Webhook.antt =====
-- api/src/payment/webhook-signature.ts, and the handler of payment.controller.ts. The setting
-- PAYMENT_WEBHOOK_SECRET, the parser of dates and the clock are parameters.
use sobkichu.Prelude.{
  truthy, ℕ, Bool, false, not, ◌||◌, Option, none, some, List, if◌then◌else◌, Result, ok, err,
  unauthorized, bad_request, ◌>>=◌, throw_if, or_throw, Text, is_empty,
}
use sobkichu.Node.{Node, same_bytes}
use sobkichu.Money.{Number}
use sobkichu.DeliveryClock.{Date}
use sobkichu.Database.{Db}
use sobkichu.Database.Transaction.{Engine}
use sobkichu.Payment.Service.{
  SettlementOutcome, SettlementNotice, SettlementResult, apply_settlement,
}

-- `Buffer | string`
pub data RawBody : Type 0 where
  raw_text : Text → RawBody
  raw_bytes : List ℕ → RawBody

abbrev pub body_bytes : Node → RawBody → List ℕ
body_bytes node (raw_text s) = node.utf8 s
body_bytes node (raw_bytes bytes) = bytes

unfoldable pub verify_webhook_signature : Node → RawBody → Text → Text → Bool
unfolding same_bytes
verify_webhook_signature node body signature secret =
    if is_empty signature || is_empty secret
    then false
    else same_bytes (node.from_hex signature) (node.digest secret (body_bytes node body))

pub record AggregatorWebhookDto : Type 0 where
  pub order_id : Text
  pub aggregator : Text
  pub aggregator_ref : Text
  pub amount_poisha : Number
  pub outcome : SettlementOutcome
  pub occurred_at : Option Text

-- A request: the body as it came, the body as it was parsed, and the header, empty if missing.
pub record WebhookRequest : Type 0 where
  pub raw_body : Option (List ℕ)
  pub dto : AggregatorWebhookDto
  pub signature : Text

-- `dto.occurredAt ? new Date(dto.occurredAt) : new Date()`
unfoldable pub occurred : (Text → Date) → Date → Option Text → Date
occurred parse_date now none = now
occurred parse_date now (some s) = if is_empty s then now else parse_date s

unfoldable pub notice_of : (Text → Date) → Date → AggregatorWebhookDto → SettlementNotice
unfolding occurred
notice_of parse_date now dto = record {
  order_id = dto.order_id;
  aggregator = dto.aggregator;
  aggregator_ref = dto.aggregator_ref;
  amount = dto.amount_poisha;
  outcome = dto.outcome;
  occurred_at = occurred parse_date now dto.occurred_at;
}

-- The three checks ahead of the settlement.
unfoldable pub admit : Node → Option Text → WebhookRequest → Result (Unit {0})
unfolding verify_webhook_signature truthy
admit node secret request = do
  key ← or_throw (truthy secret) (unauthorized "error.webhook.not_configured")
  body ← or_throw request.raw_body (bad_request "error.webhook.raw_body_unavailable")
  throw_if (not (verify_webhook_signature node (raw_bytes body) request.signature key))
      (unauthorized "error.webhook.invalid_signature")

unfoldable pub handle :
    Node
    → Engine
    → (Text → Date)
    → Date
    → Option Text
    → WebhookRequest
    → Db
    → Result SettlementResult × Db
unfolding admit notice_of
handle node engine parse_date now secret request db = elim (admit node secret request) [
  | err e ↦ (err e, db)
  | ok _ ↦ apply_settlement engine (notice_of parse_date now request.dto) db
]
