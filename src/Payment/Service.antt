-- ===== src/Payment/Service.antt =====
-- api/src/payment/payment.service.ts: a settlement notice, applied in one transaction.
use sobkichu.Prelude.{
  ℤ, Bool, true, false, Option, none, some, [], ◌∷◌, ◌++◌, if◌then◌else◌, eqb_ℤ, Result, String,
  Text, lit, take,
}
use sobkichu.Money.{Number, int, other, taka_to_poisha, poisha_to_taka}
use sobkichu.Database.{Db, OrderStatus, TransactionRow}
use sobkichu.Database.Transaction.{Engine, M, ◌>>=◌, ◌>>◌, pure, lift, with_transaction}
use sobkichu.DeliveryClock.{Date, compute_delivery_deadline}
use sobkichu.Notification.ChannelPolicy.{NotifiableEvent, payment_received, payment_failed}
use sobkichu.Notification.Adapter.{NotificationRequest, notify}
use sobkichu.Order.Adapter.{
  OrderForSettlement, find_for_settlement, find_customer, transition_status, start_delivery_clock,
}
use sobkichu.Payment.Repository.{
  find_by_aggregator_ref, find_pending_for_order, mark_settled, mark_failed,
}

pub data SettlementOutcome : Type 0 where
  settled failed : SettlementOutcome

pub record SettlementNotice : Type 0 where
  pub order_id : Text
  pub aggregator : Text
  pub aggregator_ref : Text
  pub amount : Number
  pub outcome : SettlementOutcome
  pub occurred_at : Date

pub data SettlementResult : Type 0 where
  applied : Text → Option Date → SettlementResult
  duplicate : Text → SettlementResult
  rejected : String → SettlementResult

-- `CustomerEvent`
pub data CustomerEvent : Type 0 where
  received not_received : CustomerEvent

abbrev pub event_of : CustomerEvent → NotifiableEvent
event_of received = payment_received
event_of not_received = payment_failed

unfoldable pub event_name : CustomerEvent → Text
unfolding lit
event_name received = lit "payment_received"
event_name not_received = lit "payment_failed"

-- `a === n` for an integer `n`.
abbrev pub number_eq : Number → ℤ → Bool
number_eq (int m) n = eqb_ℤ m n
number_eq other n = false

unfoldable pub customer_request :
    SettlementNotice → CustomerEvent → Text → Text → NotificationRequest
unfolding event_name lit
customer_request notice event user_id amount = record {
  user_id = user_id;
  event = event_of event;
  params = ("orderRef", take 8 notice.order_id) ∷ ("amount", amount) ∷ [];
  order_id = some notice.order_id;
  dedupe_key =
      lit "settle:"
      ++ notice.aggregator
      ++ lit ":"
      ++ notice.aggregator_ref
      ++ lit ":"
      ++ event_name event;
}

unfoldable pub notify_customer_found :
    Engine → SettlementNotice → CustomerEvent → Option Text → M (Unit {0})
unfolding customer_request
notify_customer_found engine notice event none = pure tt
notify_customer_found engine notice event (some user_id) =
    lift (poisha_to_taka notice.amount) >>= λ amount.
    notify engine (customer_request notice event user_id amount)

unfoldable pub notify_customer : Engine → SettlementNotice → CustomerEvent → M (Unit {0})
unfolding notify_customer_found
notify_customer engine notice event =
    find_customer notice.order_id >>= notify_customer_found engine notice event

-- The end of `applySettlement`: an advance has settled on this order.
unfoldable pub stamp_deadline : Engine → SettlementNotice → OrderForSettlement → M SettlementResult
stamp_deadline engine notice order =
    lift (compute_delivery_deadline notice.occurred_at order.is_same_city) >>= λ deadline.
    start_delivery_clock engine notice.order_id notice.occurred_at deadline.deadline_at
    >> pure (applied notice.order_id (some deadline.deadline_at))

unfoldable pub start_clock :
    Engine → SettlementNotice → Option OrderForSettlement → M SettlementResult
unfolding stamp_deadline
start_clock engine notice none = pure (rejected "order_not_found")
start_clock engine notice (some order) = elim order.advance_paid_at [
  | some paid ↦ pure (applied notice.order_id none)
  | none ↦ stamp_deadline engine notice order
]

-- What follows the notification of a settled payment.
unfoldable pub advance_clock : Engine → SettlementNotice → Bool → M SettlementResult
unfolding start_clock
advance_clock engine notice true = find_for_settlement notice.order_id >>= start_clock engine notice
advance_clock engine notice false = pure (applied notice.order_id none)

-- The two branches behind the checks of a notice.
unfoldable pub settle_pending :
    Engine → SettlementNotice → TransactionRow → SettlementOutcome → M SettlementResult
unfolding advance_clock notify_customer
settle_pending engine notice pending failed =
    mark_failed engine pending.id notice.aggregator notice.aggregator_ref
    >> (transition_status engine notice.order_id OrderStatus.awaiting_payment
          "order.event.payment_failed"
        >> (notify_customer engine notice not_received >> pure (applied notice.order_id none)))
settle_pending engine notice pending settled =
    mark_settled engine pending.id notice.aggregator notice.aggregator_ref notice.occurred_at
    >> (transition_status engine notice.order_id OrderStatus.confirmed
          "order.event.payment_received"
        >> (notify_customer engine notice received
            >> advance_clock engine notice pending.is_advance))

unfoldable pub verify_amount :
    Engine → SettlementNotice → Option TransactionRow → M SettlementResult
unfolding settle_pending
verify_amount engine notice none = pure (rejected "no_pending_transaction")
verify_amount engine notice (some pending) =
    lift (taka_to_poisha pending.amount_bdt) >>= λ expected.
    if number_eq notice.amount expected
    then settle_pending engine notice pending notice.outcome
    else pure (rejected "amount_mismatch")

unfoldable pub apply_new : Engine → SettlementNotice → Option TransactionRow → M SettlementResult
unfolding verify_amount
apply_new engine notice (some existing) = pure (duplicate existing.order_id)
apply_new engine notice none =
    find_pending_for_order notice.order_id >>= verify_amount engine notice

-- The work of `applySettlement`, and the call, which is one transaction.
unfoldable pub settlement_work : Engine → SettlementNotice → M SettlementResult
unfolding apply_new
settlement_work engine notice =
    find_by_aggregator_ref notice.aggregator notice.aggregator_ref >>= apply_new engine notice

unfoldable pub apply_settlement : Engine → SettlementNotice → Db → Result SettlementResult × Db
unfolding settlement_work
apply_settlement engine notice = with_transaction engine (settlement_work engine notice)
