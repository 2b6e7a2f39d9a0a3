-- ===== src/Payment/Tests.antt =====
-- Settlements of a waiting order, and the theorems on them at that order.
use sobkichu.Prelude.{
  subst, ℤ, ◌+ℤ◌, value_from, trim_start, pad_start, is_empty, all_chars, pad_end, value, any_char,
  is_space, trim, is_digits, text_eq, ◌≡◌, refl, pos, some, [], ◌∷◌, ok, err, Exception, ◌⊎◌, Text,
  lit, none, ◌++◌, unauthorized,
}
use sobkichu.Database.{TransactionRow, Db, OrderStatus, OrderRow}
use sobkichu.Money.{
  taka_to_poisha, poisha_to_taka, poisha_of, is_amount, has_minus, fraction_or_empty, drop_minus,
  digits_from, digits, before_dot, after_dot, int,
}
use sobkichu.Notification.Adapter.{
  find_user, notify_found, notify, entry_for, enqueue_channels, channel_name, channel_key,
}
use sobkichu.Payment.Repository.{
  find_pending, update_transactions, pending_for, mark_failed, has_ref, find_ref, mark_settled,
  find_pending_for_order, find_by_aggregator_ref,
}
use sobkichu.Payment.Returns.{HasCustomer, apply_settlement_returns}
use sobkichu.Node.{Node}
use sobkichu.Payment.Webhook.{WebhookRequest, notice_of, handle}
use sobkichu.Payment.Signed.{IsSigned, handle-IsSigned}
use sobkichu.DeliveryClock.{
  invalid, make_date, delivery_window_days, compute_delivery_deadline, instant, Date,
}
use sobkichu.Payment.Service.{
  settled, verify_amount, start_clock, stamp_deadline, settlement_work, settle_pending,
  notify_customer_found, notify_customer, event_name, customer_request, apply_new, advance_clock,
  SettlementResult, applied, duplicate, rejected, failed, apply_settlement,
}
use sobkichu.Fixtures.{buyer, calm, ordered, paid, waiting, advance}
use sobkichu.Order.Repository.{update_orders, stamp_delivery_clock, record_status_event}
use sobkichu.Order.Adapter.{
  start_delivery_clock, find_for_settlement, find_customer, transition_status, find_order,
}
use sobkichu.Notification.Outbox.{new_row, insert_entry, has_dedupe_key, enqueue}
use sobkichu.Notification.ChannelPolicy.{template_key_for, policies, channels_for}
use sobkichu.Database.Transaction.{execute, with_transaction}
use sobkichu.Payment.Effect.{settlement_effect}
use sobkichu.Payment.Refinement.{apply_settlement-effect}
use sobkichu.Payment.Replay.{apply_settlement_replay}
use sobkichu.Payment.Clock.{clock_of, settlement_keeps_clock, settlement_starts_clock}

abbrev later : Date
later = instant (pos 433000000)

abbrev five_days_later : SettlementResult
five_days_later = applied (lit "o-1") (some later)

abbrev after : Db
after = (apply_settlement calm paid ordered).1

settled_run : apply_settlement calm paid ordered ≡ (ok five_days_later, after)
unfolding apply_settlement lit with_transaction find_by_aggregator_ref find_pending_for_order
    text_eq taka_to_poisha is_digits trim is_space any_char value pad_end mark_settled execute
    transition_status record_status_event find_customer poisha_to_taka compute_delivery_deadline
    delivery_window_days make_date after_dot before_dot digits digits_from drop_minus
    fraction_or_empty has_minus is_amount poisha_of channel_key channel_name enqueue_channels
    entry_for find_user notify notify_found channels_for policies template_key_for enqueue
    has_dedupe_key insert_entry new_row find_for_settlement find_order start_delivery_clock
    stamp_delivery_clock update_orders find_pending find_ref has_ref mark_failed pending_for
    update_transactions advance_clock apply_new customer_request event_name notify_customer
    notify_customer_found settle_pending settlement_work stamp_deadline start_clock verify_amount
    all_chars is_empty pad_start trim_start value_from ◌+ℤ◌
settled_run = refl

short_notice :
    (apply_settlement calm (record paid { amount = int (pos 9999) }) ordered).0
    ≡ ok (rejected "amount_mismatch")
unfolding apply_settlement lit with_transaction find_by_aggregator_ref find_pending_for_order
    text_eq taka_to_poisha is_digits trim is_space any_char value pad_end
short_notice = refl

-- Once a payment has failed, no pending row is left for a second attempt.
second_attempt :
    (apply_settlement calm
      (record paid { aggregator_ref = lit "r-78" })
      (apply_settlement calm (record paid { outcome = failed }) ordered).1).0
    ≡ ok (rejected "no_pending_transaction")
unfolding apply_settlement lit with_transaction find_by_aggregator_ref find_pending_for_order
    text_eq taka_to_poisha is_digits trim is_space any_char value pad_end mark_failed execute
    transition_status record_status_event find_customer poisha_to_taka compute_delivery_deadline
    delivery_window_days make_date after_dot before_dot digits digits_from drop_minus
    fraction_or_empty has_minus is_amount poisha_of channel_key channel_name enqueue_channels
    entry_for find_user notify notify_found channels_for policies template_key_for enqueue
    has_dedupe_key insert_entry new_row find_for_settlement find_order start_delivery_clock
    stamp_delivery_clock update_orders find_pending find_ref has_ref mark_settled pending_for
    update_transactions advance_clock apply_new customer_request event_name notify_customer
    notify_customer_found settle_pending settlement_work stamp_deadline start_clock verify_amount
    all_chars is_empty pad_start trim_start value_from ◌+ℤ◌
second_attempt = refl

apply_settlement-effect_example :
    ((e : Exception) × (ok five_days_later ≡ err e) × (after ≡ ordered))
    ⊎ ((ok five_days_later ≡ ok (settlement_effect paid ordered).0)
        × (after ≡ record (settlement_effect paid ordered).1 { outbox = after.outbox }))
apply_settlement-effect_example =
    apply_settlement-effect calm paid ordered after (ok five_days_later) settled_run

apply_settlement_replay_example :
    (first : Text) × (apply_settlement calm paid after ≡ (ok (duplicate first), after))
apply_settlement_replay_example =
    apply_settlement_replay paid calm ordered after (lit "o-1") (some later) settled_run

-- The order with its clock running, and a second advance to settle on it.
abbrev running : OrderRow
running = record waiting {
  advance_paid_at = some (instant (pos 500));
  delivery_deadline_at = some (instant (pos 432000500));
}

abbrev running_db : Db
running_db = record ordered { orders = running ∷ [] }

settlement_keeps_clock_example :
    clock_of (find_order (lit "o-1") (apply_settlement calm paid running_db).1.orders)
    ≡ some (some (instant (pos 500)), some (instant (pos 432000500)))
unfolding lit find_order text_eq
settlement_keeps_clock_example =
    settlement_keeps_clock paid calm running_db (apply_settlement calm paid running_db).1
      (apply_settlement calm paid running_db).0 (lit "o-1") running (instant (pos 500)) refl refl
      refl

settlement_starts_clock_example :
    (five_days_later ≡ applied (lit "o-1") (some later))
    × (find_order (lit "o-1") after.orders
        ≡ some (record waiting {
          status = OrderStatus.confirmed;
          advance_paid_at = some (instant (pos 1000000));
          delivery_deadline_at = some later;
        }))
unfolding lit find_order text_eq find_ref find_pending taka_to_poisha is_digits trim is_space
    any_char value pad_end compute_delivery_deadline ◌+ℤ◌
settlement_starts_clock_example =
    settlement_starts_clock paid calm ordered after five_days_later advance waiting
      (record {
        deadline_at = later;
        window_days = 5;
        explanation_key = "order.delivery.deadline_same_city";
      })
      (pos 10000) refl refl refl refl refl refl refl refl refl settled_run

the_value : {A : Type 0} {a b : A} → some a ≡ some b → a ≡ b
the_value h = cc

buyer_known : HasCustomer paid ordered
unfolding lit find_order text_eq find_user
buyer_known u bought =
    (buyer, subst (λ id. find_user id ordered.users ≡ some buyer) (the_value bought) refl)

advance_reads : taka_to_poisha advance.amount_bdt ≡ ok (pos 10000)
unfolding taka_to_poisha lit is_digits trim is_space any_char value pad_end
advance_reads = refl

advance_prints : poisha_to_taka paid.amount ≡ ok (lit "100.00")
unfolding poisha_to_taka lit pad_start
advance_prints = refl

advance_found : find_pending (lit "o-1") ordered.transactions ≡ some advance
unfolding find_pending lit text_eq
advance_found = refl

advance_readable :
    (p : TransactionRow)
    → find_pending (lit "o-1") ordered.transactions ≡ some p
    → (e : ℤ) × (taka_to_poisha p.amount_bdt ≡ ok e)
advance_readable p found = (
  pos 10000,
  subst (λ row. taka_to_poisha row.amount_bdt ≡ ok (pos 10000))
      (the_value (subst (λ o. o ≡ some p) advance_found found)) advance_reads,
)

apply_settlement_returns_example :
    (r : SettlementResult) × (db' : Db) × (apply_settlement calm paid ordered ≡ (ok r, db'))
apply_settlement_returns_example =
    apply_settlement_returns calm (λ _. refl) paid (pos 1000000) refl (lit "100.00") advance_prints
      (λ _. refl) ordered buyer_known advance_readable

-- A webhook, its body signed by the one secret that the digest of this instance is made of.
abbrev hasher : Node
hasher = record {
  digest = λ secret body. secret ++ body;
  from_hex = λ s. s;
  utf8 = λ s. s;
  from_utf8 = λ bytes. bytes;
  base64 = λ bytes. bytes;
  from_base64 = λ s. s;
}

abbrev webhook : WebhookRequest
webhook = record {
  raw_body = some (7 ∷ 8 ∷ []);
  dto = record {
    order_id = lit "o-1";
    aggregator = lit "sslcommerz";
    aggregator_ref = lit "r-77";
    amount_poisha = int (pos 10000);
    outcome = settled;
    occurred_at = none;
  };
  signature = lit "k" ++ (7 ∷ 8 ∷ []);
}

abbrev paid_now : Date
paid_now = instant (pos 1000000)

webhook_notice : notice_of (λ _. invalid) paid_now webhook.dto ≡ paid
unfolding notice_of lit
webhook_notice = refl

forged :
    handle hasher calm (λ _. invalid) paid_now (some (lit "l")) webhook ordered
    ≡ (err (unauthorized "error.webhook.invalid_signature"), ordered)
unfolding handle lit text_eq
forged = refl

handle-IsSigned_example :
    (IsSigned hasher (some (lit "k")) webhook
      → handle hasher calm (λ _. invalid) paid_now (some (lit "k")) webhook ordered
        ≡ apply_settlement calm (notice_of (λ _. invalid) paid_now webhook.dto) ordered)
    × (¬ IsSigned hasher (some (lit "k")) webhook
        → (e : Exception) × (handle hasher calm
              (λ _. invalid)
              paid_now
              (some (lit "k"))
              webhook
              ordered
            ≡ (err e, ordered)))
handle-IsSigned_example =
    handle-IsSigned hasher calm (λ _. invalid) paid_now (some (lit "k")) webhook ordered
