-- ===== src/Notification/DispatchTests.antt =====
-- Templates, and two rows of the outbox that are dispatched.
use sobkichu.Notification.Delivery.{mark_sent, mark_failed, claim_pending, claimed}
use sobkichu.Database.Transaction.{execute, with_transaction}
use sobkichu.Notification.Render.{
  is_word, Members, object, text, end, member, Entry, load_templates, render_template, substitute,
}
use sobkichu.Prelude.{
  ◌⊎◌, Text, all_chars, any_char, is_empty, text_eq, ◌≡◌, refl, none, some, [], ◌∷◌, List, ok, err,
  Result, missing_template, plain_error, lit,
}
use sobkichu.Database.{Db, OutboxRow, sms, push, NotificationStatus}
use sobkichu.Notification.Placeholders.{
  Piece, plain, slot, written, is_among, IsFilled, LacksParameter, substitute_fills,
}
use sobkichu.Notification.Dispatcher.{DispatchSummary, Gateways, dispatch_batch}
use sobkichu.Fixtures.{calm, shop}

abbrev greeting : List Piece
greeting = plain (lit "Order ") ∷ slot (lit "orderRef") ∷ plain (lit " is here") ∷ []

abbrev bundle : Members
bundle =
    member (lit "delivered")
      (object (
        member (lit "title") (text (lit "Delivered"))
          (member (lit "body") (text (lit "Order {orderRef} is here")) end)))
      end

abbrev templates : List Entry
templates = elim (load_templates (λ locale. some bundle)) [ ok entries ↦ entries | err _ ↦ [] ]

rendered :
    render_template templates
      (lit "notification.delivered")
      (lit "en")
      (("orderRef", lit "o-1") ∷ [])
    ≡ ok (record { title = lit "Delivered"; body = lit "Order o-1 is here" })
unfolding render_template lit load_templates text_eq is_empty any_char
rendered = refl

missing_parameter :
    render_template templates (lit "notification.delivered") (lit "en") []
    ≡ err (missing_template "Missing parameter for notification")
unfolding render_template lit load_templates text_eq is_empty any_char
missing_parameter = refl

substitute_fills_example :
    ((out : Text) × (substitute (written greeting) (("orderRef", lit "o-1") ∷ []) ≡ ok out)
      × IsFilled (("orderRef", lit "o-1") ∷ []) greeting out)
    ⊎ ((substitute (written greeting) (("orderRef", lit "o-1") ∷ [])
          ≡ err (missing_template "Missing parameter for notification"))
        × LacksParameter (("orderRef", lit "o-1") ∷ []) greeting)
unfolding lit any_char all_chars is_word is_empty is_among
substitute_fills_example =
    substitute_fills (("orderRef", lit "o-1") ∷ []) greeting
      (refl, ((refl, refl, refl), (refl, tt)))

abbrev by_sms : OutboxRow
by_sms = record {
  id = lit "n-1";
  user_id = lit "u1";
  phone_e164 = lit "+8801711111111";
  language = lit "bn";
  channel = sms;
  template_key = "notification.delivered";
  params = ("orderRef", lit "o-1") ∷ [];
  order_id = some (lit "o-1");
  dedupe_key = lit "delivered:o-1:sms";
  status = NotificationStatus.pending;
  attempts = 0;
  created_at = 7;
  sent_at = none;
  last_error = none;
}

abbrev by_push : OutboxRow
by_push = record by_sms {
  id = lit "n-2";
  channel = push;
  dedupe_key = lit "delivered:o-1:push";
  attempts = 4;
  created_at = 6;
}

abbrev queued : Db
queued = record shop { outbox = by_sms ∷ by_push ∷ [] }

-- Messages go out by SMS, and no push goes through.
abbrev gateways : Gateways
gateways = record {
  send_sms = λ db phone body. none;
  send_push = λ db user title body. some (plain_error "no device");
}

abbrev dispatched : Result DispatchSummary × Db
dispatched = dispatch_batch calm gateways templates 50 queued

abbrev summary : DispatchSummary
summary = record { claimed = 2; sent = 1; failed = 1 }

statuses : List OutboxRow → List NotificationStatus
statuses [] = []
statuses (row ∷ rows) = row.status ∷ statuses rows

dispatched_rows :
    statuses dispatched.1.outbox ≡ NotificationStatus.sent ∷ NotificationStatus.abandoned ∷ []
unfolding dispatch_batch statuses with_transaction claim_pending load_templates text_eq is_empty
    any_char mark_failed execute mark_sent
dispatched_rows = refl
