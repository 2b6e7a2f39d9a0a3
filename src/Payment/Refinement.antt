-- ===== src/Payment/Refinement.antt =====
-- `applySettlement` and the description of its effect on the tables.
use sobkichu.Prelude.{
  ◌≡◌, sym, ◌∙◌, ap, arith, Bool, true, false, Bool-cases, Result-cases, ◌⊎◌, inl, inr, Option,
  none, some, List, Result, ok, err, Exception, String, Text,
}
use sobkichu.Money.{poisha_to_taka, taka_to_poisha}
use sobkichu.Database.{Db, OrderStatus, TransactionRow, OutboxRow}
use sobkichu.Database.Transaction.{
  Engine, pure, lift, execute, execute-eq-ok, bind-eq-ok, with_transaction_atomic,
}
use sobkichu.DeliveryClock.{compute_delivery_deadline}
use sobkichu.Notification.Unique.{OnlyOutbox, notify-OnlyOutbox}
use sobkichu.Order.Repository.{record_status_event, stamp_delivery_clock}
use sobkichu.Order.Adapter.{
  OrderForSettlement, find_order, settlement_view, customer_of, transition_status,
  start_delivery_clock, find_customer, find_for_settlement,
}
use sobkichu.Payment.Repository.{
  find_ref, find_pending, mark_settled, mark_failed, find_by_aggregator_ref, find_pending_for_order,
}
use sobkichu.Payment.Service.{
  SettlementOutcome, settled, failed, SettlementNotice, SettlementResult, applied, number_eq,
  CustomerEvent, received, not_received, customer_request, notify_customer_found, notify_customer,
  stamp_deadline, start_clock, advance_clock, settle_pending, verify_amount, apply_new,
  settlement_work, apply_settlement,
}
use sobkichu.Payment.Effect.{
  moved, marked_settled, marked_failed, clocked, clock_effect, start_effect, advance_effect,
  pending_effect, amount_effect, new_effect, settlement_effect,
}

module _ (engine : Engine) (notice : SettlementNotice) where
  pub transition-moved :
      (status : OrderStatus) (key : String) (db db' : Db) {u : Unit {0}}
      → transition_status engine notice.order_id status key db ≡ ok (u, db')
      → db' ≡ moved notice.order_id status key db
  unfolding transition_status record_status_event moved execute
  transition-moved status key db db' h = ground arith

  pub lift-eq-ok :
      {A : Type 0} (r : Result A) (db : Db) {a : A} {db' : Db}
      → lift r db ≡ ok (a, db')
      → (r ≡ ok a) × (db' ≡ db)
  lift-eq-ok (ok a) db h = (cc, cc)
  lift-eq-ok (err e) db h = cc

  notify_customer-OnlyOutbox :
      (event : CustomerEvent) (customer : Option Text) (db db' : Db) {u : Unit {0}}
      → notify_customer_found engine notice event customer db ≡ ok (u, db')
      → OnlyOutbox db db'
  unfolding notify_customer_found
  notify_customer-OnlyOutbox event none db db' h = cc
  notify_customer-OnlyOutbox event (some user) db db' h =
      let (amount, mid, printed, sent) = bind-eq-ok (lift (poisha_to_taka notice.amount)) _ db h in
      let (_, same) = lift-eq-ok (poisha_to_taka notice.amount) db printed in
      let frame =
        notify-OnlyOutbox engine (customer_request notice event user amount) mid db' sent in
      rw same at frame

  stamp_deadline-effect :
      (order : OrderForSettlement) (db db' : Db) (r : SettlementResult)
      → stamp_deadline engine notice order db ≡ ok (r, db')
      → clock_effect notice db (compute_delivery_deadline notice.occurred_at order.is_same_city)
        ≡ (r, db')
  unfolding stamp_deadline start_delivery_clock stamp_delivery_clock clocked execute
  stamp_deadline-effect order db db' r h = ground arith

  start_clock-effect :
      (order : Option OrderForSettlement) (db db' : Db) (r : SettlementResult)
      → start_clock engine notice order db ≡ ok (r, db')
      → start_effect notice db order ≡ (r, db')
  unfolding start_clock
  start_clock-effect none db db' r h = cc
  start_clock-effect (some order) db db' r h = ground (arith, stamp_deadline-effect order db db' r)

  advance_clock-effect :
      (is_advance : Bool) (db db' : Db) (r : SettlementResult)
      → advance_clock engine notice is_advance db ≡ ok (r, db')
      → advance_effect notice db is_advance ≡ (r, db')
  unfolding advance_clock find_for_settlement
  advance_clock-effect true db db' r h =
      start_clock-effect (settlement_view (find_order notice.order_id db.orders)) db db' r h
  advance_clock-effect false db db' r h = cc

  -- The clock does not look at the outbox, and leaves it alone.
  abbrev pub with_outbox : List OutboxRow → SettlementResult × Db → SettlementResult × Db
  with_outbox rows e = (e.0, record e.1 { outbox = rows })

  advance_effect-outbox :
      (db : Db) (rows : List OutboxRow) (is_advance : Bool)
      → advance_effect notice (record db { outbox = rows }) is_advance
        ≡ with_outbox rows (advance_effect notice db is_advance)
  unfolding clocked
  advance_effect-outbox db rows is_advance = ground arith

  -- A final state that agrees with an effect but for some outbox agrees but for its own.
  own_outbox :
      (rows : List OutboxRow) (e : SettlementResult × Db) (r : SettlementResult) (db' : Db)
      → with_outbox rows e ≡ (r, db')
      → (r, db') ≡ with_outbox db'.outbox e
  own_outbox rows e r db' h = ground arith

  close_failed :
      (m b c db' : Db) (x r : SettlementResult)
      → b ≡ m
      → OnlyOutbox b c
      → pure x c ≡ ok (r, db')
      → (r, db') ≡ with_outbox db'.outbox (x, m)
  close_failed m b c db' x r e frame h = ground arith

  close_settled :
      (m b c db' : Db) (is_advance : Bool) (r : SettlementResult)
      → b ≡ m
      → OnlyOutbox b c
      → advance_effect notice c is_advance ≡ (r, db')
      → (r, db') ≡ with_outbox db'.outbox (advance_effect notice m is_advance)
  close_settled m b c db' is_advance r e frame h =
      let at_m : record m { outbox = c.outbox } ≡ c = ground arith in
      let from_m : advance_effect notice (record m { outbox = c.outbox }) is_advance ≡ (r, db') =
        rw at_m h in
      own_outbox c.outbox (advance_effect notice m is_advance) r db'
        (sym (advance_effect-outbox m c.outbox is_advance) ∙ from_m)

  settle_pending-effect :
      (pending : TransactionRow) (outcome : SettlementOutcome) (db db' : Db) (r : SettlementResult)
      → settle_pending engine notice pending outcome db ≡ ok (r, db')
      → (r, db') ≡ with_outbox db'.outbox (pending_effect notice db pending outcome)
  unfolding settle_pending mark_settled mark_failed notify_customer find_customer
  settle_pending-effect pending failed db db' r h =
      let (_, a, marked, rest) =
        bind-eq-ok (mark_failed engine pending.id notice.aggregator notice.aggregator_ref) _ db h in
      let (_, b, moving, rest2) =
        bind-eq-ok
          (transition_status engine notice.order_id OrderStatus.awaiting_payment
            "order.event.payment_failed")
          _ a rest in
      let (_, c, told, done) = bind-eq-ok (notify_customer engine notice not_received) _ b rest2 in
      let at_a : a ≡ marked_failed notice pending.id db =
        unfold marked_failed in execute-eq-ok engine _ db a marked in
      let at_b =
        transition-moved OrderStatus.awaiting_payment "order.event.payment_failed" a b moving in
      let at_c =
        notify_customer-OnlyOutbox not_received (customer_of (find_order notice.order_id b.orders))
          b c told in
      close_failed _ b c db' (applied notice.order_id none) r (rw at_a at at_b) at_c done
  settle_pending-effect pending settled db db' r h =
      let (_, a, marked, rest) =
        bind-eq-ok
          (mark_settled engine pending.id notice.aggregator notice.aggregator_ref
            notice.occurred_at)
          _ db h in
      let (_, b, moving, rest2) =
        bind-eq-ok
          (transition_status engine notice.order_id OrderStatus.confirmed
            "order.event.payment_received")
          _ a rest in
      let (_, c, told, done) = bind-eq-ok (notify_customer engine notice received) _ b rest2 in
      let at_a : a ≡ marked_settled notice pending.id db =
        unfold marked_settled in execute-eq-ok engine _ db a marked in
      let at_b = transition-moved OrderStatus.confirmed "order.event.payment_received" a b moving in
      let at_c =
        notify_customer-OnlyOutbox received (customer_of (find_order notice.order_id b.orders)) b c
          told in
      let clock = advance_clock-effect pending.is_advance c db' r done in
      close_settled _ b c db' pending.is_advance r (rw at_a at at_b) at_c clock

  verify_amount-effect :
      (pending : Option TransactionRow) (db db' : Db) (r : SettlementResult)
      → verify_amount engine notice pending db ≡ ok (r, db')
      → (r, db') ≡ with_outbox db'.outbox (amount_effect notice db pending)
  unfolding verify_amount
  verify_amount-effect none db db' r h = ground arith
  verify_amount-effect (some pending) db db' r h =
      elim (Result-cases (taka_to_poisha pending.amount_bdt)) [
        | inl (expected, read) ↦ elim (Bool-cases (number_eq notice.amount expected)) [
          | inl agrees ↦ ground (arith, settle_pending-effect pending notice.outcome db db' r)
          | inr differs ↦ ground arith
        ]
        | inr (e, unread) ↦ ground arith
      ]

  apply_new-effect :
      (existing : Option TransactionRow) (db db' : Db) (r : SettlementResult)
      → apply_new engine notice existing db ≡ ok (r, db')
      → (r, db') ≡ with_outbox db'.outbox (new_effect notice db existing)
  unfolding apply_new find_pending_for_order
  apply_new-effect (some existing) db db' r h = ground arith
  apply_new-effect none db db' r h =
      verify_amount-effect (find_pending notice.order_id db.transactions) db db' r h

  -- Where the work of a settlement returns a result, it is the one of the effect, and the state that
  -- it leaves is that of the effect in every table but the outbox.
  pub settlement_work-effect :
      (db db' : Db) (r : SettlementResult)
      → settlement_work engine notice db ≡ ok (r, db')
      → (r, db') ≡ with_outbox db'.outbox (settlement_effect notice db)
  unfolding settlement_work find_by_aggregator_ref settlement_effect
  settlement_work-effect db db' r h =
      apply_new-effect (find_ref notice.aggregator notice.aggregator_ref db.transactions) db db' r h

  -- A settlement either throws and leaves the database as it was, or returns the result of its effect
  -- and leaves the state of its effect in every table but the outbox: the payment, the order, its
  -- timeline and its clock change together or not at all.
  pub apply_settlement-effect :
      (db db' : Db) (answer : Result SettlementResult)
      → apply_settlement engine notice db ≡ (answer, db')
      → ((e : Exception) × (answer ≡ err e) × (db' ≡ db))
        ⊎ ((answer ≡ ok (settlement_effect notice db).0)
            × (db' ≡ record (settlement_effect notice db).1 { outbox = db'.outbox }))
  unfolding apply_settlement
  apply_settlement-effect db db' answer h =
      elim (with_transaction_atomic engine (settlement_work engine notice) db answer db' h) [
        | inl thrown ↦ inl thrown
        | inr (r, returned, worked) ↦
            let same = settlement_work-effect db db' r worked in
            inr (returned ∙ ap (λ e. ok e.0) same, ap (λ e. e.1) same)
      ]
