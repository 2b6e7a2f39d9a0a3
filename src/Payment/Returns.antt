-- ===== src/Payment/Returns.antt =====
-- When `applySettlement` answers.
use sobkichu.Prelude.{
  ◌≡◌, refl, sym, ◌∙◌, ap, subst, arith, ℤ, Bool, true, false, Bool-cases, Option-cases, inl, inr,
  Option, none, some, List, ok, String, Text, text_eq, if◌then◌else◌,
}
use sobkichu.Money.{poisha_to_taka, taka_to_poisha}
use sobkichu.Database.{Db, OrderStatus, OrderRow, TransactionRow, UserRow}
use sobkichu.Database.Transaction.{
  Engine, M, ◌>>◌, pure, lift, execute, execute-eq-ok, bind-ok, with_transaction-ok,
}
use sobkichu.DeliveryClock.{DeliveryDeadline, instant, compute_delivery_deadline}
use sobkichu.Notification.Adapter.{find_user}
use sobkichu.Order.Repository.{
  record_status_event, stamp_delivery_clock, update_orders, with_status,
}
use sobkichu.Order.Adapter.{
  OrderForSettlement, find_order, settlement_view, customer_of, transition_status,
  start_delivery_clock, find_customer, find_for_settlement,
}
use sobkichu.Payment.Repository.{
  find_ref, find_pending, mark_settled, mark_failed, find_by_aggregator_ref, find_pending_for_order,
}
use sobkichu.Payment.Service.{
  SettlementOutcome, settled, failed, SettlementNotice, SettlementResult, applied, rejected,
  number_eq, CustomerEvent, received, not_received, customer_request, notify_customer_found,
  notify_customer, stamp_deadline, start_clock, advance_clock, settle_pending, verify_amount,
  apply_new, settlement_work, apply_settlement,
}
use sobkichu.Notification.Returns.{Returns, bind-Returns, execute-Returns, notify-Returns}
use sobkichu.Payment.Effect.{moved}
use sobkichu.Payment.Refinement.{transition-moved, lift-eq-ok}
use sobkichu.Payment.Unnamed.{found_update, find_order-with_status}

customer_of-with_status :
    (id : Text) (status : OrderStatus) (rows : List OrderRow)
    → customer_of (find_order id (update_orders id (with_status status) rows))
      ≡ customer_of (find_order id rows)
customer_of-with_status id status rows =
    rw (find_order-with_status id id status rows) (kept (find_order id rows))
  where
    kept :
        (o : Option OrderRow) → customer_of (found_update id (with_status status) o) ≡ customer_of o
    kept none = refl
    kept (some row) = elim (Bool-cases (text_eq row.id id)) [
      | inl same ↦ ground arith
      | inr different ↦ ground arith
    ]

module _ (engine : Engine) (accepts : (d : Db) → engine.refuses d ≡ none) where
  transition-Returns :
      (id : Text) (status : OrderStatus) (key : String) (db : Db)
      → Returns (transition_status engine id status key) db
  unfolding transition_status record_status_event
  transition-Returns id status key db =
      bind-Returns (execute engine _) _ db (execute-Returns engine accepts _ db)
        (λ _ d _. execute-Returns engine accepts _ d)

-- A customer on the order that a notice names is a user.
abbrev pub HasCustomer : SettlementNotice → Db → Type 0
HasCustomer notice db =
    (u : Text)
    → customer_of (find_order notice.order_id db.orders) ≡ some u
    → (user : UserRow) × (find_user u db.users ≡ some user)

module _ (engine : Engine) (accepts : (d : Db) → engine.refuses d ≡ none)
    (notice : SettlementNotice) (n : ℤ) (at : notice.occurred_at ≡ instant n) (amount : Text)
    (printed : poisha_to_taka notice.amount ≡ ok amount) where
  notify_customer_found-Returns :
      (event : CustomerEvent) (customer : Option Text) (db : Db)
      → ((u : Text) → customer ≡ some u → (user : UserRow) × (find_user u db.users ≡ some user))
      → Returns (notify_customer_found engine notice event customer) db
  unfolding notify_customer_found customer_request
  notify_customer_found-Returns event none db known = (tt, db, refl)
  notify_customer_found-Returns event (some u) db known =
      let (user, found) = known u refl in
      let (v, d, e) =
        notify-Returns engine accepts (customer_request notice event u amount) user db found in
      (v, d, bind-ok (lift (poisha_to_taka notice.amount)) _ (rw printed) ∙ e)

  notify_customer-Returns :
      (event : CustomerEvent) (db : Db)
      → HasCustomer notice db
      → Returns (notify_customer engine notice event) db
  unfolding notify_customer find_customer
  notify_customer-Returns event db known =
      notify_customer_found-Returns event (customer_of (find_order notice.order_id db.orders)) db
        known

  deadline_at_instant :
      (same_city : Bool)
      → (d : DeliveryDeadline) × (compute_delivery_deadline notice.occurred_at same_city ≡ ok d)
  unfolding compute_delivery_deadline
  deadline_at_instant same_city =
      subst (λ date. (d : DeliveryDeadline) × (compute_delivery_deadline date same_city ≡ ok d))
        (sym at) (_, refl)

  stamp_deadline-Returns :
      (order : OrderForSettlement) (db : Db) → Returns (stamp_deadline engine notice order) db
  unfolding stamp_deadline start_delivery_clock stamp_delivery_clock
  stamp_deadline-Returns order db =
      let (computed, e) = deadline_at_instant order.is_same_city in
      bind-Returns (lift (compute_delivery_deadline notice.occurred_at order.is_same_city)) _ db
        (computed, db, rw e)
        (λ deadline d _.
          bind-Returns
            (start_delivery_clock engine notice.order_id notice.occurred_at deadline.deadline_at) _
            d (execute-Returns engine accepts _ d) (λ _ d' _. (_, d', refl)))

  stamps :
      (order : OrderForSettlement) (db : Db)
      → order.advance_paid_at ≡ none
      → start_clock engine notice (some order) db ≡ stamp_deadline engine notice order db
  unfolding start_clock
  stamps order db unset =
      ap
        (λ o.
          (elim o as (λ _. M SettlementResult) [
            | some paid ↦ pure (applied notice.order_id none)
            | none ↦ stamp_deadline engine notice order
          ])
            db)
        unset

  start_clock-Returns :
      (order : Option OrderForSettlement) (db : Db) → Returns (start_clock engine notice order) db
  unfolding start_clock
  start_clock-Returns none db = (_, db, refl)
  start_clock-Returns (some order) db = elim (Option-cases order.advance_paid_at) [
    | inr (paid, running) ↦ (applied notice.order_id none, db, rw running)
    | inl unset ↦
        let (r, d, e) = stamp_deadline-Returns order db in (r, d, stamps order db unset ∙ e)
  ]

  advance_clock-Returns :
      (is_advance : Bool) (db : Db) → Returns (advance_clock engine notice is_advance) db
  unfolding advance_clock find_for_settlement
  advance_clock-Returns true db =
      start_clock-Returns (settlement_view (find_order notice.order_id db.orders)) db
  advance_clock-Returns false db = (_, db, refl)

  moved-HasCustomer :
      (status : OrderStatus) (key : String) (db d : Db) {u : Unit {0}}
      → HasCustomer notice db
      → transition_status engine notice.order_id status key db ≡ ok (u, d)
      → HasCustomer notice d
  unfolding moved
  moved-HasCustomer status key db d known e =
      let same = transition-moved engine notice status key db d e in
      subst (HasCustomer notice) (sym same)
        (λ u bought. known u (rw customer_of-with_status at bought))

  -- A status, its notification, and what follows.
  announced-Returns :
      (status : OrderStatus) (key : String) (event : CustomerEvent) (next : M SettlementResult)
      (db : Db)
      → HasCustomer notice db
      → ((d : Db) → Returns next d)
      → Returns
          (transition_status engine notice.order_id status key
            >> (notify_customer engine notice event >> next))
          db
  announced-Returns status key event next db known goes_on =
      bind-Returns (transition_status engine notice.order_id status key)
        (λ _. notify_customer engine notice event >> next) db
        (transition-Returns engine accepts notice.order_id status key db)
        (λ _ d moves.
          bind-Returns (notify_customer engine notice event) (λ _. next) d
            (notify_customer-Returns event d (moved-HasCustomer status key db d known moves))
            (λ _ d' _. goes_on d'))

  settle_pending-Returns :
      (p : TransactionRow) (outcome : SettlementOutcome) (db : Db)
      → HasCustomer notice db
      → Returns (settle_pending engine notice p outcome) db
  unfolding settle_pending mark_failed mark_settled
  settle_pending-Returns p failed db known =
      bind-Returns (mark_failed engine p.id notice.aggregator notice.aggregator_ref) _ db
        (execute-Returns engine accepts _ db)
        (λ _ d marked.
          announced-Returns OrderStatus.awaiting_payment "order.event.payment_failed" not_received
            (pure (applied notice.order_id none)) d
            (subst (HasCustomer notice) (sym (execute-eq-ok engine _ db d marked)) known)
            (λ d'. (applied notice.order_id none, d', refl)))
  settle_pending-Returns p settled db known =
      bind-Returns
        (mark_settled engine p.id notice.aggregator notice.aggregator_ref notice.occurred_at) _ db
        (execute-Returns engine accepts _ db)
        (λ _ d marked.
          announced-Returns OrderStatus.confirmed "order.event.payment_received" received
            (advance_clock engine notice p.is_advance) d
            (subst (HasCustomer notice) (sym (execute-eq-ok engine _ db d marked)) known)
            (advance_clock-Returns p.is_advance))

  verify_amount-Returns :
      (pending : Option TransactionRow) (db : Db)
      → HasCustomer notice db
      → ((p : TransactionRow) → pending ≡ some p → (e : ℤ) × (taka_to_poisha p.amount_bdt ≡ ok e))
      → Returns (verify_amount engine notice pending) db
  unfolding verify_amount
  verify_amount-Returns none db known readable = (_, db, refl)
  verify_amount-Returns (some p) db known readable =
      let (expected, read) = readable p refl in
      bind-Returns (lift (taka_to_poisha p.amount_bdt)) _ db (expected, db, rw read)
        (λ e d lifted.
          let same = (lift-eq-ok engine notice (taka_to_poisha p.amount_bdt) db lifted).1 in
          matched e p d (subst (HasCustomer notice) (sym same) known))
    where
      matched :
          (e : ℤ) (p : TransactionRow) (d : Db)
          → HasCustomer notice d
          → Returns
              (if number_eq notice.amount e
                then settle_pending engine notice p notice.outcome
                else pure (rejected "amount_mismatch"))
              d
      matched e p d known = elim (Bool-cases (number_eq notice.amount e)) [
        | inl equal ↦ rw equal (settle_pending-Returns p notice.outcome d known)
        | inr unequal ↦ rw unequal (_, d, refl)
      ]

  -- On a database that refuses nothing, a notice with a valid time and a printable amount is
  -- answered, if the order's customer is a user and the pending amount can be read: the call returns
  -- a result and commits.
  pub apply_settlement_returns :
      (commits : (d : Db) → engine.commits d ≡ none) (db : Db)
      → HasCustomer notice db
      → ((p : TransactionRow)
          → find_pending notice.order_id db.transactions ≡ some p
          → (e : ℤ) × (taka_to_poisha p.amount_bdt ≡ ok e))
      → (r : SettlementResult) × (db' : Db) × (apply_settlement engine notice db ≡ (ok r, db'))
  unfolding apply_settlement settlement_work find_by_aggregator_ref apply_new find_pending_for_order
  apply_settlement_returns commits db known readable =
      let (r, d, e) = answered (find_ref notice.aggregator notice.aggregator_ref db.transactions) in
      (r, d, with_transaction-ok engine (settlement_work engine notice) db d r e (commits d))
    where
      answered : (seen : Option TransactionRow) → Returns (apply_new engine notice seen) db
      answered (some row) = (_, db, refl)
      answered none =
          verify_amount-Returns (find_pending notice.order_id db.transactions) db known readable
