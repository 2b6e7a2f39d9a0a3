-- ===== src/Payment/Clock.antt =====
-- What a settlement does to the order: its status, its timeline and its delivery clock.
use sobkichu.Prelude.{
  ◌∙◌, sym, ap, subst, Bool-cases, text_eq_iff, ℤ, text_eq, ◌≡◌, arith, Bool, true, Option-cases,
  inl, inr, Option, none, some, Result, ok, String, Text,
}
use sobkichu.Money.{int, taka_to_poisha}
use sobkichu.Database.{Db, OrderStatus, OrderRow, TransactionRow}
use sobkichu.Database.Transaction.{Engine}
use sobkichu.DeliveryClock.{Date, DeliveryDeadline, compute_delivery_deadline}
use sobkichu.Order.Repository.{with_status}
use sobkichu.Order.Adapter.{find_order}
use sobkichu.Payment.Repository.{find_ref, find_pending}
use sobkichu.Payment.Service.{
  SettlementOutcome, settled, failed, SettlementNotice, SettlementResult, applied, apply_settlement,
}
use sobkichu.Payment.Refinement.{apply_settlement-effect}
use sobkichu.Payment.Effect.{
  moved, marked_settled, marked_failed, clocked, advance_effect, pending_effect, settlement_effect,
}
use sobkichu.Payment.Unnamed.{
  find_order-with_status, find_order-with_clock, find_order-id, settlement_effect-other,
}

-- The clock of an order that is looked up: when its advance was paid, and its deadline.
abbrev pub clock_of : Option OrderRow → Option (Option Date × Option Date)
clock_of none = none
clock_of (some row) = some (row.advance_paid_at, row.delivery_deadline_at)

ok-injective : {A : Type 0} {a b : A} → ok a ≡ ok b → a ≡ b
ok-injective h = cc

module _ (notice : SettlementNotice) where
  moved-found :
      (status : OrderStatus) (key : String) (db : Db) (row : OrderRow)
      → find_order notice.order_id db.orders ≡ some row
      → find_order notice.order_id (moved notice.order_id status key db).orders
        ≡ some (with_status status row)
  unfolding moved
  moved-found status key db row found = ground (
    arith,
    find_order-with_status notice.order_id notice.order_id status db.orders,
    find_order-id notice.order_id db.orders row found,
  )

  advance_effect-keeps :
      (db : Db) (row : OrderRow) (paid : Date) (is_advance : Bool)
      → find_order notice.order_id db.orders ≡ some row
      → row.advance_paid_at ≡ some paid
      → (advance_effect notice db is_advance).1 ≡ db
  advance_effect-keeps db row paid is_advance found started = ground arith

  -- The tables behind a settled payment, before its clock.
  abbrev confirmed_state : TransactionRow → Db → Db
  confirmed_state p db =
      moved notice.order_id OrderStatus.confirmed "order.event.payment_received"
        (marked_settled notice p.id db)

  confirmed_found :
      (db : Db) (p : TransactionRow) (row : OrderRow)
      → find_order notice.order_id db.orders ≡ some row
      → find_order notice.order_id (confirmed_state p db).orders
        ≡ some (with_status OrderStatus.confirmed row)
  confirmed_found db p row found =
      moved-found OrderStatus.confirmed "order.event.payment_received"
        (marked_settled notice p.id db) row (unfold marked_settled in found)

  pending_effect-clock :
      (db : Db) (p : TransactionRow) (outcome : SettlementOutcome) (row : OrderRow) (paid : Date)
      → find_order notice.order_id db.orders ≡ some row
      → row.advance_paid_at ≡ some paid
      → clock_of (find_order notice.order_id (pending_effect notice db p outcome).1.orders)
        ≡ some (some paid, row.delivery_deadline_at)
  pending_effect-clock db p failed row paid found started =
      let at_row =
        moved-found OrderStatus.awaiting_payment "order.event.payment_failed"
          (marked_failed notice p.id db) row (unfold marked_failed in found) in
      rw at_row (ground arith)
  pending_effect-clock db p settled row paid found started =
      let at_row = confirmed_found db p row found in
      let kept =
        advance_effect-keeps (confirmed_state p db) (with_status OrderStatus.confirmed row) paid
          p.is_advance at_row started in
      rw (kept, at_row) (ground arith)

  settlement_effect-clock :
      (db : Db) (row : OrderRow) (paid : Date)
      → find_order notice.order_id db.orders ≡ some row
      → row.advance_paid_at ≡ some paid
      → clock_of (find_order notice.order_id (settlement_effect notice db).1.orders)
        ≡ some (some paid, row.delivery_deadline_at)
  unfolding settlement_effect
  settlement_effect-clock db row paid found started =
      elim (Option-cases (find_pending notice.order_id db.transactions)) [
        | inl nothing ↦ ground arith
        | inr (p, is_p) ↦
            ground (arith, pending_effect-clock db p notice.outcome row paid found started)
      ]

  -- The same for any order, named or not.
  effect_keeps_clock :
      (db : Db) (order_id : Text) (row : OrderRow) (paid : Date)
      → find_order order_id db.orders ≡ some row
      → row.advance_paid_at ≡ some paid
      → clock_of (find_order order_id (settlement_effect notice db).1.orders)
        ≡ some (some paid, row.delivery_deadline_at)
  effect_keeps_clock db order_id row paid found started =
      let is_own = (text_eq_iff row.id order_id).0 (find_order-id order_id db.orders row found) in
      elim (Bool-cases (text_eq row.id notice.order_id)) [
        | inl named ↦
            let same = sym is_own ∙ (text_eq_iff row.id notice.order_id).0 named in
            subst
              (λ id.
                clock_of (find_order id (settlement_effect notice db).1.orders)
                ≡ some (some paid, row.delivery_deadline_at))
              (sym same)
              (settlement_effect-clock db row paid
                (subst (λ id. find_order id db.orders ≡ some row) same found) started)
        | inr unnamed ↦
            ap clock_of (settlement_effect-other notice order_id row unnamed db found)
            ∙ ap (λ p. some (p, row.delivery_deadline_at)) started
      ]

  -- A running clock is never restarted: whatever a notice says, and whichever order it names, an
  -- order whose advance is paid keeps its payment time and its deadline.
  pub settlement_keeps_clock :
      (engine : Engine) (db db' : Db) (answer : Result SettlementResult) (order_id : Text)
      (row : OrderRow) (paid : Date)
      → find_order order_id db.orders ≡ some row
      → row.advance_paid_at ≡ some paid
      → apply_settlement engine notice db ≡ (answer, db')
      → clock_of (find_order order_id db'.orders) ≡ some (some paid, row.delivery_deadline_at)
  settlement_keeps_clock engine db db' answer order_id row paid found started h =
      elim (apply_settlement-effect engine notice db db' answer h) [
        | inl (e, thrown, same) ↦ rw (same, found) (ground arith)
        | inr (returned, left) ↦ rw left (effect_keeps_clock db order_id row paid found started)
      ]

  settlement_effect-starts :
      (db : Db) (p : TransactionRow) (row : OrderRow) (deadline : DeliveryDeadline) (expected : ℤ)
      → find_ref notice.aggregator notice.aggregator_ref db.transactions ≡ none
      → find_pending notice.order_id db.transactions ≡ some p
      → taka_to_poisha p.amount_bdt ≡ ok expected
      → notice.amount ≡ int expected
      → notice.outcome ≡ settled
      → p.is_advance ≡ true
      → find_order notice.order_id db.orders ≡ some row
      → row.advance_paid_at ≡ none
      → compute_delivery_deadline notice.occurred_at row.is_same_city ≡ ok deadline
      → ((settlement_effect notice db).0 ≡ applied notice.order_id (some deadline.deadline_at))
        × (find_order notice.order_id (settlement_effect notice db).1.orders
            ≡ some (record row {
              status = OrderStatus.confirmed;
              advance_paid_at = some notice.occurred_at;
              delivery_deadline_at = some deadline.deadline_at;
            }))
  unfolding settlement_effect clocked
  settlement_effect-starts db p row deadline expected new found read agrees paid advance found_row
        unset computed =
      let x = confirmed_state p db in
      let row' = with_status OrderStatus.confirmed row in
      let at_row = confirmed_found db p row found_row in
      ground (
        arith,
        at_row,
        find_order-id notice.order_id x.orders row' at_row,
        find_order-with_clock notice.order_id notice.order_id notice.occurred_at
            deadline.deadline_at x.orders,
      )

  -- The notice that starts the clock: a settled advance of the expected amount, not seen before, on
  -- an order with no clock. Once it is applied, the order is confirmed, and its clock shows the
  -- payment's time and the deadline of the order's district.
  pub settlement_starts_clock :
      (engine : Engine) (db db' : Db) (result : SettlementResult) (p : TransactionRow)
      (row : OrderRow) (deadline : DeliveryDeadline) (expected : ℤ)
      → find_ref notice.aggregator notice.aggregator_ref db.transactions ≡ none
      → find_pending notice.order_id db.transactions ≡ some p
      → taka_to_poisha p.amount_bdt ≡ ok expected
      → notice.amount ≡ int expected
      → notice.outcome ≡ settled
      → p.is_advance ≡ true
      → find_order notice.order_id db.orders ≡ some row
      → row.advance_paid_at ≡ none
      → compute_delivery_deadline notice.occurred_at row.is_same_city ≡ ok deadline
      → apply_settlement engine notice db ≡ (ok result, db')
      → (result ≡ applied notice.order_id (some deadline.deadline_at))
        × (find_order notice.order_id db'.orders
            ≡ some (record row {
              status = OrderStatus.confirmed;
              advance_paid_at = some notice.occurred_at;
              delivery_deadline_at = some deadline.deadline_at;
            }))
  settlement_starts_clock engine db db' result p row deadline expected new found read agrees paid
        advance found_row unset computed h =
      let (answer, at_order) =
        settlement_effect-starts db p row deadline expected new found read agrees paid advance
          found_row unset computed in
      elim (apply_settlement-effect engine notice db db' (ok result) h) [
        | inl (e, thrown, same) ↦ cc
        | inr (returned, left) ↦ (ok-injective returned ∙ answer, rw left at_order)
      ]
