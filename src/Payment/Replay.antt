-- ===== src/Payment/Replay.antt =====
-- A notice that comes again after it has been applied.
use sobkichu.Prelude.{
  ◌||◌, text_eq, text_eq_refl, ◌≡◌, arith, Bool, true, false, Option-cases, inl, inr, Option, none,
  some, List, [], ◌∷◌, ok, Text,
}
use sobkichu.Database.{Db, OrderStatus, TransactionRow}
use sobkichu.Database.Transaction.{Engine, with_transaction-commits, with_transaction-ok}
use sobkichu.DeliveryClock.{Date}
use sobkichu.Payment.Repository.{
  has_ref, find_ref, find_pending, update_transactions, settled_row, failed_row,
  find_by_aggregator_ref,
}
use sobkichu.Payment.Service.{
  SettlementOutcome, settled, failed, SettlementNotice, applied, duplicate, apply_new,
  settlement_work, apply_settlement,
}
use sobkichu.Payment.Refinement.{apply_settlement-effect}
use sobkichu.Payment.Effect.{
  moved, marked_settled, marked_failed, clocked, advance_effect, pending_effect, amount_effect,
  settlement_effect,
}

-- A row of the table has this id.
abbrev has_id : Text → List TransactionRow → Bool
has_id id [] = false
has_id id (row ∷ rows) = text_eq row.id id || has_id id rows

abbrev is_some : Option TransactionRow → Bool
is_some none = false
is_some (some row) = true

find_pending-has_id :
    (order_id : Text) (rows : List TransactionRow) (p : TransactionRow)
    → find_pending order_id rows ≡ some p
    → has_id p.id rows ≡ true
unfolding find_pending
find_pending-has_id order_id [] p h = cc
find_pending-has_id order_id (row ∷ rows) p h = elim (Option-cases (find_pending order_id rows)) [
  | inl last ↦ ground (arith, text_eq_refl row.id)
  | inr (later, found) ↦
      ground (arith, text_eq_refl row.id, find_pending-has_id order_id rows later found)
]

module _ (notice : SettlementNotice) where
  -- The notice's reference is on some row.
  abbrev is_known : List TransactionRow → Bool
  is_known rows = is_some (find_ref notice.aggregator notice.aggregator_ref rows)

  settled_known :
      (id : Text) (rows : List TransactionRow)
      → has_id id rows ≡ true
      → is_known (
          update_transactions id
            (settled_row notice.aggregator notice.aggregator_ref notice.occurred_at)
            rows)
        ≡ true
  unfolding find_ref update_transactions has_ref
  settled_known id [] h = cc
  settled_known id (row ∷ rows) h = ground (
    arith,
    settled_known id rows,
    text_eq_refl notice.aggregator,
    text_eq_refl notice.aggregator_ref,
  )

  failed_known :
      (id : Text) (rows : List TransactionRow)
      → has_id id rows ≡ true
      → is_known (update_transactions id (failed_row notice.aggregator notice.aggregator_ref) rows)
        ≡ true
  unfolding find_ref update_transactions has_ref
  failed_known id [] h = cc
  failed_known id (row ∷ rows) h = ground (
    arith,
    failed_known id rows,
    text_eq_refl notice.aggregator,
    text_eq_refl notice.aggregator_ref,
  )

  -- The clock leaves the transactions alone.
  advance_effect-transactions :
      (db : Db) (is_advance : Bool)
      → (advance_effect notice db is_advance).1.transactions ≡ db.transactions
  unfolding clocked
  advance_effect-transactions db is_advance = ground arith

  pending_effect-known :
      (db : Db) (p : TransactionRow) (outcome : SettlementOutcome)
      → has_id p.id db.transactions ≡ true
      → is_known (pending_effect notice db p outcome).1.transactions ≡ true
  unfolding moved marked_failed marked_settled
  pending_effect-known db p failed h = failed_known p.id db.transactions h
  pending_effect-known db p settled h =
      rw
        (advance_effect-transactions
          (moved notice.order_id OrderStatus.confirmed "order.event.payment_received"
            (marked_settled notice p.id db))
          p.is_advance)
        (settled_known p.id db.transactions h)

  amount_effect-known :
      (db : Db) (order_id : Text) (deadline : Option Date)
      → (amount_effect notice db (find_pending notice.order_id db.transactions)).0
        ≡ applied order_id deadline
      → is_known
          (amount_effect notice db (find_pending notice.order_id db.transactions)).1.transactions
        ≡ true
  amount_effect-known db order_id deadline h =
      elim (Option-cases (find_pending notice.order_id db.transactions)) [
        | inl nothing ↦ ground arith
        | inr (p, found) ↦ ground (
          arith,
          pending_effect-known db p notice.outcome
              (find_pending-has_id notice.order_id db.transactions p found),
        )
      ]

  settlement_effect-known :
      (db : Db) (order_id : Text) (deadline : Option Date)
      → (settlement_effect notice db).0 ≡ applied order_id deadline
      → is_known (settlement_effect notice db).1.transactions ≡ true
  unfolding settlement_effect
  settlement_effect-known db order_id deadline h =
      ground (arith, amount_effect-known db order_id deadline)

  known_duplicate :
      (engine : Engine) (db : Db)
      → is_known db.transactions ≡ true
      → (first : Text) × (settlement_work engine notice db ≡ ok (duplicate first, db))
  unfolding settlement_work find_by_aggregator_ref apply_new
  known_duplicate engine db h =
      elim (Option-cases (find_ref notice.aggregator notice.aggregator_ref db.transactions)) [
        | inl unknown ↦ cc (rw unknown at h)
        | inr (row, e) ↦ (row.order_id, rw e)
      ]

  -- A notice that has been applied, as settled or as failed, is answered as a duplicate when it is
  -- delivered again, and the database stays as the first delivery left it.
  pub apply_settlement_replay :
      (engine : Engine) (db db' : Db) (order_id : Text) (deadline : Option Date)
      → apply_settlement engine notice db ≡ (ok (applied order_id deadline), db')
      → (first : Text) × (apply_settlement engine notice db' ≡ (ok (duplicate first), db'))
  unfolding apply_settlement
  apply_settlement_replay engine db db' order_id deadline h =
      elim (apply_settlement-effect engine notice db db' (ok (applied order_id deadline)) h) [
        | inl (e, thrown, _) ↦ cc
        | inr (returned, left) ↦
            let result : (settlement_effect notice db).0 ≡ applied order_id deadline = cc in
            let known = settlement_effect-known db order_id deadline result in
            let (first, seen) = known_duplicate engine db' (rw left known) in
            (
              first,
              with_transaction-ok engine (settlement_work engine notice) db' db' (duplicate first)
                  seen (with_transaction-commits engine (settlement_work engine notice) db db' _ h),
            )
      ]
