-- ===== src/Notification/Delivered.antt =====
-- What one delivery does to the outbox.
use sobkichu.Prelude.{
  ◌≡◌, refl, sym, ◌∙◌, ap, subst, inl, inr, ◌⊎◌, List, Result, ok, err, Exception, Text,
}
use sobkichu.Database.{Db, OutboxRow}
use sobkichu.Database.Transaction.{Engine, execute-eq-ok, with_transaction, with_transaction_atomic}
use sobkichu.Notification.Delivery.{update_outbox, sent_row, attempted_row, mark_sent, mark_failed}
use sobkichu.Notification.Render.{Entry}
use sobkichu.Notification.Dispatcher.{
  max_attempts, Gateways, send_row, message_of, DeliveryOutcome, was_sent, was_failed, mark_if_sent,
  failed_outcome, record_outcome, deliver,
}

-- The outbox with a row updated.
abbrev pub with_row : (OutboxRow → OutboxRow) → Text → Db → Db
with_row f id db = record db { outbox = update_outbox id f db.outbox }

abbrev pub DeliveryEffect : Engine → OutboxRow → Db → Result DeliveryOutcome → Db → Type 0
DeliveryEffect engine row db r db' =
    ((r ≡ ok was_sent) × (db' ≡ with_row (sent_row (engine.now db)) row.id db))
    ⊎ (((reason : Text) × (r ≡ ok was_failed)
          × (db' ≡ with_row (attempted_row reason max_attempts) row.id db))
        ⊎ ((e : Exception) × (r ≡ err e) × (db' ≡ db)))

mark_if_sent-cases :
    (engine : Engine) (row : OutboxRow) (r : Result (Unit {0})) (db : Db)
    (answer : Result (Unit {0})) (db' : Db)
    → mark_if_sent engine row r db ≡ (answer, db')
    → ((e : Exception) × (answer ≡ err e) × (db' ≡ db))
      ⊎ ((u : Unit {0}) × (answer ≡ ok u) × (db' ≡ with_row (sent_row (engine.now db)) row.id db))
unfolding mark_if_sent mark_sent
mark_if_sent-cases engine row (err e) db answer db' h =
    inl (e, sym (ap (λ p. p.0) h), sym (ap (λ p. p.1) h))
mark_if_sent-cases engine row (ok u) db answer db' h =
    elim (with_transaction_atomic engine (mark_sent engine row.id) db answer db' h) [
      | inl thrown ↦ inl thrown
      | inr (v, returned, worked) ↦ inr (v, returned, execute-eq-ok engine _ db db' worked)
    ]

failed-cases :
    (engine : Engine) (row : OutboxRow) (reason : Text) (db : Db) (r : Result (Unit {0})) (out : Db)
    (answer : Result DeliveryOutcome) (db' : Db)
    → with_transaction engine (mark_failed engine row.id reason max_attempts) db ≡ (r, out)
    → failed_outcome (r, out) ≡ (answer, db')
    → DeliveryEffect engine row db answer db'
unfolding mark_failed
failed-cases engine row reason db (ok u) out answer db' h g =
    elim (with_transaction_atomic engine (mark_failed engine row.id reason max_attempts) db (ok u)
      out h) [
        | inl (e, thrown, same) ↦ cc
        | inr (v, returned, worked) ↦ inr (
            inl (
              reason,
              sym (ap (λ p. p.0) g),
              sym (ap (λ p. p.1) g) ∙ execute-eq-ok engine _ db out worked,
            ))
      ]
failed-cases engine row reason db (err e) out answer db' h g =
    elim (with_transaction_atomic engine (mark_failed engine row.id reason max_attempts) db (err e)
      out h) [
        | inl (x, thrown, same) ↦ inr (inr (e, sym (ap (λ p. p.0) g), sym (ap (λ p. p.1) g) ∙ same))
        | inr (v, returned, worked) ↦ cc
      ]

recorded :
    (engine : Engine) (row : OutboxRow) (db : Db) (r : Result (Unit {0})) (out : Db)
    (answer : Result DeliveryOutcome) (db' : Db)
    → ((e : Exception) × (r ≡ err e) × (out ≡ db))
      ⊎ ((u : Unit {0}) × (r ≡ ok u) × (out ≡ with_row (sent_row (engine.now db)) row.id db))
    → record_outcome engine row (r, out) ≡ (answer, db')
    → DeliveryEffect engine row db answer db'
unfolding record_outcome
recorded engine row db (ok u) out answer db' (inl (e, thrown, same)) g = cc
recorded engine row db (ok u) out answer db' (inr (v, returned, same)) g =
    inl (sym (ap (λ p. p.0) g), sym (ap (λ p. p.1) g) ∙ same)
recorded engine row db (err e) out answer db' (inr (v, returned, same)) g = cc
recorded engine row db (err e) out answer db' (inl (x, thrown, same)) g =
    let (r, left) =
      with_transaction engine (mark_failed engine row.id (message_of e) max_attempts) out in
    subst (λ d. DeliveryEffect engine row d answer db') same
      (failed-cases engine row (message_of e) out r left answer db' refl g)

-- A delivery that returns has marked its row as sent, or has recorded a failed attempt on it; one
-- that throws leaves the database as it was.
pub deliver-DeliveryEffect :
    (engine : Engine) (gateways : Gateways) (templates : List Entry) (row : OutboxRow) (db : Db)
    (answer : Result DeliveryOutcome) (db' : Db)
    → deliver engine gateways templates row db ≡ (answer, db')
    → DeliveryEffect engine row db answer db'
unfolding deliver
deliver-DeliveryEffect engine gateways templates row db answer db' h =
    let sending = send_row gateways templates row db in
    let (r, out) = mark_if_sent engine row sending db in
    recorded engine row db r out answer db' (mark_if_sent-cases engine row sending db r out refl) h
