-- ===== src/Notification/Attempts.antt =====
-- A delivery of a due row, and the rows beside it.
use sobkichu.Prelude.{
  ℕ, ◌≡◌, refl, ◌∙◌, arith, false, Bool-cases, inl, inr, List, [], ◌∷◌, ok, All, Text, text_eq,
  text_eq-flip,
}
use sobkichu.Database.{Db, OutboxRow}
use sobkichu.Database.Transaction.{Engine}
use sobkichu.Notification.Delivery.{update_outbox, sent_row, attempted_row}
use sobkichu.Notification.Claims.{HasAttemptsLeft}
use sobkichu.Notification.Render.{Entry}
use sobkichu.Notification.Dispatcher.{max_attempts, Gateways, DeliveryOutcome, deliver}
use sobkichu.Notification.Queue.{
  has_row, KeepsId, UsesAttempt, update_outbox-HasDistinctIds, find_row-update_outbox,
  sent-UsesAttempt, attempted-UsesAttempt,
}
use sobkichu.Notification.Delivered.{with_row, deliver-DeliveryEffect}
use sobkichu.Notification.Due.{IsHealthy, IsDue, absent_tail}

-- What either record of an attempt does to a row.
pub record IsAttempt (f : OutboxRow → OutboxRow) : Type 0 where
  pub keeps : KeepsId f
  pub uses : UsesAttempt f
  pub left : (row : OutboxRow) → HasAttemptsLeft max_attempts (f row)

sent-IsAttempt : (now : ℕ) → IsAttempt (sent_row now)
sent-IsAttempt now = record {
  keeps = λ row. refl;
  uses = sent-UsesAttempt now;
  left = λ row waits. ground arith;
}

attempted-IsAttempt : (reason : Text) → IsAttempt (attempted_row reason max_attempts)
attempted-IsAttempt reason = record {
  keeps = λ row. refl;
  uses = attempted-UsesAttempt reason;
  left = λ row waits. ground arith;
}

pub delivered-IsAttempt :
    (engine : Engine) (gateways : Gateways) (templates : List Entry) (row : OutboxRow) (db db' : Db)
    (outcome : DeliveryOutcome)
    → deliver engine gateways templates row db ≡ (ok outcome, db')
    → (f : OutboxRow → OutboxRow) × IsAttempt f × (db' ≡ with_row f row.id db)
delivered-IsAttempt engine gateways templates row db db' outcome h =
    elim (deliver-DeliveryEffect engine gateways templates row db (ok outcome) db' h) [
      | inl (answer, left) ↦ (sent_row (engine.now db), sent-IsAttempt (engine.now db), left)
      | inr (inl (reason, answer, left)) ↦
          (attempted_row reason max_attempts, attempted-IsAttempt reason, left)
      | inr (inr (e, thrown, same)) ↦ absurd (cc)
    ]

left_updated :
    (id : Text) (f : OutboxRow → OutboxRow) (rows : List OutboxRow)
    → IsAttempt f
    → All (HasAttemptsLeft max_attempts) rows
    → All (HasAttemptsLeft max_attempts) (update_outbox id f rows)
unfolding update_outbox
left_updated id f [] attempt h = tt
left_updated id f (row ∷ rows) attempt (below, h) = elim (Bool-cases (text_eq row.id id)) [
  | inl this ↦ rw this (attempt.left row, left_updated id f rows attempt h)
  | inr other ↦ rw other (below, left_updated id f rows attempt h)
]

pub updated-IsHealthy :
    (id : Text) (f : OutboxRow → OutboxRow) (rows : List OutboxRow)
    → IsAttempt f
    → IsHealthy rows
    → IsHealthy (update_outbox id f rows)
updated-IsHealthy id f rows attempt healthy = record {
  distinct = update_outbox-HasDistinctIds id f rows attempt.keeps healthy.distinct;
  left = left_updated id f rows attempt healthy.left;
}

-- The rest of a batch can still be delivered.
pub still-IsDue :
    (id : Text) (f : OutboxRow → OutboxRow) (rows batch : List OutboxRow)
    → IsAttempt f
    → has_row id batch ≡ false
    → All (IsDue rows) batch
    → All (IsDue (update_outbox id f rows)) batch
still-IsDue id f rows [] attempt absent h = tt
still-IsDue id f rows (row ∷ batch) attempt absent ((found, open_row), h) =
    let (other, absent_later) = absent_tail id row batch absent in
    let apart = text_eq-flip row.id id other in
    (
      (find_row-update_outbox row.id id f rows attempt.keeps apart ∙ found, open_row),
      still-IsDue id f rows batch attempt absent_later h,
    )
