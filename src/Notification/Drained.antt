-- ===== src/Notification/Drained.antt =====
-- What a batch leaves in the outbox, and batches that follow one another.
use sobkichu.Prelude.{
  ℕ, zero, suc, ◌+◌, ◌≤◌, ◌<◌, ◌≡◌, ◌≢◌, refl, sym, ◌∙◌, ap, subst, arith, inl, inr, List, [], ◌∷◌,
  Result, ok, err, All, length, take,
}
use sobkichu.Database.{Db, OutboxRow}
use sobkichu.Database.Transaction.{Engine, with_transaction, with_transaction_atomic}
use sobkichu.Notification.Delivery.{pending_rows, insert_by_age, by_age, claimed, claim_pending}
use sobkichu.Notification.Render.{Entry}
use sobkichu.Notification.Dispatcher.{
  DispatchSummary, Gateways, DeliveryOutcome, was_sent, was_failed, deliver, count_outcome,
  deliver_all, started, deliver_claimed, dispatch_batch,
}
use sobkichu.Notification.Queue.{HasDistinctIds, remaining, remaining-update_outbox}
use sobkichu.Notification.Due.{IsHealthy, IsDue, claimed-IsDue}
use sobkichu.Notification.Attempts.{delivered-IsAttempt, updated-IsHealthy, still-IsDue}

-- What delivering a batch leaves: each delivery is counted, and has used up an attempt.
pub record HasDelivered (n : ℕ) (before after : DispatchSummary) (rows rows' : List OutboxRow)
    : Type 0 where
  pub claimed : after.claimed ≡ before.claimed
  pub counted : after.sent + after.failed ≡ before.sent + before.failed + n
  pub used : remaining rows' + n ≤ remaining rows
  pub healthy : IsHealthy rows'

counted_once :
    (outcome : DeliveryOutcome) (s : DispatchSummary)
    → ((count_outcome outcome s).sent + (count_outcome outcome s).failed ≡ s.sent + s.failed + 1)
      × ((count_outcome outcome s).claimed ≡ s.claimed)
counted_once was_sent s = (omega arith, refl)
counted_once was_failed s = (omega arith, refl)

delivered_then :
    (next : DeliveryOutcome → Db → Result DispatchSummary × Db) (r : Result DeliveryOutcome)
    (out db' : Db) (after : DispatchSummary)
    → elim r as (λ _. Result DispatchSummary × Db) [ err e ↦ (err e, out) | ok o ↦ next o out ]
      ≡ (ok after, db')
    → (o : DeliveryOutcome) × (r ≡ ok o) × (next o out ≡ (ok after, db'))
delivered_then next (ok o) out db' after h = (o, refl, h)
delivered_then next (err e) out db' after h = cc

one_more :
    (n : ℕ) (outcome : DeliveryOutcome) (before after : DispatchSummary)
    (rows between rows' : List OutboxRow)
    → remaining between < remaining rows
    → HasDelivered n (count_outcome outcome before) after between rows'
    → HasDelivered (suc n) before after rows rows'
one_more n outcome before after rows between rows' fewer done =
    let (counted, claimed) = counted_once outcome before in
    let total = done.counted in
    let used = done.used in
    record {
      claimed = done.claimed ∙ claimed;
      counted = omega arith;
      used = omega arith;
      healthy = done.healthy;
    }

insert_by_age-ne-nil : (row : OutboxRow) (rows : List OutboxRow) → insert_by_age row rows ≢ []
unfolding insert_by_age
insert_by_age-ne-nil row [] e = cc
insert_by_age-ne-nil row (r ∷ rows) e = ground arith

by_age_nil : (rows : List OutboxRow) → by_age rows ≡ [] → rows ≡ []
unfolding by_age
by_age_nil [] e = refl
by_age_nil (row ∷ rows) e = absurd (insert_by_age-ne-nil row (by_age rows) e)

take_nil : (n : ℕ) (rows : List OutboxRow) → 0 < n → length (take n rows) ≡ 0 → rows ≡ []
take_nil zero rows some_limit e = absurd (omega arith)
take_nil (suc n) [] some_limit e = refl
take_nil (suc n) (row ∷ rows) some_limit e = absurd (omega arith)

nothing_waits :
    (limit : ℕ) (rows : List OutboxRow)
    → 0 < limit
    → length (claimed limit rows) ≡ 0
    → pending_rows rows ≡ []
unfolding claimed
nothing_waits limit rows some_limit e =
    by_age_nil (pending_rows rows) (take_nil limit (by_age (pending_rows rows)) some_limit e)

module _ (engine : Engine) (gateways : Gateways) (templates : List Entry) where
  deliver_all-HasDelivered :
      (batch : List OutboxRow) (before after : DispatchSummary) (db db' : Db)
      → IsHealthy db.outbox
      → HasDistinctIds batch
      → All (IsDue db.outbox) batch
      → deliver_all engine gateways templates batch before db ≡ (ok after, db')
      → HasDelivered (length batch) before after db.outbox db'.outbox
  unfolding deliver_all
  deliver_all-HasDelivered [] before after db db' healthy distinct due h =
      let same : before ≡ after = cc in
      let kept : db ≡ db' = cc in
      rw (← same, ← kept)
        (record { claimed = refl; counted = omega arith; used = omega arith; healthy = healthy })
  deliver_all-HasDelivered (row ∷ batch) before after db db' healthy (absent, distinct)
        ((found, open_row), due) h =
      let (r, out) = deliver engine gateways templates row db in
      let (o, answer, rest) =
        delivered_then
          (λ o d. deliver_all engine gateways templates batch (count_outcome o before) d) r out db'
          after h in
      let (f, attempt, left) =
        delivered-IsAttempt engine gateways templates row db out o (ap (λ x. (x, out)) answer) in
      let later =
        deliver_all-HasDelivered batch (count_outcome o before) after out db'
          (subst (λ d. IsHealthy d.outbox) (sym left)
            (updated-IsHealthy row.id f db.outbox attempt healthy))
          distinct
          (subst (λ d. All (IsDue d.outbox) batch) (sym left)
            (still-IsDue row.id f db.outbox batch attempt absent due))
          rest in
      one_more (length batch) o before after db.outbox out.outbox db'.outbox
        (subst (λ d. remaining d.outbox < remaining db.outbox) (sym left)
          (remaining-update_outbox row.id f db.outbox row attempt.uses healthy.distinct found
            open_row))
        later

  claimed_batch :
      (limit : ℕ) (db out db' : Db) (r : Result (List OutboxRow)) (after : DispatchSummary)
      → with_transaction engine (claim_pending limit) db ≡ (r, out)
      → deliver_claimed engine gateways templates (r, out) ≡ (ok after, db')
      → (out ≡ db)
        × (deliver_all engine gateways templates
              (claimed limit db.outbox)
              (started (claimed limit db.outbox))
              db
            ≡ (ok after, db'))
  unfolding claim_pending
  claimed_batch limit db out db' (ok rows) after h g =
      elim (with_transaction_atomic engine (claim_pending limit) db (ok rows) out h) [
        | inl (e, thrown, _) ↦ absurd (cc)
        | inr (batch, returned, worked) ↦
            let kept : out ≡ db = cc in
            let same : rows ≡ claimed limit db.outbox = cc in
            (
              kept,
              subst
                  (λ d.
                    deliver_all engine gateways templates (claimed limit db.outbox)
                      (started (claimed limit db.outbox)) d
                    ≡ (ok after, db'))
                  kept
                  (subst
                    (λ b. deliver_all engine gateways templates b (started b) out ≡ (ok after, db'))
                    same g),
            )
      ]
  claimed_batch limit db out db' (err e) after h g = absurd (cc)

  pub dispatch_batch-HasDelivered :
      (limit : ℕ) (db db' : Db) (summary : DispatchSummary)
      → IsHealthy db.outbox
      → dispatch_batch engine gateways templates limit db ≡ (ok summary, db')
      → (summary.claimed ≡ length (claimed limit db.outbox))
        × (summary.sent + summary.failed ≡ summary.claimed)
        × (remaining db'.outbox + summary.claimed ≤ remaining db.outbox)
        × IsHealthy db'.outbox
        × (0 < limit → summary.claimed ≡ 0 → pending_rows db.outbox ≡ [])
  unfolding dispatch_batch
  dispatch_batch-HasDelivered limit db db' summary healthy h =
      let (r, out) = with_transaction engine (claim_pending limit) db in
      let (_, run) = claimed_batch limit db out db' r summary refl h in
      let (distinct, due) = claimed-IsDue limit db.outbox healthy in
      let done =
        deliver_all-HasDelivered (claimed limit db.outbox) (started (claimed limit db.outbox))
          summary db db' healthy distinct due run in
      let claims = done.claimed in
      let total = done.counted in
      let used = done.used in
      (
        claims,
        omega arith,
        omega arith,
        done.healthy,
        λ some_limit idle. nothing_waits limit db.outbox some_limit (sym claims ∙ idle),
      )

  -- Batches that follow one another, each of which claims a row at least.
  pub data Batches (limit : ℕ) : ℕ → Db → Db → Type 0 where
    done : (db : Db) → Batches limit zero db db
    batch :
        {n : ℕ} {db mid db' : Db} (summary : DispatchSummary)
        → dispatch_batch engine gateways templates limit db ≡ (ok summary, mid)
        → 0 < summary.claimed
        → Batches limit n mid db'
        → Batches limit (suc n) db db'

  -- Dispatching ends: from a healthy outbox there are at most as many batches that claim a row as
  -- attempts are left, five for each waiting row.
  pub Batches_bounded :
      {limit n : ℕ} {db db' : Db}
      → Batches limit n db db'
      → IsHealthy db.outbox
      → n + remaining db'.outbox ≤ remaining db.outbox
  Batches_bounded (done db) healthy = omega arith
  Batches_bounded (batch summary run some_row rest) healthy =
      let (_, _, used, kept, _) = dispatch_batch-HasDelivered _ _ _ summary healthy run in
      let later = Batches_bounded rest kept in omega arith
