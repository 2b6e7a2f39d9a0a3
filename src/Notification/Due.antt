-- ===== src/Notification/Due.antt =====
-- A claimed batch of a healthy outbox: distinct rows that can be delivered.
use sobkichu.Prelude.{
  ℕ, zero, suc, ◌≡◌, refl, ◌∙◌, ap, arith, false, ◌||◌, Bool-cases, inl, inr, some, List, [], ◌∷◌,
  All, All-imp, Text, text_eq, text_eq-flip, text_eq_iff, text_eq_refl, take, leb,
}
use sobkichu.Database.{OutboxRow}
use sobkichu.Notification.Delivery.{awaits, pending_rows, insert_by_age, by_age, claimed}
use sobkichu.Notification.Claims.{HasAttemptsLeft, claimed-All}
use sobkichu.Notification.Dispatcher.{max_attempts}
use sobkichu.Notification.Queue.{has_row, find_row, HasDistinctIds, IsOpen}

-- The outbox that the schema and the code keep: distinct ids, and attempts left on waiting rows.
pub record IsHealthy (rows : List OutboxRow) : Type 0 where
  pub distinct : HasDistinctIds rows
  pub left : All (HasAttemptsLeft max_attempts) rows

-- A row that can be delivered: the outbox holds it as it was claimed, and it may be tried.
abbrev pub IsDue : List OutboxRow → OutboxRow → Type 0
IsDue rows row = (find_row row.id rows ≡ some row) × IsOpen row

pub absent_tail :
    (id : Text) (row : OutboxRow) (rows : List OutboxRow)
    → has_row id (row ∷ rows) ≡ false
    → (text_eq row.id id ≡ false) × (has_row id rows ≡ false)
unfolding has_row
absent_tail id row rows h = ground arith

found_later :
    (y x : Text) (rows : List OutboxRow) (row : OutboxRow)
    → has_row x rows ≡ false
    → find_row y rows ≡ some row
    → text_eq x y ≡ false
unfolding has_row find_row
found_later y x [] row h found = cc
found_later y x (r ∷ rows) row h found =
    ground
      (arith, found_later y x rows row, text_eq_iff r.id x, text_eq_iff x y, text_eq_iff r.id y)

pending_rows-found :
    (rows : List OutboxRow)
    → HasDistinctIds rows
    → All (λ row. find_row row.id rows ≡ some row) (pending_rows rows)
unfolding pending_rows find_row
pending_rows-found [] h = tt
pending_rows-found (r ∷ rows) (fresh, h) =
    let tail =
      All-imp (λ (row : OutboxRow). find_row row.id rows ≡ some row)
        (λ (row : OutboxRow). find_row row.id (r ∷ rows) ≡ some row)
        (λ row found. rw (found_later row.id r.id rows row fresh found) found) (pending_rows rows)
        (pending_rows-found rows h) in
    elim (Bool-cases (awaits r.status)) [
      | inl waits ↦ rw waits (rw (text_eq_refl r.id) refl, tail)
      | inr done ↦ rw done tail
    ]

pending_rows-IsOpen :
    (rows : List OutboxRow)
    → All (HasAttemptsLeft max_attempts) rows
    → All IsOpen (pending_rows rows)
unfolding pending_rows
pending_rows-IsOpen [] h = tt
pending_rows-IsOpen (r ∷ rows) (below, h) = elim (Bool-cases (awaits r.status)) [
  | inl waits ↦ rw waits (record { waits = waits; below = below waits }, pending_rows-IsOpen rows h)
  | inr done ↦ rw done (pending_rows-IsOpen rows h)
]

absent-pending_rows :
    (id : Text) (rows : List OutboxRow)
    → has_row id rows ≡ false
    → has_row id (pending_rows rows) ≡ false
unfolding has_row pending_rows
absent-pending_rows id [] h = refl
absent-pending_rows id (r ∷ rows) h = ground (arith, absent-pending_rows id rows)

pending_rows-HasDistinctIds :
    (rows : List OutboxRow) → HasDistinctIds rows → HasDistinctIds (pending_rows rows)
unfolding pending_rows
pending_rows-HasDistinctIds [] h = tt
pending_rows-HasDistinctIds (r ∷ rows) (fresh, h) = elim (Bool-cases (awaits r.status)) [
  | inl waits ↦ rw waits (absent-pending_rows r.id rows fresh, pending_rows-HasDistinctIds rows h)
  | inr done ↦ rw done (pending_rows-HasDistinctIds rows h)
]

has_row-insert_by_age :
    (id : Text) (row : OutboxRow) (rows : List OutboxRow)
    → has_row id (insert_by_age row rows) ≡ (text_eq row.id id || has_row id rows)
unfolding has_row insert_by_age
has_row-insert_by_age id row [] = refl
has_row-insert_by_age id row (r ∷ rows) = ground (arith, has_row-insert_by_age id row rows)

insert_by_age-HasDistinctIds :
    (row : OutboxRow) (rows : List OutboxRow)
    → has_row row.id rows ≡ false
    → HasDistinctIds rows
    → HasDistinctIds (insert_by_age row rows)
unfolding insert_by_age
insert_by_age-HasDistinctIds row [] fresh h = (fresh, tt)
insert_by_age-HasDistinctIds row (r ∷ rows) fresh h =
    elim (Bool-cases (leb row.created_at r.created_at)) [
      | inl older ↦ rw older (fresh, h)
      | inr younger ↦
          let (other, absent) = absent_tail row.id r rows fresh in
          let apart = text_eq-flip r.id row.id other in
          rw younger (
            has_row-insert_by_age r.id row rows ∙ rw (apart, h.0) refl,
            insert_by_age-HasDistinctIds row rows absent h.1,
          )
    ]

has_row-by_age : (id : Text) (rows : List OutboxRow) → has_row id (by_age rows) ≡ has_row id rows
unfolding has_row by_age
has_row-by_age id [] = refl
has_row-by_age id (r ∷ rows) =
    has_row-insert_by_age id r (by_age rows)
    ∙ ap (λ b. text_eq r.id id || b) (has_row-by_age id rows)

by_age-HasDistinctIds : (rows : List OutboxRow) → HasDistinctIds rows → HasDistinctIds (by_age rows)
unfolding by_age
by_age-HasDistinctIds [] h = tt
by_age-HasDistinctIds (r ∷ rows) (fresh, h) =
    insert_by_age-HasDistinctIds r (by_age rows) (has_row-by_age r.id rows ∙ fresh)
      (by_age-HasDistinctIds rows h)

absent-take :
    (n : ℕ) (id : Text) (rows : List OutboxRow)
    → has_row id rows ≡ false
    → has_row id (take n rows) ≡ false
unfolding has_row
absent-take zero id rows h = refl
absent-take (suc n) id [] h = refl
absent-take (suc n) id (r ∷ rows) h = ground (arith, absent-take n id rows)

take-HasDistinctIds :
    (n : ℕ) (rows : List OutboxRow) → HasDistinctIds rows → HasDistinctIds (take n rows)
take-HasDistinctIds zero rows h = tt
take-HasDistinctIds (suc n) [] h = tt
take-HasDistinctIds (suc n) (r ∷ rows) (fresh, h) =
    (absent-take n r.id rows fresh, take-HasDistinctIds n rows h)

-- A batch of a healthy outbox: distinct rows, each of which can be delivered.
pub claimed-IsDue :
    (limit : ℕ) (rows : List OutboxRow)
    → IsHealthy rows
    → HasDistinctIds (claimed limit rows) × All (IsDue rows) (claimed limit rows)
unfolding claimed
claimed-IsDue limit rows healthy = (
  take-HasDistinctIds limit (by_age (pending_rows rows)) (
      by_age-HasDistinctIds (pending_rows rows)
        (pending_rows-HasDistinctIds rows healthy.distinct)),
  both (claimed limit rows)
      (claimed-All (λ row. find_row row.id rows ≡ some row) limit rows
        (pending_rows-found rows healthy.distinct))
      (claimed-All IsOpen limit rows (pending_rows-IsOpen rows healthy.left)),
)
  where
    both :
        (batch : List OutboxRow)
        → All (λ row. find_row row.id rows ≡ some row) batch
        → All IsOpen batch
        → All (IsDue rows) batch
    both [] f o = tt
    both (row ∷ batch) f o = ((f.0, o.0), both batch f.1 o.1)
