-- ===== src/Notification/Queue.antt =====
-- The outbox by the ids of its rows, and the attempts that are left in it.
use sobkichu.Prelude.{
  ℕ, ◌+◌, ◌-◌, ◌<◌, ◌≡◌, refl, sym, ◌∙◌, ap, subst, arith, Bool, true, false, ◌||◌, Bool-cases, inl,
  inr, Option, none, some, List, [], ◌∷◌, if◌then◌else◌, Text, text_eq, text_eq_iff,
}
use sobkichu.Database.{OutboxRow}
use sobkichu.Notification.Delivery.{awaits, update_outbox, sent_row, attempted_row}
use sobkichu.Notification.Dispatcher.{max_attempts}

unfoldable pub has_row : Text → List OutboxRow → Bool
has_row id [] = false
has_row id (row ∷ rows) = text_eq row.id id || has_row id rows

unfoldable pub find_row : Text → List OutboxRow → Option OutboxRow
find_row id [] = none
find_row id (row ∷ rows) = if text_eq row.id id then some row else find_row id rows

-- The primary key: no two rows have one id.
abbrev pub HasDistinctIds : List OutboxRow → Type 0
HasDistinctIds [] = Unit
HasDistinctIds (row ∷ rows) = (has_row row.id rows ≡ false) × HasDistinctIds rows

-- The attempts that a row has left, none if it does not wait.
abbrev pub attempts_left : OutboxRow → ℕ
attempts_left row = if awaits row.status then max_attempts - row.attempts else 0

unfoldable pub remaining : List OutboxRow → ℕ
remaining [] = 0
remaining (row ∷ rows) = attempts_left row + remaining rows

-- A row that waits and may be tried.
pub record IsOpen (row : OutboxRow) : Type 0 where
  pub waits : awaits row.status ≡ true
  pub below : row.attempts < max_attempts

-- An update of one row that keeps its id.
abbrev pub KeepsId : (OutboxRow → OutboxRow) → Type 0
KeepsId f = (row : OutboxRow) → (f row).id ≡ row.id

update_outbox-absent :
    (id : Text) (f : OutboxRow → OutboxRow) (rows : List OutboxRow)
    → has_row id rows ≡ false
    → update_outbox id f rows ≡ rows
unfolding update_outbox has_row
update_outbox-absent id f [] h = refl
update_outbox-absent id f (row ∷ rows) h = ground (arith, update_outbox-absent id f rows)

has_row-update_outbox :
    (key id : Text) (f : OutboxRow → OutboxRow) (rows : List OutboxRow)
    → KeepsId f
    → has_row key (update_outbox id f rows) ≡ has_row key rows
unfolding update_outbox has_row
has_row-update_outbox key id f [] keeps = refl
has_row-update_outbox key id f (row ∷ rows) keeps =
    ground (arith, keeps row, has_row-update_outbox key id f rows keeps)

pub update_outbox-HasDistinctIds :
    (id : Text) (f : OutboxRow → OutboxRow) (rows : List OutboxRow)
    → KeepsId f
    → HasDistinctIds rows
    → HasDistinctIds (update_outbox id f rows)
unfolding update_outbox
update_outbox-HasDistinctIds id f [] keeps h = tt
update_outbox-HasDistinctIds id f (row ∷ rows) keeps (fresh, h) =
    let tail = update_outbox-HasDistinctIds id f rows keeps h in
    let kept = has_row-update_outbox row.id id f rows keeps in
    elim (Bool-cases (text_eq row.id id)) [
      | inl this ↦ rw this (rw (keeps row) (kept ∙ fresh), tail)
      | inr other ↦ rw other (kept ∙ fresh, tail)
    ]

-- Another row stays as it is.
pub find_row-update_outbox :
    (key id : Text) (f : OutboxRow → OutboxRow) (rows : List OutboxRow)
    → KeepsId f
    → text_eq id key ≡ false
    → find_row key (update_outbox id f rows) ≡ find_row key rows
unfolding update_outbox find_row
find_row-update_outbox key id f [] keeps other = refl
find_row-update_outbox key id f (row ∷ rows) keeps other =
    ground
      (arith, keeps row, text_eq_iff row.id id, find_row-update_outbox key id f rows keeps other)

-- One update of an open row uses up an attempt at least.
abbrev pub UsesAttempt : (OutboxRow → OutboxRow) → Type 0
UsesAttempt f = (row : OutboxRow) → IsOpen row → attempts_left (f row) < attempts_left row

pub remaining-update_outbox :
    (id : Text) (f : OutboxRow → OutboxRow) (rows : List OutboxRow) (row : OutboxRow)
    → UsesAttempt f
    → HasDistinctIds rows
    → find_row id rows ≡ some row
    → IsOpen row
    → remaining (update_outbox id f rows) < remaining rows
unfolding update_outbox find_row remaining
remaining-update_outbox id f [] row uses h found open_row = cc
remaining-update_outbox id f (r ∷ rows) row uses (fresh, h) found open_row =
    elim (Bool-cases (text_eq r.id id)) [
      | inl this ↦
          let same_id = (text_eq_iff r.id id).0 this in
          let absent : has_row id rows ≡ false =
            ap (λ key. has_row key rows) (sym same_id) ∙ fresh in
          let first : some r ≡ some row = rw this at found in
          let same : r ≡ row = cc in
          let fewer = uses r (subst IsOpen (sym same) open_row) in
          rw (this, update_outbox-absent id f rows absent) (omega arith)
      | inr other ↦
          let later : find_row id rows ≡ some row = rw other at found in
          let fewer = remaining-update_outbox id f rows row uses h later open_row in
          rw other (omega arith)
    ]

pub sent-UsesAttempt : (now : ℕ) → UsesAttempt (sent_row now)
sent-UsesAttempt now row open_row = ground arith

pub attempted-UsesAttempt : (error : Text) → UsesAttempt (attempted_row error max_attempts)
attempted-UsesAttempt error row open_row = ground arith
