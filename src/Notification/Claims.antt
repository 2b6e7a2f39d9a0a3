-- ===== src/Notification/Claims.antt =====
-- The rows that a batch claims.
use sobkichu.Prelude.{
  ℕ, zero, suc, ◌≤◌, ◌<◌, ◌≡◌, arith, true, false, Bool-cases, inl, inr, List, [], ◌∷◌, ok, leb,
  take, length, All, Text, text_eq,
}
use sobkichu.Database.{Db, OutboxRow}
use sobkichu.Database.Transaction.{Engine, execute-eq-ok}
use sobkichu.Notification.Delivery.{
  awaits, pending_rows, insert_by_age, by_age, claimed, claim_pending, update_outbox, attempted_row,
  mark_failed,
}

-- A row that waits has attempts left.
abbrev pub HasAttemptsLeft : ℕ → OutboxRow → Type 0
HasAttemptsLeft max_attempts row = awaits row.status ≡ true → row.attempts < max_attempts

attempted-HasAttemptsLeft :
    (id error : Text) (max_attempts : ℕ) (rows : List OutboxRow)
    → All (HasAttemptsLeft max_attempts) rows
    → All (HasAttemptsLeft max_attempts) (update_outbox id (attempted_row error max_attempts) rows)
unfolding update_outbox
attempted-HasAttemptsLeft id error max_attempts [] h = tt
attempted-HasAttemptsLeft id error max_attempts (row ∷ rows) (left, h) =
    elim (Bool-cases (text_eq row.id id)) [
      | inl this ↦ (λ waits. ground arith, attempted-HasAttemptsLeft id error max_attempts rows h)
      | inr other ↦ (λ waits. ground arith, attempted-HasAttemptsLeft id error max_attempts rows h)
    ]

-- Recording a failed attempt keeps every waiting row below the limit of attempts: a row that reaches
-- it is abandoned, and is not tried again.
pub mark_failed-HasAttemptsLeft :
    (engine : Engine) (id error : Text) (max_attempts : ℕ) (db db' : Db) {u : Unit {0}}
    → mark_failed engine id error max_attempts db ≡ ok (u, db')
    → All (HasAttemptsLeft max_attempts) db.outbox
    → All (HasAttemptsLeft max_attempts) db'.outbox
unfolding mark_failed
mark_failed-HasAttemptsLeft engine id error max_attempts db db' h left =
    rw (execute-eq-ok engine _ db db' h)
      (attempted-HasAttemptsLeft id error max_attempts db.outbox left)

-- Each row is at most as young as the next.
abbrev pub IsByAge : List OutboxRow → Type 0
IsByAge [] = Unit
IsByAge (row ∷ []) = Unit
IsByAge (row ∷ next ∷ rows) = (row.created_at ≤ next.created_at) × IsByAge (next ∷ rows)

abbrev pub Awaits : OutboxRow → Type 0
Awaits row = awaits row.status ≡ true

pending_rows-Awaits : (rows : List OutboxRow) → All Awaits (pending_rows rows)
unfolding pending_rows
pending_rows-Awaits [] = tt
pending_rows-Awaits (row ∷ rows) = elim (Bool-cases (awaits row.status)) [
  | inl waits ↦ rw waits (waits, pending_rows-Awaits rows)
  | inr done ↦ rw done (pending_rows-Awaits rows)
]

-- What holds of the pending rows holds of a batch.
module _ (P : OutboxRow → Type 0) where
  insert_by_age-All :
      (row : OutboxRow) (rows : List OutboxRow)
      → P row
      → All P rows
      → All P (insert_by_age row rows)
  unfolding insert_by_age
  insert_by_age-All row [] h hs = (h, tt)
  insert_by_age-All row (next ∷ rows) h hs =
      elim (Bool-cases (leb row.created_at next.created_at)) [
        | inl older ↦ rw older (h, hs)
        | inr younger ↦ rw younger (hs.0, insert_by_age-All row rows h hs.1)
      ]

  by_age-All : (rows : List OutboxRow) → All P rows → All P (by_age rows)
  unfolding by_age
  by_age-All [] h = tt
  by_age-All (row ∷ rows) h = insert_by_age-All row (by_age rows) h.0 (by_age-All rows h.1)

  take-All : (n : ℕ) (rows : List OutboxRow) → All P rows → All P (take n rows)
  take-All zero rows h = tt
  take-All (suc n) [] h = tt
  take-All (suc n) (row ∷ rows) h = (h.0, take-All n rows h.1)

  pub claimed-All :
      (limit : ℕ) (rows : List OutboxRow) → All P (pending_rows rows) → All P (claimed limit rows)
  unfolding claimed
  claimed-All limit rows h =
      take-All limit (by_age (pending_rows rows)) (by_age-All (pending_rows rows) h)

-- The first of a list, if there is one, is no older than a bound.
abbrev StartsFrom : ℕ → List OutboxRow → Type 0
StartsFrom age [] = Unit
StartsFrom age (row ∷ rows) = age ≤ row.created_at

cons-IsByAge :
    (row : OutboxRow) (rows : List OutboxRow)
    → StartsFrom row.created_at rows
    → IsByAge rows
    → IsByAge (row ∷ rows)
cons-IsByAge row [] from h = tt
cons-IsByAge row (next ∷ rows) from h = (from, h)

tail-IsByAge : (row : OutboxRow) (rows : List OutboxRow) → IsByAge (row ∷ rows) → IsByAge rows
tail-IsByAge row [] h = tt
tail-IsByAge row (next ∷ rows) h = h.1

tail-StartsFrom :
    (row : OutboxRow) (rows : List OutboxRow)
    → IsByAge (row ∷ rows)
    → StartsFrom row.created_at rows
tail-StartsFrom row [] h = tt
tail-StartsFrom row (next ∷ rows) h = h.0

insert_by_age-StartsFrom :
    (age : ℕ) (row : OutboxRow) (rows : List OutboxRow)
    → age ≤ row.created_at
    → StartsFrom age rows
    → StartsFrom age (insert_by_age row rows)
unfolding insert_by_age
insert_by_age-StartsFrom age row [] h hs = h
insert_by_age-StartsFrom age row (next ∷ rows) h hs =
    elim (Bool-cases (leb row.created_at next.created_at)) [
      | inl older ↦ rw older h
      | inr younger ↦ rw younger hs
    ]

leb-le : (a b : ℕ) → leb a b ≡ true → a ≤ b
leb-le a b h = ground arith

leb-ge : (a b : ℕ) → leb a b ≡ false → b ≤ a
leb-ge a b h = ground arith

insert_by_age-IsByAge :
    (row : OutboxRow) (rows : List OutboxRow) → IsByAge rows → IsByAge (insert_by_age row rows)
unfolding insert_by_age
insert_by_age-IsByAge row [] h = tt
insert_by_age-IsByAge row (next ∷ rows) h = elim (Bool-cases (leb row.created_at next.created_at)) [
  | inl older ↦ rw older (leb-le row.created_at next.created_at older, h)
  | inr younger ↦ rw younger (
      cons-IsByAge next (insert_by_age row rows)
        (insert_by_age-StartsFrom next.created_at row rows
          (leb-ge row.created_at next.created_at younger) (tail-StartsFrom next rows h))
        (insert_by_age-IsByAge row rows (tail-IsByAge next rows h)))
]

by_age-IsByAge : (rows : List OutboxRow) → IsByAge (by_age rows)
unfolding by_age
by_age-IsByAge [] = tt
by_age-IsByAge (row ∷ rows) = insert_by_age-IsByAge row (by_age rows) (by_age-IsByAge rows)

take-StartsFrom :
    (age n : ℕ) (rows : List OutboxRow) → StartsFrom age rows → StartsFrom age (take n rows)
take-StartsFrom age zero rows h = tt
take-StartsFrom age (suc n) [] h = tt
take-StartsFrom age (suc n) (row ∷ rows) h = h

take-IsByAge : (n : ℕ) (rows : List OutboxRow) → IsByAge rows → IsByAge (take n rows)
take-IsByAge zero rows h = tt
take-IsByAge (suc n) [] h = tt
take-IsByAge (suc n) (row ∷ rows) h =
    cons-IsByAge row (take n rows)
      (take-StartsFrom row.created_at n rows (tail-StartsFrom row rows h))
      (take-IsByAge n rows (tail-IsByAge row rows h))

length-take_bound : (n : ℕ) (rows : List OutboxRow) → length (take n rows) ≤ n
length-take_bound zero rows = omega arith
length-take_bound (suc n) [] = omega arith
length-take_bound (suc n) (row ∷ rows) = let rest = length-take_bound n rows in omega arith

-- A claimed batch holds pending rows only, at most the limit of them, the oldest first.
pub claim_pending-IsByAge :
    (limit : ℕ) (db db' : Db) (rows : List OutboxRow)
    → claim_pending limit db ≡ ok (rows, db')
    → All Awaits rows × (length rows ≤ limit) × IsByAge rows × (db' ≡ db)
unfolding claim_pending claimed
claim_pending-IsByAge limit db db' rows h =
    let queue = by_age (pending_rows db.outbox) in
    let same : rows ≡ take limit queue = cc in
    let still : db' ≡ db = cc in
    rw same (
      unfold claimed in claimed-All Awaits limit db.outbox (pending_rows-Awaits db.outbox),
      length-take_bound limit queue,
      take-IsByAge limit queue (by_age-IsByAge (pending_rows db.outbox)),
      still,
    )
