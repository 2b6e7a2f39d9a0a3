-- ===== src/Database/Transaction.antt =====
-- api/src/common/database/unit-of-work.ts and pg-unit-of-work.ts: statements inside a transaction,
-- and the transaction itself.
use sobkichu.Prelude.{
  Result-cases, Option-cases, ℕ, ◌≡◌, refl, Option, ◌⊎◌, inl, inr, none, some, arith, Result, ok,
  err, Exception, Text,
}
use sobkichu.Database.Rows.{Db}

-- PostgreSQL, as far as the program sees it: `refuses` is the exception of a statement that would
-- leave the database in the given state (a constraint, a lost connection), if it throws; `commits`
-- is that of COMMIT; the rest are `gen_random_uuid()` and `now()`.
pub record Engine : Type 0 where
  pub refuses : Db → Option Exception
  pub commits : Db → Option Exception
  pub new_id : Db → Text
  pub now : Db → ℕ

-- Work inside a transaction: the state that its statements see goes through it.
abbrev pub M : Type 0 → Type 0
M A = Db → Result (A × Db)

infixl 5 ◌>>=◌ ◌>>◌
abbrev pub ◌>>=◌ : {A B : Type 0} → M A → (A → M B) → M B
◌>>=◌ m f db = elim (m db) [ ok (a, db') ↦ f a db' | err e ↦ err e ]

abbrev pub ◌>>◌ : {A B : Type 0} → M A → M B → M B
m >> k = m >>= λ _. k

abbrev pub pure : {A : Type 0} → A → M A
pure a db = ok (a, db)

abbrev pub throw : {A : Type 0} → Exception → M A
throw e db = err e

-- A call that needs no statement.
abbrev pub lift : {A : Type 0} → Result A → M A
lift (ok a) db = ok (a, db)
lift (err e) db = err e

-- A SELECT.
abbrev pub query : {A : Type 0} → (Db → A) → M A
query f db = ok (f db, db)

-- An INSERT or UPDATE, with the state that it leaves.
unfoldable pub execute : Engine → (Db → Db) → M (Unit {0})
execute engine f db = elim (engine.refuses (f db)) [ none ↦ ok (tt, f db) | some e ↦ err e ]

-- `withTransaction` where no transaction is open: BEGIN, the work, and COMMIT, or ROLLBACK and the
-- exception again. A COMMIT that throws is taken to have left the database as it was; that the
-- connection is lost behind a COMMIT that the server has carried out is not modelled.
unfoldable pub with_transaction : {A : Type 0} → Engine → M A → Db → Result A × Db
with_transaction engine work db = elim (work db) [
  | ok (a, db') ↦ elim (engine.commits db') [ none ↦ (ok a, db') | some e ↦ (err e, db) ]
  | err e ↦ (err e, db)
]

pub execute-eq-ok :
    (engine : Engine) (f : Db → Db) (db db' : Db) {u : Unit {0}}
    → execute engine f db ≡ ok (u, db')
    → db' ≡ f db
unfolding execute
execute-eq-ok engine f db db' h = ground arith

pub bind-eq-ok :
    {A B : Type 0} (m : M A) (f : A → M B) (db : Db) {b : B} {out : Db}
    → (m >>= f) db ≡ ok (b, out)
    → (a : A) × (mid : Db) × (m db ≡ ok (a, mid)) × (f a mid ≡ ok (b, out))
bind-eq-ok {A} {B} m f db {b} {out} h = split (m db) h
  where
    split :
        (r : Result (A × Db))
        → elim r as (λ _. Result (B × Db)) [ ok (a, db') ↦ f a db' | err e ↦ err e ] ≡ ok (b, out)
        → (a : A) × (mid : Db) × (r ≡ ok (a, mid)) × (f a mid ≡ ok (b, out))
    split (ok (a, mid)) e = (a, mid, refl, e)
    split (err x) e = cc

pub bind-ok :
    {A B : Type 0} (m : M A) (f : A → M B) {db mid : Db} {a : A}
    → m db ≡ ok (a, mid)
    → (m >>= f) db ≡ f a mid
bind-ok m f e = rw (e, ◌>>=◌)

pub execute-ok :
    (engine : Engine) (f : Db → Db) (db : Db)
    → engine.refuses (f db) ≡ none
    → execute engine f db ≡ ok (tt, f db)
unfolding execute
execute-ok engine f db up = rw (up, execute)

-- A statement that changes nothing, on a database that the engine accepts.
pub execute-same :
    (engine : Engine) (f : Db → Db) (db : Db)
    → f db ≡ db
    → engine.refuses db ≡ none
    → execute engine f db ≡ ok (tt, db)
unfolding execute
execute-same engine f db same up = rw (execute, same, up) (rw same)

-- A transaction that throws, in its work or at COMMIT, leaves the database as it was; one that does not has
-- the state and the value of its work.
pub with_transaction_atomic :
    {A : Type 0} (engine : Engine) (work : M A) (db : Db) (r : Result A) (db' : Db)
    → with_transaction engine work db ≡ (r, db')
    → ((e : Exception) × (r ≡ err e) × (db' ≡ db))
      ⊎ ((a : A) × (r ≡ ok a) × (work db ≡ ok (a, db')))
unfolding with_transaction
with_transaction_atomic engine work db r db' h = elim (Result-cases (work db)) [
  | inl ((a, d), e) ↦ elim (Option-cases (engine.commits d)) [
    | inl done ↦ inr (a, ground arith, ground arith)
    | inr (x, refused) ↦ inl (x, ground arith, ground arith)
  ]
  | inr (x, e) ↦ inl (x, ground arith, ground arith)
]

-- A transaction that returns has been committed.
pub with_transaction-commits :
    {A : Type 0} (engine : Engine) (work : M A) (db db' : Db) (a : A)
    → with_transaction engine work db ≡ (ok a, db')
    → engine.commits db' ≡ none
unfolding with_transaction
with_transaction-commits engine work db db' a h = elim (Result-cases (work db)) [
  | inl ((b, d), e) ↦ ground arith
  | inr (x, e) ↦ ground arith
]

pub with_transaction-ok :
    {A : Type 0} (engine : Engine) (work : M A) (db db' : Db) (a : A)
    → work db ≡ ok (a, db')
    → engine.commits db' ≡ none
    → with_transaction engine work db ≡ (ok a, db')
unfolding with_transaction
with_transaction-ok engine work db db' a e up = ground arith
