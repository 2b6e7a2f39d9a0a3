-- ===== src/Login/World.antt =====
-- The state that the login works on, Redis beside the database, and calls that throw on it. What a
-- call has done before it throws stays done.
use sobkichu.Prelude.{◌≡◌, refl, ap, Result, ok, err, Exception}
use sobkichu.Database.{Db}
use sobkichu.Database.Transaction.{Engine, M, with_transaction}

pub record World (State : Type 0) : Type 0 where
  pub cache : State
  pub db : Db

abbrev pub App : Type 0 → Type 0 → Type 0
App State A = World State → Result A × World State

-- What follows a call that returned; a call that threw is the end.
abbrev pub continue :
    {State A B : Type 0} → (A → App State B) → Result A × World State → Result B × World State
continue f (ok a, w) = f a w
continue f (err e, w) = (err e, w)

infixl 5 ◌>>=◌ ◌>>◌
abbrev pub ◌>>=◌ : {State A B : Type 0} → App State A → (A → App State B) → App State B
◌>>=◌ m f w = continue f (m w)

abbrev pub ◌>>◌ : {State A B : Type 0} → App State A → App State B → App State B
m >> k = m >>= λ _. k

abbrev pub pure : {State A : Type 0} → A → App State A
pure a w = (ok a, w)

abbrev pub lift : {State A : Type 0} → Result A → App State A
lift r w = (r, w)

-- A call of Redis that reads, and one that writes.
abbrev pub read_cache : {State A : Type 0} → (State → Result A) → App State A
read_cache f w = (f w.cache, w)

abbrev pub write_cache : {State A : Type 0} → (State → A × State) → App State A
write_cache f w = let (a, s) = f w.cache in (ok a, record w { cache = s })

abbrev pub try_cache : {State A : Type 0} → (State → Result A × State) → App State A
try_cache f w = let (r, s) = f w.cache in (r, record w { cache = s })

abbrev pub in_transaction : {State A : Type 0} → Engine → M A → App State A
in_transaction engine work w =
    let (r, db) = with_transaction engine work w.db in (r, record w { db = db })

pub bind-ok :
    {State A B : Type 0} (m : App State A) (f : A → App State B) {w w' : World State} {a : A}
    → m w ≡ (ok a, w')
    → (m >>= f) w ≡ f a w'
bind-ok m f e = ap (continue f) e

pub bind-err :
    {State A B : Type 0} (m : App State A) (f : A → App State B) {w w' : World State}
    {e : Exception}
    → m w ≡ (err e, w')
    → (m >>= f) w ≡ (err e, w')
bind-err m f h = ap (continue f) h

-- What returns went through both of its steps.
pub bind-eq-ok :
    {State A B : Type 0} (m : App State A) (f : A → App State B) (w : World State) {b : B}
    {out : World State}
    → (m >>= f) w ≡ (ok b, out)
    → (a : A) × (mid : World State) × (m w ≡ (ok a, mid)) × (f a mid ≡ (ok b, out))
bind-eq-ok {State} {A} {B} m f w {b} {out} h = split (m w).0 (m w).1 refl h
  where
    split :
        (r : Result A) (mid : World State)
        → m w ≡ (r, mid)
        → continue f (r, mid) ≡ (ok b, out)
        → (a : A) × (mid : World State) × (m w ≡ (ok a, mid)) × (f a mid ≡ (ok b, out))
    split (ok a) mid run e = (a, mid, run, e)
    split (err x) mid run e = cc
