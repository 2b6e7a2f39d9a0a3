-- ===== src/Notification/Returns.antt =====
-- Work that returns, and notifications on a database that refuses nothing.
use sobkichu.Prelude.{◌≡◌, refl, ◌∙◌, none, some, List, [], ◌∷◌, ok}
use sobkichu.Database.{Db, UserRow, Channel}
use sobkichu.Database.Transaction.{Engine, M, ◌>>=◌, execute, execute-ok, bind-ok}
use sobkichu.Notification.ChannelPolicy.{channels_for}
use sobkichu.Notification.Outbox.{enqueue, insert_entry}
use sobkichu.Notification.Adapter.{
  NotificationRequest, find_user, entry_for, enqueue_channels, notify_found, notify,
}

-- Work returns from a state.
abbrev pub Returns : {A : Type 0} → M A → Db → Type 0
Returns {A} m db = (a : A) × (db' : Db) × (m db ≡ ok (a, db'))

pub bind-Returns :
    {A B : Type 0} (m : M A) (f : A → M B) (db : Db)
    → Returns m db
    → ((a : A) (d : Db) → m db ≡ ok (a, d) → Returns (f a) d)
    → Returns (m >>= f) db
bind-Returns m f db (a, d, e) k = let (b, out, e') = k a d e in (b, out, bind-ok m f e ∙ e')

module _ (engine : Engine) (accepts : (d : Db) → engine.refuses d ≡ none) where
  pub execute-Returns : (f : Db → Db) (db : Db) → Returns (execute engine f) db
  execute-Returns f db = (tt, f db, execute-ok engine f db (accepts (f db)))

  enqueue_channels-Returns :
      (request : NotificationRequest) (user : UserRow) (channels : List Channel) (db : Db)
      → Returns (enqueue_channels engine request user channels) db
  unfolding enqueue_channels enqueue
  enqueue_channels-Returns request user [] db = (tt, db, refl)
  enqueue_channels-Returns request user (c ∷ cs) db =
      bind-Returns (enqueue engine (entry_for request user c)) _ db
        (execute-Returns (insert_entry engine (entry_for request user c)) db)
        (λ _ d _. enqueue_channels-Returns request user cs d)

  pub notify-Returns :
      (request : NotificationRequest) (user : UserRow) (db : Db)
      → find_user request.user_id db.users ≡ some user
      → Returns (notify engine request) db
  unfolding notify notify_found
  notify-Returns request user db found =
      let (u, d, e) = enqueue_channels-Returns request user (channels_for request.event) db in
      (u, d, rw found e)
