-- ===== src/Login/Queued.antt =====
-- The user and the message of a code.
use sobkichu.Prelude.{
  ℕ, ◌≡◌, refl, ap, ◌∙◌, sym, subst, arith, Bool-cases, inl, inr, Option, none, some, List, [], ◌∷◌,
  ◌++◌, ok, Text, text_eq, text_eq_refl,
}
use sobkichu.Database.{Db, UserRow, Channel}
use sobkichu.Database.Transaction.{Engine, execute, execute-eq-ok, bind-eq-ok}
use sobkichu.Notification.ChannelPolicy.{channels_for}
use sobkichu.Notification.Outbox.{insert_entry, enqueue}
use sobkichu.Notification.Adapter.{NotificationRequest, entry_for, enqueue_channels, notify}
use sobkichu.Notification.Unique.{notify-eq-ok}
use sobkichu.Identity.Users.{
  find_phone, find_by_phone, new_user, append_user, upsert_phone, find_or_create_by_phone,
}
use sobkichu.Login.Notice.{login_notice, queue_code}

find_phone-append :
    (phone : Text) (users : List UserRow) (user : UserRow)
    → find_phone phone users ≡ none
    → user.phone_e164 ≡ phone
    → find_phone phone (users ++ user ∷ []) ≡ some user
unfolding find_phone
find_phone-append phone [] user absent same = rw (same, text_eq_refl phone) refl
find_phone-append phone (row ∷ users) user absent same =
    elim (Bool-cases (text_eq row.phone_e164 phone)) [
      | inl found ↦ absurd (ground arith)
      | inr other ↦ rw other (find_phone-append phone users user (ground arith) same)
    ]

-- The user whom the upsert answers.
pub record IsKnown (phone : Text) (db : Db) (user_id : Text) (out : Db) : Type 0 where
  pub user : UserRow
  pub is_user : find_phone phone out.users ≡ some user
  pub has_id : user.id ≡ user_id
  pub same_outbox : out.outbox ≡ db.outbox

upserted :
    (engine : Engine) (phone : Text) (held : Option UserRow) (db out : Db) (user_id : Text)
    → find_phone phone db.users ≡ held
    → upsert_phone engine phone held db ≡ ok (user_id, out)
    → IsKnown phone db user_id out
unfolding upsert_phone
upserted engine phone (some user) db out user_id held h =
    let (_, mid, ran, last) = bind-eq-ok (execute engine (λ d. d)) _ db h in
    let left = execute-eq-ok engine _ db mid ran in
    let same : out ≡ db = cc in
    record {
      user = user;
      is_user = rw same held;
      has_id = cc;
      same_outbox = ap (λ d. d.outbox) same;
    }
upserted engine phone none db out user_id held h =
    let id = engine.new_id db in
    let (_, mid, ran, last) =
      bind-eq-ok (execute engine (append_user (new_user id phone))) _ db h in
    let left = execute-eq-ok engine _ db mid ran in
    let same : out ≡ append_user (new_user id phone) db = cc in
    record {
      user = new_user id phone;
      is_user = rw same (find_phone-append phone db.users (new_user id phone) held refl);
      has_id = cc;
      same_outbox = ap (λ d. d.outbox) same;
    }

-- The row of the message: it carries the code.
pub record IsMessage (engine : Engine) (phone code : Text) (now : ℕ) (user_id : Text) (mid out : Db)
    : Type 0 where
  pub recipient : UserRow
  pub inserted :
      out
      ≡ insert_entry engine
          (entry_for (login_notice user_id phone code now) recipient Channel.sms)
          mid

one_channel :
    (engine : Engine) (request : NotificationRequest) (user : UserRow) (db out : Db) {u : Unit {0}}
    → enqueue_channels engine request user (Channel.sms ∷ []) db ≡ ok (u, out)
    → out ≡ insert_entry engine (entry_for request user Channel.sms) db
unfolding enqueue_channels enqueue
one_channel engine request user db out h =
    let (_, mid, ran, last) =
      bind-eq-ok (enqueue engine (entry_for request user Channel.sms)) _ db h in
    let left = execute-eq-ok engine _ db mid ran in cc

pub queued_code :
    (engine : Engine) (phone code : Text) (now : ℕ) (db out : Db) (user_id : Text)
    → queue_code engine phone code now db ≡ ok (user_id, out)
    → (mid : Db) × IsKnown phone db user_id mid × IsMessage engine phone code now user_id mid out
unfolding queue_code find_or_create_by_phone find_by_phone login_notice channels_for
queued_code engine phone code now db out user_id h =
    let (id, mid, first, h1) = bind-eq-ok (find_or_create_by_phone engine phone) _ db h in
    let (_, done, second, last) =
      bind-eq-ok (notify engine (login_notice id phone code now)) _ mid h1 in
    let is_id : id ≡ user_id = cc in
    let same : done ≡ out = cc in
    let (user, _, sent) = notify-eq-ok engine (login_notice id phone code now) mid done second in
    let known = upserted engine phone (find_phone phone db.users) db mid id refl first in
    let left = one_channel engine (login_notice id phone code now) user mid done sent in
    (
      mid,
      subst (λ i. IsKnown phone db i mid) is_id known,
      subst (λ i. IsMessage engine phone code now i mid out) is_id
          (record { recipient = user; inserted = sym same ∙ left }),
    )
