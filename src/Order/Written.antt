-- ===== src/Order/Written.antt =====
-- What order creation writes, and the gates in front of it.
use sobkichu.Prelude.{
  ◌≡◌, sym, ◌∙◌, ap, subst, arith, not, none, some, List, [], ◌∷◌, ◌++◌, map, append_assoc,
  append-nil, if◌then◌else◌, ok, Text,
}
use sobkichu.Database.{Db, OrderStatus, OrderItemRow, StatusEvent}
use sobkichu.Database.Transaction.{Engine, pure, execute, execute-eq-ok, bind-eq-ok}
use sobkichu.Notification.Adapter.{notify}
use sobkichu.Notification.Unique.{OnlyOutbox, notify-OnlyOutbox}
use sobkichu.Order.Repository.{
  NewOrderItem, NewOrderRecord, order_row, item_row, insert_item, transaction_row, insert_order,
  insert_items, record_status_event, insert_pending_transaction, PendingTransaction, update_orders,
  with_status,
}
use sobkichu.Order.Service.{is_cod, order_request, write_order}

ok-injective : {A : Type 0} {a b : A} → ok a ≡ ok b → a ≡ b
ok-injective h = cc

abbrev with_items : List OrderItemRow → Db → Db
with_items rows db = record db { items = rows }

appended :
    (id : Text) (item : NewOrderItem) (items : List NewOrderItem) (db mid : Db)
    → mid ≡ insert_item id item db
    → record mid { items = mid.items ++ map (item_row id) items }
      ≡ record db { items = db.items ++ item_row id item ∷ map (item_row id) items }
unfolding insert_item
appended id item items db mid e =
    ap (λ d. with_items (d.items ++ map (item_row id) items) d) e
    ∙ ap (λ rows. with_items rows db)
        (append_assoc db.items (item_row id item ∷ []) (map (item_row id) items))

pub insert_items-written :
    (engine : Engine) (id : Text) (items : List NewOrderItem) (db db' : Db) {u : Unit {0}}
    → insert_items engine id items db ≡ ok (u, db')
    → db' ≡ record db { items = db.items ++ map (item_row id) items }
unfolding insert_items
insert_items-written engine id [] db db' h =
    sym (ap (λ p. p.1) (ok-injective h))
    ∙ ap (λ rows. with_items rows db) (sym (append-nil db.items))
insert_items-written engine id (item ∷ items) db db' h =
    let (_, mid, first, rest) = bind-eq-ok (execute engine (insert_item id item)) _ db h in
    let at_mid = execute-eq-ok engine (insert_item id item) db mid first in
    insert_items-written engine id items mid db' rest ∙ appended id item items db mid at_mid

-- The event of an order's creation.
abbrev pub creation_event : Text → StatusEvent
creation_event id = record {
  order_id = id;
  from_status = none;
  to_status = OrderStatus.created;
  actor_role_id = none;
  note_key = some "order.event.created";
}

abbrev pub first_payment : NewOrderRecord → Text → PendingTransaction
first_payment new id = record {
  order_id = id;
  method = new.payment_method;
  amount_bdt = if is_cod new.payment_method then new.total_bdt else new.advance_amount_bdt;
  is_advance = not (is_cod new.payment_method);
}

pub record_created :
    (engine : Engine) (id : Text) (db db' : Db) {u : Unit {0}}
    → record_status_event engine (creation_event id) db ≡ ok (u, db')
    → db' ≡ record db {
      events = db.events ++ creation_event id ∷ [];
      orders = update_orders id (with_status OrderStatus.created) db.orders;
    }
unfolding record_status_event execute
record_created engine id db db' h = ground arith

pub insert_order-written :
    (engine : Engine) (new : NewOrderRecord) (db db' : Db) (id : Text)
    → insert_order engine new db ≡ ok (id, db')
    → (id ≡ engine.new_id db) × (db' ≡ record db { orders = db.orders ++ order_row id new ∷ [] })
unfolding insert_order execute
insert_order-written engine new db db' id h = ground arith

pub pending_written :
    (engine : Engine) (payment : PendingTransaction) (db db' : Db) {u : Unit {0}}
    → insert_pending_transaction engine payment db ≡ ok (u, db')
    → db' ≡ record db { transactions = db.transactions ++ transaction_row engine payment db ∷ [] }
unfolding insert_pending_transaction
pending_written engine payment db db' h = execute-eq-ok engine _ db db' h

-- The database with an order, its items and its first event.
abbrev pub opened : Text → NewOrderRecord → Db → Db
opened id new db = record db {
  orders = update_orders id (with_status OrderStatus.created) (db.orders ++ order_row id new ∷ []);
  items = db.items ++ map (item_row id) new.items;
  events = db.events ++ creation_event id ∷ [];
}

-- The same, with the payment that the order waits for.
abbrev pub charged : Engine → Text → NewOrderRecord → Db → Db
charged engine id new db = record (opened id new db) {
  transactions =
      db.transactions ++ transaction_row engine (first_payment new id) (opened id new db) ∷ [];
}

charged_trans :
    (engine : Engine) (id : Text) (new : NewOrderRecord) (db d1 d2 d3 d4 db' : Db)
    → d1 ≡ record db { orders = db.orders ++ order_row id new ∷ [] }
    → d2 ≡ record d1 { items = d1.items ++ map (item_row id) new.items }
    → d3 ≡ record d2 {
      events = d2.events ++ creation_event id ∷ [];
      orders = update_orders id (with_status OrderStatus.created) d2.orders;
    }
    → d4 ≡ record d3 {
      transactions = d3.transactions ++ transaction_row engine (first_payment new id) d3 ∷ [];
    }
    → OnlyOutbox d4 db'
    → OnlyOutbox (charged engine id new db) db'
charged_trans engine id new db d1 d2 d3 d4 db' e1 e2 e3 e4 e5 = cc

ended :
    (engine : Engine) (new : NewOrderRecord) (db d5 : Db) (i id : Text) (db' : Db)
    → i ≡ engine.new_id db
    → OnlyOutbox (charged engine i new db) d5
    → pure i d5 ≡ ok (id, db')
    → (id ≡ engine.new_id db) × OnlyOutbox (charged engine id new db) db'
ended engine new db d5 i id db' made only last =
    let e = ok-injective last in
    let same_id = ap (λ p. p.0) e in
    let same_db = ap (λ p. p.1) e in
    (
      sym same_id ∙ made,
      subst (λ k. OnlyOutbox (charged engine k new db) db') same_id
          (subst (OnlyOutbox (charged engine i new db)) same_db only),
    )

-- An order that is written has the id that the engine made, and the database then holds its row,
-- its items, the event of its creation and the one payment that it waits for; only the outbox
-- changes besides.
pub write_order-written :
    (engine : Engine) (new : NewOrderRecord) (db db' : Db) (id : Text)
    → write_order engine new db ≡ ok (id, db')
    → (id ≡ engine.new_id db) × OnlyOutbox (charged engine id new db) db'
unfolding write_order
write_order-written engine new db db' id h =
    let (i, d1, inserted, h1) = bind-eq-ok (insert_order engine new) _ db h in
    let (_, d2, itemised, h2) = bind-eq-ok (insert_items engine i new.items) _ d1 h1 in
    let (_, d3, recorded, h3) =
      bind-eq-ok (record_status_event engine (creation_event i)) _ d2 h2 in
    let (_, d4, paid, h4) =
      bind-eq-ok (insert_pending_transaction engine (first_payment new i)) _ d3 h3 in
    let (_, d5, notified, last) = bind-eq-ok (notify engine (order_request new i)) _ d4 h4 in
    let (made, e1) = insert_order-written engine new db d1 i inserted in
    let outbox_only =
      charged_trans engine i new db d1 d2 d3 d4 d5 e1
        (insert_items-written engine i new.items d1 d2 itemised)
        (record_created engine i d2 d3 recorded)
        (pending_written engine (first_payment new i) d3 d4 paid)
        (notify-OnlyOutbox engine (order_request new i) d4 d5 notified) in
    ended engine new db d5 i id db' made outbox_only last
