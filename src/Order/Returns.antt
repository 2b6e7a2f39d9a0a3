-- ===== src/Order/Returns.antt =====
-- When `createOrder` answers.
use sobkichu.Prelude.{◌≡◌, refl, ◌∙◌, ap, none, some, List, [], ◌∷◌, Bool, ok, Text}
use sobkichu.Database.{Db, UserRow}
use sobkichu.Database.Transaction.{Engine, pure, execute, with_transaction-ok}
use sobkichu.Notification.Adapter.{find_user, notify}
use sobkichu.Notification.Returns.{Returns, bind-Returns, execute-Returns, notify-Returns}
use sobkichu.Ports.{Ports}
use sobkichu.Order.Repository.{
  NewOrderItem, NewOrderRecord, insert_item, insert_order, insert_items, record_status_event,
  insert_pending_transaction,
}
use sobkichu.Order.Service.{
  CreateOrderCommand, CreatedOrder, Prepared, prepare_order, order_request, write_order,
  created_order, answered, create_prepared, create_order,
}
use sobkichu.Order.Written.{
  creation_event, first_payment, insert_order-written, insert_items-written, record_created,
  pending_written,
}

module _ (engine : Engine) (accepts : (d : Db) → engine.refuses d ≡ none) where
  insert_items-Returns :
      (id : Text) (items : List NewOrderItem) (db : Db) → Returns (insert_items engine id items) db
  unfolding insert_items
  insert_items-Returns id [] db = (tt, db, refl)
  insert_items-Returns id (item ∷ items) db =
      bind-Returns (execute engine (insert_item id item)) _ db
        (execute-Returns engine accepts (insert_item id item) db)
        (λ _ d _. insert_items-Returns id items d)

  insert_order-Returns : (new : NewOrderRecord) (db : Db) → Returns (insert_order engine new) db
  unfolding insert_order
  insert_order-Returns new db =
      bind-Returns (execute engine _) (λ _. pure (engine.new_id db)) db
        (execute-Returns engine accepts _ db) (λ _ d _. (engine.new_id db, d, refl))

  record_status_event-Returns :
      (id : Text) (db : Db) → Returns (record_status_event engine (creation_event id)) db
  unfolding record_status_event
  record_status_event-Returns id db =
      bind-Returns (execute engine _) _ db (execute-Returns engine accepts _ db)
        (λ _ d _. execute-Returns engine accepts _ d)

  -- The users stay through the statements before the notification.
  same_users :
      (new : NewOrderRecord) (id : Text) (db d1 d2 d3 d4 : Db) {u v w : Unit {0}}
      → insert_order engine new db ≡ ok (id, d1)
      → insert_items engine id new.items d1 ≡ ok (u, d2)
      → record_status_event engine (creation_event id) d2 ≡ ok (v, d3)
      → insert_pending_transaction engine (first_payment new id) d3 ≡ ok (w, d4)
      → d4.users ≡ db.users
  same_users new id db d1 d2 d3 d4 e1 e2 e3 e4 =
      let users : Db → List UserRow = λ d. d.users in
      ap users (pending_written engine (first_payment new id) d3 d4 e4)
      ∙ (ap users (record_created engine id d2 d3 e3)
          ∙ (ap users (insert_items-written engine id new.items d1 d2 e2)
              ∙ ap users (insert_order-written engine new db d1 id e1).1))

  write_order-Returns :
      (new : NewOrderRecord) (db : Db) (user : UserRow)
      → find_user new.customer_user_id db.users ≡ some user
      → Returns (write_order engine new) db
  unfolding write_order order_request
  write_order-Returns new db user found =
      bind-Returns (insert_order engine new) _ db (insert_order-Returns new db) (λ id d1 e1.
        bind-Returns (insert_items engine id new.items) _ d1 (insert_items-Returns id new.items d1)
          (λ _ d2 e2.
            bind-Returns (record_status_event engine (creation_event id)) _ d2
              (record_status_event-Returns id d2)
              (λ _ d3 e3.
                bind-Returns (insert_pending_transaction engine (first_payment new id)) _ d3
                  (unfold insert_pending_transaction in execute-Returns engine accepts _ d3)
                  (λ _ d4 e4.
                    bind-Returns (notify engine (order_request new id)) (λ _. pure id) d4
                      (notify-Returns engine accepts (order_request new id) user d4 (
                        ap (find_user new.customer_user_id)
                          (same_users new id db d1 d2 d3 d4 e1 e2 e3 e4)
                        ∙ found))
                      (λ _ d5 _. (id, d5, refl))))))

  -- On a database that refuses nothing, an order that passes the gates is created, if its customer is
  -- a user: the call returns the created order and commits.
  pub create_order_returns :
      (commits : (d : Db) → engine.commits d ≡ none) (escrow_enabled : Bool) (ports : Ports)
      (command : CreateOrderCommand) (db : Db) (prepared : Prepared) (user : UserRow)
      → prepare_order escrow_enabled ports db command ≡ ok prepared
      → find_user prepared.new.customer_user_id db.users ≡ some user
      → (created : CreatedOrder) × (db' : Db) × (create_order escrow_enabled engine ports command db
          ≡ (ok created, db'))
  unfolding create_order create_prepared
  create_order_returns commits escrow_enabled ports command db prepared user ready found =
      let (id, d, e) = write_order-Returns prepared.new db user found in
      let done =
        with_transaction-ok engine (write_order engine prepared.new) db d id e (commits d) in
      (
        created_order prepared id,
        d,
        ap (λ r. create_prepared engine r db) ready ∙ ap (answered prepared) done,
      )
