-- ===== src/Order/Stored.antt =====
-- `createOrder` stores the rows that Columns describes.
use mathlib.Core.List.{Memᴰ}
use mathlib.Core.List.Memᴰ.{head, tail}
use sobkichu.Prelude.{
  subst, ◌≡◌, ◌↔◌, refl, sym, ap, ◌∙◌, Bool, true, not, List, [], ◌∷◌, Bool-cases, inl, inr,
  text_eq, ◌++◌, map, if◌then◌else◌, ok, >>=-eq-ok, Text,
}
use sobkichu.Money.{int, poisha_to_taka}
use sobkichu.Database.{Db, OrderStatus, PaymentMethod, OrderRow}
use sobkichu.Database.Transaction.{Engine}
use sobkichu.AdvanceCap.{AdvanceCapReason}
use sobkichu.Notification.Unique.{OnlyOutbox}
use sobkichu.Ports.{ResolvedCartLine}
use sobkichu.Order.Repository.{
  NewOrderItem, NewOrderRecord, order_row, item_row, transaction_row, update_orders, with_status,
}
use sobkichu.Order.Service.{
  CreateOrderCommand, CreatedOrder, Quote, is_cod, is_escrow_reason, new_items, new_record,
  Prepared, created_order,
}
use sobkichu.Order.Written.{charged, first_payment, opened}
use sobkichu.Order.Columns.{Amounts, IsPrinted, IsItemised, IsCharge, IsStored}

ok-injective : {A : Type 0} {a b : A} → ok a ≡ ok b → a ≡ b
ok-injective h = cc

new_items-IsItemised :
    (id : Text) (lines : List ResolvedCartLine) (items : List NewOrderItem)
    → new_items lines ≡ ok items
    → IsItemised id lines (map (item_row id) items)
unfolding new_items item_row
new_items-IsItemised id [] items h = ap (map (item_row id)) (sym (ok-injective h))
new_items-IsItemised id (line ∷ lines) items h =
    let (price, priced, h1) = >>=-eq-ok (poisha_to_taka (int line.unit_price)) _ h in
    let (rest, printed, last) = >>=-eq-ok (new_items lines) _ h1 in
    (
      price,
      map (item_row id) rest,
      priced,
      ap (map (item_row id)) (sym (ok-injective last)),
      new_items-IsItemised id lines rest printed,
    )

is_charge :
    (method : PaymentMethod) (amounts : Amounts)
    → IsCharge method amounts
        (if is_cod method then amounts.total else amounts.advance)
        (not (is_cod method))
is_charge PaymentMethod.bkash amounts = (refl, refl)
is_charge PaymentMethod.nagad amounts = (refl, refl)
is_charge PaymentMethod.cod amounts = (refl, refl)
is_charge PaymentMethod.escrow amounts = (refl, refl)

is_escrow_reason_iff :
    (reason : AdvanceCapReason)
    → (is_escrow_reason reason ≡ true) ↔ (reason ≡ AdvanceCapReason.escrow)
is_escrow_reason_iff reason = (λ h. by_test reason h, λ h. rw h refl)
  where
    by_test : (r : AdvanceCapReason) → is_escrow_reason r ≡ true → r ≡ AdvanceCapReason.escrow
    by_test AdvanceCapReason.escrow h = refl
    by_test _ h = absurd (cc)

keeps_status :
    (id : Text) (row : OrderRow)
    → row.status ≡ OrderStatus.created
    → (if text_eq row.id id then with_status OrderStatus.created row else row) ≡ row
keeps_status id row fresh = elim (Bool-cases (text_eq row.id id)) [
  | inl own ↦ rw own (ap (λ status. with_status status row) (sym fresh))
  | inr foreign ↦ rw foreign refl
]

update_orders-append :
    (id : Text) (rows : List OrderRow) (row : OrderRow)
    → row.status ≡ OrderStatus.created
    → update_orders id (with_status OrderStatus.created) (rows ++ row ∷ [])
      ≡ update_orders id (with_status OrderStatus.created) rows ++ row ∷ []
unfolding update_orders
update_orders-append id [] row fresh = ap (λ r. r ∷ []) (keeps_status id row fresh)
update_orders-append id (first ∷ rows) row fresh =
    ap
      (λ rest.
        (if text_eq first.id id then with_status OrderStatus.created first else first) ∷ rest)
      (update_orders-append id rows row fresh)

-- The record of step 5, with the texts of its amounts.
new_record-eq-ok :
    (command : CreateOrderCommand) (resolved : List ResolvedCartLine) (same_city : Bool)
    (quoted : Quote) (new : NewOrderRecord)
    → new_record command resolved same_city quoted ≡ ok new
    → (amounts : Amounts) × IsPrinted command quoted amounts
      × (items : List NewOrderItem) × (new_items resolved ≡ ok items)
      × (new ≡ record {
        customer_user_id = command.customer_user_id;
        merchant_role_id = command.merchant_role_id;
        delivery_location_id = command.delivery_location_id;
        payment_method = command.payment_method;
        subtotal_bdt = amounts.subtotal;
        delivery_fee_bdt = amounts.fee;
        total_bdt = amounts.total;
        advance_amount_bdt = amounts.advance;
        advance_cap_bdt = amounts.cap;
        is_escrow = is_escrow_reason quoted.cap.reason;
        all_items_ready_to_ship = quoted.cap.all_ready;
        is_same_city = same_city;
        items = items;
      })
unfolding new_record
new_record-eq-ok command resolved same_city quoted new h =
    let (subtotal, at_subtotal, h1) = >>=-eq-ok (poisha_to_taka (int quoted.subtotal)) _ h in
    let (fee, at_fee, h2) = >>=-eq-ok (poisha_to_taka command.delivery_fee) _ h1 in
    let (total, at_total, h3) = >>=-eq-ok (poisha_to_taka (int quoted.total)) _ h2 in
    let (advance, at_advance, h4) = >>=-eq-ok (poisha_to_taka (int quoted.advance)) _ h3 in
    let (cap, at_cap, h5) = >>=-eq-ok (poisha_to_taka (int quoted.cap.cap)) _ h4 in
    let (items, printed, made) = >>=-eq-ok (new_items resolved) _ h5 in
    (
      record { subtotal = subtotal; fee = fee; total = total; advance = advance; cap = cap },
      record {
        subtotal = at_subtotal;
        fee = at_fee;
        total = at_total;
        advance = at_advance;
        cap = at_cap;
      },
      items,
      printed,
      sym (ok-injective made),
    )

module _ (engine : Engine) (command : CreateOrderCommand) (db db' : Db)
    (resolved : List ResolvedCartLine) (quoted : Quote) (same_city : Bool)
    (created : CreatedOrder) where
  pub charged-IsStored :
      (prepared : Prepared)
      → new_record command resolved same_city quoted ≡ ok prepared.new
      → prepared.explanation_key ≡ quoted.cap.explanation_key
      → created ≡ created_order prepared (engine.new_id db)
      → OnlyOutbox (charged engine (engine.new_id db) prepared.new db) db'
      → IsStored engine command db db' resolved quoted same_city created
  unfolding order_row transaction_row
  charged-IsStored prepared prints explained answer written =
      let (amounts, printed, items, itemised, is_new) =
        new_record-eq-ok command resolved same_city quoted prepared.new prints in
      let id = engine.new_id db in
      record {
        amounts = amounts;
        printed = printed;
        is_escrow = is_escrow_reason quoted.cap.reason;
        escrowed = is_escrow_reason_iff quoted.cap.reason;
        rows = map (item_row id) items;
        itemised = new_items-IsItemised id resolved items itemised;
        amount = if is_cod command.payment_method then amounts.total else amounts.advance;
        is_advance = not (is_cod command.payment_method);
        charge = is_charge command.payment_method amounts;
        row = order_row id prepared.new;
        is_row = ap (order_row id) is_new;
        before = opened id prepared.new db;
        opened =
            ap (λ orders. record (opened id prepared.new db) { orders = orders })
              (update_orders-append id db.orders (order_row id prepared.new) refl)
            ∙ ap
                (λ n. record (opened id prepared.new db) {
                  orders =
                      update_orders id (with_status OrderStatus.created) db.orders
                      ++ order_row id prepared.new ∷ [];
                  items = db.items ++ map (item_row id) n.items;
                })
                is_new;
        charged =
            written
            ∙ ap
                (λ n. record (opened id prepared.new db) {
                  transactions =
                      db.transactions
                      ++ transaction_row engine (first_payment n id) (opened id prepared.new db)
                        ∷ [];
                  outbox = db'.outbox;
                })
                is_new;
        answer =
            answer
            ∙ ap (λ k. created_order (record { new = prepared.new; explanation_key = k }) id)
                explained
            ∙ ap
                (λ n.
                  created_order (record { new = n; explanation_key = quoted.cap.explanation_key })
                    id)
                is_new;
      }

last_member : (rows : List OrderRow) (row : OrderRow) → Memᴰ row (rows ++ row ∷ [])
last_member [] row = head refl
last_member (first ∷ rows) row = tail (last_member rows row)

-- The order's row is in the table, under the customer whom the command names.
pub stored_member :
    (engine : Engine) (command : CreateOrderCommand) (db db' : Db)
    (resolved : List ResolvedCartLine) (quoted : Quote) (same_city : Bool) (created : CreatedOrder)
    → IsStored engine command db db' resolved quoted same_city created
    → (row : OrderRow) × Memᴰ row db'.orders
      × (row.id ≡ engine.new_id db)
      × (row.customer_user_id ≡ command.customer_user_id)
stored_member engine command db db' resolved quoted same_city created stored = (
  stored.row,
  subst (λ rows. Memᴰ stored.row rows)
      (sym (ap (λ d. d.orders) stored.charged ∙ ap (λ d. d.orders) stored.opened))
      (last_member (update_orders (engine.new_id db) (with_status OrderStatus.created) db.orders)
        stored.row),
  ap (λ r. r.id) stored.is_row,
  ap (λ r. r.customer_user_id) stored.is_row,
)
