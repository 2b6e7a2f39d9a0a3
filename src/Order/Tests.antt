-- ===== src/Order/Tests.antt =====
-- Orders of the small shop, and the theorems on them at those orders.
use sobkichu.Notification.Adapter.{
  find_user, notify_found, entry_for, enqueue_channels, channel_name, channel_key, notify,
}
use sobkichu.Order.Repository.{
  NewOrderRecord, update_orders, transaction_row, order_row, item_row, insert_item,
  insert_pending_transaction, record_status_event, insert_items, insert_order,
}
use sobkichu.Order.Returns.{create_order_returns}
use sobkichu.Fixtures.{buyer, calm, shop}
use sobkichu.Prelude.{
  Result, List, arith, value_from, trim_start, pad_start, is_empty, all_chars, floor_div, ◌*ℤ◌,
  ◌+ℤ◌, pad_end, value, any_char, is_space, trim, is_digits, text_eq, ◌≡◌, ◌↔◌, refl, pos, true,
  false, some, [], ◌∷◌, ok, err, bad_request, lit, All, ◌≤ℤ◌,
}
use sobkichu.Order.Service.{
  order_request, new_items, create_prepared, cart_lines, assert_line_orderable, accepted_advance,
  new_record, eligible_pickup, CreateOrderCommand, CreatedOrder, Quote, quote,
  assert_cart_is_orderable, Prepared, prepare_order, create_order, write_order,
}
use sobkichu.Notification.Outbox.{new_row, insert_entry, has_dedupe_key, enqueue}
use sobkichu.Notification.ChannelPolicy.{template_key_for, policies, channels_for}
use sobkichu.Money.{
  sum_from, poisha_of, is_amount, has_minus, fraction_or_empty, drop_minus, digits_from, digits,
  before_dot, after_dot, poisha_to_taka, percentage_of, sum, taka_to_poisha, int,
}
use sobkichu.DeliveryClock.{normalise, is_same_city, collapse_spaces}
use sobkichu.Adapters.{
  resolve_lines, resolve_line, includes_id, find_merchant_role, find_location_row, find_by_ids,
  by_id, find_location, find_merchant, resolve_cart_lines, ports,
}
use sobkichu.Database.Transaction.{execute, with_transaction}
use sobkichu.AdvanceCap.{
  assert_advance_within_cap, every_ready, compute_advance_cap, cart_subtotal, CartLine,
  AdvanceCapReason,
}
use sobkichu.Database.{Db, PaymentMethod}
use sobkichu.Ports.{ResolvedCartLine}
use sobkichu.Order.Gates.{
  IsInRange, IsOrderable, IsSound, assert_cart_is_orderable_iff, quote-IsSound,
}
use sobkichu.Order.Created.{IsAccepted, create_order-IsAccepted}
use sobkichu.Order.Columns.{IsStored}
use sobkichu.Order.Stock.{repeated, total_quantity, repeated_lines_exceed_stock}

abbrev purchase : CreateOrderCommand
purchase = record {
  customer_user_id = lit "u1";
  merchant_role_id = lit "m1";
  delivery_location_id = lit "l2";
  payment_method = PaymentMethod.bkash;
  lines =
      record { listing_id = lit "s1"; quantity = pos 1 }
      ∷ record { listing_id = lit "s2"; quantity = pos 2 }
      ∷ [];
  requested_advance = int (pos 10000);
  delivery_fee = int (pos 6000);
}

abbrev answer : CreatedOrder
answer = record {
  order_id = lit "o-1";
  total_bdt = lit "3559.98";
  advance_cap_bdt = lit "355.99";
  advance_amount_bdt = lit "100.00";
  is_same_city = true;
  advance_explanation_key = "checkout.advance.capped_at_ten_percent";
}

abbrev cart_of : Result (List ResolvedCartLine) → List ResolvedCartLine
cart_of (ok lines) = lines
cart_of (err e) = []

abbrev after : Db
after = (create_order false calm ports purchase shop).1

created_run : create_order false calm ports purchase shop ≡ (ok answer, after)
unfolding create_order lit resolve_cart_lines text_eq taka_to_poisha is_digits trim is_space
    any_char value pad_end assert_cart_is_orderable find_merchant eligible_pickup find_location
    quote cart_subtotal sum compute_advance_cap every_ready percentage_of assert_advance_within_cap
    floor_div ◌*ℤ◌ ◌+ℤ◌ new_record poisha_to_taka with_transaction insert_order execute insert_items
    record_status_event insert_pending_transaction notify channels_for by_id find_by_ids
    find_location_row find_merchant_role includes_id resolve_line resolve_lines collapse_spaces
    is_same_city normalise after_dot before_dot digits digits_from drop_minus fraction_or_empty
    has_minus is_amount poisha_of sum_from channel_key channel_name enqueue_channels entry_for
    find_user notify_found policies template_key_for enqueue has_dedupe_key insert_entry new_row
    insert_item item_row order_row transaction_row update_orders accepted_advance
    assert_line_orderable cart_lines create_prepared new_items order_request prepare_order
    write_order all_chars is_empty pad_start trim_start value_from
created_run = refl

-- The cart of the purchase, as the catalogue resolves it.
abbrev cart : List ResolvedCartLine
cart = cart_of (ports.resolve_cart_lines shop purchase.lines)

cart_run : ports.resolve_cart_lines shop purchase.lines ≡ ok cart
unfolding resolve_cart_lines text_eq lit taka_to_poisha is_digits trim is_space any_char value
    pad_end
cart_run = refl

cart-IsInRange : IsInRange (cart_lines cart) (pos 6000)
unfolding resolve_cart_lines text_eq lit taka_to_poisha is_digits trim is_space any_char value
    pad_end cart_lines ◌*ℤ◌ ◌+ℤ◌
cart-IsInRange =
    (((omega arith, omega arith), ((omega arith, omega arith), tt)), omega arith, omega arith)

create_order-IsAccepted_example :
    (accepted : IsAccepted false ports purchase shop cart (pos 6000)) × IsStored calm purchase shop
      after cart accepted.quoted
      (is_same_city accepted.pickup accepted.delivery)
      answer
create_order-IsAccepted_example =
    create_order-IsAccepted false calm ports purchase shop after answer cart (pos 6000) cart_run
      refl cart-IsInRange created_run

-- An advance above the ceiling.
abbrev greedy : CreateOrderCommand
greedy = record purchase { requested_advance = int (pos 35600) }

greedy_run :
    create_order false calm ports greedy shop
    ≡ (err (bad_request "error.checkout.advance_exceeds_cap"), shop)
unfolding create_order lit resolve_cart_lines text_eq taka_to_poisha is_digits trim is_space
    any_char value pad_end assert_cart_is_orderable find_merchant eligible_pickup find_location
    quote cart_subtotal sum compute_advance_cap every_ready percentage_of assert_advance_within_cap
    floor_div ◌*ℤ◌ ◌+ℤ◌
greedy_run = refl

abbrev line : ResolvedCartLine
line = record {
  listing_id = lit "s1";
  quantity = pos 2;
  unit_price = pos 150000;
  ready_to_ship = true;
  merchant_role_id = lit "m1";
  category_restricted = false;
  category_requires_dgda_licence = false;
  stock_qty = some (pos 3);
  is_active = true;
}

one_line : assert_cart_is_orderable (line ∷ []) (lit "m1") ≡ ok tt
unfolding assert_cart_is_orderable lit text_eq
one_line = refl

assert_cart_is_orderable_iff_example :
    (assert_cart_is_orderable (line ∷ line ∷ []) (lit "m1") ≡ ok tt)
    ↔ All (IsOrderable (lit "m1")) (line ∷ line ∷ [])
assert_cart_is_orderable_iff_example = assert_cart_is_orderable_iff (line ∷ line ∷ []) (lit "m1")

repeated_lines_exceed_stock_example :
    (assert_cart_is_orderable (repeated 4 line) (lit "m1") ≡ ok tt)
    × (pos 4 ≤ℤ total_quantity (repeated 4 line))
repeated_lines_exceed_stock_example = repeated_lines_exceed_stock line (lit "m1") 3 refl one_line

abbrev priced : CartLine
priced = record {
  listing_id = lit "s1";
  quantity = pos 2;
  unit_price = pos 150000;
  ready_to_ship = true;
}

abbrev quoted : Quote
quoted = record {
  subtotal = pos 300000;
  total = pos 306000;
  cap = record {
    cap = pos 306000;
    reason = AdvanceCapReason.all_items_ready_to_ship;
    all_ready = true;
    explanation_key = "checkout.advance.ready_to_ship_full_allowed";
  };
  advance = pos 10000;
}

quote_run : quote false purchase (priced ∷ []) ≡ ok quoted
unfolding quote lit cart_subtotal sum compute_advance_cap every_ready assert_advance_within_cap ◌+ℤ◌
    ◌*ℤ◌
quote_run = refl

priced-IsInRange : IsInRange (priced ∷ []) (pos 6000)
unfolding ◌*ℤ◌ ◌+ℤ◌
priced-IsInRange = (((omega arith, omega arith), tt), omega arith, omega arith)

quote-IsSound_example : IsSound false purchase (priced ∷ []) (pos 6000) quoted
quote-IsSound_example =
    quote-IsSound false purchase (priced ∷ []) (pos 6000) quoted refl priced-IsInRange quote_run

abbrev new : NewOrderRecord
new = record {
  customer_user_id = lit "u1";
  merchant_role_id = lit "m1";
  delivery_location_id = lit "l2";
  payment_method = PaymentMethod.bkash;
  subtotal_bdt = lit "3499.98";
  delivery_fee_bdt = lit "60.00";
  total_bdt = lit "3559.98";
  advance_amount_bdt = lit "100.00";
  advance_cap_bdt = lit "355.99";
  is_escrow = false;
  all_items_ready_to_ship = false;
  is_same_city = true;
  items =
      record {
        listing_id = lit "s1";
        quantity = pos 1;
        unit_price_bdt = lit "1500.00";
        ready_to_ship_at_order = true;
      }
      ∷ record {
        listing_id = lit "s2";
        quantity = pos 2;
        unit_price_bdt = lit "999.99";
        ready_to_ship_at_order = false;
      }
      ∷ [];
}

abbrev prepared : Prepared
prepared = record { new = new; explanation_key = "checkout.advance.capped_at_ten_percent" }

prepared_run : prepare_order false ports shop purchase ≡ ok prepared
unfolding prepare_order lit resolve_cart_lines text_eq taka_to_poisha is_digits trim is_space
    any_char value pad_end assert_cart_is_orderable find_merchant eligible_pickup find_location
    quote cart_subtotal sum compute_advance_cap by_id find_by_ids find_location_row
    find_merchant_role includes_id resolve_line resolve_lines assert_advance_within_cap every_ready
    collapse_spaces is_same_city normalise after_dot before_dot digits digits_from drop_minus
    fraction_or_empty has_minus is_amount percentage_of poisha_of poisha_to_taka sum_from
    accepted_advance assert_line_orderable cart_lines new_items new_record all_chars is_empty
    pad_start trim_start value_from floor_div ◌*ℤ◌ ◌+ℤ◌
prepared_run = refl

buyer_found : find_user (lit "u1") shop.users ≡ some buyer
unfolding find_user lit text_eq
buyer_found = refl

create_order_returns_example :
    (created : CreatedOrder) × (db' : Db) × (create_order false calm ports purchase shop
      ≡ (ok created, db'))
create_order_returns_example =
    create_order_returns calm (λ _. refl) (λ _. refl) false ports purchase shop prepared buyer
      prepared_run buyer_found
