-- ===== src/Fixtures.antt =====
-- A small shop, for the tests and the examples of the theorems.
use sobkichu.Prelude.{pos, true, false, none, some, [], ◌∷◌, lit}
use sobkichu.Money.{int}
use sobkichu.Database.{
  Db, OrderStatus, PaymentMethod, OrderRow, TransactionRow, SettlementStatus, UserRow, RoleRow,
  RoleType, VerificationStatus, LocationRow, ListingRecord, ListingType, CategoryRow,
}
use sobkichu.Database.Transaction.{Engine}
use sobkichu.DeliveryClock.{instant}
use sobkichu.Payment.Service.{SettlementNotice, settled}

-- A database that accepts every statement, with one identifier to give.
abbrev pub calm : Engine
calm = record { refuses = λ _. none; commits = λ _. none; new_id = λ _. lit "o-1"; now = λ _. 1000 }

abbrev pub buyer : UserRow
buyer = record {
  id = lit "u1";
  phone_e164 = lit "+8801711111111";
  language_preference = lit "bn";
  nid_number = none;
  nid_verification_status = VerificationStatus.unverified;
}

abbrev pub seller : RoleRow
seller = record {
  id = lit "m1";
  user_id = lit "u2";
  type = RoleType.merchant;
  profile = [];
  kyc_status = VerificationStatus.verified;
  is_active = true;
  pickup_location_id = some (lit "l1");
}

abbrev pub shop_place : LocationRow
shop_place = record {
  id = lit "l1";
  division = lit "Dhaka";
  district = lit "Dhaka";
  upazila_thana = lit "Savar";
  union_ward = none;
  village_mohalla = none;
  address_line = none;
  geo = none;
}

abbrev pub home : LocationRow
home = record shop_place { id = lit "l2"; division = lit "dhaka"; district = lit " DHAKA" }

abbrev pub clothing : CategoryRow
clothing = record { id = lit "c1"; is_restricted = false; requires_dgda_licence = false }

abbrev pub saree : ListingRecord
saree = record {
  id = lit "s1";
  owner_role_id = lit "m1";
  location_id = lit "l1";
  type = ListingType.product;
  category_id = lit "c1";
  title_bn = lit "Saree";
  title_en = none;
  description_bn = none;
  description_en = none;
  price_bdt = lit "1500.00";
  ready_to_ship = true;
  stock_qty = some (pos 3);
  is_active = true;
  geo = none;
}

abbrev pub made_to_order : ListingRecord
made_to_order = record saree {
  id = lit "s2";
  price_bdt = lit "999.99";
  ready_to_ship = false;
  stock_qty = none;
}

abbrev pub shop : Db
shop = record {
  users = buyer ∷ [];
  roles = seller ∷ [];
  kyc_submissions = [];
  locations = shop_place ∷ home ∷ [];
  categories = clothing ∷ [];
  listings = saree ∷ made_to_order ∷ [];
  orders = [];
  items = [];
  events = [];
  transactions = [];
  outbox = [];
}

-- An order of one saree with an advance of 100 taka still to be paid.
abbrev pub waiting : OrderRow
waiting = record {
  id = lit "o-1";
  customer_user_id = lit "u1";
  merchant_role_id = lit "m1";
  delivery_location_id = lit "l2";
  status = OrderStatus.created;
  payment_method = PaymentMethod.bkash;
  subtotal_bdt = lit "1500.00";
  delivery_fee_bdt = lit "60.00";
  total_bdt = lit "1560.00";
  advance_amount_bdt = lit "100.00";
  advance_cap_bdt = lit "1560.00";
  is_escrow = false;
  all_items_ready_to_ship = true;
  is_same_city = true;
  advance_paid_at = none;
  delivery_deadline_at = none;
}

abbrev pub advance : TransactionRow
advance = record {
  id = lit "t-1";
  order_id = lit "o-1";
  method = PaymentMethod.bkash;
  amount_bdt = lit "100.00";
  status = SettlementStatus.pending;
  aggregator = none;
  aggregator_ref = none;
  is_advance = true;
  occurred_at = 1000;
  settled_at = none;
}

abbrev pub ordered : Db
ordered = record shop { orders = waiting ∷ []; transactions = advance ∷ [] }

abbrev pub paid : SettlementNotice
paid = record {
  order_id = lit "o-1";
  aggregator = lit "sslcommerz";
  aggregator_ref = lit "r-77";
  amount = int (pos 10000);
  outcome = settled;
  occurred_at = instant (pos 1000000);
}
