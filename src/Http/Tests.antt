-- ===== src/Http/Tests.antt =====
-- Requests to the small shop.
use mathlib.Core.List.{Memᴰ}
use sobkichu.Prelude.{
  Result, List, text_eq, is_empty, all_chars, strip, ℕ, ◌*◌, ℤ, Bool, ◌≤ℤ◌, leb, leb_ℤ, leb→le,
  arith, ◌*ℤ◌, ◌+ℤ◌, pad_end, value, any_char, is_space, trim, is_digits, ◌≡◌, ◌⊎◌, refl, true,
  false, none, some, Option, [], ◌∷◌, ◌++◌, pos, ok, err, Exception, unauthorized, Text, lit,
}
use sobkichu.Identity.Users.{find_or_create_by_phone, find_phone}
use sobkichu.Login.Notice.{queue_code}
use sobkichu.DeliveryClock.{make_date, instant, is_same_city}
use sobkichu.Login.Store.{save}
use sobkichu.Identity.Otp.{issue_otp, generate_code}
use sobkichu.RateLimit.{hit}
use sobkichu.Identity.Numbers.{is_separator, normalise_bd_phone}
use sobkichu.Notification.Outbox.{enqueue}
use sobkichu.Notification.ChannelPolicy.{channels_for}
use sobkichu.Notification.Adapter.{notify}
use sobkichu.Order.Repository.{
  insert_pending_transaction, record_status_event, insert_items, insert_order,
}
use sobkichu.Order.Service.{
  new_record, quote, eligible_pickup, assert_cart_is_orderable, CreatedOrder, cart_lines,
}
use sobkichu.AdvanceCap.{assert_advance_within_cap, every_ready, compute_advance_cap, cart_subtotal}
use sobkichu.Http.Validation.{Validators, IsValidating, valid_body}
use sobkichu.Http.Typed.{IsTyped, post_orders-IsTyped}
use sobkichu.Catalog.Search.{unit}
use sobkichu.Http.Session.{login_opens_routes}
use sobkichu.Http.Requests.{
  post_otp_request, post_otp_verify, otp_requested, otp_verified, CreateOrderDto, CreateListingDto,
  Response, roles_listed, order_created, listing_created, get_roles, post_orders, post_listings,
}
use sobkichu.Login.Toy.{live_value, memory-IsCache, challenge_json-IsChallengeJson, Memory, service}
use sobkichu.Session.Toy.{toy-IsDocumented, toy, toy_json}
use sobkichu.Login.Service.{sent, authenticated}
use sobkichu.Login.Exchange.{may_try}
use sobkichu.Ports.{ResolvedCartLine}
use sobkichu.Database.{OrderRow, UserRow, PaymentMethod, ListingType}
use sobkichu.Http.Server.{pipe_route, is_public, Deployment, order_command, call_route, serve}
use sobkichu.Database.Transaction.{execute, with_transaction}
use sobkichu.Money.{Number, other, poisha_to_taka, sum, taka_to_poisha, int}
use sobkichu.Adapters.{find_location_by_id, find_location, find_merchant, resolve_cart_lines, ports}
use sobkichu.Session.Token.{issue_session_token}
use sobkichu.Session.Guard.{AuthenticatedCaller, bearer}
use sobkichu.Order.Created.{IsAccepted}
use sobkichu.Order.Gates.{IsInRange}
use sobkichu.Order.Columns.{IsStored}
use sobkichu.Login.World.{World}
use sobkichu.Http.Guarded.{Authentic, serve_effect, post_orders_own}
use sobkichu.Fixtures.{calm, shop}

abbrev whole : Number → Bool
whole (int n) = true
whole other = false

abbrev from : ℕ → Number → Bool
from k (int n) = leb_ℤ (pos k) n
from k other = false

abbrev lenient : Validators
lenient = record {
  is_uuid = λ s. true;
  is_https_url = λ s. true;
  has_length = λ a b s. true;
  min_length = λ n s. true;
  matches_six_digits = λ s. true;
  is_iso8601 = λ s. true;
  is_in = λ values s. true;
  is_int = whole;
  min = from;
  array_min_size = λ n size. leb n size;
  array_max_size = λ n size. leb size n;
  is_latitude = λ n. true;
  is_longitude = λ n. true;
  min_radius = λ n radius. leb_ℤ (pos (n * unit)) radius;
  max_radius = λ n radius. leb_ℤ radius (pos (n * unit));
}

whole_int : (n : Number) → whole n ≡ true → (k : ℤ) × (n ≡ int k)
whole_int (int k) h = (k, refl)
whole_int other h = cc

leb_ℤ-le : (a b : ℤ) → leb_ℤ a b ≡ true → a ≤ℤ b
leb_ℤ-le a b h = ground arith

lenient-IsValidating : IsValidating lenient
lenient-IsValidating = record {
  ints = whole_int;
  mins = λ k n h. leb_ℤ-le (pos k) n h;
  array_mins = λ k size h. leb→le k size h;
  array_maxs = λ k size h. leb→le size k h;
  radius_mins = λ k radius h. leb_ℤ-le (pos (k * unit)) radius h;
  radius_maxs = λ k radius h. leb_ℤ-le radius (pos (k * unit)) h;
}

abbrev site : Deployment Memory
site = record {
  login = service;
  ports = ports;
  geography = record { distance = λ p q. 0; within = λ p q radius. true };
  parse_date = λ s. instant (pos 0);
  escrow_enabled = false;
  webhook_setting = none;
  validators = lenient;
}

abbrev open_shop : World Memory
open_shop = record { cache = record { counts = λ _. 0; values = λ _. none }; db = shop }

abbrev header_of : Text → Option Text → Option Text
header_of user_id role = elim (issue_session_token toy toy_json user_id role (lit "k") 1000) [
  | ok s ↦ some (bearer ++ s)
  | err e ↦ none
]

abbrev buyer_header : Option Text
buyer_header = header_of (lit "u1") none

abbrev seller_header : Option Text
seller_header = header_of (lit "u2") (some (lit "m1"))

abbrev purchase : CreateOrderDto
purchase = record {
  merchant_role_id = lit "m1";
  delivery_location_id = lit "l2";
  payment_method = PaymentMethod.bkash;
  lines = record { listing_id = lit "s1"; quantity = pos 1 } ∷ [];
  requested_advance_poisha = int (pos 10000);
}

abbrev shawl : CreateListingDto
shawl = record {
  type = ListingType.product;
  category_id = lit "c1";
  title_bn = lit "Shawl";
  title_en = none;
  description_bn = none;
  description_en = none;
  price_bdt_poisha = int (pos 25050);
  ready_to_ship = true;
  stock_qty = some (pos 4);
}

abbrev after_order : World Memory
after_order = (serve site 2000 0 buyer_header (post_orders purchase) open_shop).1

abbrev answer : Response
answer = elim (serve site 2000 0 buyer_header (post_orders purchase) open_shop).0 [
  | ok r ↦ r
  | err e ↦ roles_listed []
]

order_run :
    serve site 2000 0 buyer_header (post_orders purchase) open_shop ≡ (ok answer, after_order)
unfolding serve resolve_cart_lines taka_to_poisha is_digits trim is_space any_char value pad_end
    assert_cart_is_orderable find_merchant eligible_pickup find_location quote cart_subtotal sum
    compute_advance_cap every_ready assert_advance_within_cap ◌+ℤ◌ ◌*ℤ◌ new_record poisha_to_taka
    with_transaction insert_order execute insert_items record_status_event
    insert_pending_transaction notify channels_for enqueue
order_run = refl

abbrev after_listing : World Memory
after_listing = (serve site 2000 0 seller_header (post_listings shawl) open_shop).1

listing_run :
    serve site 2000 0 seller_header (post_listings shawl) open_shop
    ≡ (ok (listing_created (lit "o-1")), after_listing)
unfolding serve find_merchant find_location_by_id poisha_to_taka with_transaction execute
listing_run = refl

no_header :
    serve site 2000 0 none get_roles open_shop
    ≡ (err (unauthorized "error.auth.missing_token"), open_shop)
unfolding serve
no_header = refl

serve_effect_example :
    (((e : Exception) × (ok (listing_created (lit "o-1")) ≡ err e)) × (after_listing ≡ open_shop))
    ⊎ ((caller : AuthenticatedCaller) × Authentic site 2000 0 seller_header caller
        × (valid_body lenient (post_listings shawl) ≡ true)
        × (call_route site 2000 0 (some caller) (post_listings shawl) open_shop
            ≡ (ok (listing_created (lit "o-1")), after_listing)))
unfolding is_public
serve_effect_example =
    serve_effect site 2000 0 seller_header (post_listings shawl) open_shop after_listing
      (ok (listing_created (lit "o-1"))) refl listing_run

-- The cart of the purchase, as the catalogue resolves it.
abbrev cart_of : Result (List ResolvedCartLine) → List ResolvedCartLine
cart_of (ok lines) = lines
cart_of (err e) = []

abbrev cart : List ResolvedCartLine
cart = cart_of (ports.resolve_cart_lines shop purchase.lines)

cart_run : ports.resolve_cart_lines shop purchase.lines ≡ ok cart
unfolding resolve_cart_lines text_eq lit taka_to_poisha is_digits trim is_space any_char value
    pad_end
cart_run = refl

cart-IsInRange : IsInRange (cart_lines cart) (pos 0)
unfolding resolve_cart_lines text_eq lit taka_to_poisha is_digits trim is_space any_char value
    pad_end cart_lines ◌*ℤ◌ ◌+ℤ◌
cart-IsInRange = (((omega arith, omega arith), tt), omega arith, omega arith)

post_orders_own_example :
    (caller : AuthenticatedCaller) × (created : CreatedOrder) × Authentic site 2000 0 buyer_header
      caller
    × (accepted : IsAccepted false ports (order_command caller purchase) shop cart (pos 0))
    × (answer ≡ order_created created)
    × IsStored calm
        (order_command caller purchase)
        shop
        after_order.db
        cart
        accepted.quoted
        (is_same_city accepted.pickup accepted.delivery)
        created
    × ((row : OrderRow) × Memᴰ row after_order.db.orders
        × (row.id ≡ lit "o-1")
        × (row.customer_user_id ≡ caller.user_id))
post_orders_own_example =
    post_orders_own site 2000 0 buyer_header purchase open_shop after_order answer cart cart_run
      cart-IsInRange order_run

post_orders-IsTyped_example : IsTyped purchase
post_orders-IsTyped_example =
    post_orders-IsTyped site lenient-IsValidating 2000 0 buyer_header purchase open_shop after_order
      answer order_run

abbrev phone : Text
phone = lit "+8801711111111"

abbrev code_sent : World Memory
code_sent =
    (serve site 120000 42 none (post_otp_request (record { phone = lit "01711-111111" }))
      open_shop).1

request_run :
    serve site 120000 42 none (post_otp_request (record { phone = lit "01711-111111" })) open_shop
    ≡ (ok (otp_requested (sent (pos 900))), code_sent)
unfolding serve normalise_bd_phone strip is_separator is_space all_chars hit issue_otp save
    make_date ◌+ℤ◌ with_transaction queue_code find_or_create_by_phone execute notify channels_for
    enqueue
request_run = refl

local_number : normalise_bd_phone (lit "01711-111111") ≡ some phone
unfolding normalise_bd_phone strip lit is_separator is_space all_chars
local_number = refl

international_number : normalise_bd_phone (lit "8801711111111") ≡ some phone
unfolding normalise_bd_phone strip lit is_separator is_space all_chars
international_number = refl

may_login : may_try service phone code_sent ≡ true
unfolding hit serve normalise_bd_phone strip is_separator is_space all_chars issue_otp save
    make_date ◌+ℤ◌ with_transaction queue_code find_or_create_by_phone execute notify channels_for
    enqueue
may_login = refl

login_opens_routes_example :
    (user : UserRow) × (token : Text) × (after : World Memory) × (find_phone phone
        code_sent.db.users
      ≡ some user)
    × (serve site 180000 42 none
          (post_otp_verify (record { phone = lit "8801711111111"; code = generate_code 42 }))
          code_sent
        ≡ (ok (otp_verified (authenticated token user.id)), after))
    × (serve site 5000000 42 (some (bearer ++ token)) (post_orders purchase) open_shop
        ≡ pipe_route site 5000000 42
            (some (record { user_id = user.id; active_role_id = none }))
            (post_orders purchase)
            open_shop)
unfolding is_empty lit is_public
login_opens_routes_example =
    login_opens_routes site live_value memory-IsCache challenge_json-IsChallengeJson
      toy-IsDocumented phone (lit "01711-111111") (lit "8801711111111") (lit "k") 120000 60000
      5000000 42 (pos 900) none (post_orders purchase) open_shop code_sent code_sent open_shop
      local_number international_number request_run (omega arith) (omega arith) (omega arith) refl
      refl refl may_login (refl, refl) refl (omega arith) refl
