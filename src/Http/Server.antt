-- ===== src/Http/Server.antt =====
-- The controllers of api/src and common/auth/caller.decorator.ts, behind the global guard.
use sobkichu.Prelude.{ℕ, Bool, true, false, Option, none, pos, Result, or_throw, plain_error, Text}
use sobkichu.Money.{int}
use sobkichu.DeliveryClock.{Date, instant}
use sobkichu.Database.{Db}
use sobkichu.Ports.{Ports}
use sobkichu.Session.Guard.{AuthenticatedCaller, can_activate}
use sobkichu.Order.Service.{CreateOrderCommand, create_order}
use sobkichu.Payment.Webhook.{WebhookRequest, handle}
use sobkichu.Identity.Kyc.{SubmitKycCommand, submit}
use sobkichu.Identity.Onboarding.{CreateMerchantCommand, create_merchant}
use sobkichu.Identity.Roles.{list_roles, switch_role}
use sobkichu.Location.{CreateLocationCommand, create_location}
use sobkichu.Catalog.Service.{CreateListingCommand, create_listing}
use sobkichu.Catalog.Search.{Geography, SearchNearbyCommand, search_nearby}
use sobkichu.Login.World.{App, ◌>>=◌, ◌>>◌, pure, lift}
use sobkichu.Login.Service.{Collaborators, request_otp, verify_otp}
use sobkichu.Http.Validation.{Validators, validate}
use sobkichu.Http.Requests.{
  RequestOtpDto, VerifyOtpDto, SwitchRoleDto, SubmitKycDto, CreateMerchantDto, CreateOrderDto,
  CreateListingDto, Request, post_otp_request, post_otp_verify, get_roles, post_roles_switch,
  post_kyc, post_merchants, post_orders, post_listings, get_nearby, post_locations, post_webhook,
  Response, otp_requested, otp_verified, roles_listed, role_switched, kyc_submitted,
  merchant_created, order_created, listing_created, nearby_found, location_created, webhook_applied,
}

pub record Deployment (State : Type 0) : Type 0 where
  pub login : Collaborators State
  pub ports : Ports
  pub geography : Geography
  pub parse_date : Text → Date
  pub escrow_enabled : Bool
  pub webhook_setting : Option Text
  pub validators : Validators

-- The routes with `@Public()`.
unfoldable pub is_public : Request → Bool
is_public (post_otp_request dto) = true
is_public (post_otp_verify dto) = true
is_public get_roles = false
is_public (post_roles_switch dto) = false
is_public (post_kyc dto) = false
is_public (post_merchants dto) = false
is_public (post_orders dto) = false
is_public (post_listings dto) = false
is_public (get_nearby dto) = true
is_public (post_locations dto) = false
is_public (post_webhook request) = true

-- `@Caller()`
abbrev pub the_caller : Option AuthenticatedCaller → Result AuthenticatedCaller
the_caller caller = or_throw caller (plain_error "Caller requested on a route with no auth guard")

abbrev pub order_command : AuthenticatedCaller → CreateOrderDto → CreateOrderCommand
order_command caller dto = record {
  customer_user_id = caller.user_id;
  merchant_role_id = dto.merchant_role_id;
  delivery_location_id = dto.delivery_location_id;
  payment_method = dto.payment_method;
  lines = dto.lines;
  requested_advance = dto.requested_advance_poisha;
  delivery_fee = int (pos 0);
}

abbrev pub listing_command : AuthenticatedCaller → CreateListingDto → CreateListingCommand
listing_command caller dto = record {
  owner_role_id = caller.active_role_id;
  type = dto.type;
  category_id = dto.category_id;
  title_bn = dto.title_bn;
  title_en = dto.title_en;
  description_bn = dto.description_bn;
  description_en = dto.description_en;
  price_bdt_poisha = dto.price_bdt_poisha;
  ready_to_ship = dto.ready_to_ship;
  stock_qty = dto.stock_qty;
}

abbrev pub kyc_command : AuthenticatedCaller → SubmitKycDto → SubmitKycCommand
kyc_command caller dto = record {
  user_id = caller.user_id;
  active_role_id = caller.active_role_id;
  nid_number = dto.nid_number;
  document_urls = dto.document_urls;
}

abbrev pub merchant_command : AuthenticatedCaller → CreateMerchantDto → CreateMerchantCommand
merchant_command caller dto = record {
  user_id = caller.user_id;
  pickup_location_id = dto.pickup_location_id;
  business_name_bn = dto.business_name_bn;
  business_name_en = dto.business_name_en;
}

-- A call of a service that works on the database, and its answer.
abbrev pub on_db : {State A : Type 0} → (Db → Result A × Db) → (A → Response) → App State Response
on_db call answer =
    (λ w. let (r, db) = call w.db in (r, record w { db = db })) >>= λ a. pure (answer a)

module _ {State : Type 0} (d : Deployment State) (now random : ℕ) where
  -- The methods of the controllers.
  unfoldable pub request_otp_route : RequestOtpDto → App State Response
  unfolding request_otp
  request_otp_route dto = request_otp d.login dto.phone now random >>= λ r. pure (otp_requested r)

  unfoldable pub verify_otp_route : VerifyOtpDto → App State Response
  unfolding verify_otp
  verify_otp_route dto = verify_otp d.login dto.phone dto.code now >>= λ r. pure (otp_verified r)

  unfoldable pub list_roles_route : Option AuthenticatedCaller → App State Response
  unfolding list_roles
  list_roles_route caller =
      lift (the_caller caller) >>= λ c. on_db (list_roles d.login.engine c.user_id) roles_listed

  unfoldable pub switch_role_route : Option AuthenticatedCaller → SwitchRoleDto → App State Response
  unfolding switch_role
  switch_role_route caller dto = lift (the_caller caller) >>= λ c.
      on_db
        (switch_role d.login.node d.login.json d.login.session_setting now d.login.engine c.user_id
          dto.role_id)
        role_switched

  unfoldable pub submit_kyc_route : Option AuthenticatedCaller → SubmitKycDto → App State Response
  unfolding submit
  submit_kyc_route caller dto = lift (the_caller caller) >>= λ c.
      on_db (submit d.login.engine (kyc_command c dto)) kyc_submitted

  unfoldable pub create_merchant_route :
      Option AuthenticatedCaller → CreateMerchantDto → App State Response
  unfolding create_merchant
  create_merchant_route caller dto = lift (the_caller caller) >>= λ c.
      on_db (create_merchant d.login.engine (merchant_command c dto)) merchant_created

  unfoldable pub create_order_route :
      Option AuthenticatedCaller → CreateOrderDto → App State Response
  unfolding create_order
  create_order_route caller dto = lift (the_caller caller) >>= λ c.
      on_db (create_order d.escrow_enabled d.login.engine d.ports (order_command c dto))
        order_created

  unfoldable pub create_listing_route :
      Option AuthenticatedCaller → CreateListingDto → App State Response
  unfolding create_listing
  create_listing_route caller dto = lift (the_caller caller) >>= λ c.
      on_db (create_listing d.login.engine (listing_command c dto)) listing_created

  unfoldable pub nearby_route : SearchNearbyCommand → App State Response
  unfolding search_nearby
  nearby_route dto = on_db (λ db. (search_nearby d.geography dto db, db)) nearby_found

  unfoldable pub create_location_route : CreateLocationCommand → App State Response
  unfolding create_location
  create_location_route dto = on_db (create_location d.login.engine dto) location_created

  unfoldable pub webhook_route : WebhookRequest → App State Response
  unfolding handle
  webhook_route request =
      on_db
        (handle d.login.node d.login.engine d.parse_date (instant (pos now)) d.webhook_setting
          request)
        webhook_applied

  -- The method of a route, for a caller.
  unfoldable pub call_route : Option AuthenticatedCaller → Request → App State Response
  unfolding request_otp_route verify_otp_route list_roles_route switch_role_route submit_kyc_route
      create_merchant_route create_order_route create_listing_route nearby_route
      create_location_route webhook_route
  call_route caller (post_otp_request dto) = request_otp_route dto
  call_route caller (post_otp_verify dto) = verify_otp_route dto
  call_route caller get_roles = list_roles_route caller
  call_route caller (post_roles_switch dto) = switch_role_route caller dto
  call_route caller (post_kyc dto) = submit_kyc_route caller dto
  call_route caller (post_merchants dto) = create_merchant_route caller dto
  call_route caller (post_orders dto) = create_order_route caller dto
  call_route caller (post_listings dto) = create_listing_route caller dto
  call_route caller (get_nearby dto) = nearby_route dto
  call_route caller (post_locations dto) = create_location_route dto
  call_route caller (post_webhook request) = webhook_route request

  -- The pipe, and the route.
  unfoldable pub pipe_route : Option AuthenticatedCaller → Request → App State Response
  unfolding validate call_route
  pipe_route caller request = lift (validate d.validators request) >> call_route caller request

  -- The guard comes first.
  unfoldable pub serve : Option Text → Request → App State Response
  unfolding can_activate is_public pipe_route
  serve header request =
      lift (
        can_activate d.login.node d.login.json d.login.session_setting (is_public request) header
          none now)
      >>= λ caller. pipe_route caller request
