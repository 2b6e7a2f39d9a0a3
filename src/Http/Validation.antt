-- ===== src/Http/Validation.antt =====
-- The decorators of the bodies and the pipe of api/src/main.ts. class-validator is a parameter. A body
-- is here a value of its class, so that the decorators for texts, flags, arrays and the values of
-- an enumeration have passed.
use sobkichu.Prelude.{
  ℕ, ◌*◌, Bool, true, not, ◌&&◌, Option, none, some, List, [], ◌∷◌, length, ℤ, pos, ◌≤ℤ◌, ◌≤◌, ◌≡◌,
  Result, throw_if, bad_request, Text, lit,
}
use sobkichu.Money.{Number, int}
use sobkichu.Ports.{RequestedCartLine}
use sobkichu.Payment.Webhook.{AggregatorWebhookDto}
use sobkichu.Location.{CreateLocationCommand, or_null}
use sobkichu.Catalog.Search.{SearchNearbyCommand, unit}
use sobkichu.Http.Requests.{
  RequestOtpDto, VerifyOtpDto, SwitchRoleDto, SubmitKycDto, CreateMerchantDto, CreateOrderDto,
  CreateListingDto, Request, post_otp_request, post_otp_verify, get_roles, post_roles_switch,
  post_kyc, post_merchants, post_orders, post_listings, get_nearby, post_locations, post_webhook,
}

-- `@IsUUID()`, `@IsUrl(…)` with its options, `@Length(a, b)`, `@MinLength(n)`, `@Matches(/^\d{6}$/)`,
-- `@IsISO8601()`, `@IsIn(…)`, `@IsInt()`, `@Min(n)`, `@ArrayMinSize(n)` and `@ArrayMaxSize(n)` on the
-- size of the array, `@IsLatitude()`, `@IsLongitude()`, and `@Min(n)` and `@Max(n)` on a radius.
pub record Validators : Type 0 where
  pub is_uuid : Text → Bool
  pub is_https_url : Text → Bool
  pub has_length : ℕ → ℕ → Text → Bool
  pub min_length : ℕ → Text → Bool
  pub matches_six_digits : Text → Bool
  pub is_iso8601 : Text → Bool
  pub is_in : List Text → Text → Bool
  pub is_int : Number → Bool
  pub min : ℕ → Number → Bool
  pub array_min_size : ℕ → ℕ → Bool
  pub array_max_size : ℕ → ℕ → Bool
  pub is_latitude : ℕ → Bool
  pub is_longitude : ℕ → Bool
  pub min_radius : ℕ → ℤ → Bool
  pub max_radius : ℕ → ℤ → Bool

-- What the decorators document of numbers and of the size of arrays.
pub record IsValidating (v : Validators) : Type 0 where
  pub ints : (n : Number) → v.is_int n ≡ true → (k : ℤ) × (n ≡ int k)
  pub mins : (k : ℕ) (n : ℤ) → v.min k (int n) ≡ true → pos k ≤ℤ n
  pub array_mins : (k size : ℕ) → v.array_min_size k size ≡ true → k ≤ size
  pub array_maxs : (k size : ℕ) → v.array_max_size k size ≡ true → size ≤ k
  pub radius_mins : (k : ℕ) (radius : ℤ) → v.min_radius k radius ≡ true → pos (k * unit) ≤ℤ radius
  pub radius_maxs : (k : ℕ) (radius : ℤ) → v.max_radius k radius ≡ true → radius ≤ℤ pos (k * unit)

-- `{ each: true }`
abbrev pub each : {A : Type 0} → (A → Bool) → List A → Bool
each p [] = true
each p (a ∷ rest) = p a && each p rest

-- `@IsOptional()`
abbrev pub if_given : {A : Type 0} → (A → Bool) → Option A → Bool
if_given p none = true
if_given p (some a) = p a

module _ (v : Validators) where
  abbrev pub valid_request_otp : RequestOtpDto → Bool
  valid_request_otp dto = v.has_length 10 20 dto.phone

  abbrev pub valid_verify_otp : VerifyOtpDto → Bool
  valid_verify_otp dto = v.has_length 10 20 dto.phone && v.matches_six_digits dto.code

  abbrev pub valid_switch_role : SwitchRoleDto → Bool
  valid_switch_role dto = v.is_uuid dto.role_id

  abbrev pub valid_submit_kyc : SubmitKycDto → Bool
  valid_submit_kyc dto =
      v.has_length 10 20 dto.nid_number
      && (v.array_min_size 1 (length dto.document_urls)
          && (v.array_max_size 3 (length dto.document_urls)
              && each v.is_https_url dto.document_urls))

  abbrev pub valid_create_merchant : CreateMerchantDto → Bool
  valid_create_merchant dto =
      v.is_uuid dto.pickup_location_id && v.min_length 1 dto.business_name_bn

  abbrev pub valid_line : RequestedCartLine → Bool
  valid_line line =
      v.is_uuid line.listing_id && (v.is_int (int line.quantity) && v.min 1 (int line.quantity))

  unfoldable pub valid_create_order : CreateOrderDto → Bool
  valid_create_order dto =
      v.is_uuid dto.merchant_role_id
      && (v.is_uuid dto.delivery_location_id
          && (v.array_min_size 1 (length dto.lines)
              && (v.array_max_size 50 (length dto.lines)
                  && (each valid_line dto.lines
                      && (v.is_int dto.requested_advance_poisha
                          && v.min 0 dto.requested_advance_poisha)))))

  unfoldable pub valid_create_listing : CreateListingDto → Bool
  valid_create_listing dto =
      v.is_uuid dto.category_id
      && (v.min_length 1 dto.title_bn
          && (v.is_int dto.price_bdt_poisha
              && (v.min 0 dto.price_bdt_poisha
                  && if_given (λ n. v.is_int (int n) && v.min 0 (int n)) dto.stock_qty)))

  unfoldable pub valid_search_listings : SearchNearbyCommand → Bool
  valid_search_listings dto =
      v.is_latitude dto.lat
      && (v.is_longitude dto.lng && (v.min_radius 1 dto.radius_km && v.max_radius 10 dto.radius_km))

  abbrev pub valid_create_location : CreateLocationCommand → Bool
  valid_create_location dto =
      v.min_length 1 dto.division
      && (v.min_length 1 dto.district
          && (v.min_length 1 dto.upazila_thana
              && (if_given v.is_latitude (or_null dto.lat)
                  && if_given v.is_longitude (or_null dto.lng))))

  unfoldable pub valid_webhook : AggregatorWebhookDto → Bool
  unfolding lit
  valid_webhook dto =
      v.is_uuid dto.order_id
      && (v.is_in (lit "sslcommerz" ∷ lit "shurjopay" ∷ lit "bkash" ∷ lit "nagad" ∷ [])
            dto.aggregator
          && (v.is_int dto.amount_poisha
              && (v.min 0 dto.amount_poisha && if_given v.is_iso8601 dto.occurred_at)))

  unfoldable pub valid_body : Request → Bool
  unfolding valid_create_order valid_create_listing valid_search_listings valid_webhook
  valid_body (post_otp_request dto) = valid_request_otp dto
  valid_body (post_otp_verify dto) = valid_verify_otp dto
  valid_body get_roles = true
  valid_body (post_roles_switch dto) = valid_switch_role dto
  valid_body (post_kyc dto) = valid_submit_kyc dto
  valid_body (post_merchants dto) = valid_create_merchant dto
  valid_body (post_orders dto) = valid_create_order dto
  valid_body (post_listings dto) = valid_create_listing dto
  valid_body (get_nearby dto) = valid_search_listings dto
  valid_body (post_locations dto) = valid_create_location dto
  valid_body (post_webhook request) = valid_webhook request.dto

  -- The pipe: a refused body is a bad request.
  unfoldable pub validate : Request → Result (Unit {0})
  unfolding valid_body
  validate request = throw_if (not (valid_body request)) (bad_request "Bad Request")
