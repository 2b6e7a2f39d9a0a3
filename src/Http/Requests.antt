-- ===== src/Http/Requests.antt =====
-- The bodies of the requests, as the controllers get them, and the answers. A body has been
-- validated by the decorators of its class, which are not modelled.
use sobkichu.Prelude.{ℤ, Bool, Option, List, Text}
use sobkichu.Money.{Number}
use sobkichu.Database.{ListingType, PaymentMethod}
use sobkichu.Ports.{RequestedCartLine}
use sobkichu.Order.Service.{CreatedOrder}
use sobkichu.Payment.Service.{SettlementResult}
use sobkichu.Payment.Webhook.{WebhookRequest}
use sobkichu.Identity.Users.{ActiveRole}
use sobkichu.Identity.Kyc.{SubmittedKyc}
use sobkichu.Identity.Roles.{SwitchRoleResult}
use sobkichu.Location.{CreateLocationCommand}
use sobkichu.Catalog.Search.{SearchNearbyCommand, NearbyListing}
use sobkichu.Login.Service.{RequestOtpResult, VerifyOtpResult}

pub record RequestOtpDto : Type 0 where
  pub phone : Text

pub record VerifyOtpDto : Type 0 where
  pub phone : Text
  pub code : Text

pub record SwitchRoleDto : Type 0 where
  pub role_id : Text

pub record SubmitKycDto : Type 0 where
  pub nid_number : Text
  pub document_urls : List Text

pub record CreateMerchantDto : Type 0 where
  pub pickup_location_id : Text
  pub business_name_bn : Text
  pub business_name_en : Option Text

pub record CreateOrderDto : Type 0 where
  pub merchant_role_id : Text
  pub delivery_location_id : Text
  pub payment_method : PaymentMethod
  pub lines : List RequestedCartLine
  pub requested_advance_poisha : Number

pub record CreateListingDto : Type 0 where
  pub type : ListingType
  pub category_id : Text
  pub title_bn : Text
  pub title_en : Option Text
  pub description_bn : Option Text
  pub description_en : Option Text
  pub price_bdt_poisha : Number
  pub ready_to_ship : Bool
  pub stock_qty : Option ℤ

-- A route with its body.
pub data Request : Type 0 where
  post_otp_request : RequestOtpDto → Request
  post_otp_verify : VerifyOtpDto → Request
  get_roles : Request
  post_roles_switch : SwitchRoleDto → Request
  post_kyc : SubmitKycDto → Request
  post_merchants : CreateMerchantDto → Request
  post_orders : CreateOrderDto → Request
  post_listings : CreateListingDto → Request
  get_nearby : SearchNearbyCommand → Request
  post_locations : CreateLocationCommand → Request
  post_webhook : WebhookRequest → Request

pub data Response : Type 0 where
  otp_requested : RequestOtpResult → Response
  otp_verified : VerifyOtpResult → Response
  roles_listed : List ActiveRole → Response
  role_switched : SwitchRoleResult → Response
  kyc_submitted : SubmittedKyc → Response
  merchant_created : Text → Response
  order_created : CreatedOrder → Response
  listing_created : Text → Response
  nearby_found : List NearbyListing → Response
  location_created : Text → Response
  webhook_applied : SettlementResult → Response
