-- ===== src/Database/Rows.antt =====
-- The rows of the tables, and the database as a whole.
use sobkichu.Prelude.{ℕ, ℤ, Bool, Option, List, String, Text}
use sobkichu.DeliveryClock.{Date}

-- `order_status` (api/src/order/order.repository.ts)
pub data OrderStatus : Type 0 where
  created awaiting_payment confirmed preparing ready_for_pickup in_transit : OrderStatus
  delivered cancelled refund_requested refunded : OrderStatus

pub data PaymentMethod : Type 0 where
  bkash nagad cod escrow : PaymentMethod

-- app_order
pub record OrderRow : Type 0 where
  pub id : Text
  pub customer_user_id : Text
  pub merchant_role_id : Text
  pub delivery_location_id : Text
  pub status : OrderStatus
  pub payment_method : PaymentMethod
  pub subtotal_bdt : Text
  pub delivery_fee_bdt : Text
  pub total_bdt : Text
  pub advance_amount_bdt : Text
  pub advance_cap_bdt : Text
  pub is_escrow : Bool
  pub all_items_ready_to_ship : Bool
  pub is_same_city : Bool
  pub advance_paid_at : Option Date
  pub delivery_deadline_at : Option Date

-- order_item
pub record OrderItemRow : Type 0 where
  pub order_id : Text
  pub listing_id : Text
  pub quantity : ℤ
  pub unit_price_bdt : Text
  pub ready_to_ship_at_order : Bool

-- order_status_event
pub record StatusEvent : Type 0 where
  pub order_id : Text
  pub from_status : Option OrderStatus
  pub to_status : OrderStatus
  pub actor_role_id : Option Text
  pub note_key : Option String

pub data SettlementStatus : Type 0 where
  pending authorized settled failed refunded : SettlementStatus

-- transaction; `occurred_at` is an instant of the database's clock.
pub record TransactionRow : Type 0 where
  pub id : Text
  pub order_id : Text
  pub method : PaymentMethod
  pub amount_bdt : Text
  pub status : SettlementStatus
  pub aggregator : Option Text
  pub aggregator_ref : Option Text
  pub is_advance : Bool
  pub occurred_at : ℕ
  pub settled_at : Option Date

-- `verification_status`
pub data VerificationStatus : Type 0 where
  unverified pending verified rejected : VerificationStatus

-- app_user
pub record UserRow : Type 0 where
  pub id : Text
  pub phone_e164 : Text
  pub language_preference : Text
  pub nid_number : Option Text
  pub nid_verification_status : VerificationStatus

pub data Channel : Type 0 where
  push sms : Channel

pub data NotificationStatus : Type 0 where
  pending sent failed abandoned : NotificationStatus

-- notification_outbox
pub record OutboxRow : Type 0 where
  pub id : Text
  pub user_id : Text
  pub phone_e164 : Text
  pub language : Text
  pub channel : Channel
  pub template_key : String
  pub params : List (String × Text)
  pub order_id : Option Text
  pub dedupe_key : Text
  pub status : NotificationStatus
  pub attempts : ℕ
  pub created_at : ℕ
  pub sent_at : Option ℕ
  pub last_error : Option Text

-- role; the profile is a JSON object of texts and nulls.
pub data RoleType : Type 0 where
  customer merchant rider professional : RoleType

pub record RoleRow : Type 0 where
  pub id : Text
  pub user_id : Text
  pub type : RoleType
  pub profile : List (String × Option Text)
  pub kyc_status : VerificationStatus
  pub is_active : Bool
  pub pickup_location_id : Option Text

-- kyc_submission
pub record KycSubmission : Type 0 where
  pub id : Text
  pub role_id : Text
  pub document_urls : List Text

-- A point; a coordinate is a double, which stands as the number of its 64 bits.
pub record Point : Type 0 where
  pub x : ℕ
  pub y : ℕ

-- location
pub record LocationRow : Type 0 where
  pub id : Text
  pub division : Text
  pub district : Text
  pub upazila_thana : Text
  pub union_ward : Option Text
  pub village_mohalla : Option Text
  pub address_line : Option Text
  pub geo : Option Point

-- `listing_type`
pub data ListingType : Type 0 where
  product service_slot : ListingType

-- category
pub record CategoryRow : Type 0 where
  pub id : Text
  pub is_restricted : Bool
  pub requires_dgda_licence : Bool

-- listing
pub record ListingRecord : Type 0 where
  pub id : Text
  pub owner_role_id : Text
  pub location_id : Text
  pub type : ListingType
  pub category_id : Text
  pub title_bn : Text
  pub title_en : Option Text
  pub description_bn : Option Text
  pub description_en : Option Text
  pub price_bdt : Text
  pub ready_to_ship : Bool
  pub stock_qty : Option ℤ
  pub is_active : Bool
  pub geo : Option Point

pub record Db : Type 0 where
  pub users : List UserRow
  pub roles : List RoleRow
  pub kyc_submissions : List KycSubmission
  pub locations : List LocationRow
  pub categories : List CategoryRow
  pub listings : List ListingRecord
  pub orders : List OrderRow
  pub items : List OrderItemRow
  pub events : List StatusEvent
  pub transactions : List TransactionRow
  pub outbox : List OutboxRow
