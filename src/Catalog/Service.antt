-- ===== src/Catalog/Service.antt =====
-- api/src/catalog/catalog.service.ts, `createListing`.
use sobkichu.Prelude.{
  truthy, Bool, not, Option, none, some, ℤ, Result, ok, err, ◌>>=◌, ◌>>◌, or_throw, throw_if,
  bad_request, forbidden, Text,
}
use sobkichu.Money.{Number, poisha_to_taka}
use sobkichu.Database.{Db, ListingType, CategoryRow}
use sobkichu.Database.Transaction.{Engine, with_transaction}
use sobkichu.Ports.{MerchantSummary}
use sobkichu.Adapters.{find_merchant, ResolvedLocation, find_location_by_id}
use sobkichu.Catalog.Repository.{NewListingRecord, find_category, insert_listing}

pub record CreateListingCommand : Type 0 where
  pub owner_role_id : Option Text
  pub type : ListingType
  pub category_id : Text
  pub title_bn : Text
  pub title_en : Option Text
  pub description_bn : Option Text
  pub description_en : Option Text
  pub price_bdt_poisha : Number
  pub ready_to_ship : Bool
  pub stock_qty : Option ℤ

-- A service slot has no stock.
abbrev pub stock_of : ListingType → Option ℤ → Option ℤ
stock_of ListingType.service_slot stock_qty = none
stock_of ListingType.product stock_qty = stock_qty

abbrev pub new_listing :
    CreateListingCommand → Text → Text → Text → ResolvedLocation → NewListingRecord
new_listing command owner_role_id location_id price location = record {
  owner_role_id = owner_role_id;
  location_id = location_id;
  type = command.type;
  category_id = command.category_id;
  title_bn = command.title_bn;
  title_en = command.title_en;
  description_bn = command.description_bn;
  description_en = command.description_en;
  price_bdt = price;
  ready_to_ship = command.ready_to_ship;
  stock_qty = stock_of command.type command.stock_qty;
  lat = location.lat;
  lng = location.lng;
}

-- Step 1: the merchant's pickup location, if the merchant may publish.
unfoldable pub check_merchant : MerchantSummary → Result Text
unfolding truthy
check_merchant merchant = do
  throw_if (not merchant.is_active) (bad_request "error.catalog.merchant_unavailable")
  throw_if (not merchant.kyc_verified) (forbidden "error.catalog.merchant_not_verified")
  or_throw (truthy merchant.pickup_location_id)
      (bad_request "error.catalog.merchant_no_pickup_address")

-- Step 2.
unfoldable pub check_category : Option CategoryRow → Result (Unit {0})
check_category none = err (bad_request "error.catalog.category_not_found")
check_category (some category) = do
  throw_if category.is_restricted (bad_request "error.catalog.category_prohibited")
  throw_if category.requires_dgda_licence (bad_request "error.catalog.category_requires_licence")

-- All that comes ahead of the insertion.
unfoldable pub prepare : Db → CreateListingCommand → Result NewListingRecord
unfolding check_merchant check_category find_category
prepare db command = do
  owner ← or_throw (truthy command.owner_role_id) (bad_request "error.catalog.no_active_role")
  merchant ← find_merchant db owner
  place ← check_merchant merchant
  check_category (find_category command.category_id db)
  location ← find_location_by_id db place
  price ← poisha_to_taka command.price_bdt_poisha
  ok (new_listing command owner place price location)

unfoldable pub create_listing : Engine → CreateListingCommand → Db → Result Text × Db
unfolding prepare insert_listing
create_listing engine command db = elim (prepare db command) [
  | err e ↦ (err e, db)
  | ok new ↦ with_transaction engine (insert_listing engine new) db
]
