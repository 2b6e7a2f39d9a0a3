-- ===== src/Ports.antt =====
-- api/src/common/ports: what order creation may ask of the catalogue, the merchants and the
-- locations. Each answer is read from the database, outside the order's transaction.
use sobkichu.Prelude.{◌≡◌, Bool, Option, List, map, ℤ, Result, ok, Text}
use sobkichu.Database.{Db}
use sobkichu.DeliveryClock.{DistrictRef}

pub record ResolvedCartLine : Type 0 where
  pub listing_id : Text
  pub quantity : ℤ
  pub unit_price : ℤ
  pub ready_to_ship : Bool
  pub merchant_role_id : Text
  pub category_restricted : Bool
  pub category_requires_dgda_licence : Bool
  pub stock_qty : Option ℤ
  pub is_active : Bool

pub record RequestedCartLine : Type 0 where
  pub listing_id : Text
  pub quantity : ℤ

pub record MerchantSummary : Type 0 where
  pub role_id : Text
  pub kyc_verified : Bool
  pub is_active : Bool
  pub pickup_location_id : Option Text

-- The listing and the quantity of a line, as requested and as resolved.
abbrev pub requested_item : RequestedCartLine → Text × ℤ
requested_item line = (line.listing_id, line.quantity)

abbrev pub resolved_item : ResolvedCartLine → Text × ℤ
resolved_item line = (line.listing_id, line.quantity)

-- The ports, and what their documentation promises of the catalogue: lines come back in the order
-- of the request, none dropped. Of a location, order creation uses the district.
pub record Ports : Type 0 where
  pub resolve_cart_lines : Db → List RequestedCartLine → Result (List ResolvedCartLine)
  pub find_merchant : Db → Text → Result MerchantSummary
  pub find_location : Db → Text → Result DistrictRef
  pub resolves_in_order :
      (db : Db) (lines : List RequestedCartLine) (resolved : List ResolvedCartLine)
      → resolve_cart_lines db lines ≡ ok resolved
      → map resolved_item resolved ≡ map requested_item lines
