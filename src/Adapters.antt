-- ===== src/Adapters.antt =====
-- The adapters behind the ports of order creation: api/src/catalog/catalog.adapter.ts with the query
-- of catalog.repository.ts, api/src/identity/merchant.adapter.ts and
-- api/src/location/location.adapter.ts.
mod Tests
use sobkichu.Prelude.{
  ℕ, ◌≡◌, refl, arith, Bool, true, false, ◌&&◌, ◌||◌, Bool-cases, Option-cases, inl, inr, Option,
  none, some, List, [], ◌∷◌, ap, map, if◌then◌else◌, ℤ, Result, Result-cases, ok, err, ◌>>=◌,
  or_throw, >>=-eq-ok, Exception, not_found, String, Text, text_eq, text_eq_iff,
}
use sobkichu.Money.{taka_to_poisha}
use sobkichu.Database.{
  Db, ListingRecord, CategoryRow, RoleRow, RoleType, VerificationStatus, LocationRow, Point,
}
use sobkichu.DeliveryClock.{DistrictRef}
use sobkichu.Ports.{
  Ports, ResolvedCartLine, RequestedCartLine, MerchantSummary, requested_item, resolved_item,
}

unfoldable pub includes_id : Text → List Text → Bool
includes_id id [] = false
includes_id id (x ∷ ids) = text_eq x id || includes_id id ids

unfoldable pub find_category_row : Text → List CategoryRow → Option CategoryRow
find_category_row id [] = none
find_category_row id (row ∷ rows) =
    if text_eq row.id id then some row else find_category_row id rows

-- A row of `listing l JOIN category c ON c.id = l.category_id`.
pub record ListingRow : Type 0 where
  pub id : Text
  pub owner_role_id : Text
  pub price_bdt : Text
  pub ready_to_ship : Bool
  pub stock_qty : Option ℤ
  pub is_active : Bool
  pub category_restricted : Bool
  pub category_requires_dgda_licence : Bool

abbrev pub joined_row : ListingRecord → CategoryRow → ListingRow
joined_row listing category = record {
  id = listing.id;
  owner_role_id = listing.owner_role_id;
  price_bdt = listing.price_bdt;
  ready_to_ship = listing.ready_to_ship;
  stock_qty = listing.stock_qty;
  is_active = listing.is_active;
  category_restricted = category.is_restricted;
  category_requires_dgda_licence = category.requires_dgda_licence;
}

-- `WHERE l.id = ANY($1)`; a listing without a category is not joined.
unfoldable pub find_by_ids : List Text → List CategoryRow → List ListingRecord → List ListingRow
unfolding includes_id find_category_row
find_by_ids ids categories [] = []
find_by_ids ids categories (listing ∷ listings) =
    let rest = find_by_ids ids categories listings in
    if includes_id listing.id ids
    then elim (find_category_row listing.category_id categories) [
      | some category ↦ joined_row listing category ∷ rest
      | none ↦ rest
    ]
    else rest

-- `new Map(rows.map((row) => [row.id, row])).get(id)`: a later row replaces an earlier one.
unfoldable pub by_id : Text → List ListingRow → Option ListingRow
by_id id [] = none
by_id id (row ∷ rows) = elim (by_id id rows) [
  | some later ↦ some later
  | none ↦ if text_eq row.id id then some row else none
]

unfoldable pub resolve_line : RequestedCartLine → Option ListingRow → Result ResolvedCartLine
resolve_line line none = err (not_found "error.checkout.listing_not_found")
resolve_line line (some row) = do
  price ← taka_to_poisha row.price_bdt
  ok (record {
    listing_id = row.id;
    quantity = line.quantity;
    unit_price = price;
    ready_to_ship = row.ready_to_ship;
    merchant_role_id = row.owner_role_id;
    category_restricted = row.category_restricted;
    category_requires_dgda_licence = row.category_requires_dgda_licence;
    stock_qty = row.stock_qty;
    is_active = row.is_active;
  })

unfoldable pub resolve_lines :
    List ListingRow → List RequestedCartLine → Result (List ResolvedCartLine)
unfolding resolve_line by_id
resolve_lines rows [] = ok []
resolve_lines rows (line ∷ lines) = do
  first ← resolve_line line (by_id line.listing_id rows)
  rest ← resolve_lines rows lines
  ok (first ∷ rest)

-- `CatalogAdapter.resolveCartLines`
unfoldable pub resolve_cart_lines : Db → List RequestedCartLine → Result (List ResolvedCartLine)
unfolding resolve_lines find_by_ids
resolve_cart_lines db lines =
    resolve_lines (find_by_ids (map (λ line. line.listing_id) lines) db.categories db.listings)
      lines

abbrev pub is_merchant : RoleType → Bool
is_merchant RoleType.merchant = true
is_merchant _ = false

abbrev pub is_verified : VerificationStatus → Bool
is_verified VerificationStatus.verified = true
is_verified _ = false

unfoldable pub find_merchant_role : Text → List RoleRow → Option RoleRow
find_merchant_role id [] = none
find_merchant_role id (row ∷ rows) =
    if text_eq row.id id && is_merchant row.type then some row else find_merchant_role id rows

-- `MerchantAdapter.findMerchant`
unfoldable pub find_merchant : Db → Text → Result MerchantSummary
unfolding find_merchant_role
find_merchant db role_id = do
  row ←
      or_throw (find_merchant_role role_id db.roles) (not_found "error.checkout.merchant_not_found")
  ok (record {
    role_id = row.id;
    kyc_verified = is_verified row.kyc_status;
    is_active = row.is_active;
    pickup_location_id = row.pickup_location_id;
  })

unfoldable pub find_location_row : Text → List LocationRow → Option LocationRow
find_location_row id [] = none
find_location_row id (row ∷ rows) =
    if text_eq row.id id then some row else find_location_row id rows

pub record ResolvedLocation : Type 0 where
  pub id : Text
  pub division : Text
  pub district : Text
  pub upazila_thana : Text
  pub union_ward : Option Text
  pub village_mohalla : Option Text
  pub address_line : Option Text
  pub has_geo : Bool
  pub lat : Option ℕ
  pub lng : Option ℕ

-- `geo IS NOT NULL`, `ST_Y(geo)` and `ST_X(geo)`.
abbrev pub geo_given : Option Point → Bool
geo_given none = false
geo_given (some point) = true

abbrev pub point_y : Option Point → Option ℕ
point_y none = none
point_y (some point) = some point.y

abbrev pub point_x : Option Point → Option ℕ
point_x none = none
point_x (some point) = some point.x

abbrev pub resolved_location : LocationRow → ResolvedLocation
resolved_location row = record {
  id = row.id;
  division = row.division;
  district = row.district;
  upazila_thana = row.upazila_thana;
  union_ward = row.union_ward;
  village_mohalla = row.village_mohalla;
  address_line = row.address_line;
  has_geo = geo_given row.geo;
  lat = point_y row.geo;
  lng = point_x row.geo;
}

-- `LocationAdapter.findById`
unfoldable pub find_location_by_id : Db → Text → Result ResolvedLocation
unfolding find_location_row
find_location_by_id db id = do
  row ← or_throw (find_location_row id db.locations) (not_found "error.address.not_found")
  ok (resolved_location row)

-- The same, of which order creation uses the district.
unfoldable pub find_location : Db → Text → Result DistrictRef
unfolding find_location_by_id
find_location db id = do
  location ← find_location_by_id db id
  ok (record { division = location.division; district = location.district })

by_id-id :
    (id : Text) (rows : List ListingRow) (row : ListingRow) → by_id id rows ≡ some row → row.id ≡ id
unfolding by_id
by_id-id id [] row h = cc
by_id-id id (r ∷ rows) row h = elim (Option-cases (by_id id rows)) [
  | inl last ↦ ground (arith, text_eq_iff r.id id)
  | inr (later, found) ↦ ground (arith, by_id-id id rows later found)
]

resolve_line-item :
    (rows : List ListingRow) (line : RequestedCartLine) (resolved : ResolvedCartLine)
    → resolve_line line (by_id line.listing_id rows) ≡ ok resolved
    → resolved_item resolved ≡ requested_item line
unfolding resolve_line
resolve_line-item rows line resolved h = elim (Option-cases (by_id line.listing_id rows)) [
  | inl missing ↦ ground arith
  | inr (row, found) ↦ ground (arith, by_id-id line.listing_id rows row found)
]

resolve_lines-items :
    (rows : List ListingRow) (lines : List RequestedCartLine) (resolved : List ResolvedCartLine)
    → resolve_lines rows lines ≡ ok resolved
    → map resolved_item resolved ≡ map requested_item lines
unfolding resolve_lines
resolve_lines-items rows [] resolved h = let same : resolved ≡ [] = ground arith in rw same
resolve_lines-items rows (line ∷ lines) resolved h =
    let (first, one, more) = >>=-eq-ok (resolve_line line (by_id line.listing_id rows)) _ h in
    let (rest, others, done) = >>=-eq-ok (resolve_lines rows lines) _ more in
    let whole : resolved ≡ first ∷ rest = ground arith in
    rw (whole, resolve_line-item rows line first one, resolve_lines-items rows lines rest others)

-- The catalogue resolves a cart in the order of the request, with the requested listings and
-- quantities, and drops no line: the promise of the port.
pub resolve_cart_lines-in_order :
    (db : Db) (lines : List RequestedCartLine) (resolved : List ResolvedCartLine)
    → resolve_cart_lines db lines ≡ ok resolved
    → map resolved_item resolved ≡ map requested_item lines
unfolding resolve_cart_lines
resolve_cart_lines-in_order db lines resolved h =
    resolve_lines-items
      (find_by_ids (map (λ line. line.listing_id) lines) db.categories db.listings) lines resolved h

-- The adapters as the ports of order creation.
abbrev pub ports : Ports
ports = record {
  resolve_cart_lines = resolve_cart_lines;
  find_merchant = find_merchant;
  find_location = find_location;
  resolves_in_order = resolve_cart_lines-in_order;
}
