-- ===== src/Catalog/Search.antt =====
-- `searchNearby` of api/src/catalog/catalog.service.ts and catalog.repository.ts. PostGIS is a
-- parameter. A radius in kilometres is a double; those from 1 to 10 are whole numbers of its unit in
-- the last place at 1, which is 2 ^ -52, and it is counted in this unit.
use sobkichu.Prelude.{
  ℕ, zero, suc, ◌+◌, ◌*◌, ◌/◌, ◌%◌, ◌^◌, Bool, ◌&&◌, ◌||◌, Option, none, some, List, [], ◌∷◌, ltb,
  leb, ◌==◌, if◌then◌else◌, ℤ, pos, pos_part, ltb_ℤ, take, Result, ok, ◌>>=◌, ◌>>◌, throw_if,
  bad_request, Text,
}
use sobkichu.Money.{taka_to_poisha}
use sobkichu.Database.{Db, ListingType, ListingRecord, Point}

-- The distance of two points in metres, a double that is not negative and stands as the number of
-- its bits, which are ordered as the doubles are; and whether it is at most a radius, which is
-- counted in 2 ^ -52 of a metre.
pub record Geography : Type 0 where
  pub distance : Point → Point → ℕ
  pub within : Point → Point → ℕ → Bool

pub record SearchNearbyCommand : Type 0 where
  pub lat : ℕ
  pub lng : ℕ
  pub radius_km : ℤ

pub record NearbyListingRow : Type 0 where
  pub id : Text
  pub title_bn : Text
  pub title_en : Option Text
  pub price_bdt : Text
  pub ready_to_ship : Bool
  pub type : ListingType
  pub distance_m : ℕ

pub record NearbyListing : Type 0 where
  pub listing_id : Text
  pub title_bn : Text
  pub title_en : Option Text
  pub price_bdt_poisha : ℤ
  pub ready_to_ship : Bool
  pub type : ListingType
  pub distance_meters : ℕ

abbrev pub unit : ℕ
unit = 2 ^ 52

abbrev pub min_radius_km : ℕ
min_radius_km = 1

abbrev pub max_radius_km : ℕ
max_radius_km = 10

abbrev pub max_search_results : ℕ
max_search_results = 50

-- The distance of two neighbouring doubles at a number, in the same unit: the least power of two
-- that leaves 53 bits.
unfoldable pub spacing : ℕ → ℕ → ℕ → ℕ
spacing zero n step = step
spacing (suc fuel) n step =
    let wider = spacing fuel n (2 * step) in if ltb (n / step) (2 ^ 53) then step else wider

-- To the nearest multiple of the step, and halfway to the even one.
unfoldable pub round_half_even : ℕ → ℕ → ℕ
round_half_even n step =
    let q = n / step in
    let twice = 2 * (n % step) in
    if ltb twice step || (twice == step && q % 2 == 0) then q * step else (q + 1) * step

-- `radiusKm * 1000` as the product of doubles is rounded.
unfoldable pub to_metres : ℕ → ℕ
unfolding spacing round_half_even
to_metres radius = round_half_even (radius * 1000) (spacing 14 (radius * 1000) 1)

abbrev pub nearby_row : Geography → Point → ListingRecord → Point → NearbyListingRow
nearby_row geography centre listing place = record {
  id = listing.id;
  title_bn = listing.title_bn;
  title_en = listing.title_en;
  price_bdt = listing.price_bdt;
  ready_to_ship = listing.ready_to_ship;
  type = listing.type;
  distance_m = geography.distance place centre;
}

-- The WHERE clause: the point of a listing that is active, has one, and is near.
unfoldable pub match_listing : Geography → Point → ℕ → ListingRecord → Option Point
match_listing geography centre radius listing = elim listing.geo [
  | none ↦ none
  | some place ↦
      if listing.is_active && geography.within place centre radius then some place else none
]

abbrev pub add_match :
    Geography → Point → ListingRecord → Option Point → List NearbyListingRow → List NearbyListingRow
add_match geography centre listing none rows = rows
add_match geography centre listing (some place) rows =
    nearby_row geography centre listing place ∷ rows

unfoldable pub matching_rows : Geography → Point → ℕ → List ListingRecord → List NearbyListingRow
matching_rows geography centre radius [] = []
matching_rows geography centre radius (listing ∷ listings) =
    add_match geography centre listing (match_listing geography centre radius listing)
      (matching_rows geography centre radius listings)

-- `ORDER BY distance_m`; rows at one distance keep the table's order, which the statement leaves
-- open.
unfoldable pub insert_by_distance : NearbyListingRow → List NearbyListingRow → List NearbyListingRow
insert_by_distance row [] = row ∷ []
insert_by_distance row (next ∷ rows) =
    let rest = insert_by_distance row rows in
    if leb row.distance_m next.distance_m then row ∷ next ∷ rows else next ∷ rest

unfoldable pub by_distance : List NearbyListingRow → List NearbyListingRow
unfolding insert_by_distance
by_distance [] = []
by_distance (row ∷ rows) = insert_by_distance row (by_distance rows)

-- `CatalogRepository.searchNearby`
unfoldable pub nearby_rows : Geography → ℕ → ℕ → ℕ → ℕ → Db → List NearbyListingRow
unfolding matching_rows by_distance
nearby_rows geography lat lng radius limit db =
    take limit
      (by_distance (matching_rows geography (record { x = lng; y = lat }) radius db.listings))

abbrev pub nearby_listing : NearbyListingRow → ℤ → NearbyListing
nearby_listing row price = record {
  listing_id = row.id;
  title_bn = row.title_bn;
  title_en = row.title_en;
  price_bdt_poisha = price;
  ready_to_ship = row.ready_to_ship;
  type = row.type;
  distance_meters = row.distance_m;
}

unfoldable pub show_rows : List NearbyListingRow → Result (List NearbyListing)
show_rows [] = ok []
show_rows (row ∷ rows) = do
  price ← taka_to_poisha row.price_bdt
  rest ← show_rows rows
  ok (nearby_listing row price ∷ rest)

unfoldable pub search_nearby : Geography → SearchNearbyCommand → Db → Result (List NearbyListing)
unfolding nearby_rows show_rows to_metres
search_nearby geography command db = do
  throw_if
      (ltb_ℤ command.radius_km (pos (min_radius_km * unit))
        || ltb_ℤ (pos (max_radius_km * unit)) command.radius_km)
      (bad_request "error.catalog.radius_out_of_range")
  show_rows (
      nearby_rows geography command.lat command.lng (to_metres (pos_part command.radius_km))
        max_search_results db)
