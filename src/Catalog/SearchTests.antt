-- ===== src/Catalog/SearchTests.antt =====
-- A search on a line.
use sobkichu.Prelude.{
  ℕ, ◌≤◌, ◌+◌, ◌*◌, pad_end, value, any_char, is_space, trim, is_digits, ◌≡◌, refl, true, false,
  ◌-◌, leb, pos, none, some, [], ◌∷◌, ok, err, bad_request, List, lit, ◌≤ℤ◌,
}
use sobkichu.Money.{taka_to_poisha}
use sobkichu.Catalog.Search.{
  match_listing, Geography, SearchNearbyCommand, NearbyListingRow, NearbyListing, unit, to_metres,
  search_nearby,
}
use sobkichu.Database.{Db, ListingType}
use sobkichu.Catalog.Shown.{IsShown}
use sobkichu.Catalog.Nearest.{IsNearest, search_nearby-IsNearest}
use sobkichu.Fixtures.{shop, saree, made_to_order}

-- 1.1 * 1000 is 1100 in doubles, though the nearest double to 1.1 is above it.
to_metres_rounds : to_metres 4953959590107546 ≡ 1100 * unit
unfolding to_metres
to_metres_rounds = refl

abbrev line : Geography
line = record {
  distance = λ p q. (p.x - q.x) + (q.x - p.x);
  within = λ p q radius. leb (((p.x - q.x) + (q.x - p.x)) * unit) radius;
}

-- One listing at 900 metres, one at 400, and one without a point.
abbrev street : Db
street = record shop {
  listings =
      record saree { geo = some (record { x = 1900; y = 0 }) }
      ∷ record made_to_order { geo = some (record { x = 1400; y = 0 }) }
      ∷ saree
      ∷ [];
}

abbrev nearby : SearchNearbyCommand
nearby = record { lat = 0; lng = 1000; radius_km = pos unit }

abbrev found : List NearbyListing
found =
    record {
      listing_id = lit "s2";
      title_bn = lit "Saree";
      title_en = none;
      price_bdt_poisha = pos 99999;
      ready_to_ship = false;
      type = ListingType.product;
      distance_meters = 400;
    }
    ∷ record {
      listing_id = lit "s1";
      title_bn = lit "Saree";
      title_en = none;
      price_bdt_poisha = pos 150000;
      ready_to_ship = true;
      type = ListingType.product;
      distance_meters = 900;
    }
    ∷ []

too_far :
    search_nearby line (record nearby { radius_km = pos (11 * unit) }) street
    ≡ err (bad_request "error.catalog.radius_out_of_range")
unfolding search_nearby
too_far = refl

search_run : search_nearby line nearby street ≡ ok found
unfolding search_nearby match_listing taka_to_poisha is_digits trim lit is_space any_char value
    pad_end
search_run = refl

search_nearby-IsNearest_example :
    (pos unit ≤ℤ pos unit)
    × (pos unit ≤ℤ pos (10 * unit))
    × ((metres : ℕ) × (rows : List NearbyListingRow) × (unit * 1000 ≤ metres + 4096)
        × (metres ≤ unit * 1000 + 4096)
        × IsNearest line (record { x = 1000; y = 0 }) metres street.listings rows
        × IsShown rows found)
search_nearby-IsNearest_example = search_nearby-IsNearest line nearby street found search_run
