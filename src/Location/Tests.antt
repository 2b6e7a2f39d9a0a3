-- ===== src/Location/Tests.antt =====
-- A new address of the small shop.
use sobkichu.Prelude.{◌≡◌, refl, none, some, ok, err, bad_request, lit}
use sobkichu.Database.Transaction.{execute, with_transaction}
use sobkichu.Database.{Db}
use sobkichu.Location.{absent, null, given, CreateLocationCommand, create_location}
use sobkichu.Fixtures.{calm, shop}

abbrev flat : CreateLocationCommand
flat = record {
  division = lit "Dhaka";
  district = lit "Dhaka";
  upazila_thana = lit "Mirpur";
  union_ward = none;
  village_mohalla = none;
  address_line = some (lit "House 7");
  lat = given 23;
  lng = given 90;
}

abbrev moved : Db
moved = (create_location calm flat shop).1

-- A null is not absent: it passes for a coordinate, and no point is stored.
null_fix : (create_location calm (record flat { lng = null }) shop).0 ≡ ok (lit "o-1")
unfolding create_location with_transaction execute
null_fix = refl

half_fix :
    create_location calm (record flat { lng = absent }) shop
    ≡ (err (bad_request "error.address.lat_lng_must_be_paired"), shop)
unfolding create_location
half_fix = refl
