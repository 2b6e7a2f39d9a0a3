-- ===== src/Location.antt =====
-- api/src/location/location.service.ts and location.repository.ts: an address is recorded. A
-- statement on the pool is a transaction of its own.
pub mod Recorded
mod Tests
use sobkichu.Prelude.{
  ℕ, Bool, true, false, not, Option, none, some, List, [], ◌∷◌, ◌++◌, if◌then◌else◌, Result, ok,
  err, bad_request, Text,
}
use sobkichu.Database.{Db, LocationRow, Point}
use sobkichu.Database.Transaction.{Engine, M, ◌>>=◌, ◌>>◌, pure, query, execute, with_transaction}

-- A coordinate of the body: left out, an explicit null, which `@IsOptional` admits too, or a number.
pub data Coordinate : Type 0 where
  absent : Coordinate
  null : Coordinate
  given : ℕ → Coordinate

pub record CreateLocationCommand : Type 0 where
  pub division : Text
  pub district : Text
  pub upazila_thana : Text
  pub union_ward : Option Text
  pub village_mohalla : Option Text
  pub address_line : Option Text
  pub lat : Coordinate
  pub lng : Coordinate

-- `command.lat ?? null`
abbrev pub or_null : Coordinate → Option ℕ
or_null absent = none
or_null null = none
or_null (given n) = some n

-- `ST_MakePoint(lng, lat)`, which is null where a coordinate is. The cast to `geography` moves only
-- points out of the range that `@IsLatitude` and `@IsLongitude` let through.
abbrev pub make_point : Option ℕ → Option ℕ → Option Point
make_point none lat = none
make_point (some lng) none = none
make_point (some lng) (some lat) = some (record { x = lng; y = lat })

abbrev pub location_row : Text → CreateLocationCommand → LocationRow
location_row id command = record {
  id = id;
  division = command.division;
  district = command.district;
  upazila_thana = command.upazila_thana;
  union_ward = command.union_ward;
  village_mohalla = command.village_mohalla;
  address_line = command.address_line;
  geo = make_point (or_null command.lng) (or_null command.lat);
}

abbrev pub append_location : LocationRow → Db → Db
append_location row db = record db { locations = db.locations ++ row ∷ [] }

unfoldable pub insert_location : Engine → CreateLocationCommand → M Text
insert_location engine command = do
  id ← query (λ db. engine.new_id db)
  execute engine (append_location (location_row id command))
  pure id

-- `(lat === undefined) !== (lng === undefined)`
abbrev pub one_alone : Coordinate → Coordinate → Bool
one_alone absent absent = false
one_alone absent _ = true
one_alone _ absent = true
one_alone _ _ = false

unfoldable pub create_location : Engine → CreateLocationCommand → Db → Result Text × Db
unfolding insert_location
create_location engine command db =
    if one_alone command.lat command.lng
    then (err (bad_request "error.address.lat_lng_must_be_paired"), db)
    else with_transaction engine (insert_location engine command) db
