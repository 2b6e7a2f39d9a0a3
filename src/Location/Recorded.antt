-- ===== src/Location/Recorded.antt =====
-- An address after it is recorded.
use sobkichu.Prelude.{ℕ, Bool, true, false, Option, none, some, Text}
use sobkichu.Adapters.{ResolvedLocation}
use sobkichu.Location.{Coordinate, given, CreateLocationCommand}

-- The coordinates that an address has: both of the command's numbers, or none.
abbrev pub paired : Coordinate → Coordinate → Option (ℕ × ℕ)
paired (given lat) (given lng) = some (lat, lng)
paired _ _ = none

abbrev pub at_point : Option (ℕ × ℕ) → Bool × Option ℕ × Option ℕ
at_point none = (false, none, none)
at_point (some (lat, lng)) = (true, some lat, some lng)

-- What the command says of the address.
abbrev pub as_commanded : Text → CreateLocationCommand → ResolvedLocation
as_commanded id command = record {
  id = id;
  division = command.division;
  district = command.district;
  upazila_thana = command.upazila_thana;
  union_ward = command.union_ward;
  village_mohalla = command.village_mohalla;
  address_line = command.address_line;
  has_geo = (at_point (paired command.lat command.lng)).0;
  lat = (at_point (paired command.lat command.lng)).1;
  lng = (at_point (paired command.lat command.lng)).2;
}
