-- ===== src/Catalog/Shown.antt =====
-- How the rows of a search are answered.
use sobkichu.Prelude.{◌≡◌, List, [], ◌∷◌, ok, >>=-eq-ok, ℤ}
use sobkichu.Money.{taka_to_poisha}
use sobkichu.Catalog.Search.{NearbyListingRow, NearbyListing, show_rows}

-- An answer for each row, in their order, with the row's price in poisha.
abbrev pub IsShown : List NearbyListingRow → List NearbyListing → Type 0
IsShown [] answer = answer ≡ []
IsShown (row ∷ rows) answer =
    (price : ℤ) × (rest : List NearbyListing) × (taka_to_poisha row.price_bdt ≡ ok price)
    × (answer
        ≡ record {
          listing_id = row.id;
          title_bn = row.title_bn;
          title_en = row.title_en;
          price_bdt_poisha = price;
          ready_to_ship = row.ready_to_ship;
          type = row.type;
          distance_meters = row.distance_m;
        }
          ∷ rest)
    × IsShown rows rest

the_list : {xs ys : List NearbyListing} → ok xs ≡ ok ys → ys ≡ xs
the_list h = cc

pub show_rows-IsShown :
    (rows : List NearbyListingRow) (answer : List NearbyListing)
    → show_rows rows ≡ ok answer
    → IsShown rows answer
unfolding show_rows
show_rows-IsShown [] answer h = the_list h
show_rows-IsShown (row ∷ rows) answer h =
    let (price, reads, h1) = >>=-eq-ok (taka_to_poisha row.price_bdt) _ h in
    let (rest, shown, last) = >>=-eq-ok (show_rows rows) _ h1 in
    (price, rest, reads, the_list last, show_rows-IsShown rows rest shown)
