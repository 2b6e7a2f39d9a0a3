-- ===== src/Catalog/Repository.antt =====
-- api/src/catalog/catalog.repository.ts: `findCategory` and `insertListing`.
use sobkichu.Prelude.{ℕ, ℤ, Bool, true, Option, [], ◌∷◌, ◌++◌, Text}
use sobkichu.Database.{Db, ListingType, CategoryRow, ListingRecord}
use sobkichu.Database.Transaction.{Engine, M, ◌>>=◌, ◌>>◌, pure, query, execute}
use sobkichu.Adapters.{find_category_row}
use sobkichu.Location.{make_point}

pub record NewListingRecord : Type 0 where
  pub owner_role_id : Text
  pub location_id : Text
  pub type : ListingType
  pub category_id : Text
  pub title_bn : Text
  pub title_en : Option Text
  pub description_bn : Option Text
  pub description_en : Option Text
  pub price_bdt : Text
  pub ready_to_ship : Bool
  pub stock_qty : Option ℤ
  pub lat : Option ℕ
  pub lng : Option ℕ

unfoldable pub find_category : Text → Db → Option CategoryRow
unfolding find_category_row
find_category id db = find_category_row id db.categories

abbrev pub listing_row : Text → NewListingRecord → ListingRecord
listing_row id new = record {
  id = id;
  owner_role_id = new.owner_role_id;
  location_id = new.location_id;
  type = new.type;
  category_id = new.category_id;
  title_bn = new.title_bn;
  title_en = new.title_en;
  description_bn = new.description_bn;
  description_en = new.description_en;
  price_bdt = new.price_bdt;
  ready_to_ship = new.ready_to_ship;
  stock_qty = new.stock_qty;
  is_active = true;
  geo = make_point new.lng new.lat;
}

abbrev pub append_listing : ListingRecord → Db → Db
append_listing row db = record db { listings = db.listings ++ row ∷ [] }

unfoldable pub insert_listing : Engine → NewListingRecord → M Text
insert_listing engine new = do
  id ← query (λ db. engine.new_id db)
  execute engine (append_listing (listing_row id new))
  pure id
