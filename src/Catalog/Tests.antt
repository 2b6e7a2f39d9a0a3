-- ===== src/Catalog/Tests.antt =====
-- The merchant of the small shop publishes a listing.
use sobkichu.Database.Transaction.{execute, with_transaction}
use sobkichu.Money.{poisha_to_taka, int}
use sobkichu.Adapters.{find_location_by_id, find_merchant, resolve_cart_lines}
use sobkichu.Prelude.{
  text_eq, ◌≡◌, refl, pos, true, none, some, [], ◌∷◌, ok, err, bad_request, forbidden, Text, lit,
  arith,
}
use sobkichu.Database.{Db, ListingType, VerificationStatus}
use sobkichu.Catalog.Service.{CreateListingCommand, create_listing}
use sobkichu.Catalog.Orderable.{published_line, create_listing-resolve_cart_lines}
use sobkichu.Fixtures.{calm, shop, seller, clothing}

abbrev shawl : CreateListingCommand
shawl = record {
  owner_role_id = some (lit "m1");
  type = ListingType.product;
  category_id = lit "c1";
  title_bn = lit "Shawl";
  title_en = none;
  description_bn = none;
  description_en = none;
  price_bdt_poisha = int (pos 25050);
  ready_to_ship = true;
  stock_qty = some (pos 4);
}

abbrev stocked : Db
stocked = (create_listing calm shawl shop).1

published : create_listing calm shawl shop ≡ (ok (lit "o-1"), stocked)
unfolding create_listing lit find_merchant text_eq find_location_by_id poisha_to_taka
    with_transaction execute
published = refl

unverified :
    create_listing calm shawl
      (record shop { roles = record seller { kyc_status = VerificationStatus.pending } ∷ [] })
    ≡ (
      err (forbidden "error.catalog.merchant_not_verified"),
      record shop { roles = record seller { kyc_status = VerificationStatus.pending } ∷ [] },
    )
unfolding create_listing lit find_merchant text_eq
unverified = refl

prohibited :
    (create_listing calm shawl
      (record shop { categories = record clothing { is_restricted = true } ∷ [] })).0
    ≡ err (bad_request "error.catalog.category_prohibited")
unfolding create_listing lit find_merchant text_eq
prohibited = refl

create_listing-resolve_cart_lines_example :
    (owner : Text) × (some (lit "m1") ≡ some owner)
    × (resolve_cart_lines stocked (record { listing_id = lit "o-1"; quantity = pos 2 } ∷ [])
        ≡ ok (published_line shawl owner (lit "o-1") (pos 25050) (pos 2) ∷ []))
create_listing-resolve_cart_lines_example =
    create_listing-resolve_cart_lines calm shawl shop stocked (lit "o-1") (pos 25050) (pos 2) refl
      (ground arith) published
