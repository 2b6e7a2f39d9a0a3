-- ===== src/Catalog/Orderable.antt =====
-- A published listing in an order.
use sobkichu.Prelude.{
  ◌<◌, ◌≡◌, refl, sym, ap, ◌∙◌, subst, true, false, ◌||◌, inl, inr, some, List, [], ◌∷◌, ◌++◌, ℤ,
  ok, Text, text_eq, text_eq_iff, text_eq_refl, Bool-cases, Option-cases,
}
use sobkichu.Money.{int, absolute, poisha_to_taka, taka_to_poisha}
use sobkichu.Money.RoundTrip.{taka_to_poisha-poisha_to_taka}
use sobkichu.Database.{Db, CategoryRow, ListingRecord}
use sobkichu.Database.Transaction.{Engine}
use sobkichu.Ports.{ResolvedCartLine, RequestedCartLine}
use sobkichu.Adapters.{
  find_category_row, ListingRow, joined_row, includes_id, find_by_ids, by_id, resolve_line,
  resolve_lines, resolve_cart_lines,
}
use sobkichu.Catalog.Repository.{NewListingRecord, find_category, listing_row, append_listing}
use sobkichu.Catalog.Service.{CreateListingCommand, stock_of, new_listing, create_listing}
use sobkichu.Catalog.Published.{IsPrepared, create_listing_prepared}

by_id_last :
    (id : Text) (rows : List ListingRow) (row : ListingRow)
    → row.id ≡ id
    → by_id id (rows ++ row ∷ []) ≡ some row
unfolding by_id
by_id_last id [] row same = rw (same, text_eq_refl id) refl
by_id_last id (r ∷ rows) row same = rw (by_id_last id rows row same) refl

find_by_ids_last :
    (id : Text) (categories : List CategoryRow) (listings : List ListingRecord)
    (last : ListingRecord) (category : CategoryRow)
    → last.id ≡ id
    → find_category_row last.category_id categories ≡ some category
    → find_by_ids (id ∷ []) categories (listings ++ last ∷ [])
      ≡ find_by_ids (id ∷ []) categories listings ++ joined_row last category ∷ []
unfolding find_by_ids includes_id
find_by_ids_last id categories [] last category same listed =
    let asked = (text_eq_iff id last.id).1 (sym same) in rw (asked, listed) refl
find_by_ids_last id categories (r ∷ listings) last category same listed =
    let rest = find_by_ids_last id categories listings last category same listed in
    elim (Bool-cases (text_eq id r.id || false)) [
      | inl asked ↦ elim (Option-cases (find_category_row r.category_id categories)) [
        | inl missing ↦ rw (asked, missing) rest
        | inr (c, found) ↦ rw (asked, found) (ap (λ rows. joined_row r c ∷ rows) rest)
      ]
      | inr other ↦ rw other rest
    ]

-- The line that an order gets for the new listing.
abbrev pub published_line : CreateListingCommand → Text → Text → ℤ → ℤ → ResolvedCartLine
published_line command owner id price quantity = record {
  listing_id = id;
  quantity = quantity;
  unit_price = price;
  ready_to_ship = command.ready_to_ship;
  merchant_role_id = owner;
  category_restricted = false;
  category_requires_dgda_licence = false;
  stock_qty = stock_of command.type command.stock_qty;
  is_active = true;
}

line_resolved :
    (rows : List ListingRow) (row : ListingRow) (line : RequestedCartLine) (price : ℤ)
    → by_id line.listing_id rows ≡ some row
    → taka_to_poisha row.price_bdt ≡ ok price
    → resolve_lines rows (line ∷ [])
      ≡ ok (
          record {
            listing_id = row.id;
            quantity = line.quantity;
            unit_price = price;
            ready_to_ship = row.ready_to_ship;
            merchant_role_id = row.owner_role_id;
            category_restricted = row.category_restricted;
            category_requires_dgda_licence = row.category_requires_dgda_licence;
            stock_qty = row.stock_qty;
            is_active = row.is_active;
          }
          ∷ [])
unfolding resolve_lines resolve_line
line_resolved rows row line price found reads = rw (found, reads) refl

resolved_last :
    (command : CreateListingCommand) (db : Db) (new : NewListingRecord) (id : Text)
    (price quantity : ℤ) (publishable : IsPrepared db command new)
    → taka_to_poisha publishable.gates.price ≡ ok price
    → resolve_cart_lines
        (append_listing (listing_row id new) db)
        (record { listing_id = id; quantity = quantity } ∷ [])
      ≡ ok (published_line command publishable.gates.owner id price quantity ∷ [])
unfolding resolve_cart_lines find_category
resolved_last command db new id price quantity publishable reads =
    let made =
      new_listing command publishable.gates.owner publishable.gates.place publishable.gates.price
        publishable.gates.location in
    let last = listing_row id made in
    let rows = find_by_ids (id ∷ []) db.categories db.listings in
    let row = joined_row last publishable.gates.category in
    let found =
      ap (by_id id) (
        find_by_ids_last id db.categories db.listings last publishable.gates.category refl
          publishable.gates.listed)
      ∙ by_id_last id rows row refl in
    subst
      (λ n.
        resolve_cart_lines (append_listing (listing_row id n) db)
          (record { listing_id = id; quantity = quantity } ∷ [])
        ≡ ok (published_line command publishable.gates.owner id price quantity ∷ []))
      (sym publishable.is_new)
      (line_resolved (find_by_ids (id ∷ []) db.categories (db.listings ++ last ∷ [])) row
          (record { listing_id = id; quantity = quantity }) price found reads
        ∙ rw (publishable.gates.allowed, publishable.gates.unlicensed) refl)

the_text : {s t : Text} → ok s ≡ ok t → s ≡ t
the_text h = cc

-- A listing that is published at a price of at most twelve digits in poisha is the one that an
-- order for its id resolves to: with that price exactly, the caller's role as its merchant, and a
-- category that the order does not refuse.
pub create_listing-resolve_cart_lines :
    (engine : Engine) (command : CreateListingCommand) (db db' : Db) (id : Text)
    (price quantity : ℤ)
    → command.price_bdt_poisha ≡ int price
    → absolute price < 1000000000000
    → create_listing engine command db ≡ (ok id, db')
    → (owner : Text) × (command.owner_role_id ≡ some owner)
      × (resolve_cart_lines db' (record { listing_id = id; quantity = quantity } ∷ [])
          ≡ ok (published_line command owner id price quantity ∷ []))
create_listing-resolve_cart_lines engine command db db' id price quantity whole bounded h =
    elim (create_listing_prepared engine command db db' (ok id) h) [
      | inl ((e, thrown), _) ↦ absurd (cc)
      | inr (new, publishable, returned, left) ↦
          let (text, prints, reads) = taka_to_poisha-poisha_to_taka price bounded in
          let same =
            the_text (sym prints ∙ ap poisha_to_taka (sym whole) ∙ publishable.gates.priced) in
          (
            publishable.gates.owner,
            publishable.gates.acting,
            subst
                (λ i.
                  resolve_cart_lines db' (record { listing_id = i; quantity = quantity } ∷ [])
                  ≡ ok (published_line command publishable.gates.owner i price quantity ∷ []))
                (sym (the_text returned))
                (subst
                  (λ d.
                    resolve_cart_lines d
                      (record { listing_id = engine.new_id db; quantity = quantity } ∷ [])
                    ≡ ok (
                        published_line command publishable.gates.owner (engine.new_id db) price
                          quantity
                        ∷ []))
                  (sym left)
                  (resolved_last command db new (engine.new_id db) price quantity publishable
                    (ap taka_to_poisha (sym same) ∙ reads))),
          )
    ]
