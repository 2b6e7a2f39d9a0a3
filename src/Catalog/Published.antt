-- ===== src/Catalog/Published.antt =====
-- Who can publish what, and what a publication leaves.
use sobkichu.Prelude.{
  ◌≢◌, [], ◌∷◌, ◌++◌, ℕ, ℤ, is_empty, truthy-some, ◌≡◌, refl, sym, ap, ◌∙◌, Bool, true, false, not,
  ◌⊎◌, inl, inr, Option, none, some, Result, ok, err, Exception, >>=-eq-ok, or_throw-eq-ok,
  throw_if-eq-ok, throw_if-next, Text, arith,
}
use sobkichu.Money.{poisha_to_taka}
use sobkichu.Database.{Db, CategoryRow, ListingType, Point}
use sobkichu.Location.{make_point}
use sobkichu.Database.Transaction.{
  Engine, execute, execute-eq-ok, bind-eq-ok, with_transaction, with_transaction_atomic,
}
use sobkichu.Ports.{MerchantSummary}
use sobkichu.Adapters.{find_merchant, ResolvedLocation, find_location_by_id}
use sobkichu.Catalog.Repository.{
  NewListingRecord, find_category, listing_row, append_listing, insert_listing,
}
use sobkichu.Catalog.Service.{
  CreateListingCommand, new_listing, stock_of, check_merchant, check_category, prepare,
  create_listing,
}

-- What the gates of a publication let through.
pub record IsPublishable (db : Db) (command : CreateListingCommand) : Type 0 where
  pub owner : Text
  pub acting : command.owner_role_id ≡ some owner
  pub merchant : MerchantSummary
  pub found : find_merchant db owner ≡ ok merchant
  pub active : merchant.is_active ≡ true
  pub verified : merchant.kyc_verified ≡ true
  pub place : Text
  pub picks_up : merchant.pickup_location_id ≡ some place
  pub place_given : place ≢ []
  pub category : CategoryRow
  pub listed : find_category command.category_id db ≡ some category
  pub allowed : category.is_restricted ≡ false
  pub unlicensed : category.requires_dgda_licence ≡ false
  pub location : ResolvedLocation
  pub located : find_location_by_id db place ≡ ok location
  pub price : Text
  pub priced : poisha_to_taka command.price_bdt_poisha ≡ ok price

-- The record that is inserted, behind the gates.
pub record IsPrepared (db : Db) (command : CreateListingCommand) (new : NewListingRecord)
    : Type 0 where
  pub gates : IsPublishable db command
  pub is_new : new ≡ new_listing command gates.owner gates.place gates.price gates.location

-- The stock that is stored: a service slot has none.
abbrev pub IsStocked : ListingType → Option ℤ → Option ℤ → Type 0
IsStocked ListingType.product given stored = stored ≡ given
IsStocked ListingType.service_slot given stored = stored ≡ none

-- The point that is stored: that of the pickup address, if it has both coordinates.
abbrev pub IsPlaced : Option ℕ → Option ℕ → Option Point → Type 0
IsPlaced (some lat) (some lng) geo = geo ≡ some (record { x = lng; y = lat })
IsPlaced _ _ geo = geo ≡ none

-- What a publication leaves: one more listing, as the command says.
pub record IsPublished (engine : Engine) (command : CreateListingCommand) (db db' : Db)
    : Type 0 where
  pub gates : IsPublishable db command
  pub stock : Option ℤ
  pub stocked : IsStocked command.type command.stock_qty stock
  pub geo : Option Point
  pub placed : IsPlaced gates.location.lat gates.location.lng geo
  pub stored : db' ≡ record db {
    listings =
        db.listings
        ++ record {
          id = engine.new_id db;
          owner_role_id = gates.owner;
          location_id = gates.place;
          type = command.type;
          category_id = command.category_id;
          title_bn = command.title_bn;
          title_en = command.title_en;
          description_bn = command.description_bn;
          description_en = command.description_en;
          price_bdt = gates.price;
          ready_to_ship = command.ready_to_ship;
          stock_qty = stock;
          is_active = true;
          geo = geo;
        }
          ∷ [];
  }

holds : (b : Bool) → not b ≡ false → b ≡ true
holds b h = ground arith

given_text : (s : Text) → is_empty s ≡ false → s ≢ []
unfolding is_empty
given_text [] h e = cc
given_text (c ∷ s) h e = cc

merchant_checked :
    (merchant : MerchantSummary) (place : Text)
    → check_merchant merchant ≡ ok place
    → (merchant.is_active ≡ true)
      × (merchant.kyc_verified ≡ true)
      × (merchant.pickup_location_id ≡ some place)
      × (place ≢ [])
unfolding check_merchant
merchant_checked merchant place h =
    let (active, h1) = throw_if-next (not merchant.is_active) _ _ h in
    let (verified, h2) = throw_if-next (not merchant.kyc_verified) _ _ h1 in
    let (picks_up, given) = truthy-some merchant.pickup_location_id (or_throw-eq-ok _ _ h2) in
    (
      holds merchant.is_active active,
      holds merchant.kyc_verified verified,
      picks_up,
      given_text place given,
    )

category_checked :
    (found : Option CategoryRow)
    → check_category found ≡ ok tt
    → (category : CategoryRow) × (found ≡ some category)
      × (category.is_restricted ≡ false)
      × (category.requires_dgda_licence ≡ false)
unfolding check_category
category_checked none h = cc
category_checked (some category) h =
    let (allowed, h1) = throw_if-next category.is_restricted _ _ h in
    (category, refl, allowed, throw_if-eq-ok _ _ h1)

prepared :
    (db : Db) (command : CreateListingCommand) (new : NewListingRecord)
    → prepare db command ≡ ok new
    → IsPrepared db command new
unfolding prepare
prepared db command new h =
    let (owner, first, h1) = >>=-eq-ok _ _ h in
    let (merchant, found, h2) = >>=-eq-ok _ _ h1 in
    let (place, checked, h3) = >>=-eq-ok _ _ h2 in
    let (_, sorted, h4) = >>=-eq-ok _ _ h3 in
    let (location, located, h5) = >>=-eq-ok _ _ h4 in
    let (price, priced, last) = >>=-eq-ok _ _ h5 in
    let (active, verified, picks_up, place_given) = merchant_checked merchant place checked in
    let (category, listed, allowed, unlicensed) = category_checked _ sorted in
    record {
      gates = record {
        owner = owner;
        acting = (truthy-some command.owner_role_id (or_throw-eq-ok _ _ first)).0;
        merchant = merchant;
        found = found;
        active = active;
        verified = verified;
        place = place;
        picks_up = picks_up;
        place_given = place_given;
        category = category;
        listed = listed;
        allowed = allowed;
        unlicensed = unlicensed;
        location = location;
        located = located;
        price = price;
        priced = priced;
      };
      is_new = cc;
    }

insert_listing_effect :
    (engine : Engine) (new : NewListingRecord) (db db' : Db) (id : Text)
    → insert_listing engine new db ≡ ok (id, db')
    → (id ≡ engine.new_id db) × (db' ≡ append_listing (listing_row (engine.new_id db) new) db)
unfolding insert_listing
insert_listing_effect engine new db db' id h =
    let row = append_listing (listing_row (engine.new_id db) new) in
    let (_, mid, ran, last) = bind-eq-ok (execute engine row) _ db h in
    let left = execute-eq-ok engine row db mid ran in (cc, cc)

-- The two ends of a publication.
pub create_listing_prepared :
    (engine : Engine) (command : CreateListingCommand) (db db' : Db) (result : Result Text)
    → create_listing engine command db ≡ (result, db')
    → (((e : Exception) × (result ≡ err e)) × (db' ≡ db))
      ⊎ ((new : NewListingRecord) × IsPrepared db command new
          × (result ≡ ok (engine.new_id db))
          × (db' ≡ append_listing (listing_row (engine.new_id db) new) db))
unfolding create_listing
create_listing_prepared engine command db db' result h = split (prepare db command) refl h
  where
    split :
        (r : Result NewListingRecord)
        → prepare db command ≡ r
        → elim r as (λ _. Result Text × Db) [
          | err e ↦ (err e, db)
          | ok new ↦ with_transaction engine (insert_listing engine new) db
        ]
          ≡ (result, db')
        → (((e : Exception) × (result ≡ err e)) × (db' ≡ db))
          ⊎ ((new : NewListingRecord) × IsPrepared db command new
              × (result ≡ ok (engine.new_id db))
              × (db' ≡ append_listing (listing_row (engine.new_id db) new) db))
    split (err e) said run = inl ((e, ap (λ p. p.0) (sym run)), ap (λ p. p.1) (sym run))
    split (ok new) said run =
        elim (with_transaction_atomic engine (insert_listing engine new) db result db' run) [
          | inl (e, thrown, kept) ↦ inl ((e, thrown), kept)
          | inr (id, returned, worked) ↦
              let (is_id, left) = insert_listing_effect engine new db db' id worked in
              inr (new, prepared db command new said, returned ∙ ap ok is_id, left)
        ]

is_stocked : (type : ListingType) (given : Option ℤ) → IsStocked type given (stock_of type given)
is_stocked ListingType.product given = refl
is_stocked ListingType.service_slot given = refl

is_placed : (lat lng : Option ℕ) → IsPlaced lat lng (make_point lng lat)
is_placed (some lat) (some lng) = refl
is_placed (some lat) none = refl
is_placed none (some lng) = refl
is_placed none none = refl

pub create_listing_gated :
    (engine : Engine) (command : CreateListingCommand) (db db' : Db) (result : Result Text)
    → create_listing engine command db ≡ (result, db')
    → (((e : Exception) × (result ≡ err e)) × (db' ≡ db))
      ⊎ (IsPublished engine command db db' × (result ≡ ok (engine.new_id db)))
create_listing_gated engine command db db' result h =
    elim (create_listing_prepared engine command db db' result h) [
      | inl thrown ↦ inl thrown
      | inr (new, prepared, returned, left) ↦ inr (
        record {
          gates = prepared.gates;
          stock = stock_of command.type command.stock_qty;
          stocked = is_stocked command.type command.stock_qty;
          geo = make_point prepared.gates.location.lng prepared.gates.location.lat;
          placed = is_placed prepared.gates.location.lat prepared.gates.location.lng;
          stored =
              left ∙ ap (λ n. append_listing (listing_row (engine.new_id db) n) db) prepared.is_new;
        },
        returned,
      )
    ]
