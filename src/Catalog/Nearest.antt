-- ===== src/Catalog/Nearest.antt =====
-- The listings that a search finds.
use mathlib.Core.List.{Memᴰ}
use mathlib.Core.List.Memᴰ.{head, tail}
use sobkichu.Prelude.{
  Bool-cases, Option-cases, inl, inr, true, ◌+◌, negsuc, ◌&&◌, ℕ, ◌*◌, ◌≤◌, ◌≡◌, refl, ap, ◌∙◌, sym,
  subst, arith, false, Option, some, none, List, [], ◌∷◌, ◌⊎◌, length, length-take, ok, pos,
  pos_part, ltb_ℤ, ◌≤ℤ◌, ℤ, Bool, bad_request, throw_if-next, All, All-imp, ◌||◌,
}
use sobkichu.Database.{Db, ListingRecord, Point}
use sobkichu.Catalog.Search.{
  Geography, SearchNearbyCommand, NearbyListingRow, NearbyListing, unit, max_search_results,
  to_metres, nearby_row, add_match, match_listing, matching_rows, by_distance, nearby_rows,
  search_nearby,
}
use sobkichu.Catalog.Shown.{IsShown, show_rows-IsShown}
use sobkichu.Catalog.Radius.{to_metres_near}
use sobkichu.Catalog.Sorted.{
  IsByDistance, by_distance-IsByDistance, by_distance_keeps, by_distance-All, take-All,
  take-IsByDistance, taken_or_farther,
}

module _ (geography : Geography) (centre : Point) (radius : ℕ) where
  -- A row of a listing that matches.
  abbrev pub Finds : List ListingRecord → NearbyListingRow → Type 0
  Finds listings row =
      (listing : ListingRecord) × (place : Point) × Memᴰ listing listings
      × (match_listing geography centre radius listing ≡ some place)
      × (row ≡ nearby_row geography centre listing place)

  Finds-tail :
      (listing : ListingRecord) (listings : List ListingRecord) (row : NearbyListingRow)
      → Finds listings row
      → Finds (listing ∷ listings) row
  Finds-tail listing listings row (found, place, member, matches, same) =
      (found, place, tail member, matches, same)

  add_match-Finds :
      (listing : ListingRecord) (listings : List ListingRecord) (o : Option Point)
      (rows : List NearbyListingRow)
      → match_listing geography centre radius listing ≡ o
      → All (Finds (listing ∷ listings)) rows
      → All (Finds (listing ∷ listings)) (add_match geography centre listing o rows)
  add_match-Finds listing listings none rows e h = h
  add_match-Finds listing listings (some place) rows e h = ((listing, place, head refl, e, refl), h)

  matching_rows-Finds :
      (listings : List ListingRecord)
      → All (Finds listings) (matching_rows geography centre radius listings)
  unfolding matching_rows
  matching_rows-Finds [] = tt
  matching_rows-Finds (listing ∷ listings) =
      add_match-Finds listing listings (match_listing geography centre radius listing)
        (matching_rows geography centre radius listings) refl
        (All-imp _ _ (Finds-tail listing listings) (matching_rows geography centre radius listings)
          (matching_rows-Finds listings))

  add_match_keeps :
      (listing : ListingRecord) (o : Option Point) (a : NearbyListingRow)
      (rows : List NearbyListingRow)
      → Memᴰ a rows
      → Memᴰ a (add_match geography centre listing o rows)
  add_match_keeps listing none a rows m = m
  add_match_keeps listing (some place) a rows m = tail m

  matched :
      (listing : ListingRecord) (place : Point) (listings : List ListingRecord)
      → Memᴰ listing listings
      → match_listing geography centre radius listing ≡ some place
      → Memᴰ
          (nearby_row geography centre listing place)
          (matching_rows geography centre radius listings)
  unfolding matching_rows
  matched listing place [] m h = elim m [ ]
  matched listing place (first ∷ listings) (head e) h =
      subst
        (λ o.
          Memᴰ (nearby_row geography centre listing place)
            (add_match geography centre first o (matching_rows geography centre radius listings)))
        (sym (ap (match_listing geography centre radius) (sym e) ∙ h))
        (head (ap (λ l. nearby_row geography centre l place) e))
  matched listing place (first ∷ listings) (tail m) h =
      add_match_keeps first (match_listing geography centre radius first)
        (nearby_row geography centre listing place) (matching_rows geography centre radius listings)
        (matched listing place listings m h)

-- A listing that a search is for: active, with a point, and within the radius.
abbrev pub IsNear : Geography → Point → ℕ → ListingRecord → Point → Type 0
IsNear geography centre radius listing place =
    (listing.is_active ≡ true)
    × (listing.geo ≡ some place)
    × (geography.within place centre radius ≡ true)

-- What is shown of a listing, with its distance.
abbrev pub IsRowOf : Geography → Point → ListingRecord → Point → NearbyListingRow → Type 0
IsRowOf geography centre listing place row = row ≡ record {
  id = listing.id;
  title_bn = listing.title_bn;
  title_en = listing.title_en;
  price_bdt = listing.price_bdt;
  ready_to_ship = listing.ready_to_ship;
  type = listing.type;
  distance_m = geography.distance place centre;
}

match_listing-IsNear :
    (geography : Geography) (centre : Point) (radius : ℕ) (listing : ListingRecord) (place : Point)
    → match_listing geography centre radius listing ≡ some place
    → IsNear geography centre radius listing place
unfolding match_listing
match_listing-IsNear geography centre radius listing place h = elim (Option-cases listing.geo) [
  | inl nowhere ↦ absurd (ground arith)
  | inr (point, placed) ↦
      elim (Bool-cases (listing.is_active && geography.within point centre radius)) [
        | inl near ↦
            let same : point ≡ place = ground arith in
            (
              ground arith,
              placed ∙ ap some same,
              subst (λ p. geography.within p centre radius ≡ true) same (ground arith),
            )
        | inr far ↦ absurd (ground arith)
      ]
]

IsNear-match_listing :
    (geography : Geography) (centre : Point) (radius : ℕ) (listing : ListingRecord) (place : Point)
    → IsNear geography centre radius listing place
    → match_listing geography centre radius listing ≡ some place
unfolding match_listing
IsNear-match_listing geography centre radius listing place (active, placed, within) =
    rw (placed, active, within) refl

-- A row of a listing that is near.
abbrev pub FindsNear : Geography → Point → ℕ → List ListingRecord → NearbyListingRow → Type 0
FindsNear geography centre radius listings row =
    (listing : ListingRecord) × (place : Point) × Memᴰ listing listings
    × IsNear geography centre radius listing place
    × IsRowOf geography centre listing place row

Finds-FindsNear :
    (geography : Geography) (centre : Point) (radius : ℕ) (listings : List ListingRecord)
    (row : NearbyListingRow)
    → Finds geography centre radius listings row
    → FindsNear geography centre radius listings row
Finds-FindsNear geography centre radius listings row (listing, place, member, matches, same) = (
  listing,
  place,
  member,
  match_listing-IsNear geography centre radius listing place matches,
  same,
)

-- What a search finds: rows of near listings, at most fifty and by distance; a near listing that is
-- not among them is no nearer than fifty that are.
pub record IsNearest (geography : Geography) (centre : Point) (radius : ℕ)
    (listings : List ListingRecord) (rows : List NearbyListingRow) : Type 0 where
  pub few : length rows ≤ 50
  pub sorted : IsByDistance rows
  pub sound : All (FindsNear geography centre radius listings) rows
  pub complete :
      (listing : ListingRecord) (place : Point)
      → Memᴰ listing listings
      → IsNear geography centre radius listing place
      → ((row : NearbyListingRow) × Memᴰ row rows × IsRowOf geography centre listing place row)
        ⊎ ((length rows ≡ 50) × All (λ row. row.distance_m ≤ geography.distance place centre) rows)

nearby_rows-IsNearest :
    (geography : Geography) (lat lng radius : ℕ) (db : Db)
    → IsNearest geography
        (record { x = lng; y = lat })
        radius
        db.listings
        (nearby_rows geography lat lng radius max_search_results db)
unfolding nearby_rows
nearby_rows-IsNearest geography lat lng radius db =
    let centre : Point = record { x = lng; y = lat } in
    let rows = matching_rows geography centre radius db.listings in
    let ordered = by_distance-IsByDistance rows in
    record {
      few = let size = length-take 50 (by_distance rows) in omega arith;
      sorted = take-IsByDistance 50 (by_distance rows) ordered;
      sound = All-imp _ _ (Finds-FindsNear geography centre radius db.listings) _ (
          take-All _ 50 (by_distance rows)
            (by_distance-All _ rows (matching_rows-Finds geography centre radius db.listings)));
      complete = λ listing place member near.
          let row = nearby_row geography centre listing place in
          let matches = IsNear-match_listing geography centre radius listing place near in
          elim (taken_or_farther 50 row (by_distance rows) ordered (
            by_distance_keeps row rows
              (matched geography centre radius listing place db.listings member matches))) [
                | inl shown ↦ inl (row, shown, refl)
                | inr farther ↦ inr farther
              ];
    }

both_false : (a b : Bool) → (a || b) ≡ false → (a ≡ false) × (b ≡ false)
both_false a b h = (ground arith, ground arith)

not_below : (a b : ℤ) → ltb_ℤ a b ≡ false → b ≤ℤ a
not_below a b h = ground arith

at_most : (n : ℤ) → n ≤ℤ pos (10 * unit) → pos_part n ≤ 10 * unit
at_most (pos n) h = omega arith
at_most (negsuc n) h = omega arith

-- A search answers only for a radius from 1 to 10 kilometres, and what it answers is read off rows of
-- active listings with a point within the radius in metres, which is within 2^-40 of a metre of a
-- thousand times the kilometres: fifty at most, the nearest first; any other such listing is no
-- nearer than fifty that are answered.
pub search_nearby-IsNearest :
    (geography : Geography) (command : SearchNearbyCommand) (db : Db) (answer : List NearbyListing)
    → search_nearby geography command db ≡ ok answer
    → (pos unit ≤ℤ command.radius_km)
      × (command.radius_km ≤ℤ pos (10 * unit))
      × ((metres : ℕ) × (rows : List NearbyListingRow) × (pos_part command.radius_km * 1000
            ≤ metres + 4096)
          × (metres ≤ pos_part command.radius_km * 1000 + 4096)
          × IsNearest geography
              (record { x = command.lng; y = command.lat })
              metres
              db.listings
              rows
          × IsShown rows answer)
unfolding search_nearby
search_nearby-IsNearest geography command db answer h =
    let (inside, shown) = throw_if-next _ (bad_request "error.catalog.radius_out_of_range") _ h in
    let (low, high) = both_false _ _ inside in
    let below = not_below (pos (10 * unit)) command.radius_km high in
    let metres = to_metres (pos_part command.radius_km) in
    let (least, most) =
      to_metres_near (pos_part command.radius_km) (at_most command.radius_km below) in
    (
      not_below command.radius_km (pos unit) low,
      below,
      (
        metres,
        _,
        least,
        most,
        nearby_rows-IsNearest geography command.lat command.lng metres db,
        show_rows-IsShown _ answer shown,
      ),
    )
