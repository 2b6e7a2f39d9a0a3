-- ===== src/Catalog/Sorted.antt =====
-- Rows by distance.
use mathlib.Core.List.{Memᴰ}
use mathlib.Core.List.Memᴰ.{head, tail}
use sobkichu.Prelude.{
  ℕ, zero, suc, ◌≤◌, ◌≡◌, refl, sym, subst, arith, Bool-cases, List, [], ◌∷◌, ◌⊎◌, inl, inr, take,
  length, leb, leb→le, leb→gt, All, All-imp,
}
use sobkichu.Catalog.Search.{NearbyListingRow, insert_by_distance, by_distance}

-- No row is farther than one that comes after it.
abbrev pub IsByDistance : List NearbyListingRow → Type 0
IsByDistance [] = Unit
IsByDistance (row ∷ rows) =
    All (λ later. row.distance_m ≤ later.distance_m) rows × IsByDistance rows

module _ (P : NearbyListingRow → Type 0) where
  insert_by_distance-All :
      (row : NearbyListingRow) (rows : List NearbyListingRow)
      → P row
      → All P rows
      → All P (insert_by_distance row rows)
  unfolding insert_by_distance
  insert_by_distance-All row [] h hs = (h, tt)
  insert_by_distance-All row (next ∷ rows) h hs =
      elim (Bool-cases (leb row.distance_m next.distance_m)) [
        | inl nearer ↦ rw nearer (h, hs)
        | inr farther ↦ rw farther (hs.0, insert_by_distance-All row rows h hs.1)
      ]

farther_still :
    (a b : ℕ) → a ≤ b → (later : NearbyListingRow) → b ≤ later.distance_m → a ≤ later.distance_m
farther_still a b h later k = omega arith

insert_by_distance-IsByDistance :
    (row : NearbyListingRow) (rows : List NearbyListingRow)
    → IsByDistance rows
    → IsByDistance (insert_by_distance row rows)
unfolding insert_by_distance
insert_by_distance-IsByDistance row [] h = (tt, tt)
insert_by_distance-IsByDistance row (next ∷ rows) (least, h) =
    elim (Bool-cases (leb row.distance_m next.distance_m)) [
      | inl nearer ↦
          let below = leb→le row.distance_m next.distance_m nearer in
          rw nearer (
            (below, All-imp _ _ (farther_still row.distance_m next.distance_m below) rows least),
            (least, h),
          )
      | inr farther ↦
          let above = leb→gt row.distance_m next.distance_m farther in
          rw farther (
            insert_by_distance-All (λ later. next.distance_m ≤ later.distance_m) row rows
                (omega arith) least,
            insert_by_distance-IsByDistance row rows h,
          )
    ]

pub by_distance-IsByDistance : (rows : List NearbyListingRow) → IsByDistance (by_distance rows)
unfolding by_distance
by_distance-IsByDistance [] = tt
by_distance-IsByDistance (row ∷ rows) =
    insert_by_distance-IsByDistance row (by_distance rows) (by_distance-IsByDistance rows)

inserted :
    (row : NearbyListingRow) (rows : List NearbyListingRow) → Memᴰ row (insert_by_distance row rows)
unfolding insert_by_distance
inserted row [] = head refl
inserted row (next ∷ rows) = elim (Bool-cases (leb row.distance_m next.distance_m)) [
  | inl nearer ↦ rw nearer (head refl)
  | inr farther ↦ rw farther (tail (inserted row rows))
]

insert_keeps :
    (row a : NearbyListingRow) (rows : List NearbyListingRow)
    → Memᴰ a rows
    → Memᴰ a (insert_by_distance row rows)
unfolding insert_by_distance
insert_keeps row a [] m = tail m
insert_keeps row a (next ∷ rows) (head e) = elim (Bool-cases (leb row.distance_m next.distance_m)) [
  | inl nearer ↦ rw nearer (tail (head e))
  | inr farther ↦ rw farther (head e)
]
insert_keeps row a (next ∷ rows) (tail m) = elim (Bool-cases (leb row.distance_m next.distance_m)) [
  | inl nearer ↦ rw nearer (tail (tail m))
  | inr farther ↦ rw farther (tail (insert_keeps row a rows m))
]

pub by_distance_keeps :
    (a : NearbyListingRow) (rows : List NearbyListingRow) → Memᴰ a rows → Memᴰ a (by_distance rows)
unfolding by_distance
by_distance_keeps a [] m = elim m [ ]
by_distance_keeps a (row ∷ rows) (head e) =
    subst (λ x. Memᴰ x (insert_by_distance row (by_distance rows))) (sym e)
      (inserted row (by_distance rows))
by_distance_keeps a (row ∷ rows) (tail m) =
    insert_keeps row a (by_distance rows) (by_distance_keeps a rows m)

pub by_distance-All :
    (P : NearbyListingRow → Type 0) (rows : List NearbyListingRow)
    → All P rows
    → All P (by_distance rows)
unfolding by_distance
by_distance-All P [] h = tt
by_distance-All P (row ∷ rows) h =
    insert_by_distance-All P row (by_distance rows) h.0 (by_distance-All P rows h.1)

pub take-All :
    (P : NearbyListingRow → Type 0) (n : ℕ) (rows : List NearbyListingRow)
    → All P rows
    → All P (take n rows)
take-All P zero rows h = tt
take-All P (suc n) [] h = tt
take-All P (suc n) (row ∷ rows) h = (h.0, take-All P n rows h.1)

pub take-IsByDistance :
    (n : ℕ) (rows : List NearbyListingRow) → IsByDistance rows → IsByDistance (take n rows)
take-IsByDistance zero rows h = tt
take-IsByDistance (suc n) [] h = tt
take-IsByDistance (suc n) (row ∷ rows) h = (take-All _ n rows h.0, take-IsByDistance n rows h.1)

all_at :
    (P : NearbyListingRow → Type 0) (a : NearbyListingRow) (rows : List NearbyListingRow)
    → All P rows
    → Memᴰ a rows
    → P a
all_at P a [] h m = elim m [ ]
all_at P a (row ∷ rows) h (head e) = subst P (sym e) h.0
all_at P a (row ∷ rows) h (tail m) = all_at P a rows h.1 m

-- Of rows by distance the first ones hold a row, or are as many as asked and no farther than it.
pub taken_or_farther :
    (n : ℕ) (a : NearbyListingRow) (rows : List NearbyListingRow)
    → IsByDistance rows
    → Memᴰ a rows
    → Memᴰ a (take n rows)
      ⊎ ((length (take n rows) ≡ n) × All (λ r. r.distance_m ≤ a.distance_m) (take n rows))
taken_or_farther zero a rows h m = inr (refl, tt)
taken_or_farther (suc n) a [] h m = elim m [ ]
taken_or_farther (suc n) a (row ∷ rows) h (head e) = inl (head e)
taken_or_farther (suc n) a (row ∷ rows) h (tail m) = elim (taken_or_farther n a rows h.1 m) [
  | inl found ↦ inl (tail found)
  | inr (full, near) ↦
      inr (omega arith, (all_at (λ later. row.distance_m ≤ later.distance_m) a rows h.0 m, near))
]
