-- ===== src/DeliveryClock/Places.antt =====
-- Letter case and white space in the same-city test.
use sobkichu.Prelude.{
  ℕ, ◌-◌, ◌≤◌, ◌≡◌, refl, ◌∙◌, ap, sym, arith, Bool, true, false, ◌&&◌, inl, inr, Bool-cases, [],
  ◌∷◌, ◌++◌, map, reverse, append-nil, leb, if◌then◌else◌, Text, is_space, trim, trim_start,
  all_chars,
}
use mathlib.Core.List.{reverse-append, reverse-cons, map-append}
use sobkichu.DeliveryClock.{DistrictRef, to_lower, normalise, is_same_city}

abbrev pub to_upper : ℕ → ℕ
to_upper c = if leb b'a' c && leb c b'z' then c - 32 else c

trim_start_blank : (w s : Text) → all_chars is_space w ≡ true → trim_start (w ++ s) ≡ trim_start s
unfolding trim_start all_chars
trim_start_blank [] s h = refl
trim_start_blank (c ∷ w) s h = ground (arith, trim_start_blank w s)

all_chars-append :
    (p : ℕ → Bool) (s t : Text)
    → all_chars p s ≡ true
    → all_chars p t ≡ true
    → all_chars p (s ++ t) ≡ true
unfolding all_chars
all_chars-append p [] t h k = k
all_chars-append p (c ∷ s) t h k = ground (arith, all_chars-append p s t)

all_chars-reverse :
    (p : ℕ → Bool) (s : Text) → all_chars p s ≡ true → all_chars p (reverse s) ≡ true
all_chars-reverse p [] h = h
all_chars-reverse p (c ∷ s) h = rw reverse-cons (
    all_chars-append p (reverse s) (c ∷ [])
      (all_chars-reverse p s (unfold all_chars in ground arith)) (unfold all_chars in ground arith))

trim_end : Text → Text
trim_end s = reverse (trim_start (reverse s))

trim_end_blank : (s w : Text) → all_chars is_space w ≡ true → trim_end (s ++ w) ≡ trim_end s
unfolding trim_end
trim_end_blank s w h =
    rw (reverse-append, trim_start_blank (reverse w) (reverse s) (all_chars-reverse is_space w h))

trim_right_blank :
    (s w : Text)
    → all_chars is_space w ≡ true
    → trim_end (trim_start (s ++ w)) ≡ trim_end (trim_start s)
unfolding trim_start
trim_right_blank [] w h =
    let gone : trim_start w ≡ [] = ap trim_start (sym (append-nil w)) ∙ trim_start_blank w [] h in
    rw gone
trim_right_blank (c ∷ s) w h = elim (Bool-cases (is_space c)) [
  | inl blank ↦ rw (blank) (trim_right_blank s w h)
  | inr solid ↦ rw (solid) (trim_end_blank (c ∷ s) w h)
]

-- White space around a text is lost in `trim`.
pub trim_padded :
    (v s w : Text)
    → all_chars is_space v ≡ true
    → all_chars is_space w ≡ true
    → trim (v ++ (s ++ w)) ≡ trim s
unfolding trim
trim_padded v s w hv hw =
    rw (trim_start_blank v (s ++ w) hv) (unfold trim_end in trim_right_blank s w hw)

letter_solid : (c : ℕ) → 65 ≤ c → c ≤ 122 → is_space c ≡ false
unfolding is_space
letter_solid c h k = ground arith

is_space-to_upper : (c : ℕ) → is_space (to_upper c) ≡ is_space c
is_space-to_upper c = elim (Bool-cases (leb b'a' c && leb c b'z')) [
  | inl letter ↦
      let low : b'a' ≤ c = ground arith in
      let high : c ≤ b'z' = ground arith in
      rw (
        letter,
        letter_solid (c - 32) (omega arith) (omega arith),
        letter_solid c (omega arith) (omega arith),
      )
  | inr same ↦ rw same
]

to_lower-to_upper : (c : ℕ) → to_lower (to_upper c) ≡ to_lower c
to_lower-to_upper c = ground arith

map-reverse : (s : Text) → map to_upper (reverse s) ≡ reverse (map to_upper s)
map-reverse [] = refl
map-reverse (c ∷ s) = simp (reverse-cons, map-append, map-reverse s)

trim_start-map : (s : Text) → trim_start (map to_upper s) ≡ map to_upper (trim_start s)
unfolding trim_start
trim_start-map [] = refl
trim_start-map (c ∷ s) = elim (Bool-cases (is_space c)) [
  | inl blank ↦ rw (is_space-to_upper c, blank) (trim_start-map s)
  | inr solid ↦ rw (is_space-to_upper c, solid)
]

trim-map : (s : Text) → trim (map to_upper s) ≡ map to_upper (trim s)
unfolding trim
trim-map s = simp (trim_start-map, ← map-reverse)

lower_upper : (s : Text) → map to_lower (map to_upper s) ≡ map to_lower s
lower_upper [] = refl
lower_upper (c ∷ s) = rw (to_lower-to_upper c, lower_upper s)

normalise_variant :
    (v s w : Text)
    → all_chars is_space v ≡ true
    → all_chars is_space w ≡ true
    → normalise (v ++ (map to_upper s ++ w)) ≡ normalise s
unfolding normalise
normalise_variant v s w hv hw = rw (trim_padded v (map to_upper s) w hv hw, trim-map s, lower_upper)

-- The same-city test does not change when the names of a place are written in capitals and with
-- white space before and after them.
pub is_same_city_variant :
    (m d : DistrictRef) (v w : Text)
    → all_chars is_space v ≡ true
    → all_chars is_space w ≡ true
    → is_same_city
        (record {
          division = v ++ (map to_upper m.division ++ w);
          district = v ++ (map to_upper m.district ++ w);
        })
        d
      ≡ is_same_city m d
unfolding is_same_city
is_same_city_variant m d v w hv hw =
    rw (normalise_variant v m.division w hv hw, normalise_variant v m.district w hv hw)
