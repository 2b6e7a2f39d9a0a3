-- ===== src/DeliveryClock.antt =====
-- api/src/common/compliance/delivery-clock.ts: the delivery window of the Digital Commerce
-- Operation Guidelines 2021, which runs from the advance payment. An instant is a number of
-- milliseconds since 1970 in UTC. Lower case is that of ASCII letters: Bangla letters have no case.
pub mod Places
pub mod Deadline
mod Tests
use sobkichu.Prelude.{
  ℕ, ◌+◌, ◌*◌, ◌≡◌, refl, Bool, true, false, ◌&&◌, Option, none, some, [], ◌∷◌, map, leb, ◌==◌,
  if◌then◌else◌, ℤ, pos, negsuc, pos_part, neg_part, ◌+ℤ◌, ◌-ℤ◌, ltb_ℤ, floor_div, Result, ok, err,
  plain_error, String, Text, text_eq, is_space, trim,
}
use sobkichu.Money.{Number, int, other, absolute}

abbrev pub same_city_delivery_days : ℕ
same_city_delivery_days = 5

abbrev pub different_city_delivery_days : ℕ
different_city_delivery_days = 10

abbrev pub ms_per_day : ℕ
ms_per_day = 24 * 60 * 60 * 1000

pub record DistrictRef : Type 0 where
  pub division : Text
  pub district : Text

-- `toLowerCase` of one character.
abbrev pub to_lower : ℕ → ℕ
to_lower c = if leb b'A' c && leb c b'Z' then c + 32 else c

-- `replace(/\s+/g, ' ')`; the flag says that the character before was a space.
unfoldable pub collapse_spaces : Bool → Text → Text
collapse_spaces in_run [] = []
collapse_spaces in_run (c ∷ s) =
    let inside = collapse_spaces true s in
    let outside = collapse_spaces false s in
    if is_space c then (if in_run then inside else b' ' ∷ inside) else c ∷ outside

unfoldable pub normalise : Text → Text
unfolding collapse_spaces
normalise s = collapse_spaces false (map to_lower (trim s))

unfoldable pub is_same_city : DistrictRef → DistrictRef → Bool
is_same_city merchant delivery =
    text_eq (normalise merchant.division) (normalise delivery.division)
    && text_eq (normalise merchant.district) (normalise delivery.district)

unfoldable pub delivery_window_days : Bool → ℕ
delivery_window_days same_city =
    if same_city then same_city_delivery_days else different_city_delivery_days

-- A `Date`: `invalid` is one whose time is NaN.
pub data Date : Type 0 where
  instant : ℤ → Date
  invalid : Date

-- `new Date(ms)`: beyond 8.64e15 milliseconds on either side the date is invalid.
unfoldable pub make_date : ℤ → Date
make_date ms = if leb (absolute ms) 8640000000000000 then instant ms else invalid

pub record DeliveryDeadline : Type 0 where
  pub deadline_at : Date
  pub window_days : ℕ
  pub explanation_key : String

unfoldable pub compute_delivery_deadline : Date → Bool → Result DeliveryDeadline
unfolding delivery_window_days make_date
compute_delivery_deadline invalid same_city = err (plain_error "advancePaidAt is not a valid Date")
compute_delivery_deadline (instant paid) same_city = ok (record {
  deadline_at = make_date (paid +ℤ pos (delivery_window_days same_city * ms_per_day));
  window_days = delivery_window_days same_city;
  explanation_key =
      if same_city
      then "order.delivery.deadline_same_city"
      else "order.delivery.deadline_different_city";
})

-- A comparison with NaN is false.
unfoldable pub is_overdue : Option Date → Date → Bool
is_overdue none now = false
is_overdue (some (instant deadline)) (instant now) = ltb_ℤ deadline now
is_overdue (some invalid) now = false
is_overdue (some (instant deadline)) invalid = false

unfoldable pub days_remaining : Date → Date → Number
days_remaining (instant deadline) (instant now) = int (floor_div (deadline -ℤ now) ms_per_day)
days_remaining invalid now = other
days_remaining (instant deadline) invalid = other
