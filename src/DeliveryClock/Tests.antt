-- ===== src/DeliveryClock/Tests.antt =====
-- Deadlines and places.
use sobkichu.Prelude.{
  is_space, trim, text_eq, ◌≡◌, refl, arith, ◌*◌, pos, ◌+ℤ◌, ltb_ℤ, true, false, some, ok, lit,
}
use sobkichu.DeliveryClock.{
  normalise, DistrictRef, is_same_city, instant, DeliveryDeadline, compute_delivery_deadline,
  is_overdue, days_remaining, ms_per_day,
}
use sobkichu.Money.{int}
use sobkichu.DeliveryClock.Deadline.{deadline_window}

abbrev dhaka : DistrictRef
dhaka = record { division = lit "Dhaka"; district = lit "Dhaka" }

other_district :
    is_same_city dhaka (record { division = lit "Dhaka"; district = lit "Gazipur" }) ≡ false
unfolding is_same_city lit text_eq normalise trim is_space
other_district = refl

deadline_window_example :
    (d : DeliveryDeadline) × (compute_delivery_deadline (instant (pos 1000)) true ≡ ok d)
    × (days_remaining d.deadline_at (instant (pos 1000)) ≡ int (pos 5))
    × (is_overdue (some d.deadline_at) (instant (pos 999999999))
        ≡ ltb_ℤ (pos 1000 +ℤ pos (5 * ms_per_day)) (pos 999999999))
deadline_window_example = deadline_window (pos 1000) (pos 999999999) true (omega arith)
