-- ===== src/DeliveryClock/Deadline.antt =====
-- The deadline, the countdown and the overdue test.
use sobkichu.Prelude.{
  ℕ, ◌*◌, ◌≤◌, ◌≡◌, refl, arith, Bool, true, false, some, ap, ◌↔◌, if◌then◌else◌, ℤ, pos, negsuc,
  ◌+ℤ◌, ◌-ℤ◌, ◌≤ℤ◌, ltb_ℤ, floor_div, int_laws, -ℤ_parts, +ℤ_parts, ok,
}
use sobkichu.Money.{Number, int, other, absolute}
use sobkichu.DeliveryClock.{
  ms_per_day, instant, delivery_window_days, make_date, DeliveryDeadline, compute_delivery_deadline,
  is_overdue, days_remaining,
}

abbrev pub IsNegative : Number → Type 0
IsNegative (int k) = k ≤ℤ negsuc 0
IsNegative other = ⊥

floor_div_sign :
    (a : ℤ)
    → (a ≤ℤ negsuc 0 → floor_div a ms_per_day ≤ℤ negsuc 0)
      × (floor_div a ms_per_day ≤ℤ negsuc 0 → a ≤ℤ negsuc 0)
unfolding floor_div
floor_div_sign (pos n) = (λ h. absurd (omega arith), λ h. absurd (omega arith))
floor_div_sign (negsuc n) = (λ h. omega arith, λ h. omega arith)

-- At valid times an order is overdue exactly when the countdown of whole days is negative.
pub overdue_iff_IsNegative_countdown :
    (deadline now : ℤ)
    → (is_overdue (some (instant deadline)) (instant now) ≡ true)
      ↔ IsNegative (days_remaining (instant deadline) (instant now))
unfolding is_overdue days_remaining
overdue_iff_IsNegative_countdown deadline now = (
  λ late. (floor_div_sign (deadline -ℤ now)).0 (ground (arith, -ℤ_parts deadline now)),
  λ negative.
      let behind = (floor_div_sign (deadline -ℤ now)).1 negative in
      ground (arith, -ℤ_parts deadline now),
)

whole_window :
    (paid : ℤ) (days : ℕ)
    → floor_div (paid +ℤ pos (days * ms_per_day) -ℤ paid) ms_per_day ≡ pos days
whole_window paid days =
    let exact : paid +ℤ pos (days * ms_per_day) -ℤ paid ≡ pos (days * ms_per_day) =
      omega int_laws in
    rw exact (unfold floor_div in ap pos (omega arith))

deadline_in_range :
    (paid : ℤ) (same_city : Bool)
    → absolute paid ≤ 8000000000000000
    → make_date (paid +ℤ pos (delivery_window_days same_city * ms_per_day))
      ≡ instant (paid +ℤ pos (delivery_window_days same_city * ms_per_day))
unfolding make_date delivery_window_days
deadline_in_range paid true h = ground (arith, +ℤ_parts paid (pos (5 * ms_per_day)))
deadline_in_range paid false h = ground (arith, +ℤ_parts paid (pos (10 * ms_per_day)))

-- A valid advance payment gets a deadline: at the moment of payment the countdown shows the whole
-- window, 5 days in the same city and 10 days elsewhere, and the order is overdue exactly at the
-- instants after the window.
pub deadline_window :
    (paid now : ℤ) (same_city : Bool)
    → absolute paid ≤ 8000000000000000
    → let days : ℕ = if same_city then 5 else 10 in
      (d : DeliveryDeadline) × (compute_delivery_deadline (instant paid) same_city ≡ ok d)
      × (days_remaining d.deadline_at (instant paid) ≡ int (pos days))
      × (is_overdue (some d.deadline_at) (instant now)
          ≡ ltb_ℤ (paid +ℤ pos (days * ms_per_day)) now)
unfolding compute_delivery_deadline
deadline_window paid now true h =
    let date = deadline_in_range paid true h in
    (
      _,
      refl,
      rw date (unfold days_remaining delivery_window_days in ap int (whole_window paid 5)),
      rw date (unfold is_overdue delivery_window_days in refl),
    )
deadline_window paid now false h =
    let date = deadline_in_range paid false h in
    (
      _,
      refl,
      rw date (unfold days_remaining delivery_window_days in ap int (whole_window paid 10)),
      rw date (unfold is_overdue delivery_window_days in refl),
    )
