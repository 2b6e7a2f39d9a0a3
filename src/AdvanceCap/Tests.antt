-- ===== src/AdvanceCap/Tests.antt =====
-- The advance rule on small carts.
use sobkichu.Prelude.{arith, ◌*ℤ◌, floor_div, ◌≡◌, ◌≢◌, refl, pos, true, false, [], ◌∷◌, ok, lit}
use sobkichu.Money.{percentage_of, int}
use sobkichu.AdvanceCap.{
  CartLine, AdvanceCapInput, standard_cap, AdvanceCapResult, every_ready, compute_advance_cap,
  refused, exceeds_cap, assert_advance_within_cap,
}
use sobkichu.AdvanceCap.Laws.{Justifies, HasUnready, compute_advance_cap-Justifies}

abbrev ready : CartLine
ready = record {
  listing_id = lit "s1";
  quantity = pos 1;
  unit_price = pos 150000;
  ready_to_ship = true;
}

abbrev made : CartLine
made = record {
  listing_id = lit "s2";
  quantity = pos 1;
  unit_price = pos 55;
  ready_to_ship = false;
}

abbrev mixed : AdvanceCapInput
mixed = record { lines = ready ∷ made ∷ []; total = pos 150055; is_escrow = false }

abbrev tenth : AdvanceCapResult
tenth = record {
  cap = pos 15005;
  reason = standard_cap;
  all_ready = false;
  explanation_key = "checkout.advance.capped_at_ten_percent";
}

mixed_run : compute_advance_cap mixed ≡ ok tenth
unfolding compute_advance_cap every_ready percentage_of floor_div ◌*ℤ◌
mixed_run = refl

above :
    assert_advance_within_cap (int (pos 15006)) tenth
    ≡ refused (exceeds_cap (pos 15006) (pos 15005) standard_cap)
unfolding assert_advance_within_cap
above = refl

compute_advance_cap-Justifies_example :
    Justifies standard_cap mixed (pos 15005) × HasUnready (ready ∷ made ∷ []) × (mixed.lines ≢ [])
compute_advance_cap-Justifies_example =
    compute_advance_cap-Justifies mixed tenth (omega arith) mixed_run
