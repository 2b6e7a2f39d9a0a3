-- ===== src/Adapters/Tests.antt =====
-- A cart of the small shop, resolved.
use sobkichu.Prelude.{
  pad_end, value, any_char, is_space, trim, is_digits, text_eq, ◌≡◌, refl, pos, List, [], ◌∷◌, ok,
  err, not_found, lit,
}
use sobkichu.Money.{taka_to_poisha}
use sobkichu.Ports.{ResolvedCartLine, RequestedCartLine}
use sobkichu.Adapters.{resolve_cart_lines}
use sobkichu.Fixtures.{shop}

abbrev wanted : List RequestedCartLine
wanted =
    record { listing_id = lit "s2"; quantity = pos 2 }
    ∷ record { listing_id = lit "s1"; quantity = pos 1 }
    ∷ []

abbrev found : List ResolvedCartLine
found = elim (resolve_cart_lines shop wanted) [ ok lines ↦ lines | err _ ↦ [] ]

resolved_run : resolve_cart_lines shop wanted ≡ ok found
unfolding resolve_cart_lines lit text_eq taka_to_poisha is_digits trim is_space any_char value
    pad_end
resolved_run = refl

missing :
    resolve_cart_lines shop (record { listing_id = lit "s9"; quantity = pos 1 } ∷ [])
    ≡ err (not_found "error.checkout.listing_not_found")
unfolding resolve_cart_lines lit text_eq
missing = refl
