-- ===== src/Http/Typed.antt =====
-- What a valid body holds.
use sobkichu.Prelude.{
  ℕ, ◌≡◌, ◌≤◌, refl, ap, ◌∙◌, sym, arith, true, Bool, ◌&&◌, List, [], ◌∷◌, length, ℤ, pos, ◌≤ℤ◌, ok,
  inl, inr, All, Option, Text,
}
use sobkichu.Money.{int}
use sobkichu.Ports.{RequestedCartLine}
use sobkichu.Login.World.{World}
use sobkichu.Http.Requests.{CreateOrderDto, Response, post_orders}
use sobkichu.Http.Validation.{
  Validators, IsValidating, each, valid_line, valid_create_order, valid_body,
}
use sobkichu.Http.Server.{Deployment, is_public, serve}
use sobkichu.Http.Guarded.{serve_effect}

both : {a b : Bool} → (a && b) ≡ true → (a ≡ true) × (b ≡ true)
both {a} {b} h = (ground arith, ground arith)

-- At least one of the listing.
abbrev pub AtLeastOne : RequestedCartLine → Type 0
AtLeastOne line = pos 1 ≤ℤ line.quantity

-- The numbers of an order that a client may ask for.
pub record IsTyped (dto : CreateOrderDto) : Type 0 where
  pub advance : ℤ
  pub is_advance : dto.requested_advance_poisha ≡ int advance
  pub not_negative : pos 0 ≤ℤ advance
  pub quantities : All AtLeastOne dto.lines
  pub some_lines : 1 ≤ length dto.lines
  pub few_lines : length dto.lines ≤ 50

module _ (v : Validators) (validating : IsValidating v) where
  lines-AtLeastOne :
      (lines : List RequestedCartLine) → each (valid_line v) lines ≡ true → All AtLeastOne lines
  lines-AtLeastOne [] h = tt
  lines-AtLeastOne (line ∷ lines) h =
      let (first, rest) = both h in
      let (_, counted) = both first in
      let (_, least) = both counted in
      (validating.mins 1 line.quantity least, lines-AtLeastOne lines rest)

  pub valid_create_order-IsTyped :
      (dto : CreateOrderDto) → valid_create_order v dto ≡ true → IsTyped dto
  unfolding valid_create_order
  valid_create_order-IsTyped dto h =
      let (_, h1) = both h in
      let (_, h2) = both h1 in
      let (least, h3) = both h2 in
      let (most, h4) = both h3 in
      let (lines, h5) = both h4 in
      let (whole, from) = both h5 in
      let (advance, is_advance) = validating.ints dto.requested_advance_poisha whole in
      record {
        advance = advance;
        is_advance = is_advance;
        not_negative = validating.mins 0 advance (ap (v.min 0) (sym is_advance) ∙ from);
        quantities = lines-AtLeastOne dto.lines lines;
        some_lines = validating.array_mins 1 (length dto.lines) least;
        few_lines = validating.array_maxs 50 (length dto.lines) most;
      }

-- Where class-validator does what it documents, an order that is created over HTTP asked for one to
-- fifty lines, of one piece at least each, and for an advance that is an integer and not negative.
pub post_orders-IsTyped :
    {State : Type 0} (d : Deployment State) (validating : IsValidating d.validators)
    (now random : ℕ) (header : Option Text) (dto : CreateOrderDto) (w out : World State)
    (r : Response)
    → serve d now random header (post_orders dto) w ≡ (ok r, out)
    → IsTyped dto
unfolding is_public valid_body
post_orders-IsTyped d validating now random header dto w out r h =
    elim (serve_effect d now random header (post_orders dto) w out (ok r) refl h) [
      | inl ((e, thrown), _) ↦ absurd (cc)
      | inr (caller, authentic, valid, ran) ↦
          valid_create_order-IsTyped d.validators validating dto valid
    ]
