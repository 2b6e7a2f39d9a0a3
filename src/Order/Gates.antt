-- ===== src/Order/Gates.antt =====
-- Which carts, merchants and advances an order can be created from.
use sobkichu.Prelude.{
  ◌≡◌, ◌↔◌, refl, subst, arith, ℤ, pos, ◌+ℤ◌, ◌≤ℤ◌, int_laws, Bool, true, false, not, ◌&&◌,
  Option-cases, Bool-cases, inl, inr, ◌⊎◌, Option, none, some, List, [], ◌∷◌, All, eqb_ℤ, ok,
  >>=-eq-ok, ◌≢◌, ◌^◌, ◌∙◌, sym, throw_if, throw_if-eq-ok, bad_request, Text, text_eq_iff,
}
use sobkichu.Money.{int, sum}
use sobkichu.Money.Rounding.{sum-eq-total_of}
use sobkichu.Database.{PaymentMethod}
use sobkichu.AdvanceCap.{
  CartLine, AdvanceCapInput, AdvanceCapReason, AdvanceCapResult, compute_advance_cap, AdvanceCheck,
  within_cap, refused, not_poisha, exceeds_cap, assert_advance_within_cap, cart_subtotal,
}
use sobkichu.AdvanceCap.Laws.{
  goods, goods_nonnegative, cart_subtotal-eq-goods, IsPositive, IsReady, HasUnready, IsSnapshot,
  IsTenthDown, IsTenfoldSafe, Justifies, compute_advance_cap-Justifies,
  assert_advance_within_cap_iff,
}
use sobkichu.Ports.{ResolvedCartLine}
use sobkichu.Order.Service.{
  CreateOrderCommand, is_cod, is_escrow_method, assert_line_orderable, assert_cart_is_orderable,
  accepted_advance, Quote, quote,
}

-- The stock of a listing covers a quantity; a service slot has none to count.
abbrev pub IsCovered : ℤ → Option ℤ → Type 0
IsCovered quantity none = Unit
IsCovered quantity (some stock) = quantity ≤ℤ stock

pub record IsOrderable (merchant_role_id : Text) (line : ResolvedCartLine) : Type 0 where
  pub active : line.is_active ≡ true
  pub permitted : line.category_restricted ≡ false
  pub licensed : line.category_requires_dgda_licence ≡ false
  pub own : line.merchant_role_id ≡ merchant_role_id
  pub covered : IsCovered line.quantity line.stock_qty
  pub positive : pos 1 ≤ℤ line.quantity

assert_line_orderable_iff :
    (role : Text) (line : ResolvedCartLine)
    → (assert_line_orderable role line ≡ ok tt) ↔ IsOrderable role line
unfolding assert_line_orderable
assert_line_orderable_iff role line = elim (Option-cases line.stock_qty) [
  | inl untracked ↦ (
    λ h. ground (arith, text_eq_iff line.merchant_role_id role),
    λ h. ground (arith, text_eq_iff line.merchant_role_id role),
  )
  | inr (stock, tracked) ↦ (
    λ h. ground (arith, text_eq_iff line.merchant_role_id role),
    λ h. ground (arith, text_eq_iff line.merchant_role_id role),
  )
]

-- The cart check passes exactly if every line is active, of a permitted category that needs no
-- licence, of the order's one merchant, covered by its stock, and of at least one unit.
pub assert_cart_is_orderable_iff :
    (lines : List ResolvedCartLine) (role : Text)
    → (assert_cart_is_orderable lines role ≡ ok tt) ↔ All (IsOrderable role) lines
unfolding assert_cart_is_orderable
assert_cart_is_orderable_iff [] role = (λ h. tt, λ h. refl)
assert_cart_is_orderable_iff (line ∷ lines) role = (
  λ h.
      let (_, first, rest) = >>=-eq-ok (assert_line_orderable role line) _ h in
      (
        (assert_line_orderable_iff role line).0 first,
        (assert_cart_is_orderable_iff lines role).0 rest,
      ),
  λ h.
      rw ((assert_line_orderable_iff role line).1 h.0)
        ((assert_cart_is_orderable_iff lines role).1 h.1),
)

-- An order that is not paid through escrow, by its method or because escrow is off.
abbrev pub IsOutsideEscrow : Bool → PaymentMethod → Type 0
IsOutsideEscrow escrow_enabled method = (method ≢ PaymentMethod.escrow) ⊎ (escrow_enabled ≡ false)

-- The ceiling on the advance of an order, by its reason: the total where escrow is on and the method,
-- the total where every line is ready to ship, and a tenth of it, rounded down, where some line is
-- not.
abbrev pub IsCapped : Bool → PaymentMethod → List CartLine → ℤ → AdvanceCapReason → ℤ → Type 0
IsCapped escrow_enabled method lines total AdvanceCapReason.escrow cap =
    (method ≡ PaymentMethod.escrow) × (escrow_enabled ≡ true) × (cap ≡ total)
IsCapped escrow_enabled method lines total AdvanceCapReason.all_items_ready_to_ship cap =
    IsOutsideEscrow escrow_enabled method × All IsReady lines × (cap ≡ total)
IsCapped escrow_enabled method lines total AdvanceCapReason.standard_cap cap =
    IsOutsideEscrow escrow_enabled method × HasUnready lines × IsTenthDown total cap

-- Amounts that doubles add exactly: nothing is negative, and the tenfold of the total is below 2^53.
abbrev pub IsInRange : List CartLine → ℤ → Type 0
IsInRange lines fee =
    All IsPositive lines × (pos 0 ≤ℤ fee) × (goods lines +ℤ fee ≤ℤ pos 900719925474099)

-- What a quote for a cart satisfies.
pub record IsSound (escrow_enabled : Bool) (command : CreateOrderCommand) (lines : List CartLine)
    (fee : ℤ) (q : Quote) : Type 0 where
  pub subtotal : q.subtotal ≡ goods lines
  pub total : q.total ≡ goods lines +ℤ fee
  pub requested : command.requested_advance ≡ int q.advance
  pub nonnegative : pos 0 ≤ℤ q.advance
  pub within : q.advance ≤ℤ q.cap.cap
  pub capped : IsCapped escrow_enabled command.payment_method lines q.total q.cap.reason q.cap.cap
  pub snapshot : IsSnapshot lines q.cap.all_ready
  pub cash : (command.payment_method ≢ PaymentMethod.cod) ⊎ (q.advance ≡ pos 0)

accepted_advance-eq-ok :
    (check : AdvanceCheck) (a : ℤ) → accepted_advance check ≡ ok a → check ≡ within_cap a
unfolding accepted_advance
accepted_advance-eq-ok (within_cap r) a h = ground arith
accepted_advance-eq-ok (refused not_poisha) a h = ground arith
accepted_advance-eq-ok (refused (exceeds_cap r c x)) a h = ground arith

sum_two :
    (s fee t : ℤ)
    → pos 0 ≤ℤ s
    → pos 0 ≤ℤ fee
    → s +ℤ fee ≤ℤ pos (2 ^ 53)
    → sum (int s ∷ int fee ∷ []) ≡ ok t
    → t ≡ s +ℤ fee
sum_two s fee t low given small h =
    sum-eq-total_of (int s ∷ int fee ∷ []) t (low, (given, tt)) (omega int_laws) h ∙ omega int_laws

not_cod : (method : PaymentMethod) → is_cod method ≡ false → method ≢ PaymentMethod.cod
not_cod method h e = cc

cash_or_zero :
    (a : ℤ) (method : PaymentMethod)
    → (is_cod method && not (eqb_ℤ a (pos 0))) ≡ false
    → (method ≢ PaymentMethod.cod) ⊎ (a ≡ pos 0)
cash_or_zero a method h = elim (Bool-cases (is_cod method)) [
  | inl cod ↦ inr (ground arith)
  | inr other_method ↦ inl (not_cod method other_method)
]

through_escrow :
    (method : PaymentMethod) (escrow_enabled : Bool)
    → (is_escrow_method method && escrow_enabled) ≡ true
    → (method ≡ PaymentMethod.escrow) × (escrow_enabled ≡ true)
through_escrow PaymentMethod.escrow escrow_enabled h = (refl, h)
through_escrow _ escrow_enabled h = absurd (cc)

not_escrow :
    (method : PaymentMethod) → is_escrow_method method ≡ false → method ≢ PaymentMethod.escrow
not_escrow method h e = cc

outside_escrow :
    (method : PaymentMethod) (escrow_enabled : Bool)
    → (is_escrow_method method && escrow_enabled) ≡ false
    → IsOutsideEscrow escrow_enabled method
outside_escrow method true h = inl (not_escrow method (ground arith))
outside_escrow method false h = inr refl

Justifies-IsCapped :
    (reason : AdvanceCapReason) (escrow_enabled : Bool) (method : PaymentMethod)
    (lines : List CartLine) (total cap : ℤ)
    → Justifies reason
        (record {
          lines = lines;
          total = total;
          is_escrow = is_escrow_method method && escrow_enabled;
        })
        cap
    → IsCapped escrow_enabled method lines total reason cap
Justifies-IsCapped AdvanceCapReason.escrow escrow_enabled method lines total cap (held, same) =
    let (by_method, enabled) = through_escrow method escrow_enabled held in
    (by_method, enabled, same)
Justifies-IsCapped AdvanceCapReason.all_items_ready_to_ship escrow_enabled method lines total cap
      (held, ready, same) =
    (outside_escrow method escrow_enabled held, ready, same)
Justifies-IsCapped AdvanceCapReason.standard_cap escrow_enabled method lines total cap
      (held, unready, tenth) =
    (outside_escrow method escrow_enabled held, unready, tenth)

tenfold_safe : (total : ℤ) → pos 0 ≤ℤ total → total ≤ℤ pos 900719925474099 → IsTenfoldSafe total
tenfold_safe total low high = ground arith

ok-injective : {A : Type 0} {a b : A} → ok a ≡ ok b → a ≡ b
ok-injective h = cc

module _ (escrow_enabled : Bool) (command : CreateOrderCommand) (lines : List CartLine) where
  abbrev cap_input : ℤ → AdvanceCapInput
  cap_input total = record {
    lines = lines;
    total = total;
    is_escrow = is_escrow_method command.payment_method && escrow_enabled;
  }

  assembled-IsSound :
      (fee s t a : ℤ) (cap : AdvanceCapResult)
      → IsInRange lines fee
      → cart_subtotal lines ≡ ok s
      → sum (int s ∷ int fee ∷ []) ≡ ok t
      → compute_advance_cap (cap_input t) ≡ ok cap
      → accepted_advance (assert_advance_within_cap command.requested_advance cap) ≡ ok a
      → (is_cod command.payment_method && not (eqb_ℤ a (pos 0))) ≡ false
      → IsSound escrow_enabled command lines fee
          (record { subtotal = s; total = t; cap = cap; advance = a })
  assembled-IsSound fee s t a cap (positive, given, small) subtotal total capped advance cash =
      let low = goods_nonnegative lines positive in
      let is_goods = cart_subtotal-eq-goods lines s positive (omega int_laws) subtotal in
      let added : t ≡ goods lines +ℤ fee =
        sum_two (goods lines) fee t low given (omega int_laws)
          (subst (λ n. sum (int n ∷ int fee ∷ []) ≡ ok t) is_goods total) in
      let (asked, above, below) =
        (assert_advance_within_cap_iff command.requested_advance cap a).0
          (accepted_advance-eq-ok _ a advance) in
      let safe : IsTenfoldSafe t =
        subst IsTenfoldSafe (sym added)
          (tenfold_safe (goods lines +ℤ fee) (omega int_laws) small) in
      let (just, snapshot, _) = compute_advance_cap-Justifies (cap_input t) cap safe capped in
      record {
        subtotal = is_goods;
        total = added;
        requested = asked;
        nonnegative = above;
        within = below;
        capped =
            Justifies-IsCapped cap.reason escrow_enabled command.payment_method lines t cap.cap
              just;
        snapshot = snapshot;
        cash = cash_or_zero a command.payment_method cash;
      }

  -- A quote is sound, where no price, quantity or delivery fee is negative and the total of the exact
  -- amounts is at most 900719925474099 poisha: its subtotal is the price of the goods, its total adds
  -- the fee, its ceiling is the total for an order through escrow or with all lines ready to ship, and
  -- otherwise a tenth of it, rounded down, and its advance is the requested one, between zero and the
  -- ceiling, and zero if the method is cash on delivery.
  pub quote-IsSound :
      (fee : ℤ) (q : Quote)
      → command.delivery_fee ≡ int fee
      → IsInRange lines fee
      → quote escrow_enabled command lines ≡ ok q
      → IsSound escrow_enabled command lines fee q
  unfolding quote
  quote-IsSound fee q given small h =
      let (s, subtotal, after_s) = >>=-eq-ok (cart_subtotal lines) _ h in
      let (t, total, after_t) = >>=-eq-ok (sum (int s ∷ command.delivery_fee ∷ [])) _ after_s in
      let (cap, capped, after_cap) = >>=-eq-ok (compute_advance_cap (cap_input t)) _ after_t in
      let (a, advance, after_a) =
        >>=-eq-ok (accepted_advance (assert_advance_within_cap command.requested_advance cap)) _
          after_cap in
      let (_, cash, last) =
        >>=-eq-ok
          (throw_if (is_cod command.payment_method && not (eqb_ℤ a (pos 0)))
            (bad_request "error.checkout.cod_cannot_have_advance"))
          _ after_a in
      subst (IsSound escrow_enabled command lines fee) (ok-injective last) (
        assembled-IsSound fee s t a cap small subtotal
          (subst (λ n. sum (int s ∷ n ∷ []) ≡ ok t) given total) capped advance
          (throw_if-eq-ok (is_cod command.payment_method && not (eqb_ℤ a (pos 0))) _ cash))
