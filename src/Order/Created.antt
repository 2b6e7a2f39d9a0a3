-- ===== src/Order/Created.antt =====
-- `createOrder` as a whole: what a created order passed and what it left.
use sobkichu.Prelude.{
  ◌≡◌, ◌≢◌, refl, sym, ◌∙◌, ap, subst, arith, Bool, true, false, not, ℤ, inl, inr, ◌⊎◌, some, List,
  [], ◌∷◌, All, Result, ok, err, ◌>>=◌, >>=-eq-ok, throw_if, throw_if-eq-ok, throw_if-next,
  or_throw-eq-ok, truthy-some, is_empty, Exception, Text,
}
use sobkichu.Money.{int}
use sobkichu.Database.{Db}
use sobkichu.Database.Transaction.{Engine, with_transaction, with_transaction_atomic}
use sobkichu.DeliveryClock.{DistrictRef, is_same_city}
use sobkichu.Notification.Unique.{OnlyOutbox}
use sobkichu.Ports.{Ports, ResolvedCartLine, RequestedCartLine, MerchantSummary}
use sobkichu.Order.Service.{
  CreateOrderCommand, CreatedOrder, assert_cart_is_orderable, eligible_pickup, cart_lines, Quote,
  quote, new_record, no_requested_lines, Prepared, prepare_order, write_order, created_order,
  answered, create_prepared, create_order,
}
use sobkichu.Order.Gates.{
  IsOrderable, IsSound, IsInRange, assert_cart_is_orderable_iff, quote-IsSound,
}
use sobkichu.Order.Written.{charged, write_order-written}
use sobkichu.Order.Columns.{IsStored}
use sobkichu.Order.Stored.{charged-IsStored}

ok-injective : {A : Type 0} {a b : A} → ok a ≡ ok b → a ≡ b
ok-injective h = cc

-- An order that creation accepts, whose cart resolves to `resolved` and whose delivery fee is `fee`:
-- what it asks of the request, of the catalogue, of the merchant and of the two places, and the
-- quote for it.
pub record IsAccepted (escrow_enabled : Bool) (ports : Ports) (command : CreateOrderCommand)
    (db : Db) (resolved : List ResolvedCartLine) (fee : ℤ) : Type 0 where
  pub requested : command.lines ≢ []
  pub orderable : All (IsOrderable command.merchant_role_id) resolved
  pub merchant : MerchantSummary
  pub known : ports.find_merchant db command.merchant_role_id ≡ ok merchant
  pub active : merchant.is_active ≡ true
  pub verified : merchant.kyc_verified ≡ true
  pub pickup_id : Text
  pub picks_up : merchant.pickup_location_id ≡ some pickup_id
  pub pickup_given : pickup_id ≢ []
  pub pickup : DistrictRef
  pub at_pickup : ports.find_location db pickup_id ≡ ok pickup
  pub delivery : DistrictRef
  pub at_delivery : ports.find_location db command.delivery_location_id ≡ ok delivery
  pub quoted : Quote
  pub sound : IsSound escrow_enabled command (cart_lines resolved) fee quoted

-- What preparation finds besides: the record to store.
record IsPrepared (escrow_enabled : Bool) (ports : Ports) (command : CreateOrderCommand) (db : Db)
    (resolved : List ResolvedCartLine) (fee : ℤ) (prepared : Prepared) : Type 0 where
  accepted : IsAccepted escrow_enabled ports command db resolved fee
  printed :
      new_record command resolved (is_same_city accepted.pickup accepted.delivery) accepted.quoted
      ≡ ok prepared.new
  explained : prepared.explanation_key ≡ accepted.quoted.cap.explanation_key

holds : (b : Bool) → not b ≡ false → b ≡ true
holds b h = ground arith

given_text : (s : Text) → is_empty s ≡ false → s ≢ []
unfolding is_empty
given_text [] h e = cc
given_text (c ∷ s) h e = cc

eligible_pickup-eq-ok :
    (merchant : MerchantSummary) (pickup : Text)
    → eligible_pickup merchant ≡ ok pickup
    → (merchant.is_active ≡ true)
      × (merchant.kyc_verified ≡ true)
      × (merchant.pickup_location_id ≡ some pickup)
      × (pickup ≢ [])
unfolding eligible_pickup
eligible_pickup-eq-ok merchant pickup h =
    let (active, h1) = throw_if-next (not merchant.is_active) _ _ h in
    let (verified, h2) = throw_if-next (not merchant.kyc_verified) _ _ h1 in
    let (given, nonempty) = truthy-some merchant.pickup_location_id (or_throw-eq-ok _ _ h2) in
    (
      holds merchant.is_active active,
      holds merchant.kyc_verified verified,
      given,
      given_text pickup nonempty,
    )

unit_ok : (u : Unit {0}) (r : Result (Unit {0})) → r ≡ ok u → r ≡ ok tt
unit_ok tt r h = h

some_lines : (lines : List RequestedCartLine) → no_requested_lines lines ≡ false → lines ≢ []
some_lines [] h e = cc
some_lines (line ∷ lines) h e = cc

-- What follows a call that returned.
after_ok :
    {A B : Type 0} (r : Result A) (next : A → Result B) {a : A} {b : B}
    → r ≡ ok a
    → (r >>= next) ≡ ok b
    → next a ≡ ok b
after_ok r next returned h = sym (ap (λ q. q >>= next) returned) ∙ h

prepare_order-IsPrepared :
    (escrow_enabled : Bool) (ports : Ports) (command : CreateOrderCommand) (db : Db)
    (resolved : List ResolvedCartLine) (fee : ℤ) (prepared : Prepared)
    → ports.resolve_cart_lines db command.lines ≡ ok resolved
    → command.delivery_fee ≡ int fee
    → IsInRange (cart_lines resolved) fee
    → prepare_order escrow_enabled ports db command ≡ ok prepared
    → IsPrepared escrow_enabled ports command db resolved fee prepared
unfolding prepare_order
prepare_order-IsPrepared escrow_enabled ports command db resolved fee prepared listed given small
      h =
    let (_, nonempty, h1) = >>=-eq-ok (throw_if (no_requested_lines command.lines) _) _ h in
    let h2 = after_ok (ports.resolve_cart_lines db command.lines) _ listed h1 in
    let (u, checked, h3) =
      >>=-eq-ok (assert_cart_is_orderable resolved command.merchant_role_id) _ h2 in
    let (merchant, known, h4) = >>=-eq-ok (ports.find_merchant db command.merchant_role_id) _ h3 in
    let (pickup_id, eligible, h5) = >>=-eq-ok (eligible_pickup merchant) _ h4 in
    let (pickup, at_pickup, h6) = >>=-eq-ok (ports.find_location db pickup_id) _ h5 in
    let (delivery, at_delivery, h7) =
      >>=-eq-ok (ports.find_location db command.delivery_location_id) _ h6 in
    let (quoted, quotes, h8) =
      >>=-eq-ok (quote escrow_enabled command (cart_lines resolved)) _ h7 in
    let (new, prints, last) =
      >>=-eq-ok (new_record command resolved (is_same_city pickup delivery) quoted) _ h8 in
    let (active, verified, picks_up, pickup_given) =
      eligible_pickup-eq-ok merchant pickup_id eligible in
    let made = ok-injective last in
    record {
      accepted = record {
        requested =
            some_lines command.lines (throw_if-eq-ok (no_requested_lines command.lines) _ nonempty);
        orderable =
            (assert_cart_is_orderable_iff resolved command.merchant_role_id).0
              (unit_ok u _ checked);
        merchant = merchant;
        known = known;
        active = active;
        verified = verified;
        pickup_id = pickup_id;
        picks_up = picks_up;
        pickup_given = pickup_given;
        pickup = pickup;
        at_pickup = at_pickup;
        delivery = delivery;
        at_delivery = at_delivery;
        quoted = quoted;
        sound =
            quote-IsSound escrow_enabled command (cart_lines resolved) fee quoted given small
              quotes;
      };
      printed = prints ∙ ap (λ p. ok p.new) made;
      explained = sym (ap (λ p. p.explanation_key) made);
    }

answered-cases :
    (engine : Engine) (prepared : Prepared) (db db' : Db) (answer : Result CreatedOrder)
    (r : Result Text) (out : Db)
    → answered prepared (r, out) ≡ (answer, db')
    → ((e : Exception) × (r ≡ err e) × (out ≡ db))
      ⊎ ((id : Text) × (r ≡ ok id) × (write_order engine prepared.new db ≡ ok (id, out)))
    → ((e : Exception) × (answer ≡ err e) × (db' ≡ db))
      ⊎ ((id : Text) × (answer ≡ ok (created_order prepared id))
          × (write_order engine prepared.new db ≡ ok (id, db')))
answered-cases engine prepared db db' answer (ok id) out h (inl (e, thrown, _)) = cc
answered-cases engine prepared db db' answer (ok id) out h (inr (i, e, w)) = inr (
  id,
  sym (ap (λ p. p.0) h),
  subst (λ d. write_order engine prepared.new db ≡ ok (id, d)) (ap (λ p. p.1) h)
      (subst (λ k. write_order engine prepared.new db ≡ ok (k, out)) (sym (ok-injective e)) w),
)
answered-cases engine prepared db db' answer (err e) out h (inl (x, thrown, same)) =
    inl (e, sym (ap (λ p. p.0) h), sym (ap (λ p. p.1) h) ∙ same)
answered-cases engine prepared db db' answer (err e) out h (inr (i, x, w)) = cc

create_prepared-cases :
    (engine : Engine) (ready : Result Prepared) (db db' : Db) (answer : Result CreatedOrder)
    → create_prepared engine ready db ≡ (answer, db')
    → ((e : Exception) × (answer ≡ err e) × (db' ≡ db))
      ⊎ ((prepared : Prepared) × (ready ≡ ok prepared)
          × (id : Text) × (answer ≡ ok (created_order prepared id))
          × (write_order engine prepared.new db ≡ ok (id, db')))
unfolding create_prepared
create_prepared-cases engine (err e) db db' answer h =
    inl (e, sym (ap (λ p. p.0) h), sym (ap (λ p. p.1) h))
create_prepared-cases engine (ok prepared) db db' answer h =
    let (r, out) = with_transaction engine (write_order engine prepared.new) db in
    elim (answered-cases engine prepared db db' answer r out h
      (with_transaction_atomic engine (write_order engine prepared.new) db r out refl)) [
        | inl failed ↦ inl failed
        | inr (id, e, w) ↦ inr (prepared, refl, id, e, w)
      ]

-- An order that is created, from a cart whose lines are found, with no negative price, quantity or
-- delivery fee and an exact total of at most 900719925474099 poisha, passed every gate on the
-- request, the catalogue, the merchant and the two addresses, and its quote is sound. The database
-- then holds one more order with the columns of the command and the texts of the quote's amounts, an
-- item for each line, the event of its creation, and one pending payment, of the total on delivery
-- and of the advance otherwise; rows that had the new id, and the outbox, are all that changes
-- besides. The call answers the amounts that are stored.
pub create_order-IsAccepted :
    (escrow_enabled : Bool) (engine : Engine) (ports : Ports) (command : CreateOrderCommand)
    (db db' : Db) (created : CreatedOrder) (resolved : List ResolvedCartLine) (fee : ℤ)
    → ports.resolve_cart_lines db command.lines ≡ ok resolved
    → command.delivery_fee ≡ int fee
    → IsInRange (cart_lines resolved) fee
    → create_order escrow_enabled engine ports command db ≡ (ok created, db')
    → (accepted : IsAccepted escrow_enabled ports command db resolved fee) × IsStored engine command
        db db' resolved accepted.quoted
        (is_same_city accepted.pickup accepted.delivery)
        created
unfolding create_order
create_order-IsAccepted escrow_enabled engine ports command db db' created resolved fee listed given
      small h =
    elim (create_prepared-cases engine (prepare_order escrow_enabled ports db command) db db'
      (ok created) h) [
        | inl (x, thrown, _) ↦ absurd (cc)
        | inr (prepared, ready, id, answer, w) ↦
            let p =
              prepare_order-IsPrepared escrow_enabled ports command db resolved fee prepared listed
                given small ready in
            let (made, only) = write_order-written engine prepared.new db db' id w in
            (
              p.accepted,
              charged-IsStored engine command db db' resolved p.accepted.quoted
                  (is_same_city p.accepted.pickup p.accepted.delivery) created prepared p.printed
                  p.explained (ok-injective answer ∙ ap (created_order prepared) made)
                  (subst (λ k. OnlyOutbox (charged engine k prepared.new db) db') made only),
            )
      ]
