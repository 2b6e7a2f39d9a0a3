-- ===== src/Http/Guarded.antt =====
-- What is behind the guard.
use mathlib.Core.List.{Memᴰ}
use sobkichu.Prelude.{
  pos, Bool, true, not, throw_if, bad_request, ℕ, ◌≡◌, refl, ap, ◌∙◌, sym, false, Option, none,
  some, ◌⊎◌, inl, inr, Result, ok, err, Exception, Result-cases, Text, List,
}
use sobkichu.Database.{Db, OrderRow}
use sobkichu.DeliveryClock.{is_same_city}
use sobkichu.Ports.{ResolvedCartLine}
use sobkichu.Session.Guard.{AuthenticatedCaller, can_activate}
use sobkichu.Session.Admitted.{IsAuthentic, admitted-IsAuthentic}
use sobkichu.Order.Service.{cart_lines, CreatedOrder, create_order}
use sobkichu.Order.Gates.{IsInRange}
use sobkichu.Order.Columns.{IsStored}
use sobkichu.Order.Stored.{stored_member}
use sobkichu.Order.Created.{IsAccepted, create_order-IsAccepted}
use sobkichu.Catalog.Service.{create_listing}
use sobkichu.Catalog.Published.{IsPublished, create_listing_gated}
use sobkichu.Login.World.{World, pure, continue}
use sobkichu.Http.Requests.{
  Request, Response, CreateOrderDto, CreateListingDto, post_orders, post_listings, listing_created,
  order_created,
}
use sobkichu.Http.Validation.{valid_body, validate}
use sobkichu.Http.Server.{
  pipe_route, create_order_route, create_listing_route, Deployment, is_public, order_command,
  listing_command, on_db, call_route, serve,
}

-- A call that returned.
pub answered_db :
    {State A : Type 0} (call : Db → Result A × Db) (answer : A → Response) (w out : World State)
    {r : Response}
    → on_db call answer w ≡ (ok r, out)
    → (a : A) × (call w.db ≡ (ok a, out.db)) × (r ≡ answer a)
answered_db {State} {A} call answer w out {r} h = split (call w.db) refl h
  where
    split :
        (p : Result A × Db)
        → call w.db ≡ p
        → continue (λ a. pure (answer a)) (p.0, record w { db = p.1 }) ≡ (ok r, out)
        → (a : A) × (call w.db ≡ (ok a, out.db)) × (r ≡ answer a)
    split (ok a, db) ran e = (a, ran ∙ ap (λ o. (ok a, o)) (ap (λ x. x.1.db) e), cc)
    split (err x, db) ran e = absurd (cc)

the_text : {s t : Text} → ok s ≡ ok t → s ≡ t
the_text h = cc

module _ {State : Type 0} (d : Deployment State) (now random : ℕ) (header : Option Text) where
  -- The header names the caller, by a token of the server that is alive.
  abbrev pub Authentic : AuthenticatedCaller → Type 0
  Authentic caller = IsAuthentic d.login.node d.login.json d.login.session_setting header now caller

  abbrev guard : Bool → Result (Option AuthenticatedCaller)
  guard public =
      can_activate d.login.node d.login.json d.login.session_setting public header none now

  serve_as :
      (request : Request) (w : World State) (answer : Result (Option AuthenticatedCaller))
      → guard (is_public request) ≡ answer
      → serve d now random header request w
        ≡ continue (λ caller. pipe_route d now random caller request) (answer, w)
  unfolding serve
  serve_as request w answer h =
      ap (λ g. continue (λ caller. pipe_route d now random caller request) (g, w)) h

  piped :
      (caller : AuthenticatedCaller) (request : Request) (w out : World State) (r : Result Response)
      → pipe_route d now random (some caller) request w ≡ (r, out)
      → (((e : Exception) × (r ≡ err e)) × (out ≡ w))
        ⊎ ((valid_body d.validators request ≡ true)
            × (call_route d now random (some caller) request w ≡ (r, out)))
  unfolding pipe_route validate
  piped caller request w out r h = split (valid_body d.validators request) refl h
    where
      split :
          (valid : Bool)
          → valid_body d.validators request ≡ valid
          → continue
              (λ _. call_route d now random (some caller) request)
              (throw_if (not valid) (bad_request "Bad Request"), w)
            ≡ (r, out)
          → (((e : Exception) × (r ≡ err e)) × (out ≡ w))
            ⊎ ((valid_body d.validators request ≡ true)
                × (call_route d now random (some caller) request w ≡ (r, out)))
      split true valid e = inr (valid, e)
      split false valid e = inl ((_, sym (ap (λ p. p.0) e)), sym (ap (λ p. p.1) e))

  -- A request on a route that is not public either throws and leaves everything as it was, or its
  -- body is valid and it is answered by its controller's method, for a caller whom the header names
  -- by a token that the server signed and that has not expired.
  pub serve_effect :
      (request : Request) (w out : World State) (r : Result Response)
      → is_public request ≡ false
      → serve d now random header request w ≡ (r, out)
      → (((e : Exception) × (r ≡ err e)) × (out ≡ w))
        ⊎ ((caller : AuthenticatedCaller) × Authentic caller
            × (valid_body d.validators request ≡ true)
            × (call_route d now random (some caller) request w ≡ (r, out)))
  serve_effect request w out r closed h = elim (Result-cases (guard false)) [
    | inl (after, passed) ↦
        let (caller, is_caller, authentic) =
          admitted-IsAuthentic d.login.node d.login.json d.login.session_setting header now none
            after passed in
        let ran =
          sym (serve_as request w (ok (some caller)) (ap guard closed ∙ passed ∙ ap ok is_caller))
          ∙ h in
        elim (piped caller request w out r ran) [
          | inl thrown ↦ inl thrown
          | inr (valid, answered) ↦ inr (caller, authentic, valid, answered)
        ]
    | inr (e, refused) ↦
        let seen = sym h ∙ serve_as request w (err e) (ap guard closed ∙ refused) in
        inl ((e, ap (λ p. p.0) seen), ap (λ p. p.1) seen)
  ]

  -- An order that is created over HTTP is the order of the user whom the token in the header names:
  -- the request, its cart, the merchant and the two addresses passed every gate of order creation,
  -- and the database then holds a row with a fresh id, under that user, and with it the items, the
  -- event and the payment of the order. The lines of the cart are found, with no negative price or
  -- quantity, and cost at most 900719925474099 poisha; there is no delivery fee.
  pub post_orders_own :
      (dto : CreateOrderDto) (w out : World State) (r : Response) (resolved : List ResolvedCartLine)
      → d.ports.resolve_cart_lines w.db dto.lines ≡ ok resolved
      → IsInRange (cart_lines resolved) (pos 0)
      → serve d now random header (post_orders dto) w ≡ (ok r, out)
      → (caller : AuthenticatedCaller) × (created : CreatedOrder) × Authentic caller
        × (accepted : IsAccepted d.escrow_enabled d.ports
            (order_command caller dto)
            w.db
            resolved
            (pos 0))
        × (r ≡ order_created created)
        × IsStored d.login.engine
            (order_command caller dto)
            w.db
            out.db
            resolved
            accepted.quoted
            (is_same_city accepted.pickup accepted.delivery)
            created
        × ((row : OrderRow) × Memᴰ row out.db.orders
            × (row.id ≡ d.login.engine.new_id w.db)
            × (row.customer_user_id ≡ caller.user_id))
  unfolding is_public call_route create_order_route
  post_orders_own dto w out r resolved listed small h =
      elim (serve_effect (post_orders dto) w out (ok r) refl h) [
        | inl ((e, thrown), _) ↦ absurd (cc)
        | inr (caller, authentic, _, ran) ↦
            let command = order_command caller dto in
            let (created, made, is_answer) =
              answered_db (create_order d.escrow_enabled d.login.engine d.ports command)
                order_created w out ran in
            let (accepted, stored) =
              create_order-IsAccepted d.escrow_enabled d.login.engine d.ports command w.db out.db
                created resolved (pos 0) listed refl small made in
            (
              caller,
              created,
              authentic,
              accepted,
              is_answer,
              stored,
              stored_member d.login.engine command w.db out.db resolved accepted.quoted
                  (is_same_city accepted.pickup accepted.delivery) created stored,
            )
      ]

  -- A listing that is published over HTTP belongs to the role that the token in the header names,
  -- which may publish, and its row is all that the database gains.
  pub post_listings_own :
      (dto : CreateListingDto) (w out : World State) (r : Response)
      → serve d now random header (post_listings dto) w ≡ (ok r, out)
      → (caller : AuthenticatedCaller) × Authentic caller
        × (published : IsPublished d.login.engine (listing_command caller dto) w.db out.db) × (some
              published.gates.owner
            ≡ caller.active_role_id)
        × (r ≡ listing_created (d.login.engine.new_id w.db))
  unfolding is_public call_route create_listing_route
  post_listings_own dto w out r h = elim (serve_effect (post_listings dto) w out (ok r) refl h) [
    | inl ((e, thrown), _) ↦ absurd (cc)
    | inr (caller, authentic, _, ran) ↦
        let (id, made, is_answer) =
          answered_db (create_listing d.login.engine (listing_command caller dto)) listing_created w
            out ran in
        elim (create_listing_gated d.login.engine (listing_command caller dto) w.db out.db (ok id)
          made) [
            | inl ((e, thrown), _) ↦ absurd (cc)
            | inr (published, is_id) ↦ (
              caller,
              authentic,
              published,
              sym published.gates.acting,
              is_answer ∙ ap listing_created (the_text is_id),
            )
          ]
  ]
