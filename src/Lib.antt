-- ===== src/Lib.antt =====
-- A model of the API of Sobkichu, a marketplace for Bangladesh (the TypeScript of api/src), with the
-- theorems that its money, compliance and payment code rests on.
--
-- Parts. An order is created by OrderService.createOrder from a cart, the catalogue, the merchant and
-- two places, under a ceiling on the advance; the order, its items, its first event, the payment that
-- it waits for and the SMS are one transaction. An aggregator's webhook becomes a settlement notice,
-- which PaymentService.applySettlement applies in one transaction: the payment row, the order's
-- status and timeline, the delivery clock, and the notification in the outbox. The dispatcher sends
-- what waits in the outbox. A user becomes a merchant by registration, submits an identity card, and
-- may publish listings once the role is verified; a signed token names the user in each request. The
-- token comes from a login by a code: AuthService.requestOtp stores a challenge in Redis and queues
-- the code, verifyOtp counts wrong guesses on the challenge and exchanges the right one. The global
-- guard checks the token ahead of every route that is not public, a pipe validates the body, and the
-- controllers pass the caller on to the services.
--
-- Files.
--   Prelude             numbers, integers, doubles, text as code points, results, quantified lists
--   Money               api/src/common/money.ts: takaToPoisha, poishaToTaka, percentageOf, sum,
--                       multiply; the children hold their decimal, rounding and round-trip laws
--   DeliveryClock       api/src/common/compliance/delivery-clock.ts
--   AdvanceCap          api/src/order/domain/advance-cap.ts
--   Database            the rows of the tables (Rows) and api/src/common/database, the unit of work
--                       (Transaction): work is a state monad with exceptions, and the parameter
--                       Engine stands for PostgreSQL
--   Notification        api/src/notification: channel-policy.ts (ChannelPolicy), notification.repository.ts
--                       (Outbox, Delivery), notification.adapter.ts (Adapter), domain/render.ts
--                       (Render) and notification.dispatcher.ts (Dispatcher); Texted is about the SMS of an
--                       event; Queue, Delivered, Due,
--                       Attempts, Drained and Idle follow the outbox through its batches
--   Ports, Adapters     api/src/common/ports, and the adapters of catalogue, merchants and locations
--                       behind them, with the queries that they call
--   Order               order.repository.ts (Repository), order.adapter.ts (Adapter),
--                       order.service.ts (Service); Gates, Written, Columns, Stored, Created and
--                       Stock hold the laws
--   Payment             payment.repository.ts (Repository), payment.service.ts (Service); Effect
--                       describes a settlement on the whole database, and Refinement, Replay,
--                       Unnamed and Clock relate the service to it; each Returns says when a call answers;
--                       webhook-signature.ts and payment.controller.ts are in Webhook and Signed
--   Identity            api/src/identity: domain/nid.ts and normaliseBdPhone (Numbers, Canonical), the
--                       one-time passwords of domain/otp.ts (Otp, Acceptance), over the parameter
--                       Crypto, user.repository.ts (Users), kyc.service.ts (Kyc, Submission,
--                       Submitted), the
--                       roles of auth.service.ts (Roles, Switched), and
--                       merchant-onboarding.service.ts (Onboarding, Registration); Verified and Steps
--                       are about the verified roles
--   Node                Buffer and node:crypto, as parameters
--   Session             api/src/common/auth: session-token.ts (Token, Base64, Issued) and auth.guard.ts
--                       (Guard, Admitted)
--   Catalog             api/src/catalog: createListing (Service, Published, Orderable) and searchNearby
--                       (Search, Radius, Sorted, Shown, Nearest) of catalog.service.ts, with their statements
--   Login               requestOtp and verifyOtp of auth.service.ts (Service, Notice) over otp.store.ts
--                       (Store), on Redis beside the database (World); Laws says what Redis and
--                       JSON document; Sent, Queued, Stored, Exchange, Settled and Opened follow a
--                       call, and Admitted, Once, Guesses, Lockout and Resent sequences of them
--   RateLimit           api/src/common/rate-limit, over the parameter Redis; Window counts its hits
--   Location            api/src/location: location.service.ts and location.repository.ts
--   Http                the controllers with their routes (Server), the bodies (Requests) and their
--                       decorators (Validation), behind the guard that app.module.ts makes global;
--                       Guarded is about whose the requests are, Typed about what a body holds,
--                       and Session about the requests after a login
--   Fixtures            a small shop for the tests, which stand in the modules whose names end
--                       in Tests
--
-- Names are the source's in snake case. A table is a list of rows in the order of insertion, SQL
-- statements are functions on the database, and a query returns what its WHERE and ORDER BY select.
-- A thrown exception is an `err` with the kind of exception and its message key; values that a
-- message interpolates are left out. A JavaScript number is an integer or `other`; sums,
-- products and percentages of amounts are rounded to doubles (Prelude.Doubles), which are exact up to
-- 2 ^ 53, and exponents are unbounded: a step of 53 bits is found in 1024 doublings, which reach
-- beyond every double. A coordinate of an address is within the range that its validation lets
-- through, and a template's slot is no name that every object has. A `Date` is an instant in
-- milliseconds or invalid. Recursion is structural; the digits of a number n run on n + 1 steps of
-- fuel, more than it has digits, and Money.Decimal relates them to n without a bound on it; the
-- spacing of doubles is found in 14 doublings, which reach beyond the largest radius.
--
-- Parameters: Engine is which statements and commits the database refuses, the identifiers it
-- makes and its clock; `escrow_enabled` is the environment variable ESCROW_ENABLED; Node and
-- JsonText are Buffer, node:crypto and JSON; Cache and ChallengeJson are Redis and JSON for the
-- challenges of a login; Geography is PostGIS; Validators are class-validator; Gateways are the
-- SMS and push providers; `read` reads a bundle of locales/. Reads outside a transaction see the
-- database before it. Statements of concurrent transactions do not interleave, and a
-- COMMIT that throws is taken to have left the database as it was.
--
-- Not modelled: the refusal of bodies of other types or with unknown fields, status codes, providers
-- and start-up, and the Python tools.
pub mod Prelude
pub mod Money
pub mod DeliveryClock
pub mod AdvanceCap
pub mod Database
pub mod Notification
pub mod Order
pub mod Payment
pub mod Identity
pub mod Node
pub mod Session
pub mod Catalog
pub mod Location
pub mod RateLimit
pub mod Login
pub mod Http
pub mod Ports
pub mod Adapters
pub mod Fixtures
