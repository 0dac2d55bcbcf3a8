-- ===== src/Lib.antt =====
-- The TypeScript core of the shop: the cart service, the review service, notifications, the
-- storefront with its calls to the services, and the admin app.
--
-- The parts and their files:
--   Prelude       numbers, lists, texts, integers and stores by key that the other files share;
--   Money         libs/ts-contracts/src/primitives.ts: `addMoney`, `multiplyMoney`, `zeroMoney`;
--   Cart          services/cart-service/src/cart.ts. Types has the interfaces of cart.ts, pricing.ts
--                 and catalog.ts, Codes the coupon codes, Lines what each request does to the lines,
--                 Redis the stored hashes with CAS_SCRIPT, `cas` and `load`, Pricing has `hydrate`,
--                 `price` and `degradedCart`, and Service the methods `get`, `create`, `addLine`,
--                 `updateLine`, `applyCoupon` and `merge`. Routes has the routes of index.ts with its
--                 error handler, what they parse of libs/ts-contracts/src, and the requests of the
--                 storefront's routes apps/storefront/src/app/api/bff/cart;
--   Breaker       services/cart-service/src/circuit-breaker.ts, and `calculate` of pricing.ts;
--   Catalog       services/cart-service/src/catalog.ts: `getVariant`, `getVariants`, `prune`;
--   Notification  services/notification-service/src/delivery.ts: `deliver` and its checks; index.ts:
--                 Recipients (`loadRecipient`), Webhook (/v1/webhooks/ses) and Consumer (`toCommand`,
--                 `eachMessage`; Lost is about throws of Cassandra), with `templateExists` of templates.ts, and Templates (`pick`,
--                 `wrapHtml`);
--   Rating        services/review-service/src/rating.ts;
--   Reviews       services/review-service/src/reviews.ts: `moderate`, `applyRatingDelta`,
--                 `rebuildSummary`, `recordPurchase`, `hasPurchased`, `markHelpful`. Routes has
--                 `create`, and the routes and the consumer of index.ts; Pages has
--                 `listForProduct`;
--   Bff           apps/storefront/src/lib/bff.ts: `call`, `once`, `toProblem`, `gather`;
--   Session       apps/storefront/src/lib/session.ts, over Identity, the refresh tokens of
--                 services/identity-service (token/TokenService.java);
--   Basket        apps/storefront/src/components/cart/cart-provider.tsx;
--   Quantity      apps/storefront/src/components/cart/quantity-stepper.tsx and add-to-cart.tsx;
--   Checkout      apps/storefront/src/components/checkout/checkout-flow.tsx and app/api/bff/orders, over
--                 OrderService, POST /v1/orders of services/order-service (internal/httpapi/api.go,
--                 store/idempotency.go, orchestrator/place.go, and Domain, domain/domain.go);
--   Search        apps/storefront/src/components/layout/search-box.tsx and app/api/bff/suggest, and
--                 Page, app/search/page.tsx with components/catalog/sort-select.tsx;
--   Account       the forms of apps/storefront/src/components/auth with session-provider.tsx, and
--                 Enrolment, mfa-enrolment.tsx;
--   Orders        `OrderStatus` of libs/ts-contracts/src/api.ts and the effect and the panels of
--                 apps/storefront/src/components/checkout/order-progress.tsx;
--   ApiClient     apps/storefront/src/lib/api-client.ts and app/api/bff/_problem.ts;
--   Listing       apps/storefront/src/components/catalog/facets.tsx and pagination.tsx, and
--                 `discountPercent` and `toQuery` of lib/utils.ts;
--   Variants      apps/storefront/src/components/catalog/variant-picker.tsx;
--   Products      apps/storefront/src/components/catalog/product-card.tsx, price.tsx and
--                 stock-indicator.tsx, and app/products/[slug]/page.tsx;
--   Admin         apps/admin/src: lib/admin-api.ts (Client), lib/session.ts and the guard _guard.ts
--                 (Session), the routes under app/api/admin (Routes), the pages under app (Pages),
--                 components/saga-inspector.tsx (Saga) and the controls of components (Controls);
--   Toast         apps/storefront/src/hooks/use-toast.ts;
--   Tests         runs of these on concrete data.
--
-- How the code is rendered. State is passed explicitly: a method is a function from the store before
-- to its answer and the store after, and what it wrote stays written when it throws. Thrown errors
-- are values of a result type, or `none` where there is one. A database's error may hide a write that
-- took effect: the field of `Env` that ends in `landed` says so. What the code does not own (the other
-- clients of Redis, the providers, the network, the clock, random ids, MongoDB's `$inc`) is a field of
-- an `Env` or an argument, and what a theorem relies on of it is a hypothesis. A request on a cart
-- loads it, then the other clients act (`between`), then it writes with the compare-and-swap; they may
-- swap any cart, write indexes and delete other carts (Cart.Redis.Versions.Step).
-- Texts that are changed (coupon codes, error messages) are lists of character codes with the ASCII
-- cases of `trim`, `toUpperCase` and `toLowerCase`. Times are milliseconds. An average is counted in
-- tenths of a star, from the exact quotient where the code rounds a floating-point one, and the
-- breaker's threshold is a fraction. Amounts are integers without a bound, as the code's are safe
-- integers, but in OrderService, where they wrap around as int64. Rows that expire carry the time they
-- were written: the claims of dedupe keys stand for 30 days and the purchases for a year, and the
-- idempotency keys of order-service are purged once they are 24 hours old. The only fuel is in
-- `follow`, the number of pages that a client asks for, and there a page per review is enough; the
-- retries of `cas` follow the list of what Redis answers, and those of `call` the number of attempts
-- left.
--
-- The parts meet as in the code: the consumer calls `deliver`, the webhook writes the suppression list
-- that `deliver` reads, the routes of cart-service call the methods of Service, the session calls
-- identity-service, and an error of `call` reaches the browser through ApiClient. Components of the
-- user interface are states with one function per callback; several callbacks in any order are steps
-- of a relation, with `Reach` for what they lead to, or a list of events, with `happen_all`. Delays of
-- polls are in eighths of a millisecond.
--
-- Not modelled: the automatic flags of reviews' `create` and its texts, the texts of the templates,
-- telemetry, the zod schemas that no modelled function reads, markup, the
-- other pages, and the services in other languages but for the refresh tokens and the placing of an
-- order: the saga that an order starts is theirs.
pub mod Prelude
pub mod Money
pub mod Orders
pub mod OrderService
pub mod Checkout
pub mod Quantity
pub mod Search
pub mod Account
pub mod Identity
pub mod Session
pub mod Basket
pub mod Cart
pub mod Breaker
pub mod Notification
pub mod Bff
pub mod Listing
pub mod Variants
pub mod Admin
pub mod ApiClient
pub mod Catalog
pub mod Rating
pub mod Reviews
pub mod Toast
pub mod Products
pub mod Tests
