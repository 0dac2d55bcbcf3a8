-- ===== src/Orders.antt =====
-- Orders: the statuses of libs/ts-contracts/src/api.ts and what the storefront shows of them
-- (apps/storefront/src/components/checkout/order-progress.tsx).
pub mod Progress
use ecomerce_microservices_o.Prelude.{
  ℕ, Bool, true, false, String, List, [], ◌∷◌, Option, none, some, if◌then◌else◌, str_eq,
}

pub data OrderStatus : Type 0 where
  pending stock_reserved paid stock_committed confirmed : OrderStatus
  compensating cancelled shipped delivered refunded : OrderStatus

-- isTerminal
unfoldable pub is_terminal : OrderStatus → Bool
is_terminal confirmed = true
is_terminal cancelled = true
is_terminal shipped = true
is_terminal delivered = true
is_terminal refunded = true
is_terminal _ = false

pub data CancellationReason : Type 0 where
  insufficient_stock payment_declined payment_timeout reservation_timeout : CancellationReason
  customer_cancelled fraud_rejected : CancellationReason

pub record UnavailableSku : Type 0 where
  pub sku : String
  pub requested : ℕ
  pub available : ℕ

-- What `OrderStatusResponse` keeps of an answer, but the order's id and its time; a missing list of
-- unavailable skus is the empty one that the component puts in its place.
pub record OrderStatusResponse : Type 0 where
  pub status : OrderStatus
  pub terminal : Bool
  pub cancellation_reason : Option CancellationReason
  pub unavailable : List UnavailableSku

-- stepIndex: the place in STEPS, or 0.
unfoldable pub step_index : OrderStatus → ℕ
step_index pending = 0
step_index stock_reserved = 1
step_index paid = 2
step_index stock_committed = 3
step_index confirmed = 4
step_index _ = 0

pub record FailureCopy : Type 0 where
  pub title : String
  pub body : String
  pub retry : Bool

-- FAILURE_COPY, and the copy for a reason that has none
unfoldable pub failure_copy : Option CancellationReason → FailureCopy
failure_copy (some insufficient_stock) = record {
  title = "Some items sold out";
  body = "They went while you were checking out. Nothing has been charged.";
  retry = false;
}
failure_copy (some payment_declined) = record {
  title = "Your payment was declined";
  body = "Your bank turned down the payment. Nothing has been charged — try another card.";
  retry = true;
}
failure_copy (some payment_timeout) = record {
  title = "Payment took too long";
  body = "We could not reach your bank in time and released your items. Nothing has been charged.";
  retry = true;
}
failure_copy (some reservation_timeout) = record {
  title = "Checkout timed out";
  body = "Your items were released. Nothing has been charged.";
  retry = true;
}
failure_copy (some customer_cancelled) = record {
  title = "Order cancelled";
  body = "You cancelled this order. Nothing has been charged.";
  retry = true;
}
failure_copy (some fraud_rejected) = record {
  title = "We could not complete this order";
  body = "Please contact support if you think this is a mistake.";
  retry = false;
}
failure_copy none = record {
  title = "We could not complete your order";
  body = "Nothing has been charged.";
  retry = true;
}

-- The panel that is shown: of a failure, of a success, or of the steps with the current one and
-- whether the items are being released.
pub data Panel : Type 0 where
  failure : FailureCopy → List UnavailableSku → Panel
  success : Panel
  steps : ℕ → Bool → Panel

unfoldable pub panel_of : OrderStatus → Option CancellationReason → List UnavailableSku → Panel
unfolding step_index failure_copy
panel_of cancelled reason unavailable = failure (failure_copy reason) unavailable
panel_of confirmed reason unavailable = success
panel_of compensating reason unavailable = steps (step_index compensating) true
panel_of status reason unavailable = steps (step_index status) false
