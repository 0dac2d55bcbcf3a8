-- ===== src/Tests/Orders.antt =====
-- The progress of an order at concrete data
-- (apps/storefront/src/components/checkout/order-progress.tsx).
use ecomerce_microservices_o.Prelude.{◌≡◌, refl, true, false, [], none, some}
use ecomerce_microservices_o.Orders.{
  pending, paid, confirmed, OrderStatus, OrderStatusResponse, is_terminal,
}
use ecomerce_microservices_o.Orders.Progress.{
  State, start, component, schedule, timer_fired, poll, remove_timer, apply, poll_answered,
}
use ecomerce_microservices_o.Orders.Progress.Polling.{
  here, then_step, fired, has_timer, IsValid, start-reaches,
}
use ecomerce_microservices_o.Orders.Progress.Settled.{late_answer}

abbrev answer : OrderStatus → OrderStatusResponse
answer status = record {
  status = status;
  terminal = is_terminal status;
  cancellation_reason = none;
  unavailable = [];
}

-- The first poll is on its way.
abbrev polling : State
polling = timer_fired 1 (start true pending)

polling_in_flight : (polling.in_flight ≡ 1) × (polling.unmounted ≡ false)
unfolding timer_fired start component schedule poll remove_timer is_terminal
polling_in_flight = (refl, refl)

start-reaches_example : IsValid (timer_fired 1 (start true pending))
unfolding start schedule component is_terminal has_timer
start-reaches_example = start-reaches true pending (timer_fired 1 (start true pending)) (
    then_step (start true pending) (start true pending) (timer_fired 1 (start true pending))
      (here (start true pending)) (fired (start true pending) 1 refl))

late_answer_example :
    let t = poll_answered (some (answer paid)) (apply (some (answer confirmed)) polling) in
    (t.status ≡ paid) × (t.sent ≡ polling.sent)
unfolding is_terminal
late_answer_example =
    late_answer polling
      (poll_answered (some (answer paid)) (apply (some (answer confirmed)) polling))
      (answer confirmed) (answer paid) polling_in_flight.1 polling_in_flight.0 refl refl
      (here (poll_answered (some (answer paid)) (apply (some (answer confirmed)) polling)))
