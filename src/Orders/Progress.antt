-- ===== src/Orders/Progress.antt =====
-- How the storefront follows an order: the effect of `OrderProgress`
-- (apps/storefront/src/components/checkout/order-progress.tsx), one function per callback. A delay is
-- in eighths of a millisecond, in which every value that the code computes is whole.
pub mod Polling
pub mod Settled
use ecomerce_microservices_o.Prelude.{
  ℕ, suc, ◌+◌, ◌-◌, ◌*◌, ◌/◌, min, Bool, true, false, not, ◌&&◌, ◌||◌, List, [], ◌∷◌, Option, none,
  some, if◌then◌else◌, nat_eq,
}
use ecomerce_microservices_o.Orders.{
  OrderStatus, confirmed, is_terminal, CancellationReason, UnavailableSku, OrderStatusResponse,
}

-- `timers` holds the numbers of the poll timeouts that are scheduled and `poll_timer` the one that
-- the variable `pollTimer` names; `in_flight` counts the polls that await an answer, and `sent`
-- those that were ever sent.
pub record State : Type 0 where
  pub status : OrderStatus
  pub reason : Option CancellationReason
  pub unavailable : List UnavailableSku
  pub stalled : Bool
  pub settled : Bool
  pub unmounted : Bool
  pub source_open : Bool
  pub delay : ℕ
  pub timers : List ℕ
  pub next_timer : ℕ
  pub poll_timer : Option ℕ
  pub in_flight : ℕ
  pub sent : ℕ
  pub refreshes : ℕ

unfoldable pub remove_timer : ℕ → List ℕ → List ℕ
remove_timer t [] = []
remove_timer t (u ∷ us) = let rest = remove_timer t us in if nat_eq u t then rest else u ∷ rest

-- `if (pollTimer) clearTimeout(pollTimer)`
abbrev pub cleared : Option ℕ → List ℕ → List ℕ
cleared none timers = timers
cleared (some t) timers = remove_timer t timers

-- `pollTimer = setTimeout(poll, …)`
unfoldable pub schedule : State → State
schedule s = record s {
  timers = s.next_timer ∷ s.timers;
  poll_timer = some s.next_timer;
  next_timer = suc s.next_timer;
}

-- `poll` up to its request
unfoldable pub poll : State → State
poll s =
    if s.unmounted || s.settled
    then s
    else record s { in_flight = suc s.in_flight; sent = suc s.sent }

abbrev pub is_confirmed : OrderStatus → Bool
is_confirmed confirmed = true
is_confirmed _ = false

abbrev pub show : OrderStatusResponse → State → State
show r s = record s {
  status = r.status;
  reason = r.cancellation_reason;
  unavailable = r.unavailable;
}

abbrev pub settle : OrderStatusResponse → State → State
settle r s = record s {
  settled = true;
  source_open = false;
  timers = cleared s.poll_timer s.timers;
  refreshes = if is_confirmed r.status then suc s.refreshes else s.refreshes;
}

-- apply, on what `safeParse` reads
unfoldable pub apply : Option OrderStatusResponse → State → State
apply none s = s
apply (some r) s =
    let shown = show r s in if s.unmounted then s else if r.terminal then settle r shown else shown

-- The end of `poll`, once its request is answered: `none` is a failed request, a status that is not
-- ok, or a body that does not parse.
unfoldable pub next_poll : State → State
unfolding schedule
next_poll s =
    if not s.unmounted && not s.settled
    then schedule (record s { delay = min (s.delay * 3 / 2) 40000 })
    else s

unfoldable pub poll_answered : Option OrderStatusResponse → State → State
unfolding next_poll
poll_answered r s = next_poll (apply r (record s { in_flight = s.in_flight - 1 }))

-- A poll timeout fires.
unfoldable pub timer_fired : ℕ → State → State
unfolding poll
timer_fired t s = poll (record s { timers = remove_timer t s.timers })

-- `source.onerror`
unfoldable pub source_failed : State → State
unfolding poll
source_failed s =
    let closed = record s { source_open = false } in if s.settled then closed else poll closed

-- The 90 seconds are over.
unfoldable pub stall : State → State
stall s = if not s.settled && not s.unmounted then record s { stalled = true } else s

-- The clean-up of the effect.
unfoldable pub unmount : State → State
unmount s = record s {
  unmounted = true;
  source_open = false;
  timers = cleared s.poll_timer s.timers;
}

-- The component with the status that it starts from, before its effect and after it; whether the
-- browser has an `EventSource` is an argument.
unfoldable pub component : OrderStatus → State
component status = record {
  status = status;
  reason = none;
  unavailable = [];
  stalled = false;
  settled = is_terminal status;
  unmounted = false;
  source_open = false;
  delay = 4000;
  timers = [];
  next_timer = 1;
  poll_timer = none;
  in_flight = 0;
  sent = 0;
  refreshes = 0;
}

unfoldable pub start : Bool → OrderStatus → State
unfolding component schedule
start has_event_source status =
    let s = component status in
    if s.settled then s else schedule (record s { source_open = has_event_source })
