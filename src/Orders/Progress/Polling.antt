-- ===== src/Orders/Progress/Polling.antt =====
-- The polling of an order and its end
-- (apps/storefront/src/components/checkout/order-progress.tsx).
use ecomerce_microservices_o.Prelude.{
  ℕ, ◌+◌, ◌-◌, not, ◌&&◌, ◌≤◌, ◌<◌, ◌≡◌, refl, Bool, true, false, List, [], ◌∷◌, Option, none, some,
  if◌then◌else◌, nat_eq, length, arith, inl, inr, Bool-cases,
}
use ecomerce_microservices_o.Orders.{OrderStatus, OrderStatusResponse}
use ecomerce_microservices_o.Orders.Progress.{
  State, remove_timer, cleared, schedule, poll, apply, next_poll, poll_answered, timer_fired,
  source_failed, stall, unmount, component, start,
}

-- `timers` contains `t`.
unfoldable pub has_timer : ℕ → List ℕ → Bool
has_timer t [] = false
has_timer t (u ∷ us) = if nat_eq u t then true else has_timer t us

-- One callback: a timeout that is scheduled, the answer to a poll that awaits it, a message or the
-- failure of an open stream, the 90 seconds, or the clean-up.
pub data Step : State → State → Type 0 where
  fired : (s : State) (t : ℕ) → has_timer t s.timers ≡ true → Step s (timer_fired t s)
  answered :
      (s : State) (r : Option OrderStatusResponse) → 1 ≤ s.in_flight → Step s (poll_answered r s)
  streamed :
      (s : State) (r : Option OrderStatusResponse) → s.source_open ≡ true → Step s (apply r s)
  stream_failed : (s : State) → s.source_open ≡ true → Step s (source_failed s)
  overdue : (s : State) → Step s (stall s)
  left_page : (s : State) → Step s (unmount s)

pub data Reach : State → State → Type 0 where
  here : (s : State) → Reach s s
  then_step : (s t u : State) → Reach s t → Step t u → Reach s u

-- The chains of polls: what is scheduled, what awaits an answer, and what an open stream can still
-- start.
unfoldable pub chains : State → ℕ
chains s = length s.timers + s.in_flight + (if s.source_open then 1 else 0)

-- At most two chains of polls run; while the order is open and the page is shown at least one does;
-- and a delay is from 500 to 5000 milliseconds.
pub record IsValid (s : State) : Type 0 where
  pub few : chains s ≤ 2
  pub alive : s.settled ≡ false → s.unmounted ≡ false → 1 ≤ length s.timers + s.in_flight
  pub delay_min : 4000 ≤ s.delay
  pub delay_max : s.delay ≤ 40000

length-remove_timer : (t : ℕ) (ts : List ℕ) → length (remove_timer t ts) ≤ length ts
unfolding remove_timer
length-remove_timer t [] = omega arith
length-remove_timer t (u ∷ us) = ground (arith, length-remove_timer t us)

length-remove_timer_lt :
    (t : ℕ) (ts : List ℕ) → has_timer t ts ≡ true → length (remove_timer t ts) < length ts
unfolding remove_timer has_timer
length-remove_timer_lt t [] h = absurd (cc h)
length-remove_timer_lt t (u ∷ us) h =
    ground (arith, length-remove_timer t us, length-remove_timer_lt t us)

length-cleared : (t : Option ℕ) (ts : List ℕ) → length (cleared t ts) ≤ length ts
length-cleared none ts = omega arith
length-cleared (some t) ts = length-remove_timer t ts

start-IsValid :
    (has_event_source : Bool) (status : OrderStatus) → IsValid (start has_event_source status)
unfolding start chains schedule component
start-IsValid has_event_source status = record {
  few = ground arith;
  alive = ground arith;
  delay_min = ground arith;
  delay_max = ground arith;
}

poll-IsValid : (s : State) → chains s ≤ 1 → 4000 ≤ s.delay → s.delay ≤ 40000 → IsValid (poll s)
unfolding poll chains
poll-IsValid s few low high = record {
  few = ground arith;
  alive = ground arith;
  delay_min = ground arith;
  delay_max = ground arith;
}

apply-chains : (r : Option OrderStatusResponse) (s : State) → chains (apply r s) ≤ chains s
unfolding apply chains
apply-chains none s = omega arith
apply-chains (some r) s = ground (arith, length-cleared s.poll_timer s.timers)

apply-kept :
    (r : Option OrderStatusResponse) (s : State)
    → ((apply r s).delay ≡ s.delay)
      × ((apply r s).in_flight ≡ s.in_flight)
      × (s.settled ≡ true → (apply r s).settled ≡ true)
      × ((apply r s).unmounted ≡ s.unmounted)
      × ((apply r s).settled ≡ false → (apply r s).timers ≡ s.timers)
unfolding apply
apply-kept none s = (refl, refl, (λ h. h), refl, λ _. refl)
apply-kept (some r) s = ground arith

apply-IsValid : (r : Option OrderStatusResponse) (s : State) → IsValid s → IsValid (apply r s)
apply-IsValid r s v =
    let (same_delay, same_flight, still, same_page, same_timers) = apply-kept r s in
    record {
      few = omega (arith, apply-chains r s, v.few);
      alive = λ going shown. rw (same_timers going, same_flight) (ground arith);
      delay_min = rw same_delay v.delay_min;
      delay_max = rw same_delay v.delay_max;
    }

next_poll-IsValid :
    (s : State)
    → chains s ≤ 2
    → (s.settled ≡ false → s.unmounted ≡ false → chains s ≤ 1)
    → 4000 ≤ s.delay
    → s.delay ≤ 40000
    → IsValid (next_poll s)
unfolding next_poll schedule chains
next_poll-IsValid s few fewer low high = record {
  few = ground arith;
  alive = ground arith;
  delay_min = ground arith;
  delay_max = ground arith;
}

chains-fired :
    (s : State) (t : ℕ)
    → has_timer t s.timers ≡ true
    → chains (record s { timers = remove_timer t s.timers }) < chains s
unfolding chains
chains-fired s t has = omega (arith, length-remove_timer_lt t s.timers has)

timer_fired-IsValid :
    (s : State) (t : ℕ) → has_timer t s.timers ≡ true → IsValid s → IsValid (timer_fired t s)
unfolding timer_fired
timer_fired-IsValid s t has v =
    poll-IsValid (record s { timers = remove_timer t s.timers })
      (omega (arith, chains-fired s t has, v.few)) v.delay_min v.delay_max

stream_failed-IsValid : (s : State) → s.source_open ≡ true → IsValid s → IsValid (source_failed s)
unfolding source_failed chains poll
stream_failed-IsValid s is_open v =
    let few : chains s ≤ 2 = v.few in
    record {
      few = ground arith;
      alive = ground arith;
      delay_min = ground (arith, v.delay_min);
      delay_max = ground (arith, v.delay_max);
    }

chains-answered :
    (s : State) → 1 ≤ s.in_flight → chains (record s { in_flight = s.in_flight - 1 }) < chains s
unfolding chains
chains-answered s waits = omega arith

poll_answered-IsValid :
    (s : State) (r : Option OrderStatusResponse)
    → 1 ≤ s.in_flight
    → IsValid s
    → IsValid (poll_answered r s)
unfolding poll_answered
poll_answered-IsValid s r waits v =
    let s' : State = record s { in_flight = s.in_flight - 1 } in
    let same_delay = (apply-kept r s').0 in
    let fewer : chains (apply r s') ≤ 1 =
      omega (arith, apply-chains r s', chains-answered s waits, v.few) in
    next_poll-IsValid (apply r s') (omega (arith, fewer)) (λ _ _. fewer) (rw same_delay v.delay_min)
      (rw same_delay v.delay_max)

stall-IsValid : (s : State) → IsValid s → IsValid (stall s)
unfolding stall chains
stall-IsValid s v = elim (Bool-cases (not s.settled && not s.unmounted)) [
  | inl on ↦
      rw on
        (record { few = v.few; alive = v.alive; delay_min = v.delay_min; delay_max = v.delay_max })
  | inr hardly ↦ rw hardly v
]

chains-unmounted : (s : State) → chains (unmount s) ≤ chains s
unfolding unmount chains
chains-unmounted s = ground (arith, length-cleared s.poll_timer s.timers)

unmount-IsValid : (s : State) → IsValid s → IsValid (unmount s)
unfolding unmount
unmount-IsValid s v = record {
  few = omega (arith, chains-unmounted s, v.few);
  alive = λ _ gone. absurd (cc gone);
  delay_min = v.delay_min;
  delay_max = v.delay_max;
}

step-IsValid : (s t : State) → Step s t → IsValid s → IsValid t
step-IsValid _ _ (fired s t has) v = timer_fired-IsValid s t has v
step-IsValid _ _ (answered s r waits) v = poll_answered-IsValid s r waits v
step-IsValid _ _ (streamed s r is_open) v = apply-IsValid r s v
step-IsValid _ _ (stream_failed s is_open) v = stream_failed-IsValid s is_open v
step-IsValid _ _ (overdue s) v = stall-IsValid s v
step-IsValid _ _ (left_page s) v = unmount-IsValid s v

reach-IsValid : (s t : State) → Reach s t → IsValid s → IsValid t
reach-IsValid _ _ (here s) v = v
reach-IsValid _ _ (then_step s t u r st) v = step-IsValid t u st (reach-IsValid s t r v)

-- In every state that the progress of an order reaches, at most two chains of polls run, at least
-- one does while the order is not settled and the page is shown, and the delay between polls is from
-- 500 to 5000 milliseconds.
pub start-reaches :
    (has_event_source : Bool) (status : OrderStatus) (s : State)
    → Reach (start has_event_source status) s
    → IsValid s
start-reaches has_event_source status s r =
    reach-IsValid (start has_event_source status) s r (start-IsValid has_event_source status)
