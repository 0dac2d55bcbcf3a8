-- ===== src/Orders/Progress/Settled.antt =====
-- What still happens after the answer that ends the polling
-- (apps/storefront/src/components/checkout/order-progress.tsx).
use ecomerce_microservices_o.Prelude.{
  ◌-◌, ◌≡◌, refl, sym, ◌∙◌, true, false, Option, none, some, arith,
}
use ecomerce_microservices_o.Orders.{OrderStatus, OrderStatusResponse}
use ecomerce_microservices_o.Orders.Progress.{
  State, remove_timer, poll, apply, next_poll, poll_answered, timer_fired, source_failed, stall,
  unmount,
}
use ecomerce_microservices_o.Orders.Progress.Polling.{
  Step, fired, answered, streamed, stream_failed, overdue, left_page, Reach, here, then_step,
}

apply-settled :
    (r : Option OrderStatusResponse) (s : State)
    → s.settled ≡ true
    → ((apply r s).settled ≡ true) × ((apply r s).sent ≡ s.sent)
unfolding apply
apply-settled none s h = (h, refl)
apply-settled (some r) s h = ground arith

next_poll-settled : (s : State) → s.settled ≡ true → next_poll s ≡ s
unfolding next_poll
next_poll-settled s h = ground arith

poll-settled : (s : State) → s.settled ≡ true → poll s ≡ s
unfolding poll
poll-settled s h = ground arith

step-settled : (s t : State) → Step s t → s.settled ≡ true → (t.settled ≡ true) × (t.sent ≡ s.sent)
unfolding poll_answered timer_fired source_failed stall unmount
step-settled _ _ (fired s t has) h =
    rw (poll-settled (record s { timers = remove_timer t s.timers }) h) (h, refl)
step-settled _ _ (answered s r waits) h =
    let (done, same) = apply-settled r (record s { in_flight = s.in_flight - 1 }) h in
    rw (next_poll-settled (apply r (record s { in_flight = s.in_flight - 1 })) done) (done, same)
step-settled _ _ (streamed s r is_open) h = apply-settled r s h
step-settled _ _ (stream_failed s is_open) h = ground arith
step-settled _ _ (overdue s) h = ground arith
step-settled _ _ (left_page s) h = (h, refl)

-- Once the progress of an order is settled it stays so, and no further poll is ever sent.
pub settled-quiet :
    (s t : State) → Reach s t → s.settled ≡ true → (t.settled ≡ true) × (t.sent ≡ s.sent)
settled-quiet _ _ (here s) h = (h, refl)
settled-quiet _ _ (then_step s t u r st) h =
    let (done, same) = settled-quiet s t r h in
    let (done', same') = step-settled t u st done in (done', same' ∙ same)

-- Nothing is awaited any more and the stream is closed.
abbrev pub IsStuck : OrderStatus → State → Type 0
IsStuck status s =
    (s.settled ≡ true) × (s.source_open ≡ false) × (s.in_flight ≡ 0) × (s.status ≡ status)

step-IsStuck : (status : OrderStatus) (s t : State) → Step s t → IsStuck status s → IsStuck status t
unfolding timer_fired stall unmount
step-IsStuck status _ _ (fired s t has) (h, closed, idle, same) =
    rw (poll-settled (record s { timers = remove_timer t s.timers }) h) (h, closed, idle, same)
step-IsStuck status _ _ (answered s r waits) (h, closed, idle, same) = absurd (omega arith)
step-IsStuck status _ _ (streamed s r is_open) (h, closed, idle, same) =
    absurd (cc (sym is_open ∙ closed))
step-IsStuck status _ _ (stream_failed s is_open) (h, closed, idle, same) =
    absurd (cc (sym is_open ∙ closed))
step-IsStuck status _ _ (overdue s) (h, closed, idle, same) = ground arith
step-IsStuck status _ _ (left_page s) (h, closed, idle, same) = (h, refl, idle, same)

reach-IsStuck :
    (status : OrderStatus) (s t : State) → Reach s t → IsStuck status s → IsStuck status t
reach-IsStuck status _ _ (here s) h = h
reach-IsStuck status _ _ (then_step s t u r st) h =
    step-IsStuck status t u st (reach-IsStuck status s t r h)

late-IsStuck :
    (s : State) (r late : OrderStatusResponse)
    → s.unmounted ≡ false
    → s.in_flight ≡ 1
    → r.terminal ≡ true
    → late.terminal ≡ false
    → let s' = poll_answered (some late) (apply (some r) s) in
      IsStuck late.status s' × (s'.sent ≡ s.sent)
unfolding poll_answered next_poll apply
late-IsStuck s r late shown one last open_still = ground arith

-- When one poll is in flight while the answer that ends the polling arrives, and the poll is then
-- answered with a status that is not terminal, the page shows that status in every later state and
-- no further poll is sent.
pub late_answer :
    (s t : State) (r late : OrderStatusResponse)
    → s.unmounted ≡ false
    → s.in_flight ≡ 1
    → r.terminal ≡ true
    → late.terminal ≡ false
    → Reach (poll_answered (some late) (apply (some r) s)) t
    → (t.status ≡ late.status) × (t.sent ≡ s.sent)
late_answer s t r late shown one last going reached =
    let s' = poll_answered (some late) (apply (some r) s) in
    let (stuck, same) = late-IsStuck s r late shown one last going in
    (
      (reach-IsStuck late.status s' t reached stuck).3,
      (settled-quiet s' t reached stuck.0).1 ∙ same,
    )
