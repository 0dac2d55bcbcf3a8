-- ===== src/Admin/Saga/Controls.antt =====
-- When the inspector lets an operator cancel
-- (apps/admin/src/components/saga-inspector.tsx).
use ecomerce_microservices_o.Prelude.{
  ◌≡◌, refl, Bool, true, false, ◌⊎◌, ◌↔◌, inl, inr, ◌&&◌, ◌||◌, not,
}
use ecomerce_microservices_o.Orders.{
  OrderStatus, pending, stock_reserved, paid, stock_committed, confirmed, compensating, cancelled,
  shipped, delivered, refunded,
}
use ecomerce_microservices_o.Admin.Saga.{
  SagaTrace, is_past_no_return, is_cancelled, past_no_return, offers_cancel,
}

-- The statuses before the stock is committed, in which an order can be rolled back.
pub data IsReversible : OrderStatus → Type 0 where
  is_pending : IsReversible pending
  is_reserved : IsReversible stock_reserved
  is_compensating : IsReversible compensating

-- The statuses that an order has after the saga went through.
pub data IsFulfilled : OrderStatus → Type 0 where
  is_shipped : IsFulfilled shipped
  is_delivered : IsFulfilled delivered
  is_refunded : IsFulfilled refunded

offered-status :
    (s : OrderStatus)
    → is_past_no_return s ≡ false
    → is_cancelled s ≡ false
    → IsReversible s ⊎ IsFulfilled s
unfolding is_past_no_return
offered-status pending h k = inl is_pending
offered-status stock_reserved h k = inl is_reserved
offered-status paid h k = absurd (cc h)
offered-status stock_committed h k = absurd (cc h)
offered-status confirmed h k = absurd (cc h)
offered-status compensating h k = inl is_compensating
offered-status cancelled h k = absurd (cc k)
offered-status shipped h k = inr is_shipped
offered-status delivered h k = inr is_delivered
offered-status refunded h k = inr is_refunded

status-offered :
    (s : OrderStatus)
    → IsReversible s ⊎ IsFulfilled s
    → (is_past_no_return s ≡ false) × (is_cancelled s ≡ false)
unfolding is_past_no_return
status-offered _ (inl is_pending) = (refl, refl)
status-offered _ (inl is_reserved) = (refl, refl)
status-offered _ (inl is_compensating) = (refl, refl)
status-offered _ (inr is_shipped) = (refl, refl)
status-offered _ (inr is_delivered) = (refl, refl)
status-offered _ (inr is_refunded) = (refl, refl)

-- The four tests behind the control.
tests :
    (a b c d : Bool)
    → a && not (b || c) && not d ≡ true
    → (a ≡ true) × (b ≡ false) × (c ≡ false) × (d ≡ false)
tests true false false false h = (refl, refl, refl, refl)
tests true false false true h = absurd (cc h)
tests true false true d h = absurd (cc h)
tests true true c d h = absurd (cc h)
tests false b c d h = absurd (cc h)

-- The cancel control is offered exactly to one who can act, on a trace that does not forbid the
-- rollback, of an order that is pending, reserved or being compensated, or that has been shipped,
-- delivered or refunded.
pub offers_cancel_iff :
    (can_act : Bool) (t : SagaTrace)
    → (offers_cancel can_act t ≡ true) ↔ (
        (can_act ≡ true)
        × (t.rollback_forbidden ≡ false)
        × (IsReversible t.status ⊎ IsFulfilled t.status))
unfolding offers_cancel past_no_return
offers_cancel_iff can_act t = (
  λ h.
      let (acts, allowed, before, live) =
        tests can_act t.rollback_forbidden (is_past_no_return t.status) (is_cancelled t.status) h in
      (acts, allowed, offered-status t.status before live),
  λ h.
      let (acts, allowed, which) = h in
      let (before, live) = status-offered t.status which in
      rw acts (rw allowed (rw before (rw live refl))),
)
