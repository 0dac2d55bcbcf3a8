-- ===== src/Admin/Controls/Confirmed.antt =====
-- What is typed before a message is discarded, and a price is changed
-- (apps/admin/src/components/dlq-actions.tsx and price-control.tsx).
use ecomerce_microservices_o.Prelude.{
  ℕ, ◌≤◌, ◌≡◌, ◌∙◌, ap, sym, Bool, true, false, ◌&&◌, ◌||◌, not, List, [], ◌∷◌, String, Option,
  none, some, All, length, arith, ltb, Bool-cases, inl, inr,
}
use mathlib.Core.Option.{some-injective}
use ecomerce_microservices_o.Prelude.Codes.{starts_with}
use ecomerce_microservices_o.Search.{trim}
use ecomerce_microservices_o.Admin.Controls.{
  Text, Action, replay, discard, State, initial, acted, is_busy, is_confirmed, click_replay,
  click_trash, type_id, click_discard, click_cancel, PriceChange, Saved, posted, is_above,
  save_units, save, click_save,
}

pub data Event : Type 0 where
  replay_clicked trash_clicked : Bool → Event
  id_typed : Text → Event
  discard_clicked cancel_clicked : Event
  answered : Bool → Event

abbrev end_busy : Option Action → Bool → State → State
end_busy none success s = s
end_busy (some a) success s = acted success s

-- An answer only comes to a request in flight.
unfoldable pub happen : Text → Event → State → State
happen event_id (replay_clicked pending) s = click_replay pending s
happen event_id (trash_clicked pending) s = click_trash pending s
happen event_id (id_typed t) s = type_id t s
happen event_id discard_clicked s = click_discard event_id s
happen event_id cancel_clicked s = click_cancel s
happen event_id (answered success) s = end_busy s.busy success s

unfoldable pub happen_all : Text → List Event → State → State
happen_all event_id [] s = s
happen_all event_id (e ∷ es) s = happen_all event_id es (happen event_id e s)

-- A request to discard was sent with at least 8 characters typed that the event's id starts with.
abbrev pub IsMeant : Text → Action × Text → Type 0
IsMeant event_id (replay, typed) = Unit
IsMeant event_id (discard, typed) = (starts_with event_id typed ≡ true) × (8 ≤ length typed)

abbrev IsValid : Text → State → Type 0
IsValid event_id s = All (IsMeant event_id) s.requests

happen-IsValid :
    (event_id : Text) (e : Event) (s : State)
    → IsValid event_id s
    → IsValid event_id (happen event_id e s)
unfolding happen click_replay click_trash type_id click_discard click_cancel is_confirmed acted
happen-IsValid event_id (replay_clicked pending) s h =
    elim (Bool-cases (s.confirming || is_busy s.busy || pending)) [
      | inl off ↦ rw off h
      | inr on ↦ rw on (tt, h)
    ]
happen-IsValid event_id (trash_clicked pending) s h =
    elim (Bool-cases (s.confirming || is_busy s.busy || pending)) [
      | inl off ↦ rw off h
      | inr on ↦ rw on h
    ]
happen-IsValid event_id (id_typed t) s h = elim (Bool-cases s.confirming) [
  | inl on ↦ rw on h
  | inr off ↦ rw off h
]
happen-IsValid event_id discard_clicked s h =
    elim (Bool-cases (
      s.confirming
      && (starts_with event_id s.typed && not (ltb (length s.typed) 8))
      && not (is_busy s.busy))) [
        | inl on ↦ rw on ((ground arith, ground arith), h)
        | inr off ↦ rw off h
      ]
happen-IsValid event_id cancel_clicked s h = elim (Bool-cases s.confirming) [
  | inl on ↦ rw on h
  | inr off ↦ rw off h
]
happen-IsValid event_id (answered success) s h = ended s.busy success
  where
    ended : (b : Option Action) (ok : Bool) → IsValid event_id (end_busy b ok s)
    ended none ok = h
    ended (some a) true = h
    ended (some a) false = h

happen_all-IsValid :
    (event_id : Text) (es : List Event) (s : State)
    → IsValid event_id s
    → IsValid event_id (happen_all event_id es s)
unfolding happen_all
happen_all-IsValid event_id [] s h = h
happen_all-IsValid event_id (e ∷ es) s h =
    happen_all-IsValid event_id es (happen event_id e s) (happen-IsValid event_id e s h)

-- Whatever is clicked and typed on the row of a dead-lettered message, in any order, it is discarded
-- only on a click with at least 8 characters typed that its event's id starts with.
pub happen_all-IsMeant :
    (event_id : Text) (es : List Event)
    → All (IsMeant event_id) (happen_all event_id es initial).requests
happen_all-IsMeant event_id es = happen_all-IsValid event_id es initial tt

abbrev change_in : Saved → Option PriceChange
change_in (posted c) = some c
change_in _ = none

save_units-posted :
    (sku : String) (list_price : Option ℕ) (currency : String) (reason : Text) (units : Option ℕ)
    (change : PriceChange)
    → save_units sku list_price currency reason units ≡ posted change
    → (units ≡ some change.price)
      × (is_above list_price change.price ≡ false)
      × (change.reason ≡ reason)
save_units-posted sku list_price currency reason none change h = absurd (cc h)
save_units-posted sku list_price currency reason (some n) change h =
    elim (Bool-cases (is_above list_price n)) [
      | inl above ↦ absurd (cc (rw above at h))
      | inr fair ↦
          let e = some-injective _ _ (ap change_in (rw fair at h)) in
          (
            ap (λ c. some (PriceChange.price c)) e,
            ap (λ c. is_above list_price (PriceChange.price c)) (sym e) ∙ fair,
            ap PriceChange.reason (sym e),
          )
    ]

-- A price is posted only with a reason of at least three characters, less the space around it, and
-- not above the reference price where there is one.
pub click_save-posted :
    (minor_units : Text → Option ℕ) (busy : Bool) (sku : String) (list_price : Option ℕ)
    (currency : String) (amount reason : Text) (change : PriceChange)
    → click_save minor_units busy sku list_price currency amount reason ≡ posted change
    → (3 ≤ length (trim reason))
      × (minor_units amount ≡ some change.price)
      × (is_above list_price change.price ≡ false)
      × (change.reason ≡ reason)
unfolding click_save save
click_save-posted minor_units busy sku list_price currency amount reason change h =
    elim (Bool-cases (busy || ltb (length (trim reason)) 3)) [
      | inl off ↦ absurd (cc (rw off at h))
      | inr on ↦
          let (units, fair, why) =
            save_units-posted sku list_price currency reason (minor_units amount) change
              (rw on at h) in
          (ground arith, units, fair, why)
    ]
