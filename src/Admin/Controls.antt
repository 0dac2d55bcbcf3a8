-- ===== src/Admin/Controls.antt =====
-- The controls of the admin app (apps/admin/src/components/dlq-actions.tsx, price-control.tsx and
-- product-status-control.tsx). Texts are character codes.
pub mod Confirmed
use ecomerce_microservices_o.Prelude.{
  ℕ, Bool, true, false, ◌&&◌, ◌||◌, not, String, List, [], ◌∷◌, Option, none, some, ltb, leb, ◌==◌,
  if◌then◌else◌, str_eq, length,
}
use ecomerce_microservices_o.Prelude.Codes.{starts_with}
use ecomerce_microservices_o.Search.{trim}

abbrev pub Text : Type 0
Text = List ℕ

pub data Action : Type 0 where
  replay discard : Action

-- DlqActions: with the requests that were sent, newest first, and what was typed at each.
pub record State : Type 0 where
  pub confirming : Bool
  pub typed : Text
  pub busy : Option Action
  pub requests : List (Action × Text)

abbrev pub initial : State
initial = record { confirming = false; typed = []; busy = none; requests = [] }

abbrev pub is_busy : Option Action → Bool
is_busy none = false
is_busy (some a) = true

-- act, up to its answer
abbrev pub act : Action → State → State
act a s = record s { busy = some a; requests = (a, s.typed) ∷ s.requests }

-- act, from the answer, with whether it was a success
unfoldable pub acted : Bool → State → State
acted true s = record s { confirming = false; typed = []; busy = none }
acted false s = record s { busy = none }

-- May the typed text discard the message?
unfoldable pub is_confirmed : Text → Text → Bool
is_confirmed event_id typed = starts_with event_id typed && not (ltb (length typed) 8)

-- The clicks and the typing, each where its control is shown and enabled; `pending` is that of the
-- transition.
unfoldable pub click_replay : Bool → State → State
click_replay pending s = if s.confirming || is_busy s.busy || pending then s else act replay s

unfoldable pub click_trash : Bool → State → State
click_trash pending s =
    if s.confirming || is_busy s.busy || pending then s else record s { confirming = true }

unfoldable pub type_id : Text → State → State
type_id t s = if s.confirming then record s { typed = t } else s

unfoldable pub click_discard : Text → State → State
unfolding is_confirmed
click_discard event_id s =
    if s.confirming && is_confirmed event_id s.typed && not (is_busy s.busy)
    then act discard s
    else s

unfoldable pub click_cancel : State → State
click_cancel s = if s.confirming then record s { confirming = false; typed = [] } else s

-- PriceControl.save: nothing, the alert that the price is above the reference price, or the request.
-- `minor_units` is what `parseFloat` and `Math.round` make of the amount, `none` where that is not a
-- number from 0.
pub record PriceChange : Type 0 where
  pub sku : String
  pub price : ℕ
  pub list_price : Option ℕ
  pub currency : String
  pub reason : Text

pub data Saved : Type 0 where
  ignored : Saved
  above_reference : Saved
  posted : PriceChange → Saved

abbrev pub is_above : Option ℕ → ℕ → Bool
is_above none price = false
is_above (some list_price) price = ltb list_price price

abbrev pub save_units : String → Option ℕ → String → Text → Option ℕ → Saved
save_units sku list_price currency reason none = ignored
save_units sku list_price currency reason (some units) =
    if is_above list_price units
    then above_reference
    else posted (record {
      sku = sku;
      price = units;
      list_price = list_price;
      currency = currency;
      reason = reason;
    })

unfoldable pub save : (Text → Option ℕ) → String → Option ℕ → String → Text → Text → Saved
save minor_units sku list_price currency amount reason =
    save_units sku list_price currency reason (minor_units amount)

-- The button, and what a click on it comes to.
unfoldable pub click_save :
    (Text → Option ℕ) → Bool → String → Option ℕ → String → Text → Text → Saved
unfolding save
click_save minor_units busy sku list_price currency amount reason =
    if busy || ltb (length (trim reason)) 3
    then ignored
    else save minor_units sku list_price currency amount reason

-- ProductStatusControl.change: nothing, or the request with the version of the row.
pub record StatusChange : Type 0 where
  pub status : String
  pub version : ℕ

unfoldable pub change_status : String → ℕ → String → Option StatusChange
change_status status version next =
    if str_eq next status then none else some (record { status = next; version = version })

-- What follows the answer: whether an alert is shown, and whether the page is read again.
pub data Followed : Type 0 where
  refreshed : Followed
  told_then_refreshed : Followed
  told : Followed

unfoldable pub status_answered : ℕ → Followed
status_answered code =
    if code == 409
    then told_then_refreshed
    else if leb 200 code && leb code 299
    then refreshed
    else told
