-- ===== src/Basket.antt =====
-- The basket that the storefront keeps (apps/storefront/src/components/cart/cart-provider.tsx): the
-- state of `CartProvider`, one function per start and end of a request.
pub mod Latest
use ecomerce_microservices_o.Prelude.{
  ℕ, suc, ◌+◌, ◌≡◌, Bool, true, false, String, List, [], ◌∷◌, Option, none, some, ◌==◌,
  if◌then◌else◌, nat_eq,
}

-- What the provider reads of a cart.
pub record Cart : Type 0 where
  pub version : ℕ
  pub lines : List (String × ℕ)

-- `in_flight` is the last ticket drawn; `pending` holds the tickets whose `mutate` has not ended,
-- newest first.
pub record State : Type 0 where
  pub cart : Option Cart
  pub loading : Bool
  pub in_flight : ℕ
  pub pending : List ℕ

-- How the request of `refresh` ends: with a cart, a 404, or another error.
pub data Refreshed : Type 0 where
  got : Cart → Refreshed
  not_found : Refreshed
  failed : Refreshed

-- How `run` ends: with a cart; with CART_STALE, after which `mutate` awaits a refresh that ends so;
-- or with another error, which is shown or thrown on.
pub data Outcome : Type 0 where
  changed : Cart → Outcome
  stale : Refreshed → Outcome
  rejected : Outcome

-- refresh
unfoldable pub refreshed : Refreshed → State → State
refreshed (got c) s = record s { cart = some c }
refreshed not_found s = record s { cart = none }
refreshed failed s = s

-- mutate, up to its request: the ticket and the new state
unfoldable pub begin_mutation : State → ℕ × State
begin_mutation s =
    let ticket = suc s.in_flight in
    (ticket, record s { in_flight = ticket; loading = true; pending = ticket ∷ s.pending })

-- `cart?.version ?? 0`
abbrev pub version_of : Option Cart → ℕ
version_of none = 0
version_of (some c) = c.version

abbrev pub remove_ticket : ℕ → List ℕ → List ℕ
remove_ticket t [] = []
remove_ticket t (u ∷ us) = let rest = remove_ticket t us in if nat_eq u t then rest else u ∷ rest

-- `finally`
abbrev pub close : ℕ → State → State
close ticket s = record (if nat_eq ticket s.in_flight then record s { loading = false } else s) {
  pending = remove_ticket ticket s.pending;
}

abbrev pub take_answer : ℕ → Outcome → State → State
take_answer ticket (changed next) s =
    if nat_eq ticket s.in_flight then record s { cart = some next } else s
take_answer ticket (stale r) s = refreshed r s
take_answer ticket rejected s = s

-- mutate, from the answer of its request to its end
unfoldable pub end_mutation : ℕ → Outcome → State → State
end_mutation ticket outcome s = close ticket (take_answer ticket outcome s)

-- itemCount
unfoldable pub item_count : Option Cart → ℕ
item_count none = 0
item_count (some c) = count c.lines
  where
    count : List (String × ℕ) → ℕ
    count [] = 0
    count ((sku, q) ∷ ls) = q + count ls
