-- ===== src/Cart/Lines/Quantity.antt =====
-- The quantity held of each sku after each request on the lines
-- (services/cart-service/src/cart.ts).
use ecomerce_microservices_o.Prelude.{
  ℕ, ◌+◌, ◌≡◌, refl, ◌≢◌, String, List, [], ◌∷◌, ◌++◌, Option, none, some, max, arith, eq_iff, ltb,
  length, length-append, if◌then◌else◌, str_eq, str_eq_self,
}
use ecomerce_microservices_o.Cart.Types.{StoredLine, max_lines}
use ecomerce_microservices_o.Cart.Lines.{
  find_line, set_quantity, remove_line, clamp, add_to_lines, update_lines, merge_line,
}

-- The quantity of a line that may be missing.
abbrev pub held : Option StoredLine → ℕ
held none = 0
held (some l) = l.quantity

abbrev pub quantity_of : String → List StoredLine → ℕ
quantity_of sku ls = held (find_line sku ls)

pub quantity_of-set_quantity_self :
    (sku : String) (f : ℕ → ℕ) (ls : List StoredLine)
    → find_line sku ls ≢ none
    → quantity_of sku (set_quantity sku f ls) ≡ f (quantity_of sku ls)
unfolding find_line set_quantity
quantity_of-set_quantity_self sku f [] e = absurd (e refl)
quantity_of-set_quantity_self sku f (x ∷ ls) e =
    ground (arith, eq_iff x.sku sku, quantity_of-set_quantity_self sku f ls)

pub find_line-set_quantity_ne :
    (k sku : String) (f : ℕ → ℕ) (ls : List StoredLine)
    → k ≢ sku
    → find_line k (set_quantity sku f ls) ≡ find_line k ls
unfolding find_line set_quantity
find_line-set_quantity_ne k sku f [] h = refl
find_line-set_quantity_ne k sku f (x ∷ ls) h =
    ground (arith, eq_iff x.sku k, eq_iff x.sku sku, find_line-set_quantity_ne k sku f ls h)

pub find_line-append_self :
    (l : StoredLine) (ls : List StoredLine)
    → find_line l.sku ls ≡ none
    → find_line l.sku (ls ++ l ∷ []) ≡ some l
unfolding find_line
find_line-append_self l [] e = rw (str_eq_self l.sku)
find_line-append_self l (x ∷ ls) e = ground (arith, find_line-append_self l ls)

pub find_line-append_ne :
    (k : String) (l : StoredLine) (ls : List StoredLine)
    → k ≢ l.sku
    → find_line k (ls ++ l ∷ []) ≡ find_line k ls
unfolding find_line
find_line-append_ne k l [] h = ground (arith, eq_iff l.sku k)
find_line-append_ne k l (x ∷ ls) h = ground (arith, find_line-append_ne k l ls h)

pub find_line-remove_line_self :
    (sku : String) (ls : List StoredLine) → find_line sku (remove_line sku ls) ≡ none
unfolding find_line remove_line
find_line-remove_line_self sku [] = refl
find_line-remove_line_self sku (x ∷ ls) = ground (arith, find_line-remove_line_self sku ls)

pub find_line-remove_line_ne :
    (k sku : String) (ls : List StoredLine)
    → k ≢ sku
    → find_line k (remove_line sku ls) ≡ find_line k ls
unfolding find_line remove_line
find_line-remove_line_ne k sku [] h = refl
find_line-remove_line_ne k sku (x ∷ ls) h =
    ground (arith, eq_iff x.sku k, eq_iff x.sku sku, find_line-remove_line_ne k sku ls h)

-- Adding a line raises the quantity of its sku, to the limit of 99, and changes no other quantity.
pub quantity_of-add_to_lines :
    (k : String) (line : StoredLine) (ls : List StoredLine) {ls' : List StoredLine}
    → add_to_lines line ls ≡ some ls'
    → quantity_of k ls'
      ≡ (if str_eq k line.sku then clamp (quantity_of k ls + line.quantity) else quantity_of k ls)
unfolding add_to_lines
quantity_of-add_to_lines k line ls e = ground (
  arith,
  eq_iff k line.sku,
  length-append {0} ls (line ∷ []),
  quantity_of-set_quantity_self line.sku (λ q. clamp (q + line.quantity)) ls,
  find_line-set_quantity_ne k line.sku (λ q. clamp (q + line.quantity)) ls,
  find_line-append_self (record line { quantity = clamp line.quantity }) ls,
  find_line-append_ne k (record line { quantity = clamp line.quantity }) ls,
)

-- Updating a line sets the quantity of its sku, at most 99, and no other; a quantity of 0 removes
-- it.
pub quantity_of-update_lines :
    (k sku : String) (quantity : ℕ) (ls : List StoredLine) {ls' : List StoredLine}
    → update_lines sku quantity ls ≡ some ls'
    → quantity_of k ls' ≡ (if str_eq k sku then clamp quantity else quantity_of k ls)
unfolding update_lines
quantity_of-update_lines k sku quantity ls e = ground (
  arith,
  eq_iff k sku,
  quantity_of-set_quantity_self sku (λ q. clamp quantity) ls,
  find_line-set_quantity_ne k sku (λ q. clamp quantity) ls,
  find_line-remove_line_self sku ls,
  find_line-remove_line_ne k sku ls,
)

pub quantity_of-merge_line :
    (k : String) (merged : List StoredLine) (line : StoredLine)
    → quantity_of k (merge_line merged line) ≡ (
        if str_eq k line.sku
        then elim (find_line line.sku merged) [
          | some _ ↦ clamp (max (quantity_of k merged) line.quantity)
          | none ↦ if ltb (length merged) max_lines then line.quantity else 0
        ]
        else quantity_of k merged)
unfolding merge_line
quantity_of-merge_line k merged line = ground (
  arith,
  eq_iff k line.sku,
  quantity_of-set_quantity_self line.sku (λ q. clamp (max q line.quantity)) merged,
  find_line-set_quantity_ne k line.sku (λ q. clamp (max q line.quantity)) merged,
  find_line-append_self line merged,
  find_line-append_ne k line merged,
)
