-- ===== src/Cart/Lines/IsValid.antt =====
-- The invariant of a cart's lines and the requests on them
-- (services/cart-service/src/cart.ts).
use ecomerce_microservices_o.Prelude.{
  ℕ, ◌+◌, ◌≤◌, ◌<◌, ◌≡◌, refl, ◌==◌, String, List, [], ◌∷◌, ◌++◌, none, some, max, arith, eq_iff,
  length, length-append, All, All-append, Bool-cases, Option-cases, inl, inr,
}
use ecomerce_microservices_o.Cart.Types.{StoredLine, max_lines, max_qty_per_line}
use ecomerce_microservices_o.Cart.Lines.{
  find_line, set_quantity, remove_line, clamp, add_to_lines, update_lines, merge_line, merge_lines,
}
use ecomerce_microservices_o.Cart.Lines.Quantity.{
  find_line-set_quantity_ne, find_line-remove_line_ne, find_line-append_ne,
}

abbrev pub InRange : StoredLine → Type 0
InRange l = (1 ≤ l.quantity) × (l.quantity ≤ max_qty_per_line)

-- No sku stands on two lines.
abbrev pub IsDistinct : List StoredLine → Type 0
IsDistinct [] = Unit
IsDistinct (l ∷ ls) = (find_line l.sku ls ≡ none) × IsDistinct ls

pub record IsValid (ls : List StoredLine) : Type 0 where
  pub fits : length ls ≤ max_lines
  pub in_range : All InRange ls
  pub distinct : IsDistinct ls

pub length-set_quantity :
    (sku : String) (f : ℕ → ℕ) (ls : List StoredLine) → length (set_quantity sku f ls) ≡ length ls
unfolding set_quantity
length-set_quantity sku f [] = refl
length-set_quantity sku f (x ∷ ls) = ground (arith, length-set_quantity sku f ls)

set_quantity-InRange :
    (sku : String) (f : ℕ → ℕ) (ls : List StoredLine)
    → ((q : ℕ) → 1 ≤ q → (1 ≤ f q) × (f q ≤ max_qty_per_line))
    → All InRange ls
    → All InRange (set_quantity sku f ls)
unfolding set_quantity
set_quantity-InRange sku f [] k h = tt
set_quantity-InRange sku f (x ∷ ls) k h =
    ground (arith, k x.quantity, set_quantity-InRange sku f ls k)

set_quantity-IsDistinct :
    (sku : String) (f : ℕ → ℕ) (ls : List StoredLine)
    → IsDistinct ls
    → IsDistinct (set_quantity sku f ls)
unfolding set_quantity
set_quantity-IsDistinct sku f [] h = tt
set_quantity-IsDistinct sku f (x ∷ ls) h = ground (
  arith,
  eq_iff x.sku sku,
  find_line-set_quantity_ne x.sku sku f ls,
  set_quantity-IsDistinct sku f ls,
)

remove_line-IsValid :
    (sku : String) (ls : List StoredLine) → IsValid ls → IsValid (remove_line sku ls)
unfolding remove_line
remove_line-IsValid sku [] h = h
remove_line-IsValid sku (x ∷ ls) h =
    let rest =
      remove_line-IsValid sku ls
        (record { fits = omega arith; in_range = h.in_range.1; distinct = h.distinct.1 }) in
    ground (
      arith,
      rest,
      eq_iff x.sku sku,
      find_line-remove_line_ne x.sku sku ls,
      length-remove_line sku ls,
    )
  where
    length-remove_line : (k : String) (xs : List StoredLine) → length (remove_line k xs) ≤ length xs
    length-remove_line k [] = omega arith
    length-remove_line k (y ∷ xs) = ground (arith, length-remove_line k xs)

append-IsDistinct :
    (l : StoredLine) (ls : List StoredLine)
    → IsDistinct ls
    → find_line l.sku ls ≡ none
    → IsDistinct (ls ++ l ∷ [])
unfolding find_line
append-IsDistinct l [] d n = (refl, tt)
append-IsDistinct l (x ∷ ls) d n =
    ground (arith, eq_iff x.sku l.sku, find_line-append_ne x.sku l ls, append-IsDistinct l ls)

append-IsValid :
    (l : StoredLine) (ls : List StoredLine)
    → IsValid ls
    → find_line l.sku ls ≡ none
    → length ls < max_lines
    → InRange l
    → IsValid (ls ++ l ∷ [])
append-IsValid l ls h new room range = record {
  fits = omega (arith, length-append {0} ls (l ∷ []));
  in_range = All-append InRange ls (l ∷ []) h.in_range (range, tt);
  distinct = append-IsDistinct l ls h.distinct new;
}

set_quantity-IsValid :
    (sku : String) (f : ℕ → ℕ) (ls : List StoredLine)
    → ((q : ℕ) → 1 ≤ q → (1 ≤ f q) × (f q ≤ max_qty_per_line))
    → IsValid ls
    → IsValid (set_quantity sku f ls)
set_quantity-IsValid sku f ls k h = record {
  fits = omega (arith, length-set_quantity sku f ls);
  in_range = set_quantity-InRange sku f ls k h.in_range;
  distinct = set_quantity-IsDistinct sku f ls h.distinct;
}

-- Adding a positive quantity to valid lines, when it is accepted, gives valid lines: at most 100,
-- each quantity from 1 to 99, no sku on two lines.
pub add_to_lines-IsValid :
    (line : StoredLine) (ls : List StoredLine) {ls' : List StoredLine}
    → 1 ≤ line.quantity
    → IsValid ls
    → add_to_lines line ls ≡ some ls'
    → IsValid ls'
unfolding add_to_lines
add_to_lines-IsValid line ls {ls'} pos_q h e = elim (Option-cases (find_line line.sku ls)) [
  | inl new ↦
      let clamped : StoredLine = record line { quantity = clamp line.quantity } in
      ground (arith, append-IsValid clamped ls h)
  | inr (l, old) ↦ ground (
    arith,
    set_quantity-IsValid line.sku (λ q. clamp (q + line.quantity)) ls (λ q p. omega arith) h,
  )
]

-- An update of valid lines that is accepted gives valid lines.
pub update_lines-IsValid :
    (sku : String) (quantity : ℕ) (ls : List StoredLine) {ls' : List StoredLine}
    → IsValid ls
    → update_lines sku quantity ls ≡ some ls'
    → IsValid ls'
unfolding update_lines
update_lines-IsValid sku quantity ls {ls'} h e = elim (Bool-cases (quantity == 0)) [
  | inl removed ↦ ground (arith, remove_line-IsValid sku ls h)
  | inr kept ↦
      ground (arith, set_quantity-IsValid sku (λ q. clamp quantity) ls (λ q p. ground arith) h)
]

pub merge_line-IsValid :
    (ls : List StoredLine) (line : StoredLine)
    → InRange line
    → IsValid ls
    → IsValid (merge_line ls line)
unfolding merge_line
merge_line-IsValid ls line range h = elim (Option-cases (find_line line.sku ls)) [
  | inl new ↦ ground (arith, append-IsValid line ls h)
  | inr (l, old) ↦ ground (
    arith,
    set_quantity-IsValid line.sku (λ q. clamp (max q line.quantity)) ls (λ q p. omega arith) h,
  )
]

-- Merging anonymous lines that are each in range into valid lines gives valid lines.
pub merge_lines-IsValid :
    (ls anon : List StoredLine) → All InRange anon → IsValid ls → IsValid (merge_lines ls anon)
unfolding merge_lines
merge_lines-IsValid ls [] r h = h
merge_lines-IsValid ls (l ∷ anon) r h =
    merge_lines-IsValid (merge_line ls l) anon r.1 (merge_line-IsValid ls l r.0 h)
