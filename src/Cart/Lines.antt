-- ===== src/Cart/Lines.antt =====
-- The lines of a stored cart and what each request does to them, between the load and the write
-- (services/cart-service/src/cart.ts).
pub mod Quantity
pub mod IsValid
pub mod Merge
use ecomerce_microservices_o.Prelude.{
  ℕ, ◌+◌, ◌≡◌, Bool, true, false, not, String, List, [], ◌∷◌, ◌++◌, Option, none, some, min, max,
  ltb, ◌==◌, length, if◌then◌else◌, str_eq,
}
use ecomerce_microservices_o.Prelude.Int.{ℤ}
use ecomerce_microservices_o.Cart.Types.{StoredLine, StoredCart, max_lines, max_qty_per_line}

-- `lines.find((l) => l.sku === sku)`
unfoldable pub find_line : String → List StoredLine → Option StoredLine
find_line sku [] = none
find_line sku (l ∷ ls) = if str_eq l.sku sku then some l else find_line sku ls

-- The write `line.quantity = f(line.quantity)` on the line that `find` returned.
unfoldable pub set_quantity : String → (ℕ → ℕ) → List StoredLine → List StoredLine
set_quantity sku f [] = []
set_quantity sku f (l ∷ ls) =
    if str_eq l.sku sku
    then record l { quantity = f l.quantity } ∷ ls
    else l ∷ set_quantity sku f ls

-- `lines.filter((l) => l.sku !== sku)`
unfoldable pub remove_line : String → List StoredLine → List StoredLine
remove_line sku [] = []
remove_line sku (l ∷ ls) =
    let rest = remove_line sku ls in if str_eq l.sku sku then rest else l ∷ rest

abbrev pub clamp : ℕ → ℕ
clamp q = min q max_qty_per_line

-- `none` is `throw new CartFull()`.
abbrev pub push_line : List StoredLine → StoredLine → Option (List StoredLine)
push_line ls l = if ltb (length ls) max_lines then some (ls ++ l ∷ []) else none

-- addLine: the lines after adding `line`, a new one with the requested quantity.
unfoldable pub add_to_lines : StoredLine → List StoredLine → Option (List StoredLine)
unfolding find_line set_quantity
add_to_lines line ls = elim (find_line line.sku ls) [
  | some _ ↦ some (set_quantity line.sku (λ q. clamp (q + line.quantity)) ls)
  | none ↦ push_line ls (record line { quantity = clamp line.quantity })
]

-- updateLine: `none` is `throw new Error('LINE_NOT_FOUND')`.
unfoldable pub update_lines : String → ℕ → List StoredLine → Option (List StoredLine)
unfolding find_line set_quantity remove_line
update_lines sku quantity ls =
    if quantity == 0 then some (remove_line sku ls) else elim (find_line sku ls) [
      | some _ ↦ some (set_quantity sku (λ _. clamp quantity) ls)
      | none ↦ none
    ]

-- merge: one round of the loop over the anonymous lines.
unfoldable pub merge_line : List StoredLine → StoredLine → List StoredLine
unfolding find_line set_quantity
merge_line merged line = elim (find_line line.sku merged) [
  | some _ ↦ set_quantity line.sku (λ q. clamp (max q line.quantity)) merged
  | none ↦ if ltb (length merged) max_lines then merged ++ line ∷ [] else merged
]

unfoldable pub merge_lines : List StoredLine → List StoredLine → List StoredLine
unfolding merge_line
merge_lines merged [] = merged
merge_lines merged (l ∷ ls) = merge_lines (merge_line merged l) ls
