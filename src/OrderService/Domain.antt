-- ===== src/OrderService/Domain.antt =====
-- The values of order-service that the placing of an order checks
-- (services/order-service/internal/domain/domain.go): ids, money, addresses and lines. Amounts are
-- int64, whose sums and products wrap around, and the texts of an address are character codes.
use ecomerce_microservices_o.Prelude.{
  ℕ, ◌+◌, ◌-◌, ◌%◌, Bool, true, false, ◌&&◌, ◌||◌, not, String, List, [], ◌∷◌, Option, none, some,
  leb, ◌==◌, if◌then◌else◌, str_eq, length,
}
use ecomerce_microservices_o.Prelude.Codes.{codes, starts_with, is_digit}
use ecomerce_microservices_o.Prelude.Int.{ℤ, pos, negsuc, sub_ℕ, ◌+ℤ◌, ◌*ℤ◌, ltb_ℤ}
use ecomerce_microservices_o.Money.{Money}

-- The characters of an id after its prefix: digits, and capitals other than I, L, O and U.
abbrev pub is_id_char : ℕ → Bool
is_id_char c =
    is_digit c
    || leb b'A' c
      && leb c b'Z'
      && not (c == b'I')
      && not (c == b'L')
      && not (c == b'O')
      && not (c == b'U')

unfoldable pub all_id_chars : List ℕ → Bool
all_id_chars [] = true
all_id_chars (c ∷ s) = is_id_char c && all_id_chars s

abbrev pub after : List ℕ → List ℕ → List ℕ
after [] s = s
after (c ∷ prefix) [] = []
after (c ∷ prefix) (d ∷ s) = after prefix s

-- ValidID, with the prefix and its underscore
unfoldable pub valid_id : List ℕ → String → Bool
valid_id prefix id =
    length (codes id) == length prefix + 26
    && starts_with (codes id) prefix
    && all_id_chars (after prefix (codes id))

-- What an int64 keeps of a result: it wraps around at 2 ^ 63.
unfoldable pub wrap_int64 : ℤ → ℤ
wrap_int64 (pos n) = sub_ℕ ((n + 9223372036854775808) % 18446744073709551616) 9223372036854775808
wrap_int64 (negsuc n) =
    sub_ℕ (18446744073709551615 - (n + 9223372036854775808) % 18446744073709551616)
      9223372036854775808

-- Add, Mul and Equal of Money
unfoldable pub add : Money → Money → Option Money
add m o =
    if str_eq m.currency o.currency
    then some (record { amount = wrap_int64 (m.amount +ℤ o.amount); currency = m.currency })
    else none

unfoldable pub mul : Money → ℤ → Money
mul m qty = record { amount = wrap_int64 (m.amount *ℤ qty); currency = m.currency }

abbrev pub eq_ℤ : ℤ → ℤ → Bool
eq_ℤ a b = not (ltb_ℤ a b) && not (ltb_ℤ b a)

unfoldable pub money_eq : Money → Money → Bool
money_eq m o = eq_ℤ m.amount o.amount && str_eq m.currency o.currency

pub record Address : Type 0 where
  pub recipient : List ℕ
  pub line1 : List ℕ
  pub line2 : List ℕ
  pub city : List ℕ
  pub region : List ℕ
  pub postal_code : List ℕ
  pub country_code : List ℕ
  pub phone : List ℕ

abbrev pub is_blank : List ℕ → Bool
is_blank [] = true
is_blank (_ ∷ _) = false

abbrev pub has_lower : List ℕ → Bool
has_lower [] = false
has_lower (c ∷ s) = leb b'a' c && leb c b'z' || has_lower s

-- Address.Validate, of a country code in ASCII
unfoldable pub valid_address : Address → Bool
valid_address a =
    not (is_blank a.recipient)
    && not (is_blank a.line1)
    && not (is_blank a.city)
    && not (is_blank a.postal_code)
    && length a.country_code == 2
    && not (has_lower a.country_code)

pub record Item : Type 0 where
  pub sku : String
  pub product_id : String
  pub quantity : ℤ
  pub unit_price : Money

-- RecomputeTotal, of lines whose totals are what the handler made of them, unit price by quantity
unfoldable pub sum_lines : Money → List Item → Option Money
sum_lines sub [] = some sub
sum_lines sub (it ∷ items) = elim (add sub (mul it.unit_price it.quantity)) [
  | none ↦ none
  | some next ↦ sum_lines next items
]

unfoldable pub add_all : Money → List Money → Option Money
add_all total [] = some total
add_all total (part ∷ parts) = elim (add total part) [
  | none ↦ none
  | some next ↦ add_all next parts
]

abbrev pub not_negative : Option Money → Option Money
not_negative none = none
not_negative (some total) = if ltb_ℤ total.amount (pos 0) then none else some total

abbrev pub check_subtotal : Money → List Money → Option Money → Option Money
check_subtotal subtotal parts none = none
check_subtotal subtotal parts (some sub) =
    if money_eq sub subtotal then not_negative (add_all sub parts) else none

unfoldable pub recompute_total : Money → List Money → List Item → Option Money
recompute_total subtotal parts items =
    check_subtotal subtotal parts
      (sum_lines (record { amount = pos 0; currency = subtotal.currency }) items)
