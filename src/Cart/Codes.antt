-- ===== src/Cart/Codes.antt =====
-- Coupon codes: `code.trim().toUpperCase()` and `includes`, on ASCII codes
-- (services/cart-service/src/cart.ts, applyCoupon).
use ecomerce_microservices_o.Prelude.{
  ℕ, ◌-◌, ◌≡◌, refl, Bool, true, false, ◌&&◌, ◌||◌, List, [], ◌∷◌, ◌++◌, map, arith, leb, ◌==◌,
  if◌then◌else◌,
}
use ecomerce_microservices_o.Cart.Types.{Code}

-- The ASCII white space: tab, line feed, vertical tab, form feed, carriage return and space.
abbrev pub is_space : ℕ → Bool
is_space c = (leb 9 c && leb c 13) || c == 32

abbrev pub upper : ℕ → ℕ
upper c = if leb b'a' c && leb c b'z' then c - 32 else c

unfoldable pub trim_start : Code → Code
trim_start [] = []
trim_start (c ∷ s) = let rest = trim_start s in if is_space c then rest else c ∷ s

-- A space is dropped at the end when nothing but spaces follows.
abbrev pub cons_trimmed : ℕ → Code → Code
cons_trimmed c [] = if is_space c then [] else c ∷ []
cons_trimmed c (d ∷ s) = c ∷ d ∷ s

unfoldable pub trim_end : Code → Code
trim_end [] = []
trim_end (c ∷ s) = cons_trimmed c (trim_end s)

unfoldable pub normalise : Code → Code
unfolding trim_start trim_end
normalise code = map upper (trim_end (trim_start code))

unfoldable pub code_eq : Code → Code → Bool
code_eq [] [] = true
code_eq (c ∷ s) (d ∷ t) = c == d && code_eq s t
code_eq _ _ = false

-- `coupons.includes(code)`
unfoldable pub has_code : Code → List Code → Bool
unfolding code_eq
has_code c [] = false
has_code c (x ∷ xs) = code_eq x c || has_code c xs

-- `if (!coupons.includes(c)) coupons.push(c)`
unfoldable pub push_code : List Code → Code → List Code
unfolding has_code
push_code xs c = if has_code c xs then xs else xs ++ c ∷ []

-- `[...new Set([...xs, ...ys])]`, inserted one by one.
unfoldable pub union_codes : List Code → List Code → List Code
unfolding push_code
union_codes seen [] = seen
union_codes seen (c ∷ ys) = union_codes (push_code seen c) ys

pub code_eq_self : (c : Code) → code_eq c c ≡ true
unfolding code_eq
code_eq_self [] = refl
code_eq_self (c ∷ s) = ground (arith, code_eq_self s)

pub eq_of_code_eq : (c d : Code) → code_eq c d ≡ true → c ≡ d
unfolding code_eq
eq_of_code_eq [] [] h = refl
eq_of_code_eq [] (d ∷ t) h = cc
eq_of_code_eq (c ∷ s) [] h = cc
eq_of_code_eq (c ∷ s) (d ∷ t) h = ground (arith, eq_of_code_eq s t)
