-- ===== src/Quantity.antt =====
-- The quantity control and the Add to Cart control of the storefront
-- (apps/storefront/src/components/cart/quantity-stepper.tsx and add-to-cart.tsx, and
-- canAttemptPurchase of components/catalog/stock-indicator.tsx). The text that `String` writes for a
-- number is an argument.
pub mod Bounds
use ecomerce_microservices_o.Prelude.{
  ℕ, ◌+◌, ◌-◌, min, max, Bool, true, false, ◌||◌, ◌&&◌, not, List, [], ◌∷◌, Option, none, some, leb,
  ltb, ◌==◌, if◌then◌else◌,
}
use ecomerce_microservices_o.Prelude.Codes.{is_digit, parse_digits}

-- The control: the value and the limits that it is given, whether it is disabled, and what is typed.
pub record Stepper : Type 0 where
  pub value : ℕ
  pub low : ℕ
  pub high : ℕ
  pub disabled : Bool
  pub draft : List ℕ

-- `replace(/[^0-9]/g, '')`
unfoldable pub digits_of : List ℕ → List ℕ
digits_of [] = []
digits_of (c ∷ s) = let rest = digits_of s in if is_digit c then c ∷ rest else rest

abbrev pub clamp : Stepper → ℕ → ℕ
clamp s n = max s.low (min s.high n)

-- `if (clamped !== value) onCommit(clamped)`
abbrev pub change_to : Stepper → ℕ → Option ℕ
change_to s n = if n == s.value then none else some n

-- The buttons, and what a click on them commits: nothing while they are disabled.
unfoldable pub decrease : Stepper → Option ℕ
decrease s = if s.disabled || leb s.value s.low then none else some (s.value - 1)

unfoldable pub increase : Stepper → Option ℕ
increase s = if s.disabled || leb s.high s.value then none else some (s.value + 1)

module _ (string_of : ℕ → List ℕ) where
  abbrev pub commit_parsed : Option ℕ → Stepper → Option ℕ × Stepper
  commit_parsed none s = (none, record s { draft = string_of s.value })
  commit_parsed (some n) s = (change_to s (clamp s n), record s { draft = string_of (clamp s n) })

  -- commit: what is committed, if anything, and the control after it
  unfoldable pub commit : Stepper → Option ℕ × Stepper
  commit s = commit_parsed (parse_digits s.draft) s

-- canAttemptPurchase
unfoldable pub can_attempt_purchase : Option ℕ → Bool
can_attempt_purchase none = true
can_attempt_purchase (some n) = ltb 0 n

-- `max` of AddToCart
unfoldable pub max_of : Option ℕ → ℕ
max_of none = 99
max_of (some n) = if ltb 0 n then min n 99 else 99

-- AddToCart: its quantity, the text of its control, the tick, and the quantities that it asked the
-- basket to add, newest first.
pub record State : Type 0 where
  pub quantity : ℕ
  pub draft : List ℕ
  pub just_added : Bool
  pub adds : List ℕ

-- Disabled while the item is out of stock or the basket is busy.
abbrev pub is_disabled : Option ℕ → Bool → Bool
is_disabled available loading = not (can_attempt_purchase available) || loading

abbrev pub stepper_of : Option ℕ → Bool → State → Stepper
stepper_of available loading s = record {
  value = s.quantity;
  low = 1;
  high = max_of available;
  disabled = is_disabled available loading;
  draft = s.draft;
}

module _ (string_of : ℕ → List ℕ) (available : Option ℕ) where
  abbrev pub initial : State
  initial = record { quantity = 1; draft = string_of 1; just_added = false; adds = [] }

  -- `setQuantity`, after which the control writes the new value
  abbrev pub set_quantity : Option ℕ → State → State
  set_quantity none s = s
  set_quantity (some n) s = record s { quantity = n; draft = string_of n }

  -- onChange of the input
  unfoldable pub type_text : Bool → List ℕ → State → State
  type_text loading text s =
      if is_disabled available loading then s else record s { draft = digits_of text }

  -- onBlur, and Enter
  unfoldable pub blur : Bool → State → State
  blur loading s =
      let (committed, stepper) = commit string_of (stepper_of available loading s) in
      set_quantity committed (record s { draft = stepper.draft })

  unfoldable pub click_minus : Bool → State → State
  click_minus loading s = set_quantity (decrease (stepper_of available loading s)) s

  unfoldable pub click_plus : Bool → State → State
  click_plus loading s = set_quantity (increase (stepper_of available loading s)) s

  -- onAdd, up to the answer of the basket; and its end, with whether it was added
  unfoldable pub click_add : Bool → State → State
  click_add loading s =
      if is_disabled available loading then s else record s { adds = s.quantity ∷ s.adds }

  unfoldable pub added : Bool → State → State
  added true s = record s { just_added = true }
  added false s = s

  abbrev pub tick_over : State → State
  tick_over s = record s { just_added = false }
