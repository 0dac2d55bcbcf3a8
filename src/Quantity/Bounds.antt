-- ===== src/Quantity/Bounds.antt =====
-- The quantities that can be asked for
-- (apps/storefront/src/components/cart/quantity-stepper.tsx and add-to-cart.tsx).
use ecomerce_microservices_o.Prelude.{
  ℕ, ◌≤◌, ◌≡◌, ◌≢◌, Bool, true, false, List, [], ◌∷◌, Option, none, some, All, arith, Bool-cases,
  inl, inr, ◌==◌, ◌||◌, leb,
}
use mathlib.Core.Option.{some-injective}
use ecomerce_microservices_o.Prelude.Codes.{parse_digits}
use ecomerce_microservices_o.Quantity.{
  Stepper, clamp, change_to, decrease, increase, commit, commit_parsed, can_attempt_purchase,
  max_of, State, is_disabled, stepper_of, initial, set_quantity, type_text, blur, click_minus,
  click_plus, click_add, added, tick_over,
}

abbrev pub IsWithin : ℕ → ℕ → Option ℕ → Type 0
IsWithin low high none = Unit
IsWithin low high (some n) = (low ≤ n) × (n ≤ high)

commit-IsWithin :
    (string_of : ℕ → List ℕ) (s : Stepper)
    → s.low ≤ s.high
    → IsWithin s.low s.high (commit string_of s).0
unfolding commit
commit-IsWithin string_of s order = by_parsed (parse_digits s.draft)
  where
    changed : (n : ℕ) → s.low ≤ n → n ≤ s.high → IsWithin s.low s.high (change_to s n)
    changed n above below = elim (Bool-cases (n == s.value)) [
      | inl same ↦ rw same tt
      | inr other ↦ rw other (above, below)
    ]

    by_parsed : (o : Option ℕ) → IsWithin s.low s.high (commit_parsed string_of o s).0
    by_parsed none = tt
    by_parsed (some n) = changed (clamp s n) (omega arith) (omega arith)

decrease-IsWithin :
    (s : Stepper) → s.low ≤ s.value → s.value ≤ s.high → IsWithin s.low s.high (decrease s)
unfolding decrease
decrease-IsWithin s above below = elim (Bool-cases (s.disabled || leb s.value s.low)) [
  | inl off ↦ rw off tt
  | inr on ↦ rw on (ground arith, ground arith)
]

increase-IsWithin :
    (s : Stepper) → s.low ≤ s.value → s.value ≤ s.high → IsWithin s.low s.high (increase s)
unfolding increase
increase-IsWithin s above below = elim (Bool-cases (s.disabled || leb s.high s.value)) [
  | inl off ↦ rw off tt
  | inr on ↦ rw on (ground arith, ground arith)
]

-- Whatever is typed or clicked, the control only commits a quantity within its limits, where its value
-- was within them.
pub commits-IsWithin :
    (string_of : ℕ → List ℕ) (s : Stepper)
    → s.low ≤ s.value
    → s.value ≤ s.high
    → IsWithin s.low s.high (commit string_of s).0
      × IsWithin s.low s.high (decrease s)
      × IsWithin s.low s.high (increase s)
commits-IsWithin string_of s above below = (
  commit-IsWithin string_of s (omega arith),
  decrease-IsWithin s above below,
  increase-IsWithin s above below,
)

-- One thing that happens to the control of an item: the text, a commit, a click, or the end of one.
pub data Event : Type 0 where
  typed : Bool → List ℕ → Event
  committed minus plus asked : Bool → Event
  ended : Bool → Event
  ticked : Event

max_of-pos : (available : Option ℕ) → 1 ≤ max_of available
unfolding max_of
max_of-pos none = omega arith
max_of-pos (some n) = ground arith

-- A quantity that may be asked of an item: from 1 to 99, where the stock is not known to be 0, and no
-- more than the stock that is known.
abbrev pub IsOffered : Option ℕ → ℕ → Type 0
IsOffered available n =
    (available ≢ some 0) × (1 ≤ n) × (n ≤ 99) × ((stock : ℕ) → available ≡ some stock → n ≤ stock)

allowed-IsOffered :
    (available : Option ℕ) (n : ℕ)
    → can_attempt_purchase available ≡ true
    → 1 ≤ n
    → n ≤ max_of available
    → IsOffered available n
unfolding can_attempt_purchase max_of
allowed-IsOffered none n can above below = (λ e. cc e, above, below, λ stock e. absurd (cc e))
allowed-IsOffered (some m) n can above below = (
  λ e. let none_left = some-injective m 0 e in absurd (ground arith),
  above,
  ground arith,
  λ stock e. let same = some-injective m stock e in ground arith,
)

module _ (string_of : ℕ → List ℕ) (available : Option ℕ) where
  unfoldable pub happen : Event → State → State
  happen (typed loading text) s = type_text string_of available loading text s
  happen (committed loading) s = blur string_of available loading s
  happen (minus loading) s = click_minus string_of available loading s
  happen (plus loading) s = click_plus string_of available loading s
  happen (asked loading) s = click_add string_of available loading s
  happen (ended ok) s = added string_of available ok s
  happen ticked s = tick_over string_of available s

  unfoldable pub happen_all : List Event → State → State
  happen_all [] s = s
  happen_all (e ∷ es) s = happen_all es (happen e s)

  abbrev IsValid : State → Type 0
  IsValid s = (1 ≤ s.quantity) × (s.quantity ≤ max_of available) × All (IsOffered available) s.adds

  set_quantity-IsValid :
      (o : Option ℕ) (s : State)
      → IsWithin 1 (max_of available) o
      → IsValid s
      → IsValid (set_quantity string_of available o s)
  set_quantity-IsValid none s h valid = valid
  set_quantity-IsValid (some n) s (above, below) (_, _, offered) = (above, below, offered)

  happen-IsValid : (e : Event) (s : State) → IsValid s → IsValid (happen e s)
  unfolding happen type_text blur click_minus click_plus click_add added
  happen-IsValid (typed loading text) s h = elim (Bool-cases (is_disabled available loading)) [
    | inl off ↦ rw off h
    | inr on ↦ rw on h
  ]
  happen-IsValid (committed loading) s (above, below, offered) =
      set_quantity-IsValid (commit string_of (stepper_of available loading s)).0
        (record s { draft = (commit string_of (stepper_of available loading s)).1.draft })
        (commit-IsWithin string_of (stepper_of available loading s) (max_of-pos available))
        (above, below, offered)
  happen-IsValid (minus loading) s (above, below, offered) =
      set_quantity-IsValid (decrease (stepper_of available loading s)) s
        (decrease-IsWithin (stepper_of available loading s) above below) (above, below, offered)
  happen-IsValid (plus loading) s (above, below, offered) =
      set_quantity-IsValid (increase (stepper_of available loading s)) s
        (increase-IsWithin (stepper_of available loading s) above below) (above, below, offered)
  happen-IsValid (asked loading) s (above, below, offered) =
      elim (Bool-cases (is_disabled available loading)) [
        | inl off ↦ rw off (above, below, offered)
        | inr on ↦ rw on (
          above,
          below,
          (allowed-IsOffered available s.quantity (ground arith) above below, offered),
        )
      ]
  happen-IsValid (ended true) s h = h
  happen-IsValid (ended false) s h = h
  happen-IsValid ticked s h = h

  happen_all-IsValid : (es : List Event) (s : State) → IsValid s → IsValid (happen_all es s)
  unfolding happen_all
  happen_all-IsValid [] s h = h
  happen_all-IsValid (e ∷ es) s h = happen_all-IsValid es (happen e s) (happen-IsValid e s h)

-- Whatever happens to the Add to Cart control of an item, in any order and with the basket busy at any
-- time, it only asks for an item that is not known to be out of stock, and each time for at least one
-- and at most 99 of it, and no more than the stock that is known.
pub adds-IsOffered :
    (string_of : ℕ → List ℕ) (available : Option ℕ) (es : List Event)
    → All
        (IsOffered available)
        (happen_all string_of available es (initial string_of available)).adds
adds-IsOffered string_of available es =
    (happen_all-IsValid string_of available es (initial string_of available)
      (omega arith, max_of-pos available, tt)).2
