-- ===== src/Money.antt =====
-- Money in minor units (libs/ts-contracts/src/primitives.ts). Amounts are exact integers, as the
-- contract's `.int().safe()` makes them; sums that leave the safe range are not modelled.
use ecomerce_microservices_o.Prelude.{ℕ, String, if◌then◌else◌, str_eq, Option, some, none}
use ecomerce_microservices_o.Prelude.Int.{ℤ, pos, ◌+ℤ◌, ◌*ℤ◌}

pub record Money : Type 0 where
  pub amount : ℤ
  pub currency : String

-- `none` is the thrown `cannot add …`.
unfoldable pub add_money : Money → Money → Option Money
add_money a b =
    if str_eq a.currency b.currency
    then some (record { amount = a.amount +ℤ b.amount; currency = a.currency })
    else none

-- Quantities are natural numbers here, so the `Number.isInteger` guard always passes.
unfoldable pub multiply_money : Money → ℕ → Money
multiply_money m qty = record { amount = m.amount *ℤ pos qty; currency = m.currency }

unfoldable pub zero_money : String → Money
zero_money currency = record { amount = pos 0; currency = currency }
