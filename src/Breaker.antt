-- ===== src/Breaker.antt =====
-- The circuit breaker of cart-service (services/cart-service/src/circuit-breaker.ts) and the call
-- that it guards (`PricingClient.calculate`, services/cart-service/src/pricing.ts). Each call is
-- given the time that `now()` returns. The threshold is a fraction: the quotient of the code is
-- compared by cross multiplication, which agrees with the floating-point test at the threshold 0.5
-- of the service.
pub mod Window
pub mod Probe
use ecomerce_microservices_o.Prelude.{
  ℕ, ◌+◌, ◌*◌, ◌≡◌, Bool, true, false, not, ◌&&◌, List, [], ◌∷◌, ◌++◌, Option, none, some, ltb, leb,
  length, if◌then◌else◌,
}

pub data BreakerState : Type 0 where
  closed open_ half_open : BreakerState

-- The options, with their defaults filled in; the threshold is `num / den`.
pub record Options : Type 0 where
  pub window_size : ℕ
  pub num : ℕ
  pub den : ℕ
  pub probe_after_ms : ℕ

-- The options of `PricingClient`.
abbrev pub pricing_options : Options
pricing_options = record { window_size = 20; num = 1; den = 2; probe_after_ms = 10000 }

pub record Breaker : Type 0 where
  pub state : BreakerState
  pub failures : List Bool
  pub opened_at : ℕ

unfoldable pub new_breaker : Breaker
new_breaker = record { state = closed; failures = []; opened_at = 0 }

abbrev allow_at : Options → BreakerState → ℕ → Breaker → Bool × Breaker
allow_at o closed now b = (true, b)
allow_at o open_ now b =
    if ltb now (b.opened_at + o.probe_after_ms)
    then (false, b)
    else (true, record b { state = half_open })
allow_at o half_open now b = (false, b)

-- `now() - openedAt < probeAfterMs`, with the subtraction moved over.
unfoldable pub allow : Options → ℕ → Breaker → Bool × Breaker
allow o now b = allow_at o b.state now b

-- `shift()`
abbrev pub shift : List Bool → List Bool
shift [] = []
shift (x ∷ xs) = xs

unfoldable pub push_window : ℕ → List Bool → Bool → List Bool
push_window size xs x = let ys = xs ++ x ∷ [] in if ltb size (length ys) then shift ys else ys

-- `failures.filter(Boolean).length`
unfoldable pub count_true : List Bool → ℕ
count_true [] = 0
count_true (true ∷ xs) = count_true xs + 1
count_true (false ∷ xs) = count_true xs

abbrev pub is_closed : BreakerState → Bool
is_closed closed = true
is_closed _ = false

-- The judgement on a full window; `rate` is NaN on an empty one, and no comparison holds of it.
unfoldable pub tripped : Options → List Bool → Bool
unfolding count_true
tripped o xs =
    leb o.window_size (length xs)
    && ltb 0 (length xs)
    && leb (o.num * length xs) (count_true xs * o.den)

abbrev judged : Options → ℕ → Breaker → List Bool → Breaker
judged o now b xs =
    if tripped o xs && is_closed b.state
    then record { state = open_; failures = xs; opened_at = now }
    else record b { failures = xs }

abbrev record_at : Options → BreakerState → Bool → ℕ → Breaker → Breaker
record_at o half_open true now b = record b { state = closed; failures = [] }
record_at o half_open false now b = record b { state = open_; opened_at = now }
record_at o _ success now b = judged o now b (push_window o.window_size b.failures (not success))

-- The method `record`.
unfoldable pub record_outcome : Options → Bool → ℕ → Breaker → Breaker
record_outcome o success now b = record_at o b.state success now b

-- What the gRPC call ends with: `none` is an error or an empty response. The call is answered at
-- `later`; `between` is what the other calls in flight do to the breaker until then.
unfoldable pub calculate :
    {A : Type 0} → Options → ℕ → ℕ → (Breaker → Breaker) → Option A → Breaker → Option A × Breaker
unfolding allow record_outcome
calculate o now later between res b =
    let (allowed, b') = allow o now b in
    if allowed
    then elim res [
      | none ↦ (none, record_outcome o false later (between b'))
      | some a ↦ (some a, record_outcome o true later (between b'))
    ]
    else (none, b')
