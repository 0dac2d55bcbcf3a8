-- ===== src/Tests/Breakers.antt =====
-- The circuit breaker at concrete data (services/cart-service/src/circuit-breaker.ts).
use ecomerce_microservices_o.Prelude.{
  ◌*◌, ◌≤◌, ◌<◌, ◌≡◌, refl, ◌↔◌, true, false, [], ◌∷◌, ◌++◌, length,
}
use ecomerce_microservices_o.Breaker.{
  closed, open_, Options, Breaker, push_window, count_true, record_outcome, tripped,
}
use ecomerce_microservices_o.Breaker.Window.{last_n, record_outcome-opens_iff}

abbrev small : Options
small = record { window_size = 2; num = 1; den = 2; probe_after_ms = 100 }

abbrev one_failure : Breaker
one_failure = record { state = closed; failures = true ∷ []; opened_at = 0 }

abbrev opened : Breaker
opened = record { state = open_; failures = true ∷ true ∷ []; opened_at = 50 }

opens_run :
    record_outcome small true 9 one_failure
    ≡ record { state = open_; failures = true ∷ false ∷ []; opened_at = 9 }
unfolding record_outcome push_window tripped
opens_run = refl

record_outcome-opens_iff_example : ((record_outcome small true 9 one_failure).state ≡ open_) ↔ (
    (2 ≤ length (last_n 2 ((true ∷ []) ++ false ∷ [])))
    × (0 < length (last_n 2 ((true ∷ []) ++ false ∷ [])))
    × (1 * length (last_n 2 ((true ∷ []) ++ false ∷ []))
        ≤ count_true (last_n 2 ((true ∷ []) ++ false ∷ [])) * 2))
record_outcome-opens_iff_example =
    record_outcome-opens_iff small true 9 one_failure (true ∷ []) refl refl
