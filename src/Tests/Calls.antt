-- ===== src/Tests/Calls.antt =====
-- Calls to services at concrete data (apps/storefront/src/lib/bff.ts): a network whose first answer
-- is a 503 and whose second is a body.
use ecomerce_microservices_o.Prelude.{
  ℕ, ◌≤◌, ◌<◌, ◌≡◌, refl, true, false, String, List, [], ◌∷◌, Option, none, some, ◌==◌,
  if◌then◌else◌,
}
use ecomerce_microservices_o.Bff.Call.{
  catalog, order, get, post, Problem, zod, Result, ok, err, Fetched, response, CallOptions, once,
  max_attempts, is_transient, call, retry, to_problem, is_retriable,
}
use ecomerce_microservices_o.Bff.Retry.{call_attempts}

abbrev no_problem : ℕ → Option Problem
no_problem _ = none

abbrev read : CallOptions ℕ ℕ
read = record {
  service = catalog;
  parse = λ body. body;
  method = get;
  idempotency_key = none;
  attempts = none;
}

abbrev place : CallOptions ℕ ℕ
place = record read { service = order; method = post }

abbrev network : ℕ → Fetched ℕ
network n =
    if n == 1
    then response (record { status = 503; request_id = none; body = none })
    else response (record { status = 200; request_id = none; body = some 42 })

read_run : call no_problem read true "r1" network ≡ (ok 42, 2)
unfolding call max_attempts retry once to_problem is_retriable
read_run = refl

call_attempts_example :
    let (result, sent) = call no_problem read true "r1" network in
    (result ≡ once no_problem read "r1" (network sent))
    × (1 ≤ sent)
    × (sent ≤ 3)
    × ((n : ℕ) → 1 ≤ n → n < sent → is_transient (once no_problem read "r1" (network n)) ≡ true)
    × (sent < 3 → is_transient (once no_problem read "r1" (network sent)) ≡ false)
unfolding max_attempts
call_attempts_example = call_attempts no_problem read "r1" network 2 refl

abbrev page : List (String × Result ℕ)
page = ("product", ok 1) ∷ ("reviews", err zod) ∷ []
