-- ===== src/Tests/Sessions.antt =====
-- Sessions, errors on their way to the browser and requests on a basket at concrete data
-- (apps/storefront/src/lib/session.ts, lib/api-client.ts and app/api/bff/cart).
use ecomerce_microservices_o.Prelude.{
  ℕ, ◌≡◌, refl, if◌then◌else◌, arith, true, false, String, Option, none, some, str_eq, str_ne,
}
use ecomerce_microservices_o.Identity.{Env, Tokens, RefreshToken, active, issued, reused, refresh}
use ecomerce_microservices_o.Bff.Call.{ok, BffError, no_result, Problem, is_retriable, bff}
use ecomerce_microservices_o.Session.{get_access_token, required, unauthenticated, exchange_with}
use ecomerce_microservices_o.Session.Exchange.{request, second_request, successor_survives}
use ecomerce_microservices_o.ApiClient.{
  HttpProblem, Reader, ApiError, err, response, api_fetch, problem_response, retriable,
}
use ecomerce_microservices_o.ApiClient.Hop.{received, api_fetch-problem}

abbrev row : RefreshToken
row = record { user_id = "u1"; session_id = "s1"; state = active; expires_at = 1000 }

abbrev tokens : Tokens
tokens token = if str_eq token "rt1" then some row else none

abbrev identity_at : ℕ → String → Env
identity_at now next = record {
  now = now;
  refresh_ttl = 1000;
  load_user_snapshot = λ _. some true;
  access = "at1";
  next = next;
  keeps_on_throw = false;
}

second_request_example :
    let (first, _, tokens') =
      get_access_token (exchange_with (identity_at 1 "rt2")) (request "rt1") tokens in
    let (second, _, _) =
      get_access_token (exchange_with (identity_at 2 "rt3")) (request "rt1") tokens' in
    (first ≡ ok (some "at1")) × (second ≡ ok none) × (required second ≡ unauthenticated)
second_request_example =
    second_request (identity_at 1 "rt2") (identity_at 2 "rt3") "rt1" row tokens
      (str_ne "rt1" "" refl) (str_ne "rt2" "rt1" refl) (refl, refl, refl, refl)

successor_survives_example :
    let (first, tokens') = refresh (identity_at 1 "rt2") "rt1" tokens in
    let (second, tokens'') = refresh (identity_at 2 "rt3") "rt1" tokens' in
    let (third, _) = refresh (identity_at 3 "rt4") "rt2" tokens'' in
    (first ≡ issued (record { access_token = "at1"; refresh_token = "rt2" }))
    × (second ≡ reused)
    × (third ≡ issued (record { access_token = "at1"; refresh_token = "rt4" }))
successor_survives_example =
    successor_survives (identity_at 1 "rt2") (identity_at 2 "rt3") (identity_at 3 "rt4") "rt1" row
      tokens (str_ne "rt2" "rt1" refl) (refl, refl, refl, refl) refl refl refl

abbrev unreachable_cart : BffError
unreachable_cart = record {
  status = 0;
  code = "UPSTREAM_UNAVAILABLE";
  request_id = "r1";
  message = no_result;
  problem = none;
}

-- A body is the problem itself.
abbrev reader : Reader Problem
reader = record { problem_details = λ p. some p; retry_after = λ _. none }

abbrev schema : Option Problem → Option ℕ
schema _ = none

api_fetch-problem_example :
    (p : HttpProblem) × (a : ApiError) × (problem_response
        (λ _. "no answer")
        "u1"
        (bff unreachable_cart)
      ≡ some p)
    × (api_fetch reader schema (response (received (λ b. b) p)) ≡ err a)
    × (a.status ≡ 502)
    × (a.code ≡ "UPSTREAM_UNAVAILABLE")
    × (a.request_id ≡ "r1")
    × (retriable a ≡ is_retriable unreachable_cart)
api_fetch-problem_example =
    api_fetch-problem reader (λ b. b) schema (λ _. "no answer") "u1" unreachable_cart
      (λ p answered. refl) (omega arith) (omega arith)
