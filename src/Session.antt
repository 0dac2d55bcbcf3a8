-- ===== src/Session.antt =====
-- The storefront's session (apps/storefront/src/lib/session.ts). `Identity` is the state of
-- identity-service, and `exchange` the call of /v1/auth/refresh with a refresh token, as `call` of
-- bff.ts ends it: with the access token or an error.
pub mod Exchange
use ecomerce_microservices_o.Prelude.{
  ℕ, zero, suc, Bool, true, false, String, List, [], ◌∷◌, Option, none, some, ◌==◌, if◌then◌else◌,
  str_eq,
}
use ecomerce_microservices_o.Identity.{Env, Tokens, Answer, issued, reused, invalid, refresh}
use ecomerce_microservices_o.Bff.Call.{
  CallError, bff, zod, Result, ok, err, error_of, Message, problem_text,
}

-- One request of the browser: its refresh-token cookie, and what `perRequest` holds for it.
pub record Request : Type 0 where
  pub refresh_cookie : Option String
  pub cached : Option (Result (Option String))

abbrev pub is_unauthorised : CallError → Bool
is_unauthorised (bff e) = e.status == 401
is_unauthorised zod = false

-- The `try` of the exchange: a 401 is "signed out", any other error is thrown on.
unfoldable pub settled : Result String → Result (Option String)
settled (ok token) = ok (some token)
settled (err e) = if is_unauthorised e then ok none else err e

-- `!refreshToken`: the empty text is false too.
abbrev pub presented : Option String → Option String
presented none = none
presented (some t) = if str_eq t "" then none else some t

module _ {Identity : Type 0} (exchange : String → Identity → Result String × Identity) where
  abbrev pub exchange_cached :
      Option (Result (Option String))
      → String
      → Request
      → Identity
      → Result (Option String) × Request × Identity
  exchange_cached (some answer) token r i = (answer, r, i)
  exchange_cached none token r i =
      let (res, i') = exchange token i in
      (settled res, record r { cached = some (settled res) }, i')

  abbrev pub token_of :
      Option String → Request → Identity → Result (Option String) × Request × Identity
  token_of none r i = (ok none, r, i)
  token_of (some token) r i = exchange_cached r.cached token r i

  -- getAccessToken
  unfoldable pub get_access_token : Request → Identity → Result (Option String) × Request × Identity
  get_access_token r i = token_of (presented r.refresh_cookie) r i

  -- `getAccessToken` n times, as the fan-out of one page render asks for it.
  unfoldable pub get_many : ℕ → Request → Identity → Request × Identity
  get_many zero r i = (r, i)
  get_many (suc n) r i = let (_, r', i') = get_access_token r i in get_many n r' i'

abbrev pub unauthenticated : Result String
unauthenticated = err (
    bff
      (error_of 401 "UNAUTHENTICATED" "" (problem_text "this endpoint requires a signed-in user")))

-- What `requireAccessToken` makes of the answer: an empty token is false too.
unfoldable pub required : Result (Option String) → Result String
required (err e) = err e
required (ok none) = unauthenticated
required (ok (some token)) = if str_eq token "" then unauthenticated else ok token

-- What the answer of identity-service's `refresh` is to `call`.
abbrev pub result_of : Answer → Result String
result_of (issued pair) = ok pair.access_token
result_of reused = err (bff (error_of 401 "REFRESH_TOKEN_REUSED" "" (problem_text "Session ended")))
result_of invalid =
    err (bff (error_of 401 "TOKEN_EXPIRED" "" (problem_text "Invalid refresh token")))

unfoldable pub exchange_with : Env → String → Tokens → Result String × Tokens
exchange_with env token tokens =
    let (answer, tokens') = refresh env token tokens in (result_of answer, tokens')
