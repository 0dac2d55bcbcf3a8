-- ===== src/ApiClient.antt =====
-- The browser's client of the storefront (apps/storefront/src/lib/api-client.ts) and the problems
-- that the storefront's routes answer with (apps/storefront/src/app/api/bff/_problem.ts). A body is
-- a value of `J`.
pub mod Hop
use ecomerce_microservices_o.Prelude.{
  ℕ, ◌+◌, ◌/◌, ◌≡◌, max, Bool, true, false, not, ◌||◌, ◌&&◌, String, Option, none, some, ◌==◌, leb,
  if◌then◌else◌, str_eq,
}
use ecomerce_microservices_o.Bff.Call.{
  Problem, BffError, CallError, bff, zod, Message, Response, or_else, is_ok,
}

-- The text of an `ApiError`: one that the client makes up, or that of the problem.
pub data ApiMessage : Type 0 where
  network_failed unexpected_response : ApiMessage
  failed_with_status : ℕ → ApiMessage
  quoted : String → ApiMessage

pub record ApiError : Type 0 where
  pub status : ℕ
  pub code : String
  pub request_id : String
  pub message : ApiMessage
  pub retry_after_seconds : Option ℕ

-- `retriable`
unfoldable pub retriable : ApiError → Bool
retriable e = e.status == 0 || leb 502 e.status

-- What `fetch` ends with: an AbortError, another error, or a response.
pub data Sent (J : Type 0) : Type 0 where
  aborted : Sent J
  unreachable : Sent J
  response : Response J → Sent J

-- What `apiFetch` throws: the AbortError, an `ApiError`, or the `ZodError` of `parse(undefined)`.
pub data Result (A : Type 0) : Type 0 where
  ok : A → Result A
  abort : Result A
  err : ApiError → Result A
  zod_error : Result A

-- `ProblemDetails` on a body, and its `retryAfterSeconds` where that is a number.
pub record Reader (J : Type 0) : Type 0 where
  pub problem_details : J → Option Problem
  pub retry_after : J → Option ℕ

-- The errors that the client makes up carry no request id.
abbrev pub made_up : {A : Type 0} → ℕ → ApiMessage → Result A
made_up status message = err (record {
  status = status;
  code = "UPSTREAM_UNAVAILABLE";
  request_id = "";
  message = message;
  retry_after_seconds = none;
})

abbrev pub checked : {A : Type 0} → Option A → Result A
checked none = made_up 502 unexpected_response
checked (some a) = ok a

abbrev pub checked_204 : {A : Type 0} → Option A → Result A
checked_204 none = zod_error
checked_204 (some a) = ok a

abbrev pub unparsed : ℕ → String → ApiError
unparsed status request_id = record {
  status = status;
  code = "INTERNAL_ERROR";
  request_id = request_id;
  message = failed_with_status status;
  retry_after_seconds = none;
}

abbrev pub of_problem : Problem → String → Option ℕ → ApiError
of_problem p request_id retry_after = record {
  status = p.status;
  code = p.code;
  request_id = if str_eq p.request_id "" then request_id else p.request_id;
  message = quoted (or_else p.detail p.title);
  retry_after_seconds = retry_after;
}

module _ {J : Type 0} (reader : Reader J) where
  abbrev pub of_body : ℕ → String → Option J → ApiError
  of_body status request_id none = unparsed status request_id
  of_body status request_id (some body) = elim (reader.problem_details body) [
    | some p ↦ of_problem p request_id (reader.retry_after body)
    | none ↦ unparsed status request_id
  ]

  -- toApiError
  unfoldable pub to_api_error : Response J → ApiError
  to_api_error r = of_body r.status (or_else r.request_id "") r.body

  -- apiFetch, on what the schema makes of a body, or of `undefined` for none
  unfoldable pub api_fetch : {A : Type 0} → (Option J → Option A) → Sent J → Result A
  unfolding to_api_error
  api_fetch parse aborted = abort
  api_fetch parse unreachable = made_up 0 network_failed
  api_fetch parse (response r) =
      if is_ok r.status
      then if r.status == 204 then checked_204 (parse none) else checked (parse r.body)
      else err (to_api_error r)

-- What `problemResponse` makes of a thrown error: the status, the body and the header X-Request-Id.
pub record HttpProblem : Type 0 where
  pub status : ℕ
  pub body : Problem
  pub request_id : String

-- `error.problem ?? { title, detail }`, with what is put over it
abbrev pub rendered : ℕ → String → BffError → String → Option Problem → Problem
rendered status request_id e message none = record {
  status = status;
  code = e.code;
  request_id = request_id;
  title = "Request failed";
  detail = some message;
}
rendered status request_id e message (some p) = record {
  status = status;
  code = e.code;
  request_id = request_id;
  title = p.title;
  detail = p.detail;
}

-- `error.requestId ? error.requestId : randomUUID()`
abbrev pub id_or : String → String → String
id_or id drawn = if str_eq id "" then drawn else id

abbrev pub hop_status : ℕ → ℕ
hop_status status = if status == 0 then 502 else status

-- The statuses for which `Response.json` does not throw: outside 200 to 599 it throws a RangeError, and
-- with a status that has no body a TypeError.
abbrev pub may_have_body : ℕ → Bool
may_have_body status =
    leb 200 status && leb status 599 && not (status == 204 || status == 205 || status == 304)

-- problemResponse, for the text of a message and the id that is drawn; `none`: it throws
unfoldable pub problem_response : (Message → String) → String → CallError → Option HttpProblem
problem_response text_of drawn (bff e) =
    let status = hop_status e.status in
    let id = id_or e.request_id drawn in
    let answer : HttpProblem = record {
      status = status;
      body = rendered status id e (text_of e.message) e.problem;
      request_id = id;
    } in
    if may_have_body status then some answer else none
problem_response text_of drawn zod = some (record {
  status = 500;
  body = record {
    status = 500;
    code = "INTERNAL_ERROR";
    request_id = drawn;
    title = "Internal error";
    detail = none;
  };
  request_id = drawn;
})

-- userMessage: which text is shown, with what it quotes.
pub data UserMessage : Type 0 where
  sign_in session_expired signed_out_for_security enter_code no_access : UserMessage
  locked_for_minutes : ℕ → UserMessage
  locked check_fields : UserMessage
  as_sent : ApiMessage → UserMessage
  out_of_stock basket_changed too_far_to_cancel card_declined bank_must_confirm : UserMessage
  too_fast no_such_product upstream_trouble : UserMessage
  quote_reference : String → UserMessage

-- `Math.max(1, Math.ceil(seconds / 60))`
abbrev pub minutes : ℕ → ℕ
minutes seconds = max 1 ((seconds + 59) / 60)

-- `this.retryAfterSeconds ?`: zero is false.
abbrev pub locked_message : Option ℕ → UserMessage
locked_message none = locked
locked_message (some seconds) =
    if seconds == 0 then locked else locked_for_minutes (minutes seconds)

abbrev pub validation_message : ApiMessage → UserMessage
validation_message (quoted text) = if str_eq text "" then check_fields else as_sent (quoted text)
validation_message m = as_sent m

unfoldable pub user_message : ApiError → UserMessage
user_message e =
    if str_eq e.code "UNAUTHENTICATED"
    then sign_in
    else if str_eq e.code "TOKEN_EXPIRED"
    then session_expired
    else if str_eq e.code "REFRESH_TOKEN_REUSED"
    then signed_out_for_security
    else if str_eq e.code "MFA_REQUIRED"
    then enter_code
    else if str_eq e.code "FORBIDDEN"
    then no_access
    else if str_eq e.code "ACCOUNT_LOCKED"
    then locked_message e.retry_after_seconds
    else if str_eq e.code "WEAK_PASSWORD"
    then as_sent e.message
    else if str_eq e.code "VALIDATION_FAILED"
    then validation_message e.message
    else if str_eq e.code "INVENTORY_INSUFFICIENT_STOCK"
    then out_of_stock
    else if str_eq e.code "CART_STALE"
    then basket_changed
    else if str_eq e.code "ORDER_NOT_CANCELLABLE"
    then too_far_to_cancel
    else if str_eq e.code "PAYMENT_DECLINED"
    then card_declined
    else if str_eq e.code "PAYMENT_REQUIRES_ACTION"
    then bank_must_confirm
    else if str_eq e.code "RATE_LIMITED"
    then too_fast
    else if str_eq e.code "PRODUCT_NOT_FOUND"
    then no_such_product
    else if str_eq e.code "UPSTREAM_TIMEOUT"
    then upstream_trouble
    else if str_eq e.code "UPSTREAM_UNAVAILABLE"
    then upstream_trouble
    else quote_reference e.request_id
