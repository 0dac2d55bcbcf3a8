-- ===== src/Bff/Call.antt =====
-- One request to a service and the retry loop (apps/storefront/src/lib/bff.ts). The network is what
-- each attempt is answered with; a body is a value of `J`, the parsed JSON, and the zod schemas are
-- functions on it.
use ecomerce_microservices_o.Prelude.{
  ℕ, zero, suc, Bool, true, false, ◌&&◌, ◌||◌, String, Option, none, some, ◌==◌, leb, ltb,
  if◌then◌else◌, str_eq,
}

pub data ServiceName : Type 0 where
  identity catalog cart order search recommendation review : ServiceName

-- TIMEOUTS
unfoldable pub timeout_of : ServiceName → ℕ
timeout_of order = 5000
timeout_of search = 2000
timeout_of recommendation = 1000
timeout_of _ = 3000

-- The texts of the errors, with what they quote.
pub data Message : Type 0 where
  not_configured : ServiceName → Message
  no_response : ServiceName → ℕ → Message
  could_not_reach : ServiceName → String → Message
  non_json_body : ServiceName → ℕ → Message
  contract_violation : ServiceName → Message
  unreadable_body : ServiceName → ℕ → Message
  returned_status : ServiceName → ℕ → Message
  problem_text : String → Message
  no_result : Message

pub record Problem : Type 0 where
  pub status : ℕ
  pub code : String
  pub request_id : String
  pub title : String
  pub detail : Option String

pub record BffError : Type 0 where
  pub status : ℕ
  pub code : String
  pub request_id : String
  pub message : Message
  pub problem : Option Problem

unfoldable pub is_retriable : BffError → Bool
is_retriable e = e.status == 0 || e.status == 502 || e.status == 503 || e.status == 504

-- What a call throws: a `BffError`, or the `ZodError` of `schema.parse(undefined)`.
pub data CallError : Type 0 where
  bff : BffError → CallError
  zod : CallError

pub data Result (A : Type 0) : Type 0 where
  ok : A → Result A
  err : CallError → Result A

-- What `fetch` ends with: an abort by the timeout, another error, or a response. A body is `none`
-- when it is not JSON.
pub record Response (J : Type 0) : Type 0 where
  pub status : ℕ
  pub request_id : Option String
  pub body : Option J

pub data Fetched (J : Type 0) : Type 0 where
  aborted : Fetched J
  unreachable : String → Fetched J
  response : Response J → Fetched J

pub data Method : Type 0 where
  get post put patch delete : Method

-- `CallOptions`; `parse` is the schema on a body or, with `none`, on `undefined`.
pub record CallOptions (J A : Type 0) : Type 0 where
  pub service : ServiceName
  pub parse : Option J → Option A
  pub method : Method
  pub idempotency_key : Option String
  pub attempts : Option ℕ

abbrev pub error_of : ℕ → String → String → Message → BffError
error_of status code request_id message = record {
  status = status;
  code = code;
  request_id = request_id;
  message = message;
  problem = none;
}

abbrev pub or_else : Option String → String → String
or_else none d = d
or_else (some s) d = s

-- `response.ok`
abbrev pub is_ok : ℕ → Bool
is_ok status = leb 200 status && ltb status 300

abbrev pub is_get : Method → Bool
is_get get = true
is_get _ = false

abbrev pub is_some : Option String → Bool
is_some none = false
is_some (some _) = true

abbrev pub may_retry : CallError → Bool
may_retry (bff e) = is_retriable e
may_retry zod = false

module _ {J : Type 0} where
  -- toProblem, on the body as `ProblemDetails` reads it
  unfoldable pub to_problem : (J → Option Problem) → ServiceName → ℕ → String → Option J → BffError
  to_problem problem_details service status request_id none =
      error_of status "INTERNAL_ERROR" request_id (unreadable_body service status)
  to_problem problem_details service status request_id (some body) = elim (problem_details body) [
    | some p ↦ record {
      status = p.status;
      code = p.code;
      request_id = if str_eq p.request_id "" then request_id else p.request_id;
      message = problem_text (or_else p.detail p.title);
      problem = some p;
    }
    | none ↦ error_of status "INTERNAL_ERROR" request_id (returned_status service status)
  ]

module _ {A : Type 0} where
  abbrev throw : ℕ → String → String → Message → Result A
  throw status code request_id message = err (bff (error_of status code request_id message))

  abbrev parsed_204 : Option A → Result A
  parsed_204 (some a) = ok a
  parsed_204 none = err zod

  -- `err instanceof BffError && err.retriable`
  abbrev pub is_transient : Result A → Bool
  is_transient (ok a) = false
  is_transient (err e) = may_retry e

  -- The loop, with `left` attempts after this one; `attempt` numbers the requests from 1, and the
  -- answer counts those that were sent.
  unfoldable pub retry : (ℕ → Result A) → ℕ → ℕ → Result A × ℕ
  retry send zero attempt = (send attempt, attempt)
  retry send (suc left) attempt =
      let again = retry send left (suc attempt) in
      if is_transient (send attempt) then again else (send attempt, attempt)

  abbrev attempt_all : (ℕ → Result A) → String → ℕ → Result A × ℕ
  attempt_all send request_id zero = (throw 500 "INTERNAL_ERROR" request_id no_result, 0)
  attempt_all send request_id (suc left) = retry send left 1

module _ {J A : Type 0} where
  abbrev parsed_body : CallOptions J A → ℕ → String → Option J → Result A
  parsed_body opts status request_id none =
      throw 502 "UPSTREAM_UNAVAILABLE" request_id (non_json_body opts.service status)
  parsed_body opts status request_id (some body) = elim (opts.parse (some body)) [
    | some a ↦ ok a
    | none ↦ throw 502 "UPSTREAM_UNAVAILABLE" request_id (contract_violation opts.service)
  ]

  unfoldable pub once : (J → Option Problem) → CallOptions J A → String → Fetched J → Result A
  unfolding to_problem timeout_of
  once problem_details opts request_id aborted =
      throw 504 "UPSTREAM_TIMEOUT" request_id (no_response opts.service (timeout_of opts.service))
  once problem_details opts request_id (unreachable why) =
      throw 0 "UPSTREAM_UNAVAILABLE" request_id (could_not_reach opts.service why)
  once problem_details opts request_id (response r) =
      let id = or_else r.request_id request_id in
      if is_ok r.status
      then if r.status == 204
        then parsed_204 (opts.parse none)
        else parsed_body opts r.status id r.body
      else err (bff (to_problem problem_details opts.service r.status id r.body))

  unfoldable pub max_attempts : CallOptions J A → ℕ
  max_attempts opts =
      if is_get opts.method || is_some opts.idempotency_key
      then elim opts.attempts [ none ↦ 3 | some n ↦ n ]
      else 1

  -- call; `configured` says whether the service has a URL, and the answer counts the requests.
  unfoldable pub call :
      (J → Option Problem) → CallOptions J A → Bool → String → (ℕ → Fetched J) → Result A × ℕ
  call problem_details opts configured request_id network =
      if configured
      then attempt_all (λ n. once problem_details opts request_id (network n)) request_id
          (max_attempts opts)
      else (throw 500 "INTERNAL_ERROR" "" (not_configured opts.service), 0)
