-- ===== src/Admin/Client.antt =====
-- The service client of the admin app (apps/admin/src/lib/admin-api.ts). Requests are numbered from 0
-- and logged newest first; the network answers by number and request.
use ecomerce_microservices_o.Prelude.{
  ℕ, Bool, String, List, [], ◌∷◌, Option, none, some, ◌==◌, if◌then◌else◌, length,
}
use ecomerce_microservices_o.Bff.Call.{
  Problem, Method, Fetched, aborted, unreachable, response, Response, or_else, is_ok,
}

pub data AdminService : Type 0 where
  identity catalog order inventory payment search review : AdminService

-- The texts of the errors, with what they quote.
pub data Message : Type 0 where
  not_configured : AdminService → Message
  no_response : AdminService → Message
  could_not_reach : AdminService → Message
  contract_violation : AdminService → Message
  returned_status : ℕ → Message
  text : String → Message

pub record AdminApiError : Type 0 where
  pub status : ℕ
  pub code : String
  pub request_id : String
  pub message : Message

pub data Reason : Type 0 where
  unauthenticated no_role no_mfa : Reason

-- What the app throws: an `AdminApiError`, a `NotAuthorised`, or an error of a parser (a `ZodError`,
-- or a `SyntaxError` of `response.json()`).
pub data AdminError : Type 0 where
  api : AdminApiError → AdminError
  not_authorised : Reason → AdminError
  parse_error : AdminError

pub data Result (A : Type 0) : Type 0 where
  ok : A → Result A
  err : AdminError → Result A

-- A request as `fetch` gets it, with its body as parsed JSON.
pub record Request (J : Type 0) : Type 0 where
  pub service : AdminService
  pub path : String
  pub method : Method
  pub body : Option J
  pub access_token : String
  pub idempotency_key : Option String

-- What a request of the browser meets: the services that have a URL, its id or a random one, the
-- network, `ProblemDetails`, and the id drawn for an answer that has none.
pub record Env (J : Type 0) : Type 0 where
  pub configured : AdminService → Bool
  pub request_id : String
  pub network : ℕ → Request J → Fetched J
  pub problem_details : J → Option Problem
  pub random_uuid : String

abbrev pub error_of : {A : Type 0} → ℕ → String → String → Message → Result A
error_of status code request_id message =
    err (api (record { status = status; code = code; request_id = request_id; message = message }))

abbrev pub parsed_204 : {A : Type 0} → Option A → Result A
parsed_204 none = err parse_error
parsed_204 (some a) = ok a

module _ {J A : Type 0} where
  -- A status that is not ok
  abbrev pub failed : Env J → Response J → String → Option J → Result A
  failed env r id none = error_of r.status "INTERNAL_ERROR" id (returned_status r.status)
  failed env r id (some body) = elim (env.problem_details body) [
    | some p ↦ error_of r.status p.code id (text (or_else p.detail p.title))
    | none ↦ error_of r.status "INTERNAL_ERROR" id (returned_status r.status)
  ]

  abbrev pub parsed_body : Request J → (Option J → Option A) → String → Option J → Result A
  parsed_body q parse id none = err parse_error
  parsed_body q parse id (some body) = elim (parse (some body)) [
    | some a ↦ ok a
    | none ↦ error_of 502 "UPSTREAM_UNAVAILABLE" id (contract_violation q.service)
  ]

  unfoldable pub read : Env J → Request J → (Option J → Option A) → Fetched J → Result A
  read env q parse aborted = error_of 504 "UPSTREAM_TIMEOUT" env.request_id (no_response q.service)
  read env q parse (unreachable why) =
      error_of 502 "UPSTREAM_UNAVAILABLE" env.request_id (could_not_reach q.service)
  read env q parse (response r) =
      let id = or_else r.request_id env.request_id in
      if is_ok r.status
      then if r.status == 204 then parsed_204 (parse none) else parsed_body q parse id r.body
      else failed env r id r.body

  -- adminCall; `parse` is the schema on a body or, with `none`, on `undefined`.
  unfoldable pub admin_call :
      Env J → Request J → (Option J → Option A) → List (Request J) → Result A × List (Request J)
  admin_call env q parse log =
      if env.configured q.service
      then (read env q parse (env.network (length log) q), q ∷ log)
      else (error_of 500 "INTERNAL_ERROR" "" (not_configured q.service), log)

-- gatherAdmin, on the settled promises by their keys
unfoldable pub gather_admin : {A : Type 0} → List (String × Result A) → List (String × Option A)
gather_admin [] = []
gather_admin ((key, ok a) ∷ xs) = (key, some a) ∷ gather_admin xs
gather_admin ((key, err e) ∷ xs) = (key, none) ∷ gather_admin xs
