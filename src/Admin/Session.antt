-- ===== src/Admin/Session.antt =====
-- The session of the admin app (apps/admin/src/lib/session.ts) and the guard of its routes
-- (apps/admin/src/app/api/admin/_guard.ts).
use ecomerce_microservices_o.Prelude.{
  ℕ, Bool, ◌||◌, String, List, Option, none, some, ◌==◌, if◌then◌else◌, str_eq, includes,
}
use ecomerce_microservices_o.Bff.Call.{get, post}
use ecomerce_microservices_o.Admin.Client.{
  identity, unauthenticated, no_role, no_mfa, AdminError, api, not_authorised, parse_error, Result,
  ok, err, Request, Env, admin_call,
}

pub record UserProfile : Type 0 where
  pub user_id : String
  pub roles : List String
  pub mfa_enabled : Bool

pub record AdminSession : Type 0 where
  pub access_token : String
  pub user : UserProfile

-- The schemas that the session reads with, the first for the access token, and the body
-- `{ refreshToken }` as JSON.
pub record Schemas (J : Type 0) : Type 0 where
  pub token_pair : Option J → Option String
  pub user_profile : Option J → Option UserProfile
  pub refresh_body : String → J

module _ {J : Type 0} (env : Env J) (schemas : Schemas J) where
  abbrev pub refresh_request : String → Request J
  refresh_request refresh_token = record {
    service = identity;
    path = "/v1/auth/refresh";
    method = post;
    body = some (schemas.refresh_body refresh_token);
    access_token = "";
    idempotency_key = none;
  }

  abbrev pub me_request : String → Request J
  me_request access_token = record {
    service = identity;
    path = "/v1/me";
    method = get;
    body = none;
    access_token = access_token;
    idempotency_key = none;
  }

  abbrev pub is_privileged : UserProfile → Bool
  is_privileged user = includes "ADMIN" user.roles || includes "OPS" user.roles

  -- The checks of the profile
  unfoldable pub authorised : String → UserProfile → Result AdminSession
  authorised access_token user =
      if is_privileged user
      then if user.mfa_enabled
        then ok (record { access_token = access_token; user = user })
        else err (not_authorised no_mfa)
      else err (not_authorised no_role)

  abbrev pub with_profile :
      String → Result UserProfile × List (Request J) → Result AdminSession × List (Request J)
  with_profile access_token (err e, log) = (err e, log)
  with_profile access_token (ok user, log) = (authorised access_token user, log)

  -- The handler of the exchange: a 401 is "not signed in".
  abbrev pub refused : AdminError → AdminError
  refused (api e) = if e.status == 401 then not_authorised unauthenticated else api e
  refused (not_authorised reason) = not_authorised reason
  refused parse_error = parse_error

  abbrev pub with_token : Result String × List (Request J) → Result AdminSession × List (Request J)
  with_token (err e, log) = (err (refused e), log)
  with_token (ok access_token, log) =
      with_profile access_token (admin_call env (me_request access_token) schemas.user_profile log)

  abbrev pub with_cookie : Option String → List (Request J) → Result AdminSession × List (Request J)
  with_cookie none log = (err (not_authorised unauthenticated), log)
  with_cookie (some refresh_token) log =
      if str_eq refresh_token ""
      then (err (not_authorised unauthenticated), log)
      else with_token (admin_call env (refresh_request refresh_token) schemas.token_pair log)

  -- requireAdmin, on the refresh-token cookie
  unfoldable pub require_admin :
      Option String → List (Request J) → Result AdminSession × List (Request J)
  require_admin cookie log = with_cookie cookie log

-- An answer to the browser: the result of the handler, or the problem's status, code and request id.
pub data Reply (A : Type 0) : Type 0 where
  json : A → Reply A
  problem : ℕ → String → String → Reply A

-- `error.requestId ? … : randomUUID()`
abbrev pub id_or : String → String → String
id_or id drawn = if str_eq id "" then drawn else id

module _ {J A : Type 0} (env : Env J) where
  -- adminProblem
  unfoldable pub admin_problem : AdminError → Reply A
  admin_problem (not_authorised unauthenticated) = problem 401 "UNAUTHENTICATED" env.random_uuid
  admin_problem (not_authorised no_role) = problem 403 "FORBIDDEN" env.random_uuid
  admin_problem (not_authorised no_mfa) = problem 403 "FORBIDDEN" env.random_uuid
  admin_problem (api e) = problem e.status e.code (id_or e.request_id env.random_uuid)
  admin_problem parse_error = problem 500 "INTERNAL_ERROR" env.random_uuid

  abbrev pub replied : Result A × List (Request J) → Reply A × List (Request J)
  replied (ok a, log) = (json a, log)
  replied (err e, log) = (admin_problem e, log)

  abbrev pub guarded :
      (AdminSession → List (Request J) → Result A × List (Request J))
      → Result AdminSession × List (Request J)
      → Reply A × List (Request J)
  guarded handler (err e, log) = (admin_problem e, log)
  guarded handler (ok session, log) = replied (handler session log)

  -- withAdmin
  unfoldable pub with_admin :
      Schemas J
      → Option String
      → (AdminSession → List (Request J) → Result A × List (Request J))
      → List (Request J)
      → Reply A × List (Request J)
  with_admin schemas cookie handler log = guarded handler (require_admin env schemas cookie log)
