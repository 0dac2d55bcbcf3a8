-- ===== src/Admin/Pages/Guard.antt =====
-- The session that a page of the admin app resolves twice (apps/admin/src/app/orders/page.tsx and the
-- other pages, lib/session.ts).
use ecomerce_microservices_o.Prelude.{
  ◌≡◌, refl, ap, true, false, String, List, [], Option, none, some, length, str_eq, Bool-cases, inl,
  inr, Option-cases,
}
use ecomerce_microservices_o.Bff.Call.{response, Response, or_else}
use ecomerce_microservices_o.Admin.Client.{
  identity, unauthenticated, not_authorised, Result, ok, err, returned_status, text, Message,
  Request, Env, admin_call, read, failed, api, AdminError, AdminApiError,
}
use ecomerce_microservices_o.Admin.Session.{AdminSession, Schemas, require_admin, refresh_request}
use ecomerce_microservices_o.Admin.Pages.{frame, page, table, with_session}

module _ {J : Type 0} (env : Env J) where
  abbrev error_401 : String → String → Message → AdminApiError
  error_401 code id message = record {
    status = 401;
    code = code;
    request_id = id;
    message = message;
  }

  abbrev answer_401 : Option String → Option J → Response J
  answer_401 id body = record { status = 401; request_id = id; body = body }

  read-refused :
      {A : Type 0} (q : Request J) (parse : Option J → Option A) (id : Option String)
      (body : Option J)
      → (e : AdminApiError) × (read env q parse (response (answer_401 id body)) ≡ err (api e))
        × (e.status ≡ 401)
  unfolding read
  read-refused q parse id none =
      (error_401 "INTERNAL_ERROR" (or_else id env.request_id) (returned_status 401), refl, refl)
  read-refused q parse id (some body) = elim (Option-cases (env.problem_details body)) [
    | inl unread ↦ (
      error_401 "INTERNAL_ERROR" (or_else id env.request_id) (returned_status 401),
      rw (unread, failed) refl,
      refl,
    )
    | inr (p, is) ↦ (
      error_401 p.code (or_else id env.request_id) (text (or_else p.detail p.title)),
      rw (is, failed) refl,
      refl,
    )
  ]

  -- An exchange that is answered 401
  exchange-refused :
      (schemas : Schemas J) (token : String) (log : List (Request J)) (id : Option String)
      (body : Option J)
      → str_eq token "" ≡ false
      → env.configured identity ≡ true
      → env.network (length log) (refresh_request env schemas token) ≡ response (answer_401 id body)
      → (require_admin env schemas (some token) log).0 ≡ err (not_authorised unauthenticated)
  unfolding require_admin admin_call
  exchange-refused schemas token log id body given on answer =
      let (e, is, same) =
        read-refused (refresh_request env schemas token) schemas.token_pair id body in
      rw given (rw on (rw answer (rw is (rw same refl))))

  passed :
      (schemas : Schemas J) (token : String) (session : AdminSession)
      → (require_admin env schemas (some token) []).0 ≡ ok session
      → (str_eq token "" ≡ false) × (env.configured identity ≡ true)
  unfolding require_admin admin_call
  passed schemas token session h = elim (Bool-cases (str_eq token "")) [
    | inl missing ↦ absurd (cc (rw missing at h))
    | inr given ↦ elim (Bool-cases (env.configured identity)) [
      | inl on ↦ (given, on)
      | inr off ↦ absurd (cc (rw (given, off) at h))
    ]
  ]

with_session-err :
    {J A : Type 0} (env : Env J) (schemas : Schemas J)
    (content : AdminSession → List (Request J) → Result A × List (Request J))
    (p : Result AdminSession × List (Request J)) (e : AdminError)
    → p.0 ≡ err e
    → (with_session env schemas content p).0 ≡ err e
with_session-err env schemas content (err x, log) e h = cc h
with_session-err env schemas content (ok s, log) e h = absurd (cc h)

-- When the page's guard lets an operator in, and identity-service answers 401 to the second exchange
-- of the same refresh token, the table of the page fails as if no one were signed in.
pub page-twice :
    {J A : Type 0} (env : Env J) (schemas : Schemas J) (token : String)
    (content : AdminSession → List (Request J) → Result A × List (Request J))
    (session : AdminSession) (log : List (Request J)) (id : Option String) (body : Option J)
    → require_admin env schemas (some token) [] ≡ (ok session, log)
    → env.network (length log) (refresh_request env schemas token)
      ≡ response (record { status = 401; request_id = id; body = body })
    → (page env schemas (some token) content []).0 ≡ frame (err (not_authorised unauthenticated))
unfolding page table
page-twice env schemas token content session log id body h answer =
    let (given, on) = passed env schemas token session (ap (λ p. p.0) h) in
    rw h (
      ap frame (
        with_session-err env schemas content (require_admin env schemas (some token) log)
          (not_authorised unauthenticated)
          (exchange-refused env schemas token log id body given on answer)))
