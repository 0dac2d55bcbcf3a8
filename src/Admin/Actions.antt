-- ===== src/Admin/Actions.antt =====
-- What the actions of the admin app ask of the services, and how they answer an invalid body
-- (apps/admin/src/app/api/admin).
use ecomerce_microservices_o.Prelude.{
  ℕ, suc, ◌≤◌, ◌≡◌, refl, inl, inr, Bool, true, false, String, List, [], ◌∷◌, Option, none, some,
  if◌then◌else◌, str_eq, concat, arith, All, Bool-cases,
}
use ecomerce_microservices_o.Bff.Call.{Method, post}
use ecomerce_microservices_o.Admin.Client.{
  AdminService, identity, order, Result, ok, err, Request, Env,
}
use ecomerce_microservices_o.Admin.Session.{
  AdminSession, Schemas, problem, require_admin, admin_problem, guarded, replied, with_admin,
}
use ecomerce_microservices_o.Admin.Routes.{
  Bodies, send, order_action, dlq_action, retry_step, step_of, dlq_handler, order_path, parsed,
  patch_product, change_price, patch_with, price_with,
}
use ecomerce_microservices_o.Admin.Access.{IsForIdentity, with_admin-IsGuarded, admin_call-log}

abbrev pub is_other : AdminService → Bool
is_other identity = false
is_other _ = true

module _ {J : Type 0} where
  -- The requests to services other than identity-service.
  unfoldable pub count_other : List (Request J) → ℕ
  count_other [] = 0
  count_other (q ∷ log) =
      let rest = count_other log in if is_other q.service then suc rest else rest

  count_other-zero : (log : List (Request J)) → All IsForIdentity log → count_other log ≡ 0
  unfolding count_other
  count_other-zero [] h = refl
  count_other-zero (q ∷ log) (own, h) = rw own (count_other-zero log h)

  count_other-cons :
      (q : Request J) (log : List (Request J)) → count_other (q ∷ log) ≤ suc (count_other log)
  unfolding count_other
  count_other-cons q log = ground arith

count_other-nil : (J : Type 0) → count_other {J = J} [] ≤ 1
unfolding count_other
count_other-nil J = omega arith

module _ {J : Type 0} (env : Env J) (schemas : Schemas J) (bodies : Bodies J) where
  -- A handler that sends at most one request.
  abbrev SendsOne :
      {A : Type 0} → (AdminSession → List (Request J) → Result A × List (Request J)) → Type 0
  SendsOne handler =
      (session : AdminSession) (log : List (Request J))
      → count_other (handler session log).1 ≤ suc (count_other log)

  count_other-replied :
      {A : Type 0} (res : Result A × List (Request J))
      → count_other (replied env res).1 ≡ count_other res.1
  count_other-replied (ok a, log) = refl
  count_other-replied (err e, log) = refl

  count_other-with_admin :
      {A : Type 0} (cookie : Option String)
      (handler : AdminSession → List (Request J) → Result A × List (Request J))
      → SendsOne handler
      → count_other (with_admin env schemas cookie handler []).1 ≤ 1
  count_other-with_admin cookie handler one =
      elim (with_admin-IsGuarded env schemas cookie handler) [
        | inl (e, log, (own, short), end) ↦ rw end (rw (count_other-zero log own) (omega arith))
        | inr (session, log, (own, short), operator, end) ↦
            let more = one session log in
            rw end (
              rw (count_other-replied (handler session log))
                (omega (arith, more, count_other-zero log own)))
      ]

  send-SendsOne :
      (service : AdminService) (path : String) (method : Method) (body : Option J)
      (key : Option String)
      → SendsOne (send env schemas bodies service path method body key)
  send-SendsOne service path method body key session log =
      let q : Request J = record {
        service = service;
        path = path;
        method = method;
        body = body;
        access_token = session.access_token;
        idempotency_key = key;
      } in
      elim (admin_call-log env q some log) [
        | inl same ↦ rw same (omega arith)
        | inr more ↦ rw more (count_other-cons q log)
      ]

  retry_step-once :
      (cookie : Option String) (id : String) (body : Option J) (step : Option String)
      → count_other (retry_step env schemas bodies cookie id body step []).1 ≤ 1
  retry_step-once cookie id body none = count_other-nil J
  retry_step-once cookie id body (some step) =
      count_other-with_admin cookie _ (send-SendsOne order _ post body _)

  order_action-once :
      (cookie : Option String) (id action : String) (body : Option J)
      → count_other (order_action env schemas bodies cookie id action body []).1 ≤ 1
  unfolding order_action
  order_action-once cookie id action body =
      let retried = retry_step-once cookie id body (step_of env schemas bodies body) in
      let cancelled = count_other-with_admin cookie _ (
        send-SendsOne order (order_path env schemas bodies id "/cancel") post
          (some bodies.cancel_body) (some (concat "saga:cancel:" id))) in
      elim (Bool-cases (str_eq action "retry")) [
        | inl retry ↦ rw retry retried
        | inr other ↦ rw other (elim (Bool-cases (str_eq action "cancel")) [
          | inl cancel ↦ rw cancel cancelled
          | inr unknown ↦ rw unknown (count_other-nil J)
        ])
      ]

  dlq_handler-once :
      (cookie : Option String) (id action : String)
      → count_other (with_admin env schemas cookie (dlq_handler env schemas bodies id action) []).1
        ≤ 1
  dlq_handler-once cookie id action =
      count_other-with_admin cookie (dlq_handler env schemas bodies id action) (
        send-SendsOne order
          (concat "/v1/admin/dlq/" (concat (bodies.encode id) (concat "/" action))) post none
          (some (concat "dlq:" (concat action (concat ":" id)))))

  dlq_action-once :
      (cookie : Option String) (id action : String)
      → count_other (dlq_action env schemas bodies cookie id action []).1 ≤ 1
  unfolding dlq_action
  dlq_action-once cookie id action = elim (Bool-cases (str_eq action "replay")) [
    | inl replay ↦ rw replay (dlq_handler-once cookie id "replay")
    | inr other ↦ rw other (elim (Bool-cases (str_eq action "discard")) [
      | inl discard ↦ rw discard (dlq_handler-once cookie id "discard")
      | inr unknown ↦ rw unknown (count_other-nil J)
    ])
  ]

  -- An operator's action on an order or on a dead-lettered message sends at most one request to a
  -- service other than identity-service.
  pub actions_once :
      (cookie : Option String) (id action : String) (body : Option J)
      → (count_other (order_action env schemas bodies cookie id action body []).1 ≤ 1)
        × (count_other (dlq_action env schemas bodies cookie id action []).1 ≤ 1)
  actions_once cookie id action body =
      (order_action-once cookie id action body, dlq_action-once cookie id action)

  -- A body that the schema of a catalogue route refuses is answered as an internal error, not as one
  -- of the client.
  pub invalid_body :
      (cookie : Option String) (id : String) (body : Option J) (session : AdminSession)
      → (require_admin env schemas cookie []).0 ≡ ok session
      → parsed env schemas bodies bodies.update body ≡ none
      → parsed env schemas bodies bodies.price body ≡ none
      → ((patch_product env schemas bodies cookie id body []).0
          ≡ problem 500 "INTERNAL_ERROR" env.random_uuid)
        × ((change_price env schemas bodies cookie id body []).0
            ≡ problem 500 "INTERNAL_ERROR" env.random_uuid)
  unfolding patch_product change_price with_admin admin_problem
  invalid_body cookie id body session signed_in no_update no_price =
      rw no_update (rw no_price (go (require_admin env schemas cookie []) signed_in))
    where
      go :
          (res : Result AdminSession × List (Request J))
          → res.0 ≡ ok session
          → ((guarded env (patch_with env schemas bodies id none) res).0
              ≡ problem 500 "INTERNAL_ERROR" env.random_uuid)
            × ((guarded env (price_with env schemas bodies id none) res).0
                ≡ problem 500 "INTERNAL_ERROR" env.random_uuid)
      go (err e, log) h = absurd (cc h)
      go (ok s, log) h = (refl, refl)
