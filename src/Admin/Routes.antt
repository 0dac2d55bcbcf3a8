-- ===== src/Admin/Routes.antt =====
-- The routes of the admin app that change something
-- (apps/admin/src/app/api/admin: orders/[id]/[action], dlq/[id]/[action], catalog/[id] and
-- catalog/[id]/price). An answer without a body is `none`, for which the browser gets `{ ok: true }`.
use ecomerce_microservices_o.Prelude.{
  String, List, Option, none, some, if◌then◌else◌, str_eq, concat,
}
use ecomerce_microservices_o.Bff.Call.{Method, post, patch, delete}
use ecomerce_microservices_o.Admin.Client.{
  AdminService, order, catalog, text, api, parse_error, Result, err, Request, Env, admin_call,
}
use ecomerce_microservices_o.Admin.Session.{AdminSession, Schemas, Reply, admin_problem, with_admin}

-- A change of a price, as `PriceBody` reads it: the sku and the body that is sent on.
pub record PriceBody (J : Type 0) : Type 0 where
  pub sku : String
  pub rest : J

-- The schemas of the routes, `encodeURIComponent`, and `{ reason: 'OPERATOR_CANCELLED' }`.
pub record Bodies (J : Type 0) : Type 0 where
  pub retry_step : J → Option String
  pub update : J → Option J
  pub price : J → Option (PriceBody J)
  pub cancel_body : J
  pub encode : String → String

module _ {J : Type 0} (env : Env J) (schemas : Schemas J) (bodies : Bodies J) where
  -- `z.unknown()`
  abbrev pub unknown : Option J → Option (Option J)
  unknown j = some j

  abbrev pub Handler : Type 0
  Handler = AdminSession → List (Request J) → Result (Option J) × List (Request J)

  -- `adminCall` with the token of the session
  abbrev pub send : AdminService → String → Method → Option J → Option String → Handler
  send service path method body key session log =
      admin_call env
        (record {
          service = service;
          path = path;
          method = method;
          body = body;
          access_token = session.access_token;
          idempotency_key = key;
        })
        unknown log

  abbrev pub invalid : String → List (Request J) → Reply (Option J) × List (Request J)
  invalid why log = (
    admin_problem env (
        api (record {
          status = 400;
          code = "VALIDATION_FAILED";
          request_id = "";
          message = text why;
        })),
    log,
  )

  abbrev pub order_path : String → String → String
  order_path id action = concat "/v1/admin/orders/" (concat (bodies.encode id) action)

  abbrev pub retry_step :
      Option String
      → String
      → Option J
      → Option String
      → List (Request J)
      → Reply (Option J) × List (Request J)
  retry_step cookie id body none log = invalid "a retry must name a saga step" log
  retry_step cookie id body (some step) log =
      with_admin env schemas cookie
        (send order (order_path id "/retry") post body
          (some (concat "saga:retry:" (concat id (concat ":" step)))))
        log

  abbrev pub step_of : Option J → Option String
  step_of none = none
  step_of (some j) = bodies.retry_step j

  -- POST /api/admin/orders/[id]/[action]; `body` is none when it is not JSON.
  unfoldable pub order_action :
      Option String
      → String
      → String
      → Option J
      → List (Request J)
      → Reply (Option J) × List (Request J)
  order_action cookie id action body log =
      if str_eq action "retry"
      then retry_step cookie id body (step_of body) log
      else if str_eq action "cancel"
      then with_admin env schemas cookie
          (send order (order_path id "/cancel") post (some bodies.cancel_body)
            (some (concat "saga:cancel:" id)))
          log
      else invalid "unknown action" log

  abbrev pub dlq_handler : String → String → Handler
  dlq_handler id action =
      send order (concat "/v1/admin/dlq/" (concat (bodies.encode id) (concat "/" action))) post none
        (some (concat "dlq:" (concat action (concat ":" id))))

  -- POST /api/admin/dlq/[id]/[action]
  unfoldable pub dlq_action :
      Option String → String → String → List (Request J) → Reply (Option J) × List (Request J)
  dlq_action cookie id action log =
      if str_eq action "replay"
      then with_admin env schemas cookie (dlq_handler id "replay") log
      else if str_eq action "discard"
      then with_admin env schemas cookie (dlq_handler id "discard") log
      else invalid "unknown action" log

  abbrev pub product_path : String → String
  product_path id = concat "/v1/admin/products/" (bodies.encode id)

  abbrev pub parsed : {A : Type 0} → (J → Option A) → Option J → Option A
  parsed read none = none
  parsed read (some j) = read j

  abbrev pub patch_with : String → Option J → Handler
  patch_with id none session log = (err parse_error, log)
  patch_with id (some body) session log =
      send catalog (product_path id) patch (some body) none session log

  -- PATCH /api/admin/catalog/[id], which parses the body behind the guard
  unfoldable pub patch_product :
      Option String → String → Option J → List (Request J) → Reply (Option J) × List (Request J)
  patch_product cookie id body log =
      with_admin env schemas cookie (patch_with id (parsed bodies.update body)) log

  -- DELETE /api/admin/catalog/[id]
  unfoldable pub delete_product :
      Option String → String → List (Request J) → Reply (Option J) × List (Request J)
  delete_product cookie id log =
      with_admin env schemas cookie (send catalog (product_path id) delete none none) log

  abbrev pub price_with : String → Option (PriceBody J) → Handler
  price_with id none session log = (err parse_error, log)
  price_with id (some body) session log =
      send catalog
        (concat (product_path id) (concat "/variants/" (concat (bodies.encode body.sku) "/price")))
        post (some body.rest) none session log

  -- POST /api/admin/catalog/[id]/price
  unfoldable pub change_price :
      Option String → String → Option J → List (Request J) → Reply (Option J) × List (Request J)
  change_price cookie id body log =
      with_admin env schemas cookie (price_with id (parsed bodies.price body)) log
