-- ===== src/Tests/Admins.antt =====
-- The admin app at concrete data (apps/admin/src): an operator who cancels an order.
use ecomerce_microservices_o.Prelude.{
  ◌≡◌, ◌==◌, All, length, refl, true, false, String, List, [], ◌∷◌, Option, none, some,
  if◌then◌else◌, str_eq,
}
use ecomerce_microservices_o.Prelude.Codes.{codes}
use ecomerce_microservices_o.Orders.{shipped}
use ecomerce_microservices_o.Search.{trim}
use ecomerce_microservices_o.Cart.Codes.{trim_end, trim_start}
use ecomerce_microservices_o.Bff.Call.{Fetched, response}
use ecomerce_microservices_o.Admin.Client.{
  Request, Env, Result, ok, err, not_authorised, unauthenticated, admin_call, read,
}
use ecomerce_microservices_o.Admin.Session.{
  UserProfile, AdminSession, Schemas, problem, require_admin, refresh_request, with_admin,
  authorised,
}
use ecomerce_microservices_o.Admin.Routes.{Bodies, patch_product}
use ecomerce_microservices_o.Admin.Access.{IsGuarded, with_admin-IsGuarded}
use ecomerce_microservices_o.Admin.Actions.{invalid_body}
use ecomerce_microservices_o.Admin.Pages.{frame, page}
use ecomerce_microservices_o.Admin.Pages.Guard.{page-twice}
use ecomerce_microservices_o.Admin.Saga.{SagaTrace}
use ecomerce_microservices_o.Admin.Controls.{
  initial, discard, click_trash, type_id, click_discard, PriceChange, posted, save, click_save,
}
use ecomerce_microservices_o.Admin.Controls.Confirmed.{
  Event, trash_clicked, id_typed, discard_clicked, IsMeant, happen, happen_all, happen_all-IsMeant,
}

abbrev operator : UserProfile
operator = record { user_id = "u1"; roles = "OPS" ∷ []; mfa_enabled = true }

abbrev ok_response : Option String → Fetched String
ok_response body = response (record { status = 200; request_id = none; body = body })

abbrev env : Env String
env = record {
  configured = λ _. true;
  request_id = "r1";
  network = λ _ q.
      if str_eq q.path "/v1/auth/refresh"
      then ok_response (some "at1")
      else ok_response (some "{}");
  problem_details = λ _. none;
  random_uuid = "uuid";
}

abbrev schemas : Schemas String
schemas = record {
  token_pair = λ body. body;
  user_profile = λ _. some operator;
  refresh_body = λ token. token;
}

abbrev bodies : Bodies String
bodies = record {
  retry_step = λ body. some body;
  update = λ _. none;
  price = λ _. none;
  cancel_body = "OPERATOR_CANCELLED";
  encode = λ s. s;
}

abbrev session : AdminSession
session = record { access_token = "at1"; user = operator }

signed_in : (require_admin env schemas (some "rt1") []).0 ≡ ok session
unfolding require_admin admin_call read authorised
signed_in = refl

abbrev handler : AdminSession → List (Request String) → Result String × List (Request String)
handler s log = (ok s.access_token, log)

with_admin-IsGuarded_example :
    IsGuarded env schemas handler (with_admin env schemas (some "rt1") handler [])
with_admin-IsGuarded_example = with_admin-IsGuarded env schemas (some "rt1") handler

-- A body that `UpdateBody` refuses.
invalid_run :
    (patch_product env schemas bodies (some "rt1") "prd_1" (some "{}") []).0
    ≡ problem 500 "INTERNAL_ERROR" "uuid"
invalid_run =
    (invalid_body env schemas bodies (some "rt1") "prd_1" (some "{}") session signed_in refl refl).0

-- identity-service answers the second exchange of the refresh token 401.
abbrev strict_env : Env String
strict_env = record {
  configured = λ _. true;
  request_id = "r1";
  network = λ n q.
      if str_eq q.path "/v1/auth/refresh"
      then if n == 0
        then ok_response (some "at1")
        else response (record { status = 401; request_id = none; body = none })
      else ok_response (some "{}");
  problem_details = λ _. none;
  random_uuid = "uuid";
}

abbrev first_log : List (Request String)
first_log = (require_admin strict_env schemas (some "rt1") []).1

strict_run : require_admin strict_env schemas (some "rt1") [] ≡ (ok session, first_log)
unfolding require_admin admin_call read authorised
strict_run = refl

refused_run :
    strict_env.network (length first_log) (refresh_request strict_env schemas "rt1")
    ≡ response (record { status = 401; request_id = none; body = none })
unfolding require_admin admin_call read authorised
refused_run = refl

page-twice_example :
    (page strict_env schemas (some "rt1") handler []).0
    ≡ frame (err (not_authorised unauthenticated))
page-twice_example =
    page-twice strict_env schemas "rt1" handler session first_log none none strict_run refused_run

abbrev trace : SagaTrace
trace = record {
  order_id = "ord_1";
  status = shipped;
  steps = [];
  rollback_forbidden = false;
  correlation_id = "c1";
  started_at = 0;
}

abbrev discarding : List Event
discarding = trash_clicked false ∷ id_typed (codes "evt_1234") ∷ discard_clicked ∷ []

happen_all-IsMeant_example :
    All
      (IsMeant (codes "evt_12345678"))
      (happen_all (codes "evt_12345678") discarding initial).requests
happen_all-IsMeant_example = happen_all-IsMeant (codes "evt_12345678") discarding

discarding_run :
    (happen_all (codes "evt_12345678") discarding initial).requests
    ≡ (discard, codes "evt_1234") ∷ []
unfolding happen_all happen click_trash type_id click_discard
discarding_run = refl

abbrev new_price : PriceChange
new_price = record {
  sku = "sku_1";
  price = 1500;
  list_price = some 2000;
  currency = "EGP";
  reason = codes "sale";
}

new_price_run :
    click_save (λ _. some 1500) false "sku_1" (some 2000) "EGP" (codes "15.00") (codes "sale")
    ≡ posted new_price
unfolding click_save save trim trim_end trim_start
new_price_run = refl
