-- ===== src/Checkout.antt =====
-- The checkout of the storefront (apps/storefront/src/components/checkout/checkout-flow.tsx), with the
-- route that it posts to (app/api/bff/orders/route.ts), and the address of
-- libs/ts-contracts/src/primitives.ts. A text of the form is the list of its code units.
pub mod Attempts
pub mod Refused
use ecomerce_microservices_o.Prelude.{
  ℕ, Bool, true, false, ◌&&◌, not, String, List, [], ◌∷◌, ◌++◌, Option, none, some, ltb, leb,
  if◌then◌else◌, str_eq, length,
}
use ecomerce_microservices_o.Prelude.Codes.{codes}
use ecomerce_microservices_o.Money.{Money}
use ecomerce_microservices_o.Prelude.Int.{pos}
use ecomerce_microservices_o.OrderService.Domain
use ecomerce_microservices_o.OrderService.{Body, Answer, Db, Env, place_order}
use ecomerce_microservices_o.ApiClient.{ApiError, UserMessage, user_message}

abbrev pub Text : Type 0
Text = List ℕ

-- The state `address` of the form.
pub record Address : Type 0 where
  pub recipient : Text
  pub line1 : Text
  pub line2 : Text
  pub city : Text
  pub region : Text
  pub postal_code : Text
  pub country_code : Text
  pub phone : Text

-- What a field is told: of an issue of the schema, or the text that the server sent.
pub data FieldMessage : Type 0 where
  too_small too_big invalid : FieldMessage
  sent : String → FieldMessage

abbrev pub FieldErrors : Type 0
FieldErrors = List (String × FieldMessage)

abbrev pub is_blank : Text → Bool
is_blank [] = true
is_blank (_ ∷ _) = false

-- `z.string().max(most)`
abbrev pub at_most : String → ℕ → Text → FieldErrors
at_most field most t = if ltb most (length t) then (field, too_big) ∷ [] else []

-- `z.string().min(1).max(most)`
abbrev pub required : String → ℕ → Text → FieldErrors
required field most t = if is_blank t then (field, too_small) ∷ [] else at_most field most t

-- `x || undefined` with `.optional()`
abbrev pub optional : String → ℕ → Text → FieldErrors
optional field most t = if is_blank t then [] else at_most field most t

abbrev pub is_upper : ℕ → Bool
is_upper c = leb b'A' c && leb c b'Z'

-- `/^[A-Z]{2}$/`
abbrev pub is_country_code : Text → Bool
is_country_code (c ∷ d ∷ []) = is_upper c && is_upper d
is_country_code _ = false

-- The issues of `Address.safeParse`, in the order of the schema's fields.
unfoldable pub issues : Address → FieldErrors
issues a =
    required "recipient" 200 a.recipient
    ++ (required "line1" 300 a.line1
        ++ (optional "line2" 300 a.line2
            ++ (required "city" 150 a.city
                ++ (optional "region" 150 a.region
                    ++ (required "postalCode" 30 a.postal_code
                        ++ ((if is_country_code a.country_code
                              then []
                              else ("countryCode", invalid) ∷ [])
                            ++ optional "phone" 40 a.phone))))))

-- What the component reads of the basket.
pub record Basket : Type 0 where
  pub id : String
  pub version : ℕ
  pub lines : List String
  pub total : Money

-- The body of the request.
pub record CreateOrderRequest : Type 0 where
  pub cart_id : String
  pub cart_version : ℕ
  pub shipping_address : Address
  pub payment_method_token : String
  pub expected_total : Money

pub record Sent : Type 0 where
  pub idempotency_key : String
  pub body : CreateOrderRequest

pub data Shown : Type 0 where
  stale_basket : Shown
  message : UserMessage → Shown

-- The state of one mount, with the requests that it sent, newest first, and where the router went.
pub record State : Type 0 where
  pub idempotency_key : String
  pub address : Address
  pub error : Option Shown
  pub field_errors : FieldErrors
  pub submitting : Bool
  pub requests : List Sent
  pub location : Option String

abbrev pub full_name_of : Option Text → Text
full_name_of none = []
full_name_of (some name) = name

-- A mount, with the key that is drawn and the name of the user.
unfoldable pub mount : String → Option Text → State
mount key name = record {
  idempotency_key = key;
  address = record {
    recipient = full_name_of name;
    line1 = [];
    line2 = [];
    city = [];
    region = [];
    postal_code = [];
    country_code = codes "EG";
    phone = [];
  };
  error = none;
  field_errors = [];
  submitting = false;
  requests = [];
  location = none;
}

abbrev pub has_lines : List String → Bool
has_lines [] = false
has_lines (_ ∷ _) = true

-- canSubmit, with what `useCart` gives
unfoldable pub can_submit : Option Basket → Bool → State → Bool
can_submit none loading s = false
can_submit (some b) loading s = has_lines b.lines && not loading && not s.submitting

abbrev pub request_of : Basket → Address → CreateOrderRequest
request_of b a = record {
  cart_id = b.id;
  cart_version = b.version;
  shipping_address = a;
  payment_method_token = "tok_test_visa";
  expected_total = b.total;
}

abbrev pub send : Basket → State → State
send b s = record s {
  submitting = true;
  requests =
      record { idempotency_key = s.idempotency_key; body = request_of b s.address } ∷ s.requests;
}

abbrev pub send_parsed : Basket → FieldErrors → State → State
send_parsed b [] s = send b s
send_parsed b (e ∷ es) s = record s { field_errors = e ∷ es }

-- onSubmit, up to the answer of the request
unfoldable pub on_submit : Option Basket → State → State
on_submit none s = s
on_submit (some b) s =
    send_parsed b (issues s.address) (record s { error = none; field_errors = [] })

-- A field error of the server, with its path in segments.
pub record FieldError : Type 0 where
  pub path : List String
  pub text : String

-- How `apiFetch` ends: with the order's id, an ApiError and its field errors, or another error.
pub data Outcome : Type 0 where
  placed : String → Outcome
  refused : ApiError → Option (List FieldError) → Outcome
  thrown : Outcome

-- `split('.').pop()`
abbrev pub last_segment : List String → String
last_segment [] = ""
last_segment (x ∷ []) = x
last_segment (x ∷ y ∷ xs) = last_segment (y ∷ xs)

abbrev pub labelled : List FieldError → FieldErrors
labelled [] = []
labelled (f ∷ fs) = (last_segment f.path, sent f.text) ∷ labelled fs

abbrev pub with_field_errors : Option (List FieldError) → State → State
with_field_errors none s = s
with_field_errors (some fs) s = record s { field_errors = labelled fs }

abbrev pub shown : ApiError → Shown
shown e = if str_eq e.code "CART_STALE" then stale_basket else message (user_message e)

abbrev pub take_outcome : Outcome → State → State
take_outcome (placed order_id) s = record s { location = some order_id }
take_outcome (refused e fields) s = with_field_errors fields (record s { error = some (shown e) })
take_outcome thrown s = s

-- onSubmit, from the answer to its end
unfoldable pub on_answer : Outcome → State → State
on_answer o s = record (take_outcome o s) { submitting = false }

-- What the component shows.
pub data View : Type 0 where
  sign_in : View
  empty_basket : View
  form : Bool → View

unfoldable pub view_of : Bool → Option Basket → Bool → State → View
unfolding can_submit
view_of false basket loading s = sign_in
view_of true none loading s = empty_basket
view_of true (some b) loading s =
    if has_lines b.lines then form (can_submit (some b) loading s) else empty_basket

-- What the decoder of order-service makes of the request: it takes every field, and leaves those that
-- are missing empty.
abbrev pub no_money : Money
no_money = record { amount = pos 0; currency = "" }

abbrev pub decoded_address : Address → Domain.Address
decoded_address a = record {
  recipient = a.recipient;
  line1 = a.line1;
  line2 = a.line2;
  city = a.city;
  region = a.region;
  postal_code = a.postal_code;
  country_code = a.country_code;
  phone = a.phone;
}

abbrev pub decoded : CreateOrderRequest → Body
decoded r = record {
  cart_id = r.cart_id;
  cart_version = r.cart_version;
  items = [];
  subtotal = no_money;
  discount_total = no_money;
  shipping_total = no_money;
  tax_total = no_money;
  expected_total = r.expected_total;
  shipping_address = decoded_address r.shipping_address;
  billing_address = none;
  payment_method_token = r.payment_method_token;
  rules_version = "";
}

pub data Relayed : Type 0 where
  missing_key : Relayed
  unauthenticated : Relayed
  not_parsed : Relayed
  relayed : Answer → Relayed

abbrev pub relay : Answer × Db → Relayed × Db
relay (a, db) = (relayed a, db)

abbrev pub relay_for : Env → String → Option String → Option CreateOrderRequest → Db → Relayed × Db
relay_for env key none body db = (unauthenticated, db)
relay_for env key (some user) none db = (not_parsed, db)
relay_for env key (some user) (some r) db = relay (place_order env key user (decoded r) db)

-- POST /api/bff/orders, with the header, the user of the access token where there is one, and what the
-- schema makes of the body.
unfoldable pub post_order :
    Env → Option String → Option String → Option CreateOrderRequest → Db → Relayed × Db
post_order env none user body db = (missing_key, db)
post_order env (some key) user body db =
    if str_eq key "" then (missing_key, db) else relay_for env key user body db
