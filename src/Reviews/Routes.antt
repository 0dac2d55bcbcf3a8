-- ===== src/Reviews/Routes.antt =====
-- The routes and the consumer of review-service (services/review-service/src/index.ts) with `create`
-- of services/review-service/src/reviews.ts. What zod makes of a request is an argument, `none` where
-- it throws, and so are the ulid that is drawn and the clock of one request.
pub mod Submit
use ecomerce_microservices_o.Prelude.{
  ℕ, ◌+◌, Bool, true, false, ◌&&◌, ◌||◌, not, String, List, [], ◌∷◌, Option, none, some,
  if◌then◌else◌, str_eq, includes,
}
use ecomerce_microservices_o.Reviews.{
  Stars, Status, pending_moderation, Decision, Review, RatingSummary, Db, Env, Result, done,
  review_not_found, duplicate_key, range_error, type_error, find_review, has_other, has_purchased,
  record_purchase, moderate, mark_helpful,
}

-- The input of `create`, less the texts, the images and the locale.
pub record Input : Type 0 where
  pub id : String
  pub product_id : String
  pub user_id : String
  pub rating : Stars

pub data Created : Type 0 where
  submitted : Review → Created
  duplicate_review : String → Created

-- Without the texts, the locale and `autoFlags`.
abbrev pub new_review : Input → Bool → ℕ → Review
new_review input verified now = record {
  id = input.id;
  product_id = input.product_id;
  user_id = input.user_id;
  rating = input.rating;
  verified_purchase = verified;
  helpful_count = 0;
  status = pending_moderation;
  moderated_by = none;
  moderated_at = none;
  reason = none;
  updated_at = now;
}

abbrev pub has_id : Option Review → Bool
has_id none = false
has_id (some r) = true

-- insertOne: code 11000 is a violation of the index on `_id` or of the one of ensureIndexes.
abbrev pub insert : Review → Db → Created × Db
insert r db =
    if has_id (find_review r.id db.reviews) || has_other r db.reviews
    then (duplicate_review r.product_id, db)
    else (submitted r, record db { reviews = r ∷ db.reviews })

unfoldable pub create : Env → ℕ → Input → Db → Created × Db
create env now input db =
    insert (new_review input (has_purchased env now input.user_id input.product_id db) now) db

-- `no_reviews` is the zeroed summary of the product.
pub data Reply : Type 0 where
  unauthenticated : Reply
  forbidden : Reply
  validation_failed : Reply
  review_already_exists : String → Reply
  not_found : String → Reply
  internal_error : Reply
  accepted : String → Status → Bool → Reply
  helpful : String → ℕ → Reply
  decided : String → Decision → Reply
  rating : RatingSummary → Reply
  no_reviews : String → Reply

-- What the route reads of CreateReviewRequest.
pub record CreateReviewRequest : Type 0 where
  pub product_id : String
  pub rating : Stars

abbrev pub created_reply : Created × Db → Reply × Db
created_reply (submitted r, db) = (accepted r.id r.status r.verified_purchase, db)
created_reply (duplicate_review product, db) = (review_already_exists product, db)

abbrev pub submit_parsed : Env → ℕ → String → String → Option CreateReviewRequest → Db → Reply × Db
submit_parsed env now id user none db = (validation_failed, db)
submit_parsed env now id user (some body) db = created_reply (
    create env now
      (record { id = id; product_id = body.product_id; user_id = user; rating = body.rating }) db)

-- POST /v1/reviews, with the header `x-user-id`.
unfoldable pub post_review :
    Env → ℕ → String → Option String → Option CreateReviewRequest → Db → Reply × Db
post_review env now id none body db = (unauthenticated, db)
post_review env now id (some user) body db =
    if str_eq user "" then (unauthenticated, db) else submit_parsed env now id user body db

abbrev pub is_accepted : Reply → Bool
is_accepted (accepted _ _ _) = true
is_accepted _ = false

abbrev pub or_ip : Option String → String → String
or_ip none ip = ip
or_ip (some user) ip = user

abbrev pub helpful_reply : String → ℕ × Db → Reply × Db
helpful_reply id (count, db) = (helpful id count, db)

-- POST /v1/reviews/:reviewId/helpful
unfoldable pub post_helpful : Env → Option String → Option String → String → Db → Reply × Db
post_helpful env none user ip db = (validation_failed, db)
post_helpful env (some id) user ip db = helpful_reply id (mark_helpful env id (or_ip user ip) db)

-- What the error handler makes of an error that `moderate` throws.
abbrev pub moderated_reply : String → Decision → Result × Db → Reply × Db
moderated_reply id decision (done, db) = (decided id decision, db)
moderated_reply id decision (review_not_found missing, db) = (not_found missing, db)
moderated_reply id decision (duplicate_key, db) = (internal_error, db)
moderated_reply id decision (range_error, db) = (internal_error, db)
moderated_reply id decision (type_error, db) = (internal_error, db)

abbrev pub moderate_parsed :
    Env → ℕ → Option String → String → Option (Decision × Option String) → Db → Reply × Db
moderate_parsed env now (some id) by (some (decision, reason)) db =
    moderated_reply id decision (moderate env now id decision by reason db)
moderate_parsed env now _ by _ db = (validation_failed, db)

-- POST /v1/admin/reviews/:reviewId/moderate, with the roles of `x-user-roles`.
unfoldable pub post_moderate :
    Env
    → ℕ
    → List String
    → Option String
    → String
    → Option (Decision × Option String)
    → Db
    → Reply × Db
post_moderate env now roles id by body db =
    if not (includes "ADMIN" roles) && not (includes "SUPPORT" roles)
    then (forbidden, db)
    else moderate_parsed env now id by body db

-- GET /v1/products/:productId/rating
abbrev pub rating_reply : String → Option RatingSummary → Reply
rating_reply product (some s) = rating s
rating_reply product none = no_reviews product

unfoldable pub get_rating : Option String → Db → Reply × Db
get_rating none db = (validation_failed, db)
get_rating (some product) db = (rating_reply product (db.summaries product), db)

-- The data of an order event that the consumer reads: the user, the order, and the products of the
-- items, of which there are none where the field is missing.
pub record OrderData : Type 0 where
  pub user_id : String
  pub order_id : String
  pub items : List String

-- `malformed` is a value that JSON.parse, or the reading of the envelope, throws on.
pub data Message : Type 0 where
  no_value : Message
  malformed : Message
  envelope : String → OrderData → Message

unfoldable pub record_all : Env → ℕ → String → String → List String → Db → Db
record_all env now user order [] db = db
record_all env now user order (product ∷ products) db =
    record_all env now user order products (record_purchase env now user product order db)

-- eachMessage
unfoldable pub each_message : Env → ℕ → Message → Db → Db
each_message env now no_value db = db
each_message env now malformed db = db
each_message env now (envelope type data_of) db =
    if str_eq type "souq.order.confirmed.v1"
    then record_all env now data_of.user_id data_of.order_id data_of.items db
    else db
