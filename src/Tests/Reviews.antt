-- ===== src/Tests/Reviews.antt =====
-- The submission of a review at concrete data (services/review-service/src/index.ts and reviews.ts).
use ecomerce_microservices_o.Prelude.{◌≡◌, refl, true, false, [], ◌∷◌, some, none}
use ecomerce_microservices_o.Reviews.{
  Review, Db, Env, array, three, five, published, pending_moderation, publish, find_review,
  has_other, has_purchased, rebuilt,
}
use ecomerce_microservices_o.Reviews.Routes.{
  CreateReviewRequest, OrderData, accepted, post_review, review_already_exists, create, forbidden,
  post_moderate,
}
use ecomerce_microservices_o.Reviews.Routes.Submit.{post_review_once}

abbrev earlier : Review
earlier = record {
  id = "rev_0";
  product_id = "p1";
  user_id = "u0";
  rating = three;
  verified_purchase = true;
  helpful_count = 2;
  status = published;
  moderated_by = none;
  moderated_at = none;
  reason = none;
  updated_at = 3;
}

abbrev db : Db
db = record {
  reviews = earlier ∷ [];
  summaries = λ _. some (rebuilt 2 "p1" (earlier ∷ []));
  purchases = λ _. none;
  helpful_votes = λ _. false;
}

abbrev env : Env
env = record { inc = λ _ _ _. array []; key = λ user product. user }

abbrev order : OrderData
order = record { user_id = "u2"; order_id = "o1"; items = "p9" ∷ "p1" ∷ [] }

abbrev body : CreateReviewRequest
body = record { product_id = "p1"; rating = five }

submitted :
    (post_review env 8 "rev_2" (some "u2") (some body) db).0
    ≡ accepted "rev_2" pending_moderation false
unfolding post_review create has_purchased find_review has_other
submitted = refl

-- A user without one of the two roles moderates nothing.
customer_moderates :
    post_moderate env 9 ("CUSTOMER" ∷ []) (some "rev_0") "u2" (some (publish, none)) db
    ≡ (forbidden, db)
unfolding post_moderate
customer_moderates = refl

post_review_once_example :
    post_review env 9 "rev_3"
      (some "u2")
      (some body)
      (post_review env 8 "rev_2" (some "u2") (some body) db).1
    ≡ (review_already_exists "p1", (post_review env 8 "rev_2" (some "u2") (some body) db).1)
post_review_once_example =
    post_review_once env 8 9 "rev_2" "rev_3" "u2" body body db refl (rw submitted refl)
