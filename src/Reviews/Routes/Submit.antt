-- ===== src/Reviews/Routes/Submit.antt =====
-- Submission of a review after the order events (services/review-service/src/index.ts, and `create` of
-- services/review-service/src/reviews.ts).
use ecomerce_microservices_o.Prelude.{
  ℕ, ◌+◌, ◌<◌, ◌≡◌, refl, ◌∙◌, sym, ap, Bool, true, false, ◌||◌, String, List, ◌∷◌, Option, none,
  some, Bool-cases, inl, inr, str_eq, str_eq_self,
}
use ecomerce_microservices_o.Reviews.{
  one, two, three, four, five, Review, Db, Env, pending_moderation, PurchaseRecord, find_review,
  has_other, has_purchased, purchase_lifetime, count_if, in_bucket, verified_for, buckets, rebuilt,
  counts_for,
}
use ecomerce_microservices_o.Reviews.Summaries.{IsCurrent}
use ecomerce_microservices_o.Reviews.Routes.{
  Input, new_review, insert, create, has_id, created_reply, review_already_exists,
  CreateReviewRequest, post_review, is_accepted,
}

-- The record of a purchase, if there is one, still stands at a time.
abbrev pub IsFresh : ℕ → Option PurchaseRecord → Type 0
IsFresh later none = Unit
IsFresh later (some p) = later < p.purchased_at + purchase_lifetime

abbrev pub confirmed : String
confirmed = "souq.order.confirmed.v1"

abbrev pub input_of : String → String → CreateReviewRequest → Input
input_of id user body = record {
  id = id;
  product_id = body.product_id;
  user_id = user;
  rating = body.rating;
}

or_true : (b : Bool) → b || true ≡ true
or_true true = refl
or_true false = refl

-- An insert is refused where a pending review of the user and the product stands first.
insert_second :
    (r s : Review) (rs : List Review)
    → s.product_id ≡ r.product_id
    → s.user_id ≡ r.user_id
    → s.status ≡ pending_moderation
    → has_id (find_review r.id (s ∷ rs)) || has_other r (s ∷ rs) ≡ true
unfolding find_review has_other
insert_second r s rs product user pending = elim (Bool-cases (str_eq s.id r.id)) [
  | inl same ↦ rw same refl
  | inr other ↦
      rw (other, product, user, pending)
        (rw (str_eq_self r.product_id, str_eq_self r.user_id)
          (or_true (has_id (find_review r.id rs))))
]

-- After a review that was accepted, another review of the same product by the same user, under any
-- id, is answered with the conflict, and changes nothing.
pub post_review_once :
    (env : Env) (now later : ℕ) (id id' user : String) (body body' : CreateReviewRequest) (db : Db)
    → body'.product_id ≡ body.product_id
    → is_accepted (post_review env now id (some user) (some body) db).0 ≡ true
    → post_review env later id'
        (some user)
        (some body')
        (post_review env now id (some user) (some body) db).1
      ≡ (
        review_already_exists body'.product_id,
        (post_review env now id (some user) (some body) db).1,
      )
unfolding post_review create has_purchased
post_review_once env now later id id' user body body' db product ok =
    let r =
      new_review (input_of id user body) (has_purchased env now user body.product_id db) now in
    let r' =
      new_review (input_of id' user body') (has_purchased env later user body'.product_id db)
        later in
    elim (Bool-cases (str_eq user "")) [
      | inl nobody ↦ absurd (cc (rw nobody at ok))
      | inr signed_in ↦
          elim (Bool-cases (has_id (find_review id db.reviews) || has_other r db.reviews)) [
            | inl clash ↦ absurd (cc (rw (signed_in, clash) at ok))
            | inr free ↦
                rw (signed_in, free)
                  (rw (insert_second r' r db.reviews (sym product) refl refl) refl)
          ]
    ]

count_if_uncounted :
    (test : Review → Bool) (r : Review) (rs : List Review)
    → test r ≡ false
    → count_if test (r ∷ rs) ≡ count_if test rs
unfolding count_if
count_if_uncounted test r rs h = rw h refl

rebuilt_pending :
    (at : ℕ) (product : String) (r : Review) (rs : List Review)
    → r.status ≡ pending_moderation
    → rebuilt at product (r ∷ rs) ≡ rebuilt at product rs
unfolding rebuilt buckets
rebuilt_pending at product r rs pending =
    let uncounted : counts_for product r ≡ false = elim (Bool-cases (str_eq r.product_id product)) [
      | inl same ↦ rw (same, pending) refl
      | inr other ↦ rw other refl
    ] in
    rw (count_if_uncounted (in_bucket product one) r rs (rw uncounted refl)) (
      rw (count_if_uncounted (in_bucket product two) r rs (rw uncounted refl)) (
        rw (count_if_uncounted (in_bucket product three) r rs (rw uncounted refl)) (
          rw (count_if_uncounted (in_bucket product four) r rs (rw uncounted refl)) (
            rw (count_if_uncounted (in_bucket product five) r rs (rw uncounted refl))
              (rw (count_if_uncounted (verified_for product) r rs (rw uncounted refl)) refl)))))

insert-IsCurrent :
    (product : String) (r : Review) (db : Db)
    → r.status ≡ pending_moderation
    → IsCurrent product db
    → IsCurrent product (created_reply (insert r db)).1
insert-IsCurrent product r db pending (at, current) =
    elim (Bool-cases (has_id (find_review r.id db.reviews) || has_other r db.reviews)) [
      | inl clash ↦ rw clash (at, current)
      | inr free ↦
          rw free (at, current ∙ ap some (sym (rebuilt_pending at product r db.reviews pending)))
    ]

-- Whatever it is answered, the submission of a review leaves the summary of a product what
-- rebuildSummary would write, when it was: a review that awaits moderation is not counted.
pub post_review-IsCurrent :
    (env : Env) (now : ℕ) (id : String) (user : Option String) (body : Option CreateReviewRequest)
    (product : String) (db : Db)
    → IsCurrent product db
    → IsCurrent product (post_review env now id user body db).1
unfolding post_review create
post_review-IsCurrent env now id none body product db current = current
post_review-IsCurrent env now id (some user) none product db current =
    elim (Bool-cases (str_eq user "")) [
      | inl nobody ↦ rw nobody current
      | inr signed_in ↦ rw signed_in current
    ]
post_review-IsCurrent env now id (some user) (some body) product db current =
    elim (Bool-cases (str_eq user "")) [
      | inl nobody ↦ rw nobody current
      | inr signed_in ↦ rw signed_in (
          insert-IsCurrent product
            (new_review (input_of id user body) (has_purchased env now user body.product_id db) now)
            db refl current)
    ]
