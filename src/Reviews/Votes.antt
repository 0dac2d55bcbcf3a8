-- ===== src/Reviews/Votes.antt =====
-- Repeated calls: votes, and the first publication of a product
-- (services/review-service/src/reviews.ts).
use ecomerce_microservices_o.Prelude.{
  ℕ, ◌+◌, ◌-◌, ◌≡◌, ◌∙◌, ap, Bool, refl, true, false, String, List, [], ◌∷◌, Option, none, some,
  Bool-cases, inl, inr, str_eq, str_eq_self,
}
use mathlib.Core.Option.{some-injective, none-ne-some}
use ecomerce_microservices_o.Prelude.Int.{pos}
use ecomerce_microservices_o.Reviews.{
  Review, Db, Env, pending_moderation, publish, done, type_error, number, find_review,
  update_review, has_other, more_helpful, mark_helpful, moderate, moderated, apply_rating_delta,
  upsert_delta, store_upserted, Stars, with_summary, moderate_found,
}
use ecomerce_microservices_o.Reviews.Summaries.{IsMongo, bucket_for-number}

find_review-update_review :
    (id : String) (f : Review → Review) (rs : List Review) {r : Review}
    → ((s : Review) → (f s).id ≡ s.id)
    → find_review id rs ≡ some r
    → find_review id (update_review id f rs) ≡ some (f r)
unfolding find_review update_review
find_review-update_review id f [] {r} same e = absurd (none-ne-some r e)
find_review-update_review id f (s ∷ rs) {r} same e = elim (Bool-cases (str_eq s.id id)) [
  | inl found ↦
      let is : some s ≡ some r = rw found at e in
      let still : str_eq (f s).id id ≡ true = ap (λ x. str_eq x id) (same s) ∙ found in
      rw found (rw still (ap (λ x. some (f x)) (some-injective s r is)))
  | inr later ↦
      let rest : find_review id rs ≡ some r = rw later at e in
      rw later (rw later (find_review-update_review id f rs same rest))
]

-- The first vote of a user for a review that exists adds one to its helpful count and returns the
-- new count; a second vote of the same user returns the same count and changes nothing.
pub mark_helpful_once :
    (env : Env) (id user : String) (db : Db) {r : Review}
    → find_review id db.reviews ≡ some r
    → db.helpful_votes (env.key id user) ≡ false
    → ((mark_helpful env id user db).0 ≡ r.helpful_count + 1)
      × (mark_helpful env id user (mark_helpful env id user db).1
          ≡ (r.helpful_count + 1, (mark_helpful env id user db).1))
unfolding mark_helpful
mark_helpful_once env id user db {r} found fresh = rw fresh (
    rw (find_review-update_review id more_helpful db.reviews (λ s. refl) found)
      (refl, rw (str_eq_self (env.key id user)) refl))

-- With no summary, `recomputed` meets an embedded document.
apply_rating_delta_first :
    (env : Env) (mongo : IsMongo env) (now : ℕ) (product : String) (stars : Stars) (verified : Bool)
    (db : Db)
    → db.summaries product ≡ none
    → apply_rating_delta env now product (number stars) (pos 1) verified db ≡ (
      type_error,
      with_summary db product (upsert_delta env now (number stars - 1) (pos 1) verified none),
    )
unfolding apply_rating_delta store_upserted upsert_delta
apply_rating_delta_first env mongo now product stars verified db missing =
    rw (bucket_for-number stars)
      (rw missing (rw (mongo.on_missing (number stars - 1) (pos 1)) refl))

-- When `$inc` does what MongoDB documents, publishing a pending review of a product that has no
-- summary yet, with no other active review of the user for it, fails with a type error; a retry
-- answers success and leaves everything as the failed call left it.
pub moderate_first :
    (env : Env) (mongo : IsMongo env) (now later : ℕ) (id by : String) (reason : Option String)
    (db : Db) {r : Review}
    → find_review id db.reviews ≡ some r
    → r.status ≡ pending_moderation
    → has_other r db.reviews ≡ false
    → db.summaries r.product_id ≡ none
    → ((moderate env now id publish by reason db).0 ≡ type_error)
      × (moderate env later id publish by reason (moderate env now id publish by reason db).1
          ≡ (done, (moderate env now id publish by reason db).1))
unfolding moderate has_other
moderate_first env mongo now later id by reason db {r} found pending alone missing = rw thrown (
  refl,
  rw (find_review-update_review id (moderated publish by reason now) db.reviews (λ s. refl) found)
      refl,
)
  where
    db' : Db
    db' = record db { reviews = update_review id (moderated publish by reason now) db.reviews }

    thrown : moderate_found env now id publish by reason db (find_review id db.reviews) ≡ (
      type_error,
      with_summary db' r.product_id
          (upsert_delta env now (number r.rating - 1) (pos 1) r.verified_purchase none),
    )
    thrown = rw found (
        rw pending (
          rw alone (
            apply_rating_delta_first env mongo now r.product_id r.rating r.verified_purchase db'
              missing)))
