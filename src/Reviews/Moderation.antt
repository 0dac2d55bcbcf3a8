-- ===== src/Reviews/Moderation.antt =====
-- Moderation and the summary of a product (services/review-service/src/reviews.ts).
use ecomerce_microservices_o.Prelude.{
  ℕ, suc, ◌≡◌, refl, ◌∙◌, sym, Bool, true, false, String, List, Option, some, arith, ap, Bool-cases,
  inl, inr, str_eq_self,
}
use ecomerce_microservices_o.Prelude.Int.{pos, negsuc}
use ecomerce_microservices_o.Rating.Summary.{pos_add}
use ecomerce_microservices_o.Reviews.{
  one, two, three, four, five, Review, Db, Env, Status, Decision, publish, reject, status_of,
  published, rejected, pending_moderation, find_review, update_review, count_if, is_published,
  has_other, moderate, moderated, rebuilt, done, in_bucket, verified_for, buckets, verified_delta,
  counts_for, moderate_found, recount, Result,
}
use ecomerce_microservices_o.Reviews.Counts.{count_if-update_review, pos_sub}
use ecomerce_microservices_o.Reviews.Summaries.{
  IsMongo, IsCurrent, buckets_published, buckets_withdrawn, apply_rating_delta-IsCurrent,
}

-- A review that does not count before nor after leaves every count.
rebuilt_uncounted :
    (at : ℕ) (product id : String) (f : Review → Review) (rs : List Review) {r : Review}
    → find_review id rs ≡ some r
    → counts_for product r ≡ false
    → counts_for product (f r) ≡ false
    → rebuilt at product (update_review id f rs) ≡ rebuilt at product rs
unfolding rebuilt buckets
rebuilt_uncounted at product id f rs {r} found was now =
    rw (still (in_bucket product one) (rw was refl) (rw now refl)) (
      rw (still (in_bucket product two) (rw was refl) (rw now refl)) (
        rw (still (in_bucket product three) (rw was refl) (rw now refl)) (
          rw (still (in_bucket product four) (rw was refl) (rw now refl)) (
            rw (still (in_bucket product five) (rw was refl) (rw now refl))
              (rw (still (verified_for product) (rw was refl) (rw now refl)) refl)))))
  where
    still :
        (test : Review → Bool)
        → test r ≡ false
        → test (f r) ≡ false
        → count_if test (update_review id f rs) ≡ count_if test rs
    still test before after =
        let all = count_if-update_review test id f rs found in
        let all' = rw (before, after) at all in omega arith

verified_moves :
    (product id : String) (f : Review → Review) (rs : List Review) {r : Review}
    → find_review id rs ≡ some r
    → (f r).verified_purchase ≡ r.verified_purchase
    → counts_for product r ≡ false
    → counts_for product (f r) ≡ true
    → pos (count_if (verified_for product) (update_review id f rs))
      ≡ verified_delta r.verified_purchase (pos (count_if (verified_for product) rs)) (pos 1)
verified_moves product id f rs {r} found same was now =
    let all = count_if-update_review (verified_for product) id f rs found in
    let all' = rw (was, now, same) at all in
    elim (Bool-cases r.verified_purchase) [
      | inl yes_verified ↦
          let moved = rw yes_verified at all' in
          rw yes_verified
            (rw (pos_add (count_if (verified_for product) rs) 1) (ap pos (omega arith)))
      | inr not_verified ↦
          let moved = rw not_verified at all' in rw not_verified (ap pos (omega arith))
    ]

verified_leaves :
    (product id : String) (f : Review → Review) (rs : List Review) {r : Review}
    → find_review id rs ≡ some r
    → counts_for product r ≡ true
    → counts_for product (f r) ≡ false
    → pos (count_if (verified_for product) (update_review id f rs))
      ≡ verified_delta r.verified_purchase (pos (count_if (verified_for product) rs)) (negsuc 0)
verified_leaves product id f rs {r} found was now =
    let all = count_if-update_review (verified_for product) id f rs found in
    let all' = rw (was, now) at all in
    elim (Bool-cases r.verified_purchase) [
      | inl yes_verified ↦
          let moved = rw yes_verified at all' in
          let one_more : count_if (verified_for product) rs
              ≡ suc (count_if (verified_for product) (update_review id f rs)) =
            omega arith in
          rw yes_verified
            (rw one_more (sym (pos_sub (count_if (verified_for product) (update_review id f rs)))))
      | inr not_verified ↦
          let moved = rw not_verified at all' in rw not_verified (ap pos (omega arith))
    ]

-- A call that succeeds and leaves the product's summary current.
abbrev Keeps : String → Result × Db → Type 0
Keeps product (res, db) = (res ≡ done) × IsCurrent product db

module _ (env : Env) (mongo : IsMongo env) (now : ℕ) (id by : String) (reason : Option String)
    (db : Db) {r : Review} (found : find_review id db.reviews ≡ some r) where
  abbrev after : Decision → Db
  after d = record db { reviews = update_review id (moderated d by reason now) db.reviews }

  counted : (s : Status) → r.status ≡ s → counts_for r.product_id r ≡ is_published s
  counted s h = rw (str_eq_self r.product_id) (rw h refl)

  counted_now :
      (d : Decision)
      → counts_for r.product_id (moderated d by reason now r) ≡ is_published (status_of d)
  counted_now d = rw (str_eq_self r.product_id) refl

  recount-publish :
      IsCurrent r.product_id db
      → counts_for r.product_id r ≡ false
      → Keeps r.product_id (recount env now r false true (after publish))
  recount-publish (at, is_old) was =
      let (ok, same, current) =
        apply_rating_delta-IsCurrent env mongo now at r.product_id r.rating (pos 1)
          r.verified_purchase db.reviews (after publish) is_old
          (buckets_published r.product_id id (moderated publish by reason now) db.reviews found
            (λ k. rw was refl) (λ k. rw (counted_now publish) refl))
          (verified_moves r.product_id id (moderated publish by reason now) db.reviews found refl
            was (counted_now publish)) in
      (ok, current)

  recount-reject :
      IsCurrent r.product_id db
      → counts_for r.product_id r ≡ true
      → Keeps r.product_id (recount env now r true false (after reject))
  recount-reject (at, is_old) was =
      let (ok, same, current) =
        apply_rating_delta-IsCurrent env mongo now at r.product_id r.rating (negsuc 0)
          r.verified_purchase db.reviews (after reject) is_old
          (buckets_withdrawn r.product_id id (moderated reject by reason now) db.reviews found
            (λ k. rw was refl) (λ k. rw (counted_now reject) refl))
          (verified_leaves r.product_id id (moderated reject by reason now) db.reviews found was
            (counted_now reject)) in
      (ok, current)

  moderate_found-Keeps :
      has_other r db.reviews ≡ false
      → IsCurrent r.product_id db
      → (d : Decision) (s : Status) → r.status ≡ s
      → Keeps r.product_id (moderate_found env now id d by reason db (some r))
  unfolding has_other rebuilt
  moderate_found-Keeps alone current publish published h = rw h (refl, current)
  moderate_found-Keeps alone current publish pending_moderation h =
      rw h (rw alone (recount-publish current (counted pending_moderation h)))
  moderate_found-Keeps alone current publish rejected h =
      rw h (rw alone (recount-publish current (counted rejected h)))
  moderate_found-Keeps alone current reject published h =
      rw h (recount-reject current (counted published h))
  moderate_found-Keeps alone current reject rejected h = rw h (refl, current)
  moderate_found-Keeps alone (at, is_old) reject pending_moderation h =
      let uncounted =
        rebuilt_uncounted at r.product_id id (moderated reject by reason now) db.reviews found
          (counted pending_moderation h) (counted_now reject) in
      rw h (refl, (at, is_old ∙ ap some (sym uncounted)))

-- When the summary of a review's product is what rebuildSummary would write, and `$inc` does what
-- MongoDB documents, a moderation of the review, whatever its status and the decision, with no other
-- active review of the user for the product, succeeds and leaves the summary what rebuildSummary
-- would write from all the reviews.
pub moderate-IsCurrent :
    (env : Env) (mongo : IsMongo env) (now : ℕ) (id : String) (decision : Decision) (by : String)
    (reason : Option String) (db : Db) {r : Review}
    → find_review id db.reviews ≡ some r
    → has_other r db.reviews ≡ false
    → IsCurrent r.product_id db
    → ((moderate env now id decision by reason db).0 ≡ done)
      × IsCurrent r.product_id (moderate env now id decision by reason db).1
unfolding moderate
moderate-IsCurrent env mongo now id decision by reason db {r} found alone current =
    rw found (
      moderate_found-Keeps env mongo now id by reason db found alone current decision r.status refl)
