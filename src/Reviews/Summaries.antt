-- ===== src/Reviews/Summaries.antt =====
-- What the incremental update leaves in the summary, next to what rebuildSummary counts
-- (services/review-service/src/reviews.ts).
use ecomerce_microservices_o.Prelude.{
  ℕ, ◌+◌, ◌-◌, ◌<◌, ◌≡◌, refl, sym, ltb, Bool, false, String, List, [], ◌∷◌, none, some, arith,
  Bool-cases, inl, inr, str_eq_self,
}
use ecomerce_microservices_o.Prelude.Int.{ℤ, pos, negsuc, ◌+ℤ◌}
use ecomerce_microservices_o.Rating.{Distribution, update_bucket, bucket_for, summarise, total_of}
use ecomerce_microservices_o.Rating.Summary.{
  histogram, total_of-histogram, HasBucket, HasBucket-histogram,
}
use ecomerce_microservices_o.Reviews.{
  Stars, one, two, three, four, five, number, Review, Db, Env, array, document, find_review,
  update_review, count_if, same_stars, rebuilt, done, upsert_delta, in_bucket, verified_for,
  buckets, rebuilt_average, apply_rating_delta, verified_delta, store_upserted,
}
use ecomerce_microservices_o.Reviews.Counts.{
  one_if, count_if-update_review, histogram_inc, histogram_dec,
}

-- MongoDB's `$inc` of `distribution.<i>`: an element that an array has is increased in place, and a
-- field that is missing becomes an embedded document with the one field.
pub record IsMongo (env : Env) : Type 0 where
  pub on_array :
      (d : Distribution) (i : ℕ) (delta : ℤ)
      → HasBucket i d
      → env.inc (some (array d)) i delta ≡ array (update_bucket i (λ n. n +ℤ delta) d)
  pub on_missing : (i : ℕ) (delta : ℤ) → env.inc none i delta ≡ document ((i, delta) ∷ [])

-- The stored summary of the product is the one that rebuildSummary would have written at some time.
abbrev pub IsCurrent : String → Db → Type 0
IsCurrent product db = (at : ℕ) × (db.summaries product ≡ some (rebuilt at product db.reviews))

pub bucket_for-number : (stars : Stars) → bucket_for (number stars) ≡ some (number stars - 1)
unfolding bucket_for
bucket_for-number one = refl
bucket_for-number two = refl
bucket_for-number three = refl
bucket_for-number four = refl
bucket_for-number five = refl

-- `summarise` and rebuildSummary agree on a histogram, though they test its total differently.
summarise-histogram :
    (a b c d e : ℕ)
    → summarise (histogram a b c d e) ≡ record {
      average = rebuilt_average (histogram a b c d e);
      count = total_of (histogram a b c d e);
    }
unfolding summarise
summarise-histogram a b c d e =
    rw (total_of-histogram a b c d e) (elim (Bool-cases (ltb 0 (a + b + c + d + e))) [
      | inl some_rated ↦ ground arith
      | inr none_rated ↦ ground arith
    ])

module _ (product id : String) (f : Review → Review) (rs : List Review) {r : Review} where
  -- A review of the product that starts to count.
  pub buckets_published :
      find_review id rs ≡ some r
      → ((k : Stars) → in_bucket product k r ≡ false)
      → ((k : Stars) → in_bucket product k (f r) ≡ same_stars r.rating k)
      → buckets product (update_review id f rs)
        ≡ update_bucket (number r.rating - 1) (λ n. n +ℤ pos 1) (buckets product rs)
  unfolding buckets
  buckets_published found was now =
      rw
        (histogram_inc r.rating (count_if (in_bucket product one) rs)
          (count_if (in_bucket product two) rs) (count_if (in_bucket product three) rs)
          (count_if (in_bucket product four) rs) (count_if (in_bucket product five) rs))
        (simp (moves) refl)
    where
      moves :
          (k : Stars)
          → count_if (in_bucket product k) (update_review id f rs)
            ≡ count_if (in_bucket product k) rs + one_if (same_stars r.rating k)
      moves k =
          let all = count_if-update_review (in_bucket product k) id f rs found in
          let all' = rw (was k, now k) at all in omega arith

  pub buckets_withdrawn :
      find_review id rs ≡ some r
      → ((k : Stars) → in_bucket product k r ≡ same_stars r.rating k)
      → ((k : Stars) → in_bucket product k (f r) ≡ false)
      → buckets product (update_review id f rs)
        ≡ update_bucket (number r.rating - 1) (λ n. n +ℤ negsuc 0) (buckets product rs)
  unfolding buckets
  buckets_withdrawn found was now = simp (moves) (
      sym (
        histogram_dec r.rating (count_if (in_bucket product one) rs')
          (count_if (in_bucket product two) rs') (count_if (in_bucket product three) rs')
          (count_if (in_bucket product four) rs') (count_if (in_bucket product five) rs')))
    where
      rs' : List Review
      rs' = update_review id f rs

      moves :
          (k : Stars)
          → count_if (in_bucket product k) rs
            ≡ count_if (in_bucket product k) (update_review id f rs)
              + one_if (same_stars r.rating k)
      moves k =
          let all = count_if-update_review (in_bucket product k) id f rs found in
          let all' = rw (was k, now k) at all in omega arith

rebuilt-recomputed :
    (at now : ℕ) (product : String) (rs : List Review)
    → summarise (buckets product rs)
      ≡ record { average = (rebuilt at product rs).average; count = (rebuilt at product rs).count }
unfolding buckets rebuilt
rebuilt-recomputed at now product rs =
    summarise-histogram (count_if (in_bucket product one) rs) (count_if (in_bucket product two) rs)
      (count_if (in_bucket product three) rs) (count_if (in_bucket product four) rs)
      (count_if (in_bucket product five) rs)

-- The incremental update of a summary that is current for the old reviews makes it current for the
-- new ones.
pub apply_rating_delta-IsCurrent :
    (env : Env) (mongo : IsMongo env) (now at : ℕ) (product : String) (stars : Stars) (delta : ℤ)
    (verified : Bool) (old : List Review) (db : Db)
    → db.summaries product ≡ some (rebuilt at product old)
    → buckets product db.reviews
      ≡ update_bucket (number stars - 1) (λ n. n +ℤ delta) (buckets product old)
    → pos (count_if (verified_for product) db.reviews)
      ≡ verified_delta verified (pos (count_if (verified_for product) old)) delta
    → ((apply_rating_delta env now product (number stars) delta verified db).0 ≡ done)
      × ((apply_rating_delta env now product (number stars) delta verified db).1.reviews
          ≡ db.reviews)
      × IsCurrent product (apply_rating_delta env now product (number stars) delta verified db).1
unfolding apply_rating_delta rebuilt
apply_rating_delta-IsCurrent env mongo now at product stars delta verified old db is_old counted
      checked =
    rw (bucket_for-number stars) (
      rw is_old (
        rw upserted
          (unfold store_upserted in (refl, refl, (now, rw (str_eq_self product) current)))))
  where
    has_bucket : (k : Stars) → HasBucket (number k - 1) (buckets product old)
    has_bucket k =
        unfold buckets in
        HasBucket-histogram (count_if (in_bucket product one) old)
          (count_if (in_bucket product two) old) (count_if (in_bucket product three) old)
          (count_if (in_bucket product four) old) (count_if (in_bucket product five) old)
          (number k - 1) (below k)
      where
        below : (k : Stars) → number k - 1 < 5
        below one = omega arith
        below two = omega arith
        below three = omega arith
        below four = omega arith
        below five = omega arith

    upserted :
        upsert_delta env now (number stars - 1) delta verified (some (rebuilt at product old))
        ≡ record {
          average = (rebuilt at product old).average;
          count = (rebuilt at product old).count +ℤ delta;
          distribution = array (buckets product db.reviews);
          verified_count = pos (count_if (verified_for product) db.reviews);
          updated_at = now;
        }
    upserted =
        unfold upsert_delta in
        rw (mongo.on_array (buckets product old) (number stars - 1) delta (has_bucket stars))
          (rw (← counted) (rw (← checked) refl))

    current :
        some (record {
          average = (summarise (buckets product db.reviews)).average;
          count = (summarise (buckets product db.reviews)).count;
          distribution = array (buckets product db.reviews);
          verified_count = pos (count_if (verified_for product) db.reviews);
          updated_at = now;
        })
        ≡ some (rebuilt now product db.reviews)
    current = rw (rebuilt-recomputed now now product db.reviews) refl
