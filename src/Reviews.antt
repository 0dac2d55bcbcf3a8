-- ===== src/Reviews.antt =====
-- ReviewsRepository (services/review-service/src/reviews.ts): the collections of MongoDB as a list of
-- reviews and stores by `_id`. What `$inc` makes of a path and what sha256 digests to are parameters.
pub mod Counts
pub mod Summaries
pub mod Moderation
pub mod Votes
pub mod Routes
pub mod Pages
use ecomerce_microservices_o.Prelude.{
  ltb, ℕ, ◌+◌, Bool, true, false, ◌&&◌, ◌||◌, not, String, List, [], ◌∷◌, Option, none, some,
  if◌then◌else◌, str_eq,
}
use ecomerce_microservices_o.Prelude.Int.{ℤ, pos, negsuc, ◌+ℤ◌, ltb_ℤ}
use ecomerce_microservices_o.Prelude.Store.{update}
use ecomerce_microservices_o.Rating.{
  Distribution, bucket_for, total_of, weighted_from, average_of, summarise,
}

-- Review['rating']
pub data Stars : Type 0 where
  one : Stars
  two : Stars
  three : Stars
  four : Stars
  five : Stars

abbrev pub number : Stars → ℕ
number one = 1
number two = 2
number three = 3
number four = 4
number five = 5

-- Review['status'], of which `moderate` decides the last two.
pub data Status : Type 0 where
  pending_moderation : Status
  published : Status
  rejected : Status

abbrev pub is_published : Status → Bool
is_published published = true
is_published _ = false

abbrev pub same_status : Status → Status → Bool
same_status pending_moderation pending_moderation = true
same_status published published = true
same_status rejected rejected = true
same_status _ _ = false

pub data Decision : Type 0 where
  publish : Decision
  reject : Decision

abbrev pub status_of : Decision → Status
status_of publish = published
status_of reject = rejected

-- The texts of a review stay out: no operation below reads them.
pub record Review : Type 0 where
  pub id : String
  pub product_id : String
  pub user_id : String
  pub rating : Stars
  pub verified_purchase : Bool
  pub helpful_count : ℕ
  pub status : Status
  pub moderated_by : Option String
  pub moderated_at : Option ℕ
  pub reason : Option String
  pub updated_at : ℕ

-- What stands under `distribution`: an array, or an embedded document of numbered fields.
pub data StoredDistribution : Type 0 where
  array : Distribution → StoredDistribution
  document : List (ℕ × ℤ) → StoredDistribution

pub record RatingSummary : Type 0 where
  pub average : ℤ
  pub count : ℤ
  pub distribution : StoredDistribution
  pub verified_count : ℤ
  pub updated_at : ℕ

pub record PurchaseRecord : Type 0 where
  pub user_id : String
  pub product_id : String
  pub order_id : String
  pub purchased_at : ℕ

pub record Db : Type 0 where
  pub reviews : List Review
  pub summaries : String → Option RatingSummary
  pub purchases : String → Option PurchaseRecord
  pub helpful_votes : String → Bool

-- `$inc` of `distribution.<bucket>`, on the field as it stands (`none`: missing), and the first 32
-- digits of the sha256 of `a:b`.
pub record Env : Type 0 where
  pub inc : Option StoredDistribution → ℕ → ℤ → StoredDistribution
  pub key : String → String → String

pub data Result : Type 0 where
  done : Result
  review_not_found : String → Result
  duplicate_key : Result
  range_error : Result
  type_error : Result

unfoldable pub find_review : String → List Review → Option Review
find_review id [] = none
find_review id (r ∷ rs) = if str_eq r.id id then some r else find_review id rs

abbrev pub is_active : Status → Bool
is_active rejected = false
is_active _ = true

-- The unique partial index of ensureIndexes: is there another review of the user and the product
-- that is not rejected?
unfoldable pub has_other : Review → List Review → Bool
has_other r [] = false
has_other r (s ∷ ss) =
    (not (str_eq s.id r.id)
      && str_eq s.product_id r.product_id
      && str_eq s.user_id r.user_id
      && is_active s.status)
    || has_other r ss

-- updateOne on `{ _id }`
unfoldable pub update_review : String → (Review → Review) → List Review → List Review
update_review id f [] = []
update_review id f (r ∷ rs) =
    let rest = update_review id f rs in if str_eq r.id id then f r ∷ rs else r ∷ rest

-- `reason ? { … } : {}`
abbrev reason_of : Option String → Option String → Option String
reason_of none old = old
reason_of (some why) old = if str_eq why "" then old else some why

abbrev pub moderated : Decision → String → Option String → ℕ → Review → Review
moderated decision by reason now r = record r {
  status = status_of decision;
  updated_at = now;
  moderated_by = some by;
  moderated_at = some now;
  reason = reason_of reason r.reason;
}

abbrev pub verified_delta : Bool → ℤ → ℤ → ℤ
verified_delta true n delta = n +ℤ delta
verified_delta false n delta = n

-- The upsert of applyRatingDelta.
unfoldable pub upsert_delta : Env → ℕ → ℕ → ℤ → Bool → Option RatingSummary → RatingSummary
upsert_delta env now bucket delta verified none = record {
  average = pos 0;
  count = delta;
  distribution = env.inc none bucket delta;
  verified_count = verified_delta verified (pos 0) delta;
  updated_at = now;
}
upsert_delta env now bucket delta verified (some s) = record s {
  count = s.count +ℤ delta;
  distribution = env.inc (some s.distribution) bucket delta;
  verified_count = verified_delta verified s.verified_count delta;
  updated_at = now;
}

-- The second update: `reduce` is no method of an embedded document.
abbrev pub recomputed : RatingSummary → StoredDistribution → Option RatingSummary
recomputed s (array d) =
    some (record s { average = (summarise d).average; count = (summarise d).count })
recomputed s (document fields) = none

abbrev pub with_summary : Db → String → RatingSummary → Db
with_summary db product s = record db { summaries = update db.summaries product (some s) }

abbrev pub store_recomputed : Db → String → Option RatingSummary → Result × Db
store_recomputed db product (some s) = (done, with_summary db product s)
store_recomputed db product none = (type_error, db)

unfoldable pub store_upserted : Db → String → RatingSummary → Result × Db
store_upserted db product s =
    store_recomputed (with_summary db product s) product (recomputed s s.distribution)

abbrev pub delta_at : Env → ℕ → String → Option ℕ → ℤ → Bool → Db → Result × Db
delta_at env now product none delta verified db = (range_error, db)
delta_at env now product (some bucket) delta verified db =
    store_upserted db product (upsert_delta env now bucket delta verified (db.summaries product))

unfoldable pub apply_rating_delta : Env → ℕ → String → ℕ → ℤ → Bool → Db → Result × Db
apply_rating_delta env now product rating delta verified db =
    delta_at env now product (bucket_for rating) delta verified db

-- The tail of `moderate`: was the review counted before, and is it now?
abbrev pub recount : Env → ℕ → Review → Bool → Bool → Db → Result × Db
recount env now r true true db = (done, db)
recount env now r false false db = (done, db)
recount env now r false true db =
    apply_rating_delta env now r.product_id (number r.rating) (pos 1) r.verified_purchase db
recount env now r true false db =
    apply_rating_delta env now r.product_id (number r.rating) (negsuc 0) r.verified_purchase db

abbrev pub moderate_found :
    Env → ℕ → String → Decision → String → Option String → Db → Option Review → Result × Db
moderate_found env now id decision by reason db none = (review_not_found id, db)
moderate_found env now id decision by reason db (some before) =
    if same_status before.status (status_of decision)
    then (done, db)
    else if is_active (status_of decision) && has_other before db.reviews
    then (duplicate_key, db)
    else recount env now before (is_published before.status) (is_published (status_of decision))
        (record db { reviews = update_review id (moderated decision by reason now) db.reviews })

-- moderate
unfoldable pub moderate : Env → ℕ → String → Decision → String → Option String → Db → Result × Db
moderate env now id decision by reason db =
    moderate_found env now id decision by reason db (find_review id db.reviews)

unfoldable pub count_if : (Review → Bool) → List Review → ℕ
count_if test [] = 0
count_if test (r ∷ rs) = if test r then count_if test rs + 1 else count_if test rs

abbrev pub same_stars : Stars → Stars → Bool
same_stars one one = true
same_stars two two = true
same_stars three three = true
same_stars four four = true
same_stars five five = true
same_stars _ _ = false

-- The `$match`, and with it one group of `buckets` and the `$cond` of `verifiedCount`.
abbrev pub counts_for : String → Review → Bool
counts_for product r = str_eq r.product_id product && is_published r.status

abbrev pub in_bucket : String → Stars → Review → Bool
in_bucket product stars r = counts_for product r && same_stars r.rating stars

abbrev pub verified_for : String → Review → Bool
verified_for product r = counts_for product r && r.verified_purchase

-- The aggregation's groups, in an array of five.
unfoldable pub buckets : String → List Review → Distribution
buckets product rs =
    pos (count_if (in_bucket product one) rs)
    ∷ pos (count_if (in_bucket product two) rs)
    ∷ pos (count_if (in_bucket product three) rs)
    ∷ pos (count_if (in_bucket product four) rs)
    ∷ pos (count_if (in_bucket product five) rs)
    ∷ []

abbrev pub rebuilt_average : Distribution → ℤ
rebuilt_average d =
    if ltb_ℤ (pos 0) (total_of d) then average_of (weighted_from 0 d) (total_of d) else pos 0

unfoldable pub rebuilt : ℕ → String → List Review → RatingSummary
unfolding buckets
rebuilt now product rs = record {
  average = rebuilt_average (buckets product rs);
  count = total_of (buckets product rs);
  distribution = array (buckets product rs);
  verified_count = pos (count_if (verified_for product) rs);
  updated_at = now;
}

-- rebuildSummary
unfoldable pub rebuild_summary : ℕ → String → Db → RatingSummary × Db
unfolding rebuilt
rebuild_summary now product db =
    (rebuilt now product db.reviews, with_summary db product (rebuilt now product db.reviews))

-- The year of the index `purchase_ttl`, in milliseconds, after which a record is gone.
abbrev pub purchase_lifetime : ℕ
purchase_lifetime = 31536000000

abbrev pub is_recorded : ℕ → Option PurchaseRecord → Bool
is_recorded now none = false
is_recorded now (some p) = ltb now (p.purchased_at + purchase_lifetime)

-- recordPurchase: `$setOnInsert`
abbrev pub insert_purchase : Env → ℕ → String → String → String → Db → Option PurchaseRecord → Db
insert_purchase env now user product order db found =
    let p : PurchaseRecord = record {
      user_id = user;
      product_id = product;
      order_id = order;
      purchased_at = now;
    } in
    if is_recorded now found
    then db
    else record db { purchases = update db.purchases (env.key user product) (some p) }

unfoldable pub record_purchase : Env → ℕ → String → String → String → Db → Db
record_purchase env now user product order db =
    insert_purchase env now user product order db (db.purchases (env.key user product))

unfoldable pub has_purchased : Env → ℕ → String → String → Db → Bool
has_purchased env now user product db = is_recorded now (db.purchases (env.key user product))

abbrev pub helpful_of : Option Review → ℕ
helpful_of none = 0
helpful_of (some r) = r.helpful_count

abbrev pub more_helpful : Review → Review
more_helpful r = record r { helpful_count = r.helpful_count + 1 }

-- markHelpful
unfoldable pub mark_helpful : Env → String → String → Db → ℕ × Db
mark_helpful env id user db =
    if db.helpful_votes (env.key id user)
    then (helpful_of (find_review id db.reviews), db)
    else let rs = update_review id more_helpful db.reviews in
      (
        helpful_of (find_review id rs),
        record db { reviews = rs; helpful_votes = update db.helpful_votes (env.key id user) true },
      )
