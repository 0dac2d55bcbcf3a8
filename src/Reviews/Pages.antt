-- ===== src/Reviews/Pages.antt =====
-- listForProduct of services/review-service/src/reviews.ts: the pages of a product's reviews, newest
-- first. MongoDB's sort, and the encoding of a date as a cursor with its decoding, are parameters.
pub mod Dates
pub mod Cursor
use ecomerce_microservices_o.Prelude.{
  ℕ, zero, suc, ◌+◌, Bool, true, false, ◌&&◌, ◌||◌, not, String, List, [], ◌∷◌, ◌++◌, Option, none,
  some, ltb, ◌==◌, if◌then◌else◌, str_eq, length, take,
}
use ecomerce_microservices_o.Reviews.{Stars, number, is_published, Review}

-- A review of the collection with its `createdAt`, in milliseconds.
pub record Posted : Type 0 where
  pub review : Review
  pub created_at : ℕ

-- opts
pub record Query : Type 0 where
  pub limit : ℕ
  pub cursor : Option String
  pub verified_only : Bool
  pub rating : Option Stars

pub record ReviewPage : Type 0 where
  pub items : List Posted
  pub next_cursor : Option String
  pub has_more : Bool

-- The documents of a collection that a filter matches.
unfoldable pub found : (Posted → Bool) → List Posted → List Posted
found test [] = []
found test (r ∷ rs) = let rest = found test rs in if test r then r ∷ rest else rest

abbrev pub has_rating : Option Stars → Posted → Bool
has_rating none r = true
has_rating (some stars) r = number r.review.rating == number stars

-- The filter, but for its `createdAt`
abbrev pub is_listed : String → Query → Posted → Bool
is_listed product_id q r =
    str_eq r.review.product_id product_id
    && is_published r.review.status
    && (not q.verified_only || r.review.verified_purchase)
    && has_rating q.rating r

-- `createdAt: { $lt: date }`
abbrev pub is_before : Option ℕ → Posted → Bool
is_before none r = true
is_before (some date) r = ltb r.created_at date

abbrev pub decoded : (String → ℕ) → Option String → Option ℕ
decoded date_of none = none
decoded date_of (some cursor) = if str_eq cursor "" then none else some (date_of cursor)

-- `items.pop()`, for what it leaves, and the last item
abbrev pub pop : List Posted → List Posted
pop [] = []
pop (r ∷ []) = []
pop (r ∷ s ∷ rs) = r ∷ pop (s ∷ rs)

abbrev pub last : List Posted → Option Posted
last [] = none
last (r ∷ []) = some r
last (r ∷ s ∷ rs) = last (s ∷ rs)

abbrev pub cursor_after : (ℕ → String) → Option Posted → Option String
cursor_after cursor_of none = none
cursor_after cursor_of (some r) = some (cursor_of r.created_at)

abbrev pub page_of : (ℕ → String) → ℕ → List Posted → ReviewPage
page_of cursor_of limit items =
    if ltb limit (length items)
    then record {
      items = pop items;
      next_cursor = cursor_after cursor_of (last (pop items));
      has_more = true;
    }
    else record { items = items; next_cursor = none; has_more = false }

module _ (sort : List Posted → List Posted) (cursor_of : ℕ → String) (date_of : String → ℕ) where
  unfoldable pub list_for_product : String → Query → List Posted → ReviewPage
  unfolding found
  list_for_product product_id q reviews = page_of cursor_of q.limit (
      take (q.limit + 1) (
        sort (
          found (λ r. is_listed product_id q r && is_before (decoded date_of q.cursor) r) reviews)))

  -- What a client lists who follows the cursors, on fuel: the number of pages that it asks for at most.
  unfoldable pub follow : ℕ → String → Query → List Posted → List Posted
  follow zero product_id q reviews = []
  follow (suc n) product_id q reviews =
      let page = list_for_product product_id q reviews in
      page.items ++ elim page.next_cursor [
        | none ↦ []
        | some cursor ↦ follow n product_id (record q { cursor = some cursor }) reviews
      ]
