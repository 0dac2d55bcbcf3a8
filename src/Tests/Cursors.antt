-- ===== src/Tests/Cursors.antt =====
-- The pages of a product's reviews at concrete data (services/review-service/src/reviews.ts), with an
-- insertion sort in place of MongoDB's.
use ecomerce_microservices_o.Prelude.{
  ℕ, suc, ◌≡◌, ◌≢◌, ◌≤◌, ◌<◌, ◌↔◌, refl, sym, ap, ◌∙◌, inl, inr, true, false, String, List, [], ◌∷◌,
  none, some, ltb, ltb→lt, if◌then◌else◌, Bool-cases, length, str_eq, ◌==◌, arith,
}
use ecomerce_microservices_o.Reviews.{three, Status, published, rejected}
use ecomerce_microservices_o.Reviews.Pages.{
  Posted, Query, decoded, found, is_listed, list_for_product, follow,
}
use ecomerce_microservices_o.Reviews.Pages.Dates.{IsIn, IsDescending, HasDistinctDates, SortsByDate}
use ecomerce_microservices_o.Reviews.Pages.Cursor.{follow-listed}

abbrev put : Posted → List Posted → List Posted
put r [] = r ∷ []
put r (s ∷ rs) =
    let rest = put r rs in if ltb s.created_at r.created_at then r ∷ s ∷ rs else s ∷ rest

abbrev sorted : List Posted → List Posted
sorted [] = []
sorted (r ∷ rs) = put r (sorted rs)

put-out : (r t : Posted) (rs : List Posted) → IsIn t (put r rs) → IsIn t (r ∷ rs)
put-out r t [] h = h
put-out r t (s ∷ rs) h = elim (Bool-cases (ltb s.created_at r.created_at)) [
  | inl before ↦ rw before at h
  | inr after ↦ elim (rw after at h) [
    | inl e ↦ inr (inl e)
    | inr k ↦ elim (put-out r t rs k) [ inl e ↦ inl e | inr l ↦ inr (inr l) ]
  ]
]

put_back : (r t : Posted) (rs : List Posted) → IsIn t (r ∷ rs) → IsIn t (put r rs)
put_back r t [] h = h
put_back r t (s ∷ rs) h = elim (Bool-cases (ltb s.created_at r.created_at)) [
  | inl before ↦ rw before h
  | inr after ↦ rw after (elim h [
    | inl e ↦ inr (put_back r t rs (inl e))
    | inr k ↦ elim k [ inl e ↦ inl e | inr l ↦ inr (put_back r t rs (inr l)) ]
  ])
]

put-length : (r : Posted) (rs : List Posted) → length (put r rs) ≡ suc (length rs)
put-length r [] = refl
put-length r (s ∷ rs) = elim (Bool-cases (ltb s.created_at r.created_at)) [
  | inl before ↦ rw before refl
  | inr after ↦ rw after (ap suc (put-length r rs))
]

above : (a b : ℕ) → ltb a b ≡ false → b ≢ a → b < a
above a b h n = ground arith

put-IsDescending :
    (r : Posted) (rs : List Posted)
    → ((s : Posted) → IsIn s rs → s.created_at ≢ r.created_at)
    → IsDescending rs
    → IsDescending (put r rs)
put-IsDescending r [] other d = (λ s h. absurd h, d)
put-IsDescending r (s ∷ rs) other (ls, d) = elim (Bool-cases (ltb s.created_at r.created_at)) [
  | inl before ↦ rw before (
    λ t h. elim h [
      | inl e ↦ rw e (ltb→lt s.created_at r.created_at before)
      | inr k ↦ omega (arith, ls t k, ltb→lt s.created_at r.created_at before)
    ],
    (ls, d),
  )
  | inr after ↦ rw after (
    λ t h. elim (put-out r t rs h) [
      | inl e ↦ rw e (above s.created_at r.created_at after (λ same. other s (inl refl) (sym same)))
      | inr k ↦ ls t k
    ],
    put-IsDescending r rs (λ t h. other t (inr h)) d,
  )
]

sorted-out : (rs : List Posted) (r : Posted) → IsIn r (sorted rs) → IsIn r rs
sorted-out [] r h = h
sorted-out (s ∷ rs) r h = elim (put-out s r (sorted rs) h) [
  | inl e ↦ inl e
  | inr k ↦ inr (sorted-out rs r k)
]

sorted-back : (rs : List Posted) (r : Posted) → IsIn r rs → IsIn r (sorted rs)
sorted-back [] r h = h
sorted-back (s ∷ rs) r (inl e) = put_back s r (sorted rs) (inl e)
sorted-back (s ∷ rs) r (inr k) = put_back s r (sorted rs) (inr (sorted-back rs r k))

sorted-length : (rs : List Posted) → length (sorted rs) ≡ length rs
sorted-length [] = refl
sorted-length (r ∷ rs) = put-length r (sorted rs) ∙ ap suc (sorted-length rs)

sorted-IsDescending : (rs : List Posted) → HasDistinctDates rs → IsDescending (sorted rs)
sorted-IsDescending [] d = tt
sorted-IsDescending (r ∷ rs) (other, d) =
    put-IsDescending r (sorted rs) (λ s h. other s (sorted-out rs s h)) (sorted-IsDescending rs d)

sorted-SortsByDate : SortsByDate sorted
sorted-SortsByDate rs = (sorted-IsDescending rs, sorted-out rs, sorted-back rs, sorted-length rs)

abbrev posted : String → Status → ℕ → Posted
posted id status date = record {
  review = record {
    id = id;
    product_id = "p1";
    user_id = id;
    rating = three;
    verified_purchase = true;
    helpful_count = 0;
    status = status;
    moderated_by = none;
    moderated_at = none;
    reason = none;
    updated_at = 0;
  };
  created_at = date;
}

abbrev collection : List Posted
collection =
    posted "a" published 10
    ∷ posted "b" published 30
    ∷ posted "c" rejected 30
    ∷ posted "d" published 20
    ∷ []

abbrev cursor_of : ℕ → String
cursor_of date = if date == 10 then "t10" else if date == 20 then "t20" else "t30"

abbrev date_of : String → ℕ
date_of cursor = if str_eq cursor "t10" then 10 else if str_eq cursor "t20" then 20 else 30

decodes :
    (r : Posted)
    → IsIn r collection
    → decoded date_of (some (cursor_of r.created_at)) ≡ some r.created_at
decodes r (inl e) = rw e refl
decodes r (inr (inl e)) = rw e refl
decodes r (inr (inr (inl e))) = rw e refl
decodes r (inr (inr (inr (inl e)))) = rw e refl
decodes r (inr (inr (inr (inr h)))) = absurd h

abbrev two_a_page : Query
two_a_page = record { limit = 2; cursor = none; verified_only = false; rating = none }

distinct : HasDistinctDates (found (is_listed "p1" two_a_page) collection)
unfolding found
distinct = (
  λ s h same. elim h [
    | inl e ↦ absurd (omega (arith, same, ap (λ p. p.created_at) e))
    | inr k ↦ elim k [
      | inl e ↦ absurd (omega (arith, same, ap (λ p. p.created_at) e))
      | inr none_left ↦ absurd none_left
    ]
  ],
  (
    λ s h same. elim h [
      | inl e ↦ absurd (omega (arith, same, ap (λ p. p.created_at) e))
      | inr none_left ↦ absurd none_left
    ],
    (λ s h same. absurd h, tt),
  ),
)

three_found : length (found (is_listed "p1" two_a_page) collection) ≤ 3
unfolding found
three_found = omega arith

follow-listed_example :
    IsDescending (follow sorted cursor_of date_of 3 "p1" two_a_page collection)
    × ((r : Posted)
        → IsIn r (follow sorted cursor_of date_of 3 "p1" two_a_page collection)
          ↔ (IsIn r collection × (is_listed "p1" two_a_page r ≡ true)))
follow-listed_example =
    follow-listed sorted cursor_of date_of "p1" collection two_a_page 3 sorted-SortsByDate decodes
      (omega arith) refl distinct three_found

follow_run :
    follow sorted cursor_of date_of 3 "p1" two_a_page collection
    ≡ posted "b" published 30 ∷ posted "d" published 20 ∷ posted "a" published 10 ∷ []
unfolding follow list_for_product found
follow_run = refl
