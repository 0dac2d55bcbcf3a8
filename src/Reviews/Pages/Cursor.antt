-- ===== src/Reviews/Pages/Cursor.antt =====
-- Following the cursors of listForProduct (services/review-service/src/reviews.ts) lists each review
-- once.
use ecomerce_microservices_o.Prelude.{
  ℕ, zero, suc, ◌+◌, ◌≤◌, ◌≡◌, ◌↔◌, refl, sym, ap, ◌∙◌, true, false, String, List, [], ◌∷◌, ◌++◌,
  none, some, ltb, lt→ltb, length, length-append, take, arith,
}
use ecomerce_microservices_o.Reviews.Pages.{
  Posted, Query, found, is_listed, is_before, decoded, pop, last, page_of, list_for_product, follow,
}
use ecomerce_microservices_o.Reviews.Pages.Dates.{
  IsIn, IsDescending, HasDistinctDates, SortsByDate, found-IsIn, found-keeps, found-both,
  sort-found, found-none, IsIn-middle, found_before_next,
}

ltb-gt : (a b : ℕ) → b ≤ a → ltb a b ≡ false
ltb-gt a b h = ground arith

-- The documents that a cursor leaves, against a limit: all fit in the page, or some are left behind
-- its last one.
data Cut (limit : ℕ) : List Posted → Type 0 where
  whole : (rs : List Posted) → length rs ≤ limit → Cut limit rs
  split :
      (ps : List Posted) (r s : Posted) (rs : List Posted)
      → suc (length ps) ≡ limit
      → Cut limit (ps ++ r ∷ s ∷ rs)

Cut-cons : (limit : ℕ) (r : Posted) (rs : List Posted) → Cut limit rs → Cut (suc limit) (r ∷ rs)
Cut-cons limit r _ (whole rs h) = whole (r ∷ rs) (omega arith)
Cut-cons limit r _ (split ps s t rs h) = split (r ∷ ps) s t rs (ap suc h)

Cut-suc : (n : ℕ) (rs : List Posted) → Cut (suc n) rs
Cut-suc n [] = whole [] (omega arith)
Cut-suc zero (r ∷ []) = whole (r ∷ []) (omega arith)
Cut-suc zero (r ∷ s ∷ rs) = split [] r s rs refl
Cut-suc (suc n) (r ∷ rs) = Cut-cons (suc n) r rs (Cut-suc n rs)

cut : (limit : ℕ) (rs : List Posted) → 1 ≤ limit → Cut limit rs
cut zero rs h = absurd (omega arith)
cut (suc n) rs h = Cut-suc n rs

take_all : (n : ℕ) (rs : List Posted) → length rs ≤ n → take n rs ≡ rs
take_all zero [] h = refl
take_all zero (r ∷ rs) h = absurd (omega arith)
take_all (suc n) [] h = refl
take_all (suc n) (r ∷ rs) h = ap (λ xs. r ∷ xs) (take_all n rs (omega arith))

take_split :
    (ps : List Posted) (r s : Posted) (rs : List Posted)
    → take (suc (suc (length ps))) (ps ++ r ∷ s ∷ rs) ≡ ps ++ r ∷ s ∷ []
take_split [] r s rs = refl
take_split (p ∷ ps) r s rs = ap (λ xs. p ∷ xs) (take_split ps r s rs)

pop_split : (ps : List Posted) (r s : Posted) → pop (ps ++ r ∷ s ∷ []) ≡ ps ++ r ∷ []
pop_split [] r s = refl
pop_split (p ∷ []) r s = refl
pop_split (p ∷ q ∷ ps) r s = ap (λ xs. p ∷ xs) (pop_split (q ∷ ps) r s)

last_split : (ps : List Posted) (r : Posted) → last (ps ++ r ∷ []) ≡ some r
last_split [] r = refl
last_split (p ∷ []) r = refl
last_split (p ∷ q ∷ ps) r = last_split (q ∷ ps) r

append_none : (rs : List Posted) → rs ++ [] ≡ rs
append_none [] = refl
append_none (r ∷ rs) = ap (λ xs. r ∷ xs) (append_none rs)

append_past :
    (ps : List Posted) (r : Posted) (rs : List Posted) → (ps ++ r ∷ []) ++ rs ≡ ps ++ r ∷ rs
append_past [] r rs = refl
append_past (p ∷ ps) r rs = ap (λ xs. p ∷ xs) (append_past ps r rs)

page_of_whole :
    (cursor_of : ℕ → String) (limit : ℕ) (rs : List Posted)
    → length rs ≤ limit
    → page_of cursor_of limit (take (limit + 1) rs)
      ≡ record { items = rs; next_cursor = none; has_more = false }
page_of_whole cursor_of limit rs h =
    rw (take_all (limit + 1) rs (omega arith)) (rw (ltb-gt limit (length rs) h) refl)

cong_take :
    (ps : List Posted) (r s : Posted) (rs : List Posted)
    → take (suc (length ps) + 1) (ps ++ r ∷ s ∷ rs) ≡ ps ++ r ∷ s ∷ []
cong_take ps r s rs =
    let two : suc (length ps) + 1 ≡ suc (suc (length ps)) = omega arith in
    ap (λ n. take n (ps ++ r ∷ s ∷ rs)) two ∙ take_split ps r s rs

more : (ps : List Posted) (r s : Posted) → ltb (suc (length ps)) (length (ps ++ r ∷ s ∷ [])) ≡ true
more ps r s =
    lt→ltb (suc (length ps)) (length (ps ++ r ∷ s ∷ []))
      (omega (arith, length-append ps (r ∷ s ∷ [])))

page_of_split :
    (cursor_of : ℕ → String) (ps : List Posted) (r s : Posted) (rs : List Posted)
    → page_of cursor_of (suc (length ps)) (take (suc (length ps) + 1) (ps ++ r ∷ s ∷ rs)) ≡ record {
      items = ps ++ r ∷ [];
      next_cursor = some (cursor_of r.created_at);
      has_more = true;
    }
page_of_split cursor_of ps r s rs =
    rw (cong_take ps r s rs) (rw (more ps r s) (rw (pop_split ps r s) (rw (last_split ps r) refl)))

module _ (sort : List Posted → List Posted) (cursor_of : ℕ → String) (date_of : String → ℕ)
    (sorts : SortsByDate sort) (product_id : String) (reviews : List Posted)
    (decodes : (r : Posted)
      → IsIn r reviews
      → decoded date_of (some (cursor_of r.created_at)) ≡ some r.created_at) where
  abbrev listed : Query → List Posted
  listed q = sort (found (is_listed product_id q) reviews)

  list_for_product_lem :
      (q : Query) (rs : List Posted)
      → HasDistinctDates (found (is_listed product_id q) reviews)
      → found (is_before (decoded date_of q.cursor)) (listed q) ≡ rs
      → list_for_product sort cursor_of date_of product_id q reviews
        ≡ page_of cursor_of q.limit (take (q.limit + 1) rs)
  unfolding list_for_product
  list_for_product_lem q rs distinct left =
      ap (λ xs. page_of cursor_of q.limit (take (q.limit + 1) xs))
        (ap sort
            (found-both (is_listed product_id q) (is_before (decoded date_of q.cursor)) reviews)
          ∙ sort-found sort (is_before (decoded date_of q.cursor))
              (found (is_listed product_id q) reviews) sorts distinct
          ∙ left)

  follow_from :
      (n : ℕ) (q : Query) (rs : List Posted)
      → 1 ≤ q.limit
      → HasDistinctDates (found (is_listed product_id q) reviews)
      → found (is_before (decoded date_of q.cursor)) (listed q) ≡ rs
      → length rs ≤ n
      → Cut q.limit rs
      → follow sort cursor_of date_of n product_id q reviews ≡ rs
  unfolding follow
  follow_from zero q [] one distinct left enough c = refl
  follow_from zero q (r ∷ rs) one distinct left enough c = absurd (omega arith)
  follow_from (suc n) q _ one distinct left enough (whole rs fits) =
      rw (list_for_product_lem q rs distinct left ∙ page_of_whole cursor_of q.limit rs fits)
        (append_none rs)
  follow_from (suc n) q _ one distinct left enough (split ps r s rs full) =
      rw
        (list_for_product_lem q (ps ++ r ∷ s ∷ rs) distinct left
          ∙ ap (λ m. page_of cursor_of m (take (m + 1) (ps ++ r ∷ s ∷ rs))) (sym full)
          ∙ page_of_split cursor_of ps r s rs)
        (ap (λ xs. (ps ++ r ∷ []) ++ xs)
            (follow_from n next (s ∷ rs) one distinct behind fewer (cut q.limit (s ∷ rs) one))
          ∙ append_past ps r (s ∷ rs))
    where
      next : Query
      next = record q { cursor = some (cursor_of r.created_at) }

      known : IsIn r (found (is_listed product_id q) reviews)
      known =
          (sorts (found (is_listed product_id q) reviews)).1 r
            (found-IsIn (is_before (decoded date_of q.cursor)) r (listed q)
              (rw left (IsIn-middle r ps (s ∷ rs)))).0

      behind : found (is_before (decoded date_of next.cursor)) (listed q) ≡ s ∷ rs
      behind =
          ap (λ date. found (is_before date) (listed q))
            (decodes r (found-IsIn (is_listed product_id q) r reviews known).0)
          ∙ found_before_next (decoded date_of q.cursor) (listed q) ps r (s ∷ rs)
              ((sorts (found (is_listed product_id q) reviews)).0 distinct) left

      fewer : length (s ∷ rs) ≤ n
      fewer = omega (arith, length-append ps (r ∷ s ∷ rs))

  listed-follow :
      (n : ℕ) (q : Query)
      → 1 ≤ q.limit
      → q.cursor ≡ none
      → HasDistinctDates (found (is_listed product_id q) reviews)
      → length (found (is_listed product_id q) reviews) ≤ n
      → follow sort cursor_of date_of n product_id q reviews ≡ listed q
  listed-follow n q one first distinct enough =
      follow_from n q (listed q) one distinct
        (ap (λ c. found (is_before (decoded date_of c)) (listed q)) first ∙ found-none (listed q))
        (omega (arith, (sorts (found (is_listed product_id q) reviews)).3))
        (cut q.limit (listed q) one)

-- When MongoDB sorts by date, the cursor of a review is read as its date, and no two of the product's
-- reviews that are asked for have the same date, following the cursors from the first page on lists
-- exactly the published reviews of the product that are asked for, newest first and none twice, in at
-- most as many pages as there are of them, where a page holds at least one.
pub follow-listed :
    (sort : List Posted → List Posted) (cursor_of : ℕ → String) (date_of : String → ℕ)
    (product_id : String) (reviews : List Posted) (q : Query) (n : ℕ)
    → SortsByDate sort
    → ((r : Posted)
        → IsIn r reviews
        → decoded date_of (some (cursor_of r.created_at)) ≡ some r.created_at)
    → 1 ≤ q.limit
    → q.cursor ≡ none
    → HasDistinctDates (found (is_listed product_id q) reviews)
    → length (found (is_listed product_id q) reviews) ≤ n
    → IsDescending (follow sort cursor_of date_of n product_id q reviews)
      × ((r : Posted)
          → IsIn r (follow sort cursor_of date_of n product_id q reviews)
            ↔ (IsIn r reviews × (is_listed product_id q r ≡ true)))
follow-listed sort cursor_of date_of product_id reviews q n sorts decodes one first distinct
      enough =
    let asked : List Posted = found (is_listed product_id q) reviews in
    let (descending, out, back, _) = sorts asked in
    rw
      (listed-follow sort cursor_of date_of sorts product_id reviews decodes n q one first distinct
        enough)
      (
        descending distinct,
        λ r. (
          λ h. found-IsIn (is_listed product_id q) r reviews (out r h),
          λ h. back r (found-keeps (is_listed product_id q) r reviews h.0 h.1),
        ),
      )
