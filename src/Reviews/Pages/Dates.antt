-- ===== src/Reviews/Pages/Dates.antt =====
-- Lists of reviews by date, for the cursors of listForProduct
-- (services/review-service/src/reviews.ts): what the sort of MongoDB does to what a filter finds.
use ecomerce_microservices_o.Prelude.{
  ℕ, ◌<◌, ◌≡◌, ◌≢◌, ◌⊎◌, refl, sym, ap, ◌∙◌, inl, inr, Bool, true, false, ◌&&◌, List, [], ◌∷◌, ◌++◌,
  Option, none, some, ltb, lt→ltb, ltb→lt, Bool-cases, length, arith,
}
use ecomerce_microservices_o.Reviews.Pages.{Posted, found, is_before}

abbrev pub IsIn : Posted → List Posted → Type 0
IsIn r [] = ⊥
IsIn r (s ∷ rs) = (r ≡ s) ⊎ IsIn r rs

-- Newest first, no two of the same date.
abbrev pub IsDescending : List Posted → Type 0
IsDescending [] = Unit
IsDescending (r ∷ rs) = ((s : Posted) → IsIn s rs → s.created_at < r.created_at) × IsDescending rs

-- No two reviews of a list have the same date.
abbrev pub HasDistinctDates : List Posted → Type 0
HasDistinctDates [] = Unit
HasDistinctDates (r ∷ rs) =
    ((s : Posted) → IsIn s rs → s.created_at ≢ r.created_at) × HasDistinctDates rs

-- What MongoDB documents of `sort({ createdAt: -1 })`: the same documents, as many, in descending
-- order.
abbrev pub SortsByDate : (List Posted → List Posted) → Type 0
SortsByDate sort =
    (rs : List Posted)
    → (HasDistinctDates rs → IsDescending (sort rs))
      × ((r : Posted) → IsIn r (sort rs) → IsIn r rs)
      × ((r : Posted) → IsIn r rs → IsIn r (sort rs))
      × (length (sort rs) ≡ length rs)

descending_unique :
    (rs ss : List Posted)
    → IsDescending rs
    → IsDescending ss
    → ((r : Posted) → IsIn r rs → IsIn r ss)
    → ((r : Posted) → IsIn r ss → IsIn r rs)
    → rs ≡ ss
descending_unique [] [] dr ds to from = refl
descending_unique [] (s ∷ ss) dr ds to from = absurd (from s (inl refl))
descending_unique (r ∷ rs) [] dr ds to from = absurd (to r (inl refl))
descending_unique (r ∷ rs) (s ∷ ss) (lr, dr) (ls, ds) to from =
    let same : r ≡ s = elim (to r (inl refl)) [
      | inl e ↦ e
      | inr later ↦ elim (from s (inl refl)) [
        | inl e ↦ sym e
        | inr after ↦ absurd (omega (arith, ls r later, lr s after))
      ]
    ] in
    let rest : rs ≡ ss =
      descending_unique rs ss dr ds
        (λ t h. elim (to t (inr h)) [
          | inl e ↦
              absurd (omega (arith, lr t h, ap (λ p. p.created_at) e, ap (λ p. p.created_at) same))
          | inr k ↦ k
        ])
        (λ t h. elim (from t (inr h)) [
          | inl e ↦
              absurd (omega (arith, ls t h, ap (λ p. p.created_at) e, ap (λ p. p.created_at) same))
          | inr k ↦ k
        ]) in
    ap (λ x. x ∷ rs) same ∙ ap (λ xs. s ∷ xs) rest

pub found-IsIn :
    (test : Posted → Bool) (r : Posted) (rs : List Posted)
    → IsIn r (found test rs)
    → IsIn r rs × (test r ≡ true)
unfolding found
found-IsIn test r [] h = absurd h
found-IsIn test r (s ∷ rs) h = elim (Bool-cases (test s)) [
  | inl hit ↦ elim (rw hit at h) [
    | inl e ↦ (inl e, rw e hit)
    | inr k ↦ let (there, t) = found-IsIn test r rs k in (inr there, t)
  ]
  | inr miss ↦ let (there, t) = found-IsIn test r rs (rw miss at h) in (inr there, t)
]

pub found-keeps :
    (test : Posted → Bool) (r : Posted) (rs : List Posted)
    → IsIn r rs
    → test r ≡ true
    → IsIn r (found test rs)
unfolding found
found-keeps test r [] h t = absurd h
found-keeps test r (s ∷ rs) (inl e) t = rw (ap test (sym e) ∙ t) (inl e)
found-keeps test r (s ∷ rs) (inr k) t = elim (Bool-cases (test s)) [
  | inl hit ↦ rw hit (inr (found-keeps test r rs k t))
  | inr miss ↦ rw miss (found-keeps test r rs k t)
]

found-IsDescending :
    (test : Posted → Bool) (rs : List Posted) → IsDescending rs → IsDescending (found test rs)
unfolding found
found-IsDescending test [] d = tt
found-IsDescending test (r ∷ rs) (lr, d) = elim (Bool-cases (test r)) [
  | inl hit ↦ rw hit (λ s h. lr s (found-IsIn test s rs h).0, found-IsDescending test rs d)
  | inr miss ↦ rw miss (found-IsDescending test rs d)
]

found-HasDistinctDates :
    (test : Posted → Bool) (rs : List Posted)
    → HasDistinctDates rs
    → HasDistinctDates (found test rs)
unfolding found
found-HasDistinctDates test [] d = tt
found-HasDistinctDates test (r ∷ rs) (nr, d) = elim (Bool-cases (test r)) [
  | inl hit ↦ rw hit (λ s h. nr s (found-IsIn test s rs h).0, found-HasDistinctDates test rs d)
  | inr miss ↦ rw miss (found-HasDistinctDates test rs d)
]

pub found-both :
    (test before : Posted → Bool) (rs : List Posted)
    → found (λ r. test r && before r) rs ≡ found before (found test rs)
unfolding found
found-both test before [] = refl
found-both test before (r ∷ rs) = elim (Bool-cases (test r)) [
  | inl hit ↦ elim (Bool-cases (before r)) [
    | inl early ↦ rw hit (rw early (ap (λ xs. r ∷ xs) (found-both test before rs)))
    | inr late ↦ rw hit (rw late (found-both test before rs))
  ]
  | inr miss ↦ rw miss (found-both test before rs)
]

-- Sorting what a second test leaves of a list is filtering the sorted list by it.
pub sort-found :
    (sort : List Posted → List Posted) (before : Posted → Bool) (rs : List Posted)
    → SortsByDate sort
    → HasDistinctDates rs
    → sort (found before rs) ≡ found before (sort rs)
sort-found sort before rs sorts distinct =
    descending_unique (sort (found before rs)) (found before (sort rs))
      ((sorts (found before rs)).0 (found-HasDistinctDates before rs distinct))
      (found-IsDescending before (sort rs) ((sorts rs).0 distinct))
      (λ r h.
        let (there, early) = found-IsIn before r rs ((sorts (found before rs)).1 r h) in
        found-keeps before r (sort rs) ((sorts rs).2 r there) early)
      (λ r h.
        let (there, early) = found-IsIn before r (sort rs) h in
        (sorts (found before rs)).2 r (found-keeps before r rs ((sorts rs).1 r there) early))

ltb-ge : (a b : ℕ) → b < a → ltb a b ≡ false
ltb-ge a b h = ground arith

ltb_self : (a : ℕ) → ltb a a ≡ false
ltb_self a = ground arith

pub IsIn-middle : (r : Posted) (ps rs : List Posted) → IsIn r (ps ++ r ∷ rs)
IsIn-middle r [] rs = inl refl
IsIn-middle r (p ∷ ps) rs = inr (IsIn-middle r ps rs)

-- Following from a review on: those that come before its date are those behind it.
found_before_all :
    (date : ℕ) (rs : List Posted)
    → ((r : Posted) → IsIn r rs → r.created_at < date)
    → found (is_before (some date)) rs ≡ rs
unfolding found
found_before_all date [] earlier = refl
found_before_all date (r ∷ rs) earlier =
    rw (lt→ltb r.created_at date (earlier r (inl refl)))
      (ap (λ xs. r ∷ xs) (found_before_all date rs (λ s h. earlier s (inr h))))

found_before_split :
    (ps : List Posted) (r : Posted) (rs : List Posted)
    → IsDescending (ps ++ r ∷ rs)
    → found (is_before (some r.created_at)) (ps ++ r ∷ rs) ≡ rs
unfolding found
found_before_split [] r rs (lr, d) =
    rw (ltb_self r.created_at) (found_before_all r.created_at rs lr)
found_before_split (p ∷ ps) r rs (lp, d) =
    rw (ltb-ge p.created_at r.created_at (lp r (IsIn-middle r ps rs)))
      (found_before_split ps r rs d)

found-narrow :
    (test narrow : Posted → Bool) (rs : List Posted)
    → ((r : Posted) → narrow r ≡ true → test r ≡ true)
    → found narrow (found test rs) ≡ found narrow rs
unfolding found
found-narrow test narrow [] within = refl
found-narrow test narrow (r ∷ rs) within = elim (Bool-cases (test r)) [
  | inl hit ↦ elim (Bool-cases (narrow r)) [
    | inl near ↦ rw hit (rw near (ap (λ xs. r ∷ xs) (found-narrow test narrow rs within)))
    | inr far ↦ rw hit (rw far (found-narrow test narrow rs within))
  ]
  | inr miss ↦ elim (Bool-cases (narrow r)) [
    | inl near ↦ let clash : true ≡ false = sym (within r near) ∙ miss in absurd (cc clash)
    | inr far ↦ rw miss (rw far (found-narrow test narrow rs within))
  ]
]

is_before-earlier :
    (date : Option ℕ) (r s : Posted)
    → is_before date r ≡ true
    → is_before (some r.created_at) s ≡ true
    → is_before date s ≡ true
is_before-earlier none r s before earlier = refl
is_before-earlier (some date) r s before earlier =
    lt→ltb s.created_at date
      (omega (arith, ltb→lt r.created_at date before, ltb→lt s.created_at r.created_at earlier))

-- Behind a review of what comes before a date, there is what comes before the review's own.
pub found_before_next :
    (date : Option ℕ) (all ps : List Posted) (r : Posted) (rs : List Posted)
    → IsDescending all
    → found (is_before date) all ≡ ps ++ r ∷ rs
    → found (is_before (some r.created_at)) all ≡ rs
found_before_next date all ps r rs d left =
    let early : is_before date r ≡ true =
      (found-IsIn (is_before date) r all (rw left (IsIn-middle r ps rs))).1 in
    sym (
      found-narrow (is_before date) (is_before (some r.created_at)) all
        (λ s h. is_before-earlier date r s early h))
    ∙ ap (found (is_before (some r.created_at))) left
    ∙ found_before_split ps r rs (rw left at (found-IsDescending (is_before date) all d))

pub found-none : (rs : List Posted) → found (is_before none) rs ≡ rs
unfolding found
found-none [] = refl
found-none (r ∷ rs) = ap (λ xs. r ∷ xs) (found-none rs)
