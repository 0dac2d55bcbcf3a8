-- ===== src/Reviews/Counts.antt =====
-- What one update does to the counts that the aggregation of rebuildSummary makes.
use ecomerce_microservices_o.Prelude.{
  ℕ, suc, ◌+◌, ◌≡◌, refl, Bool, true, false, String, List, [], ◌∷◌, some, arith, Bool-cases, inl,
  inr, ◌-◌, str_eq,
}
use native.Mathlib.Numerals.{unary_clauses}
use mathlib.Core.Option.{some-injective, none-ne-some}
use ecomerce_microservices_o.Prelude.Int.{pos, negsuc, ◌+ℤ◌}
use ecomerce_microservices_o.Rating.{update_bucket}
use ecomerce_microservices_o.Rating.Summary.{histogram, pos_add}
use ecomerce_microservices_o.Reviews.{
  Stars, one, two, three, four, five, number, Review, find_review, update_review, count_if,
  same_stars,
}

abbrev pub one_if : Bool → ℕ
one_if true = 1
one_if false = 0

swap :
    (test : Review → Bool) (r s : Review) (rs : List Review)
    → count_if test (s ∷ rs) + one_if (test r) ≡ count_if test (r ∷ rs) + one_if (test s)
unfolding count_if
swap test r s rs = ground arith

keep :
    (test : Review → Bool) (r : Review) (rs : List Review) (ss : List Review) (n m : ℕ)
    → count_if test ss + n ≡ count_if test rs + m
    → count_if test (r ∷ ss) + n ≡ count_if test (r ∷ rs) + m
unfolding count_if
keep test r rs ss n m h = ground arith

-- Updating the review found moves a count by what the test says of it before and after.
pub count_if-update_review :
    (test : Review → Bool) (id : String) (f : Review → Review) (rs : List Review) {r : Review}
    → find_review id rs ≡ some r
    → count_if test (update_review id f rs) + one_if (test r)
      ≡ count_if test rs + one_if (test (f r))
unfolding find_review update_review
count_if-update_review test id f [] {r} e = absurd (none-ne-some r e)
count_if-update_review test id f (r' ∷ rs) {r} e = elim (Bool-cases (str_eq r'.id id)) [
  | inl found ↦
      let same : some r' ≡ some r = rw found at e in
      rw found (rw (← some-injective r' r same) (swap test r' (f r') rs))
  | inr later ↦
      let rest : find_review id rs ≡ some r = rw later at e in
      rw later (
        keep test r' rs (update_review id f rs) (one_if (test r)) (one_if (test (f r)))
          (count_if-update_review test id f rs rest))
]

pub histogram_inc :
    (stars : Stars) (a b c d e : ℕ)
    → update_bucket (number stars - 1) (λ n. n +ℤ pos 1) (histogram a b c d e)
      ≡ histogram
          (a + one_if (same_stars stars one))
          (b + one_if (same_stars stars two))
          (c + one_if (same_stars stars three))
          (d + one_if (same_stars stars four))
          (e + one_if (same_stars stars five))
unfolding update_bucket
histogram_inc one a b c d e = simp (unary_clauses, pos_add) refl
histogram_inc two a b c d e = simp (unary_clauses, pos_add) refl
histogram_inc three a b c d e = simp (unary_clauses, pos_add) refl
histogram_inc four a b c d e = simp (unary_clauses, pos_add) refl
histogram_inc five a b c d e = simp (unary_clauses, pos_add) refl

pub pos_sub : (n : ℕ) → pos (suc n) +ℤ negsuc 0 ≡ pos n
unfolding ◌+ℤ◌
pos_sub n = ground arith

pub histogram_dec :
    (stars : Stars) (a b c d e : ℕ)
    → update_bucket
        (number stars - 1)
        (λ n. n +ℤ negsuc 0)
        (histogram
          (a + one_if (same_stars stars one))
          (b + one_if (same_stars stars two))
          (c + one_if (same_stars stars three))
          (d + one_if (same_stars stars four))
          (e + one_if (same_stars stars five)))
      ≡ histogram a b c d e
unfolding update_bucket
histogram_dec one a b c d e = simp (unary_clauses, pos_sub) refl
histogram_dec two a b c d e = simp (unary_clauses, pos_sub) refl
histogram_dec three a b c d e = simp (unary_clauses, pos_sub) refl
histogram_dec four a b c d e = simp (unary_clauses, pos_sub) refl
histogram_dec five a b c d e = simp (unary_clauses, pos_sub) refl
