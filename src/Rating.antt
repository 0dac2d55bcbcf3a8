-- ===== src/Rating.antt =====
-- Rating arithmetic (services/review-service/src/rating.ts). Buckets are integers, as `$inc` can
-- make one negative; averages are counted in tenths of a star, rounded half up on the exact
-- quotient, where the code rounds a floating-point one.
pub mod Summary
use ecomerce_microservices_o.Prelude.{
  ℕ, zero, suc, ◌+◌, ◌-◌, ◌*◌, ◌/◌, ◌≡◌, Bool, true, false, ◌&&◌, List, [], ◌∷◌, Option, none, some,
  leb, if◌then◌else◌,
}
use ecomerce_microservices_o.Prelude.Int.{ℤ, pos, negsuc, ◌+ℤ◌, ◌-ℤ◌, ◌*ℤ◌, ℤ_eq, ltb_ℤ}

abbrev pub Distribution : Type 0
Distribution = List ℤ

-- The average in tenths, and the count.
pub record RatingSummary : Type 0 where
  pub average : ℤ
  pub count : ℤ

abbrev pub empty_distribution : Distribution
empty_distribution = pos 0 ∷ pos 0 ∷ pos 0 ∷ pos 0 ∷ pos 0 ∷ []

-- `none` is the RangeError.
unfoldable pub bucket_for : ℕ → Option ℕ
bucket_for rating = if leb 1 rating && leb rating 5 then some (rating - 1) else none

-- Both `reduce`s, with the index of the head.
unfoldable pub total_of : Distribution → ℤ
total_of [] = pos 0
total_of (n ∷ ns) = n +ℤ total_of ns

unfoldable pub weighted_from : ℕ → Distribution → ℤ
weighted_from i [] = pos 0
weighted_from i (n ∷ ns) = n *ℤ pos (suc i) +ℤ weighted_from (suc i) ns

-- The quotient by a positive number, rounded down.
abbrev pub floor_div : ℤ → ℕ → ℤ
floor_div (pos n) d = pos (n / d)
floor_div (negsuc n) d = negsuc (n / d)

-- Math.round((weighted / count) * 10), for a positive count
abbrev pub round_tenths : ℤ → ℕ → ℤ
round_tenths weighted count = floor_div (pos 20 *ℤ weighted +ℤ pos count) (2 * count)

-- A negative count is moved to the other side of the quotient.
abbrev pub average_of : ℤ → ℤ → ℤ
average_of weighted (pos c) = round_tenths weighted c
average_of weighted (negsuc c) = round_tenths (pos 0 -ℤ weighted) (suc c)

unfoldable pub summarise : Distribution → RatingSummary
summarise d =
    if ℤ_eq (total_of d) (pos 0)
    then record { average = pos 0; count = pos 0 }
    else record { average = average_of (weighted_from 0 d) (total_of d); count = total_of d }

abbrev pub clamp_zero : ℤ → ℤ
clamp_zero (pos n) = pos n
clamp_zero (negsuc n) = pos 0

-- `next[i] = f(next[i] ?? 0)`: a list that is too short grows up to the bucket. The holes on the way
-- count as 0, as every later read takes them.
unfoldable pub update_bucket : ℕ → (ℤ → ℤ) → Distribution → Distribution
update_bucket zero f [] = f (pos 0) ∷ []
update_bucket (suc i) f [] = pos 0 ∷ update_bucket i f []
update_bucket zero f (n ∷ ns) = f n ∷ ns
update_bucket (suc i) f (n ∷ ns) = n ∷ update_bucket i f ns

-- applyDelta, on the five buckets of a distribution
unfoldable pub apply_delta : Distribution → ℕ → ℤ → Option Distribution
apply_delta d rating delta = elim (bucket_for rating) [
  | none ↦ none
  | some i ↦ some (update_bucket i (λ n. clamp_zero (n +ℤ delta)) d)
]
