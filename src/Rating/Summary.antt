-- ===== src/Rating/Summary.antt =====
-- The average of a product (services/review-service/src/rating.ts).
use ecomerce_microservices_o.Prelude.{
  ℕ, zero, suc, ◌+◌, ◌*◌, ◌/◌, ◌≤◌, ◌<◌, ◌≡◌, refl, List, [], ◌∷◌, none, some, arith, map, ap,
  false, Option-cases, inl, inr,
}
use mathlib.Core.Option.{some-injective}
use ecomerce_microservices_o.Prelude.Int.{ℤ, pos, negsuc, ◌+ℤ◌, ◌*ℤ◌, ◌≤ℤ◌, ℤ_eq}
use ecomerce_microservices_o.Rating.{
  Distribution, bucket_for, total_of, weighted_from, summarise, clamp_zero, update_bucket,
  apply_delta,
}

-- A histogram of five buckets.
abbrev pub histogram : ℕ → ℕ → ℕ → ℕ → ℕ → Distribution
histogram a b c d e = pos a ∷ pos b ∷ pos c ∷ pos d ∷ pos e ∷ []

pub pos_add : (n m : ℕ) → pos n +ℤ pos m ≡ pos (n + m)
unfolding ◌+ℤ◌
pos_add n m = ground arith

pos_mul : (n m : ℕ) → pos n *ℤ pos m ≡ pos (n * m)
unfolding ◌*ℤ◌
pos_mul n m = ground arith

pub total_of-histogram : (a b c d e : ℕ) → total_of (histogram a b c d e) ≡ pos (a + b + c + d + e)
unfolding total_of
total_of-histogram a b c d e = simp pos_add (ap pos (omega arith))

weighted_from-histogram :
    (a b c d e : ℕ)
    → weighted_from 0 (histogram a b c d e) ≡ pos (a + 2 * b + 3 * c + 4 * d + 5 * e)
unfolding weighted_from
weighted_from-histogram a b c d e = simp (pos_mul, pos_add) (ap pos (omega arith))

-- Half up, in tenths: a mean of ratings from 1 to 5 gives 10 to 50.
tenths_bounds :
    (w n : ℕ)
    → 0 < n
    → n ≤ w
    → w ≤ 5 * n
    → (10 ≤ (20 * w + n) / (2 * n)) × ((20 * w + n) / (2 * n) ≤ 50)
tenths_bounds w n h low high = (grind arith, grind arith)

-- The summary of a histogram with at least one rating counts its ratings, and its average lies from
-- one star to five.
pub summarise_bounds :
    (a b c d e : ℕ)
    → 0 < a + b + c + d + e
    → ((summarise (histogram a b c d e)).count ≡ pos (a + b + c + d + e))
      × (pos 10 ≤ℤ (summarise (histogram a b c d e)).average)
      × ((summarise (histogram a b c d e)).average ≤ℤ pos 50)
unfolding summarise
summarise_bounds a b c d e h = rw (total_of-histogram a b c d e) (
    rw (weighted_from-histogram a b c d e) (
      rw (some_rated h) (
        simp (pos_mul, pos_add)
          (let (low, high) =
              tenths_bounds (a + 2 * b + 3 * c + 4 * d + 5 * e) (a + b + c + d + e) h (omega arith)
                (omega arith) in
            (refl, omega arith, omega arith)))))
  where
    some_rated : 0 < a + b + c + d + e → ℤ_eq (pos (a + b + c + d + e)) (pos 0) ≡ false
    some_rated h = ground arith

-- The distribution has an element at the index.
abbrev pub HasBucket : ℕ → Distribution → Type 0
HasBucket i [] = ⊥
HasBucket zero (n ∷ ns) = Unit
HasBucket (suc i) (n ∷ ns) = HasBucket i ns

pub HasBucket-histogram : (a b c d e i : ℕ) → i < 5 → HasBucket i (histogram a b c d e)
HasBucket-histogram a b c d e zero h = tt
HasBucket-histogram a b c d e (suc zero) h = tt
HasBucket-histogram a b c d e (suc (suc zero)) h = tt
HasBucket-histogram a b c d e (suc (suc (suc zero))) h = tt
HasBucket-histogram a b c d e (suc (suc (suc (suc zero)))) h = tt
HasBucket-histogram a b c d e (suc (suc (suc (suc (suc i))))) h = absurd (omega (arith, h))

bucket_for-below : (rating i : ℕ) → bucket_for rating ≡ some i → i < 5
unfolding bucket_for
bucket_for-below rating i e = ground arith

update_bucket_cancel :
    (i : ℕ) (f g : ℤ → ℤ) (ns : List ℕ)
    → HasBucket i (map pos ns)
    → ((n : ℕ) → g (f (pos n)) ≡ pos n)
    → update_bucket i g (update_bucket i f (map pos ns)) ≡ map pos ns
unfolding update_bucket
update_bucket_cancel i f g [] has h = absurd has
update_bucket_cancel zero f g (n ∷ ns) has h = rw (h n)
update_bucket_cancel (suc i) f g (n ∷ ns) has h = rw (update_bucket_cancel i f g ns has h)

-- When publishing a review is accepted on a distribution of five counts, withdrawing it again gives
-- the distribution as it was.
pub apply_delta_cancel :
    (a b c d e rating : ℕ) {h : Distribution}
    → apply_delta (histogram a b c d e) rating (pos 1) ≡ some h
    → apply_delta h rating (negsuc 0) ≡ some (histogram a b c d e)
unfolding apply_delta
apply_delta_cancel a b c d e rating {h} accepted = elim (Option-cases (bucket_for rating)) [
  | inl bad ↦ let thrown : none ≡ some h = rw (bad, apply_delta) at accepted in cc
  | inr (i, at) ↦
      let published : some (update_bucket i up (histogram a b c d e)) ≡ some h =
        rw (at, apply_delta) at accepted in
      let same : update_bucket i up (histogram a b c d e) ≡ h =
        some-injective (update_bucket i up (histogram a b c d e)) h published in
      rw (at, apply_delta)
        (rw (← same) (
          ap some (
            update_bucket_cancel i up down (a ∷ b ∷ c ∷ d ∷ e ∷ [])
              (HasBucket-histogram a b c d e i (bucket_for-below rating i at)) back)))
]
  where
    up : ℤ → ℤ
    up n = clamp_zero (n +ℤ pos 1)

    down : ℤ → ℤ
    down n = clamp_zero (n +ℤ negsuc 0)

    back : (n : ℕ) → clamp_zero (clamp_zero (pos n +ℤ pos 1) +ℤ negsuc 0) ≡ pos n
    back n = unfold ◌+ℤ◌ in ground arith
