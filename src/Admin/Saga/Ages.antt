-- ===== src/Admin/Saga/Ages.antt =====
-- How long ago something was (apps/admin/src/components/saga-inspector.tsx).
use ecomerce_microservices_o.Prelude.{ℕ, ◌*◌, ◌≤◌, ◌<◌, ◌≡◌, ltb, arith, Bool-cases, inl, inr, suc}
use ecomerce_microservices_o.Admin.Saga.{
  Age, just_now, seconds_ago, minutes_ago, hours_ago, days_ago, age_of,
}

-- An age says `n` units of a size for a time, of which fewer than `most` are said.
abbrev pub IsIn : ℕ → ℕ → ℕ → ℕ → Type 0
IsIn seconds size most n = (n * size ≤ seconds) × (seconds < suc n * size) × (1 ≤ n) × (n < most)

abbrev pub IsAgeOf : ℕ → Age → Type 0
IsAgeOf seconds just_now = seconds < 5
IsAgeOf seconds (seconds_ago n) = (n ≡ seconds) × (5 ≤ n) × (n < 60)
IsAgeOf seconds (minutes_ago n) = IsIn seconds 60 60 n
IsAgeOf seconds (hours_ago n) = IsIn seconds 3600 24 n
IsAgeOf seconds (days_ago n) = (n * 86400 ≤ seconds) × (seconds < suc n * 86400) × (1 ≤ n)

-- The age that is shown for a time is the number of whole units that have passed, in the largest unit
-- of which one has: less than 60 seconds or minutes, less than 24 hours.
pub age_of-IsAgeOf : (seconds : ℕ) → IsAgeOf seconds (age_of seconds)
unfolding age_of
age_of-IsAgeOf seconds = elim (Bool-cases (ltb seconds 5)) [
  | inl now ↦ rw now (ground arith)
  | inr later ↦ elim (Bool-cases (ltb seconds 60)) [
    | inl few ↦ rw later (rw few (ground arith, ground arith, ground arith))
    | inr more ↦ elim (Bool-cases (ltb seconds 3600)) [
      | inl under ↦
          rw later (rw more (rw under (ground arith, ground arith, ground arith, ground arith)))
      | inr over ↦ elim (Bool-cases (ltb seconds 86400)) [
        | inl today ↦
            rw later (
              rw more (rw over (rw today (ground arith, ground arith, ground arith, ground arith))))
        | inr days ↦
            rw later (rw more (rw over (rw days (ground arith, ground arith, ground arith))))
      ]
    ]
  ]
]
