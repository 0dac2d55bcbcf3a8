-- ===== src/Bff/Gather.antt =====
-- Several calls at once (apps/storefront/src/lib/bff.ts, gather).
use ecomerce_microservices_o.Prelude.{
  ◌≡◌, refl, inl, inr, true, String, List, [], ◌∷◌, Option, none, some, arith, if◌then◌else◌,
  includes, Bool-cases,
}
use ecomerce_microservices_o.Bff.Call.{CallError, Result, ok, err}

module _ {A : Type 0} where
  -- `out[key] = …`, before the keys that follow.
  abbrev out_key :
      String → Option A → Result (List (String × Option A)) → Result (List (String × Option A))
  out_key key v (ok rest) = ok ((key, v) ∷ rest)
  out_key key v (err e) = err e

  -- The settled promises by their keys. A rejected one among the required is thrown; the others
  -- become `null`.
  unfoldable pub gather : List String → List (String × Result A) → Result (List (String × Option A))
  gather required [] = ok []
  gather required ((key, ok a) ∷ xs) = out_key key (some a) (gather required xs)
  gather required ((key, err e) ∷ xs) =
      let degraded = out_key key none (gather required xs) in
      if includes key required then err e else degraded

  -- `promises` with the failures of optional ones forgotten.
  abbrev pub value_of : Result A → Option A
  value_of (ok a) = some a
  value_of (err e) = none

  abbrev pub values : List (String × Result A) → List (String × Option A)
  values [] = []
  values ((key, r) ∷ xs) = (key, value_of r) ∷ values xs

  -- A call that failed although it is required.
  abbrev pub IsMissing : List String → String × Result A → Type 0
  IsMissing required (key, ok a) = ⊥
  IsMissing required (key, err e) = includes key required ≡ true

  abbrev pub NoneMissing : List String → List (String × Result A) → Type 0
  NoneMissing required [] = Unit
  NoneMissing required (x ∷ xs) = (¬ IsMissing required x) × NoneMissing required xs

  -- When no required call failed, the answer has every key, with the value of each call that
  -- succeeded and null for the others.
  pub gather-ok :
      (required : List String) (xs : List (String × Result A))
      → NoneMissing required xs
      → gather required xs ≡ ok (values xs)
  unfolding gather
  gather-ok required [] h = refl
  gather-ok required ((key, ok a) ∷ xs) (h, hs) = rw (gather-ok required xs hs)
  gather-ok required ((key, err e) ∷ xs) (h, hs) = elim (Bool-cases (includes key required)) [
    | inl needed ↦ absurd (h needed)
    | inr optional ↦ rw optional (rw (gather-ok required xs hs))
  ]

  -- The error of the first required call that failed.
  abbrev pub first_missing : List String → List (String × Result A) → Option CallError
  first_missing required [] = none
  first_missing required ((key, ok a) ∷ xs) = first_missing required xs
  first_missing required ((key, err e) ∷ xs) =
      if includes key required then some e else first_missing required xs

  -- When a required call failed, the error of the first such call is thrown.
  pub gather-err :
      (required : List String) (xs : List (String × Result A)) {e : CallError}
      → first_missing required xs ≡ some e
      → gather required xs ≡ err e
  unfolding gather
  gather-err required [] h = cc
  gather-err required ((key, ok a) ∷ xs) h = rw (gather-err required xs h)
  gather-err required ((key, err e') ∷ xs) h = elim (Bool-cases (includes key required)) [
    | inl needed ↦ ground arith
    | inr optional ↦ rw optional (rw (gather-err required xs (rw optional at h)))
  ]
