-- ===== src/Account/Safe.antt =====
-- What the account forms give away and where they lead
-- (apps/storefront/src/components/auth/login-form.tsx and forgot-password-form.tsx).
use ecomerce_microservices_o.Prelude.{
  ◌≡◌, refl, true, false, [], ◌∷◌, Option, none, some, Bool-cases, inl, inr,
}
use ecomerce_microservices_o.Prelude.Codes.{codes, starts_with}
use ecomerce_microservices_o.Account.{
  Text, Outcome, safe_path, safe_next, Forgot, take_forgot, forgot_answered, answered, refused,
  thrown,
}

-- A path that does not begin with two slashes.
abbrev pub IsPath : Text → Type 0
IsPath t = (starts_with t (codes "/") ≡ true) × (starts_with t (codes "//") ≡ false)

safe_path-IsPath : (t : Text) → IsPath (safe_path t)
safe_path-IsPath [] = (refl, refl)
safe_path-IsPath (c ∷ s) = elim (Bool-cases (starts_with (c ∷ s) (codes "/"))) [
  | inl path ↦ elim (Bool-cases (starts_with (c ∷ s) (codes "//"))) [
    | inl double ↦ rw path (rw double (refl, refl))
    | inr one_slash ↦ rw path (rw one_slash (path, one_slash))
  ]
  | inr other ↦ rw other (refl, refl)
]

safe_path-same : (t : Text) → IsPath t → safe_path t ≡ t
safe_path-same [] (path, one_slash) = absurd (cc path)
safe_path-same (c ∷ s) (path, one_slash) = rw path (rw one_slash refl)

-- After a sign-in the browser is sent to a path that begins with one slash, not two, whatever the
-- parameter `next` is; and every text of this form is kept as it is.
pub safe_next_paths :
    (next : Option Text) (t : Text) → IsPath (safe_next next) × (IsPath t → safe_next (some t) ≡ t)
unfolding safe_next
safe_next_paths none t = ((refl, refl), safe_path-same t)
safe_next_paths (some next) t = (safe_path-IsPath next, safe_path-same t)

take_forgot_lem : (o : Outcome Unit) (s : Forgot) → take_forgot o s ≡ s
take_forgot_lem (answered x) s = refl
take_forgot_lem (refused e) s = refl
take_forgot_lem thrown s = refl

-- The form that asks for a password link ends in one and the same state whatever becomes of its
-- request.
pub forgot_answered-same :
    (o o' : Outcome Unit) (s : Forgot) → forgot_answered o s ≡ forgot_answered o' s
unfolding forgot_answered
forgot_answered-same o o' s = rw (take_forgot_lem o s) (rw (take_forgot_lem o' s) refl)
