-- ===== src/Account.antt =====
-- The account forms of the storefront (apps/storefront/src/components/auth): login-form.tsx,
-- forgot-password-form.tsx, register-form.tsx, change-password-form.tsx and session-provider.tsx. A
-- text that is inspected is the list of its character codes.
pub mod Safe
pub mod Enrolment
use ecomerce_microservices_o.Prelude.{
  ℕ, Bool, true, false, ◌&&◌, not, String, List, [], ◌∷◌, Option, none, some, ltb, ◌==◌,
  if◌then◌else◌, str_eq, length,
}
use ecomerce_microservices_o.Prelude.Codes.{codes, starts_with}
use ecomerce_microservices_o.ApiClient.{ApiError, UserMessage, user_message}

abbrev pub Text : Type 0
Text = List ℕ

-- How `apiFetch` ends: with an answer, an ApiError, or another error.
pub data Outcome (A : Type 0) : Type 0 where
  answered : A → Outcome A
  refused : ApiError → Outcome A
  thrown : Outcome A

abbrev pub is_blank : Text → Bool
is_blank [] = true
is_blank (_ ∷ _) = false

-- safeNext
abbrev pub safe_path : Text → Text
safe_path next =
    if is_blank next
    then codes "/"
    else if not (starts_with next (codes "/"))
    then codes "/"
    else if starts_with next (codes "//")
    then codes "/"
    else next

unfoldable pub safe_next : Option Text → Text
safe_next none = codes "/"
safe_next (some next) = safe_path next

-- LoginForm, with the requests that it sent, newest first, and where the router went.
pub record LoginBody : Type 0 where
  pub email : Text
  pub password : Text
  pub mfa_code : Option Text

pub record Login : Type 0 where
  pub email : Text
  pub password : Text
  pub mfa_code : Text
  pub mfa_required : Bool
  pub error : Option UserMessage
  pub submitting : Bool
  pub requests : List LoginBody
  pub location : Option Text

abbrev pub given : Text → Option Text
given [] = none
given (c ∷ s) = some (c ∷ s)

-- onSubmit, up to its answer
unfoldable pub submit_login : Login → Login
submit_login s = record s {
  error = none;
  submitting = true;
  requests =
      record { email = s.email; password = s.password; mfa_code = given s.mfa_code } ∷ s.requests;
}

abbrev pub login_refused : ApiError → Login → Login
login_refused e s =
    if str_eq e.code "MFA_REQUIRED"
    then record s { mfa_required = true; error = none }
    else record s { error = some (user_message e) }

-- onSubmit, from its answer, with the parameter `next` of the address
abbrev pub take_login : Option Text → Outcome Unit → Login → Login
take_login next (answered x) s = record s { location = some (safe_next next) }
take_login next (refused e) s = login_refused e s
take_login next thrown s = s

unfoldable pub login_answered : Option Text → Outcome Unit → Login → Login
login_answered next o s = record (take_login next o s) { submitting = false }

-- ForgotPasswordForm
pub record Forgot : Type 0 where
  pub email : Text
  pub sent : Bool
  pub submitting : Bool

unfoldable pub submit_forgot : Forgot → Forgot
submit_forgot s = record s { submitting = true }

abbrev pub take_forgot : Outcome Unit → Forgot → Forgot
take_forgot (answered x) s = s
take_forgot (refused e) s = s
take_forgot thrown s = s

unfoldable pub forgot_answered : Outcome Unit → Forgot → Forgot
forgot_answered o s = record (take_forgot o s) { submitting = false; sent = true }

-- RegisterForm
pub record Register : Type 0 where
  pub full_name : Text
  pub email : Text
  pub password : Text
  pub error : Option UserMessage
  pub submitted : Bool
  pub submitting : Bool

unfoldable pub submit_register : Register → Register
submit_register s = record s { error = none; submitting = true }

abbrev pub take_register : Outcome Unit → Register → Register
take_register (answered x) s = record s { submitted = true }
take_register (refused e) s = record s { error = some (user_message e) }
take_register thrown s = s

unfoldable pub register_answered : Outcome Unit → Register → Register
register_answered o s = record (take_register o s) { submitting = false }

-- ChangePasswordForm, with the requests that it sent, newest first: the current and the new password.
pub record ChangePassword : Type 0 where
  pub current : Text
  pub next : Text
  pub confirm : Text
  pub error : Option UserMessage
  pub done : Bool
  pub submitting : Bool
  pub requests : List (Text × Text)

unfoldable pub text_eq : Text → Text → Bool
text_eq [] [] = true
text_eq (c ∷ s) (d ∷ t) = c == d && text_eq s t
text_eq _ _ = false

unfoldable pub mismatch : ChangePassword → Bool
unfolding text_eq
mismatch s = not (is_blank s.confirm) && not (text_eq s.next s.confirm)

unfoldable pub submit_password : ChangePassword → ChangePassword
submit_password s =
    if mismatch s
    then s
    else record s { error = none; submitting = true; requests = (s.current, s.next) ∷ s.requests }

abbrev pub take_password : Outcome Unit → ChangePassword → ChangePassword
take_password (answered x) s = record s { done = true; current = []; next = []; confirm = [] }
take_password (refused e) s = record s { error = some (user_message e) }
take_password thrown s = s

unfoldable pub password_answered : Outcome Unit → ChangePassword → ChangePassword
password_answered o s = record (take_password o s) { submitting = false }

-- SessionProvider, on the profile that it holds; `logged` says whether a failure is written to the
-- console, and `left` that the browser leaves the page.
pub record Session (U : Type 0) : Type 0 where
  pub user : Option U
  pub loading : Bool
  pub logged : Bool
  pub left : Bool

module _ {U : Type 0} where
  abbrev pub is_absent : Option U → Bool
  is_absent none = true
  is_absent (some u) = false

  -- The first render, with the profile that the server resolved, before the effect.
  unfoldable pub initial_session : Option U → Session U
  initial_session user = record {
    user = user;
    loading = is_absent user;
    logged = false;
    left = false;
  }

  -- refresh, up to its answer and from it
  unfoldable pub refresh_started : Session U → Session U
  refresh_started s = record s { loading = true }

  abbrev pub take_profile : Outcome U → Session U → Session U
  take_profile (answered u) s = record s { user = some u }
  take_profile (refused e) s =
      if e.status == 401 then record s { user = none } else record s { user = none; logged = true }
  take_profile thrown s = record s { user = none; logged = true }

  unfoldable pub refresh_answered : Outcome U → Session U → Session U
  refresh_answered o s = record (take_profile o s) { loading = false }

  -- signOut, once its request has ended in any way
  unfoldable pub signed_out : Outcome Unit → Session U → Session U
  signed_out o s = record s { user = none; left = true }
