-- ===== src/Tests/Accounts.antt =====
-- The account forms at concrete data (apps/storefront/src/components/auth).
use ecomerce_microservices_o.Prelude.{◌≡◌, refl, true, false, List, [], ◌∷◌, none, some}
use ecomerce_microservices_o.Prelude.Codes.{codes}
use ecomerce_microservices_o.Account.{answered, safe_next, Text}
use ecomerce_microservices_o.Account.Safe.{IsPath, safe_next_paths}
use ecomerce_microservices_o.Account.Enrolment.{
  Enrolment, SessionState, loading, present, Event, acts, clicks_done, types_code, confirming,
  confirm_ends, happen, happen_all, view, codes_shown,
}
use ecomerce_microservices_o.Account.Enrolment.Kept.{ticked, happen_all-codes_shown}

safe_next_paths_example :
    IsPath (safe_next (some (codes "//evil.example")))
    × (IsPath (codes "/orders") → safe_next (some (codes "/orders")) ≡ codes "/orders")
safe_next_paths_example = safe_next_paths (some (codes "//evil.example")) (codes "/orders")

-- What safeNext keeps, although browsers read it as another site.
backslash_run : safe_next (some (codes "/\\evil.example")) ≡ codes "/\\evil.example"
unfolding safe_next
backslash_run = refl

abbrev confirming_code : Enrolment
confirming_code = record {
  enrolment = some (record { secret = codes "JBSW"; uri = codes "otpauth:" });
  code = codes "123456";
  recovery_codes = none;
  acknowledged = false;
  error = none;
  pending = some (confirming (codes "123456"));
}

-- Done is clicked without the tick, and the profile is read again.
abbrev history : List (SessionState × Event)
history =
    (present false, acts clicks_done)
    ∷ (loading, acts clicks_done)
    ∷ (present true, acts (types_code (codes "1")))
    ∷ []

abbrev recovery : List Text
recovery = codes "aaaa-1111" ∷ codes "bbbb-2222" ∷ []

history_run : ticked history ≡ false
unfolding ticked
history_run = refl

happen_all-codes_shown_example :
    view (present true) (
      happen_all history
        (happen (present false) (confirm_ends (answered recovery)) confirming_code))
    ≡ codes_shown recovery false
happen_all-codes_shown_example =
    happen_all-codes_shown recovery (present false) (codes "123456") confirming_code history true
      refl refl history_run
