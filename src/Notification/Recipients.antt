-- ===== src/Notification/Recipients.antt =====
-- The lookup of a recipient in identity-service and its cache
-- (services/notification-service/src/index.ts).
use ecomerce_microservices_o.Prelude.{
  ℕ, ◌+◌, ◌<◌, ◌≡◌, ◌≢◌, refl, Bool, true, false, String, Option, none, some, ltb, lt→ltb,
  str_eq_self, if◌then◌else◌,
}
use ecomerce_microservices_o.Prelude.Store.{update}
use ecomerce_microservices_o.Notification.Types.{Recipient}

abbrev pub max_age : ℕ
max_age = 60000

-- `r` is `null` when identity-service answered with a status that is not ok.
pub record Hit : Type 0 where
  pub r : Option Recipient
  pub at : ℕ

abbrev pub Cache : Type 0
Cache = String → Option Hit

-- What `fetch` ends with: an ok response, another status, or an error or the abort after 2 seconds.
pub data Lookup : Type 0 where
  answered : Recipient → Lookup
  refused : Lookup
  unreachable : Lookup

-- `hit && Date.now() - hit.at < 60_000`
abbrev pub is_fresh : ℕ → Option Hit → Bool
is_fresh now none = false
is_fresh now (some hit) = ltb now (hit.at + max_age)

-- `hit?.r ?? null`
abbrev pub cached : Option Hit → Option Recipient
cached none = none
cached (some hit) = hit.r

abbrev pub store : ℕ → String → Option Recipient → Cache → Cache
store now user_id r cache = update cache user_id (some (record { r = r; at = now }))

unfoldable pub look_up : ℕ → Lookup → String → Cache → Option Recipient × Cache
look_up now (answered r) user_id cache = (some r, store now user_id (some r) cache)
look_up now refused user_id cache = (none, store now user_id none cache)
look_up now unreachable user_id cache = (cached (cache user_id), cache)

-- loadRecipient, with whether it made a request.
unfoldable pub load_recipient :
    ℕ → (String → Lookup) → String → Cache → Option Recipient × Cache × Bool
load_recipient now identity user_id cache =
    if is_fresh now (cache user_id)
    then (cached (cache user_id), cache, false)
    else let (r, cache') = look_up now (identity user_id) user_id cache in (r, cache', true)

-- When the cache has no fresh entry and identity-service answers the lookup of a user, every lookup
-- in the next minute gives the same answer without a request; if it answered with an error status,
-- that answer is that there is no such recipient.
pub load_recipient_once :
    (now later : ℕ) (identity identity' : String → Lookup) (user_id : String) (cache : Cache)
    → is_fresh now (cache user_id) ≡ false
    → identity user_id ≢ unreachable
    → later < now + max_age
    → let (r, cache', asked) = load_recipient now identity user_id cache in
      (asked ≡ true)
      × (load_recipient later identity' user_id cache' ≡ (r, cache', false))
      × (identity user_id ≡ refused → r ≡ none)
unfolding load_recipient look_up
load_recipient_once now later identity identity' user_id cache old reached soon =
    rw old (once (identity user_id) reached)
  where
    once :
        (answer : Lookup)
        → answer ≢ unreachable
        → let (r, cache') = look_up now answer user_id cache in
          (true ≡ true)
          × (load_recipient later identity' user_id cache' ≡ (r, cache', false))
          × (answer ≡ refused → r ≡ none)
    once (answered r) h =
        (refl, rw (str_eq_self user_id) (rw (lt→ltb later (now + max_age) soon)), λ e. cc e)
    once refused h =
        (refl, rw (str_eq_self user_id) (rw (lt→ltb later (now + max_age) soon)), λ e. refl)
    once unreachable h = absurd (h refl)
