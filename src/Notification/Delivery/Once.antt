-- ===== src/Notification/Delivery/Once.antt =====
-- Deliveries with one dedupe key
-- (services/notification-service/src/delivery.ts).
use ecomerce_microservices_o.Prelude.{
  ℕ, suc, ◌+◌, ◌≤◌, ◌<◌, ◌≢◌, ◌⊎◌, All, leb, Bool, str_eq_ne, ◌≡◌, refl, true, false, String, List,
  [], ◌∷◌, Option, none, some, arith, eq_iff, if◌then◌else◌, str_eq, str_eq_self, inl, inr,
  Bool-cases,
}
use ecomerce_microservices_o.Prelude.Codes.{codes, to_lower, contains}
use ecomerce_microservices_o.Notification.Types.{NotificationCommand, Recipient, SendError, Content}
use ecomerce_microservices_o.Notification.Delivery.{
  SendResult, accepted, thrown, Db, Env, is_retriable, send, release_dedupe_key, log, settle,
  deliver_to, deliver, address_of, deliver_claimed, with_claim, recipient_of, is_claimed,
  dedupe_lifetime, is_server_error,
}
use ecomerce_microservices_o.Notification.Delivery.Claim.{deliver-cases}

-- How many messages were accepted for a key.
unfoldable pub accepted_for : String → List (String × String) → ℕ
accepted_for key [] = 0
accepted_for key ((k, a) ∷ xs) =
    let rest = accepted_for key xs in if str_eq k key then suc rest else rest

-- The error of a call whose message was accepted all the same: it is not that of a throttle, a refused
-- connection or an unknown host, and it is a timeout, or it does not carry the status of a server
-- error.
abbrev pub IsAmbiguous : SendError → Type 0
IsAmbiguous err =
    (err.name ≢ "ThrottlingException")
    × (err.name ≢ "TooManyRequestsException")
    × (contains (to_lower err.message) (codes "econnrefused") ≡ false)
    × (contains (to_lower err.message) (codes "enotfound") ≡ false)
    × ((contains (to_lower err.message) (codes "timeout") ≡ true)
        ⊎ (contains (to_lower err.message) (codes "etimedout") ≡ true)
        ⊎ ((status : ℕ) → err.http_status ≡ some status → status < 500))

no_server_error :
    (o : Option ℕ) → ((status : ℕ) → o ≡ some status → status < 500) → is_server_error o ≡ false
no_server_error none h = refl
no_server_error (some status) h = let low = h status refl in ground arith

is_retriable-IsAmbiguous : (err : SendError) → IsAmbiguous err → is_retriable err ≡ false
unfolding is_retriable
is_retriable-IsAmbiguous err (throttled, too_many, refused, unknown, landed) =
    rw (str_eq_ne err.name "ThrottlingException" throttled) (
      rw (str_eq_ne err.name "TooManyRequestsException" too_many) (
        rw refused (
          rw unknown (elim landed [
            | inl timeout ↦ rw timeout refl
            | inr other ↦ elim (Bool-cases (contains (to_lower err.message) (codes "timeout"))) [
              | inl timeout ↦ rw timeout refl
              | inr no_timeout ↦ rw no_timeout (elim other [
                | inl timed_out ↦ rw timed_out refl
                | inr low ↦
                    elim (Bool-cases (contains (to_lower err.message) (codes "etimedout"))) [
                      | inl timed_out ↦ rw timed_out refl
                      | inr not_timed_out ↦ rw not_timed_out (no_server_error err.http_status low)
                    ]
              ])
            ]
          ]))))

-- What the service relies on: the errors of accepted messages are of this kind.
abbrev pub IsHonest : Env → Type 0
IsHonest env =
    (cmd : NotificationCommand) (address : String) (content : Content) (err : SendError)
    → send env cmd.channel address content ≡ thrown err true
    → IsAmbiguous err

-- A claim that was made at the start or later.
abbrev is_kept : ℕ → Option ℕ → Bool
is_kept start none = false
is_kept start (some at) = leb start at

-- At most one message was accepted for a key, and none for a key without such a claim.
abbrev AtMostOnce : ℕ → String → Db → Type 0
AtMostOnce start key db =
    (accepted_for key db.outbox ≤ 1)
    × (is_kept start (db.dedupe key) ≡ false → accepted_for key db.outbox ≡ 0)

settle-AtMostOnce :
    (start : ℕ) (env : Env) (key : String) (cmd : NotificationCommand)
    (recipient : Option Recipient) (address : String) (res : SendResult) (db : Db)
    → ((err : SendError) → res ≡ thrown err true → is_retriable err ≡ false)
    → AtMostOnce start key db
    → (cmd.dedupe_key ≡ key
        → (is_kept start (db.dedupe key) ≡ true) × (accepted_for key db.outbox ≡ 0))
    → AtMostOnce start key (settle env cmd recipient address res db).1
unfolding settle log release_dedupe_key accepted_for
settle-AtMostOnce start env key cmd recipient address (accepted id) db honest inv fresh =
    ground (arith, eq_iff cmd.dedupe_key key)
settle-AtMostOnce start env key cmd recipient address (thrown err true) db honest inv fresh =
    ground (arith, eq_iff cmd.dedupe_key key, eq_iff key cmd.dedupe_key, honest err refl)
settle-AtMostOnce start env key cmd recipient address (thrown err false) db honest inv fresh =
    ground (arith, eq_iff cmd.dedupe_key key, eq_iff key cmd.dedupe_key)

deliver_to-AtMostOnce :
    (start : ℕ) (env : Env) (key : String) (cmd : NotificationCommand)
    (recipient : Option Recipient) (address : String) (db : Db)
    → IsHonest env
    → AtMostOnce start key db
    → (cmd.dedupe_key ≡ key
        → (is_kept start (db.dedupe key) ≡ true) × (accepted_for key db.outbox ≡ 0))
    → AtMostOnce start key (deliver_to env cmd recipient address db).1
unfolding deliver_to log
deliver_to-AtMostOnce start env key cmd recipient address db honest inv fresh =
    let content =
      env.render cmd.template (elim recipient [ none ↦ cmd.locale | some r ↦ r.locale ])
        cmd.params in
    let settled =
      settle-AtMostOnce start env key cmd recipient address (send env cmd.channel address content)
        db (λ err e. is_retriable-IsAmbiguous err (honest cmd address content err e)) inv fresh in
    ground (arith, settled)

deliver_claimed-AtMostOnce :
    (start : ℕ) (env : Env) (key : String) (cmd : NotificationCommand) (address : Option String)
    (db : Db)
    → IsHonest env
    → AtMostOnce start key db
    → (cmd.dedupe_key ≡ key
        → (is_kept start (db.dedupe key) ≡ true) × (accepted_for key db.outbox ≡ 0))
    → AtMostOnce start key (deliver_claimed env cmd address db).1
unfolding log
deliver_claimed-AtMostOnce start env key cmd none db honest inv fresh = ground arith
deliver_claimed-AtMostOnce start env key cmd (some address) db honest inv fresh =
    deliver_to-AtMostOnce start env key cmd (recipient_of env cmd) address db honest inv fresh

-- Such a claim stands for 30 days from the start.
is_claimed-kept :
    (start now : ℕ) (o : Option ℕ)
    → now < start + dedupe_lifetime
    → is_claimed now o ≡ false
    → is_kept start o ≡ false
is_claimed-kept start now none soon free = refl
is_claimed-kept start now (some at) soon free = ground arith

with_claim-AtMostOnce :
    (start : ℕ) (env : Env) (key mine : String) (db : Db)
    → start ≤ env.now
    → env.now < start + dedupe_lifetime
    → is_claimed env.now (db.dedupe mine) ≡ false
    → AtMostOnce start key db
    → AtMostOnce start key (with_claim env mine db)
      × (mine ≡ key
          → (is_kept start ((with_claim env mine db).dedupe key) ≡ true)
            × (accepted_for key db.outbox ≡ 0))
with_claim-AtMostOnce start env key mine db late soon free (once, unused) =
    let unkept = is_claimed-kept start env.now (db.dedupe mine) soon free in
    (
      (once, ground (arith, eq_iff key mine)),
      λ same. (rw same (rw (str_eq_self key) (ground arith)), unused (rw same at unkept)),
    )

-- A delivery keeps it, on every path: claimed before, rejected, suppressed, sent, failed or ambiguous.
deliver-AtMostOnce :
    (start : ℕ) (env : Env) (key : String) (cmd : NotificationCommand) (db : Db)
    → start ≤ env.now
    → env.now < start + dedupe_lifetime
    → IsHonest env
    → AtMostOnce start key db
    → AtMostOnce start key (deliver env cmd db).1
deliver-AtMostOnce start env key cmd db late soon honest inv = elim (deliver-cases env cmd db) [
  | inl taken ↦ rw taken inv
  | inr (inl (_, thrown_out)) ↦ rw thrown_out inv
  | inr (inr (inl (free, _, landed))) ↦
      rw landed (with_claim-AtMostOnce start env key cmd.dedupe_key db late soon free inv).0
  | inr (inr (inr (free, _, made))) ↦
      let (kept, fresh) =
        with_claim-AtMostOnce start env key cmd.dedupe_key db late soon free inv in
      rw made (
        deliver_claimed-AtMostOnce start env key cmd (address_of cmd (recipient_of env cmd))
          (with_claim env cmd.dedupe_key db) honest kept fresh)
]

-- Deliveries one after the other, each in its own circumstances: redeliveries and retries included.
unfoldable pub deliver_all : List (Env × NotificationCommand) → Db → Db
deliver_all [] db = db
deliver_all ((env, cmd) ∷ xs) db = deliver_all xs (deliver env cmd db).1

-- A delivery within 30 days of the start, with such errors.
abbrev pub IsInMonth : ℕ → Env × NotificationCommand → Type 0
IsInMonth start (env, cmd) = (start ≤ env.now) × (env.now < start + dedupe_lifetime) × IsHonest env

deliver_all-AtMostOnce :
    (start : ℕ) (key : String) (xs : List (Env × NotificationCommand)) (db : Db)
    → All (IsInMonth start) xs
    → AtMostOnce start key db
    → AtMostOnce start key (deliver_all xs db)
unfolding deliver_all
deliver_all-AtMostOnce start key [] db h inv = inv
deliver_all-AtMostOnce start key ((env, cmd) ∷ xs) db ((late, soon, h), hs) inv =
    deliver_all-AtMostOnce start key xs (deliver env cmd db).1 hs
      (deliver-AtMostOnce start env key cmd db late soon h inv)

-- However often commands with one dedupe key are delivered within 30 days, retries after failures and
-- after throws of Cassandra included, the providers accept at most one message for it, if none was
-- accepted before and every error of an accepted message is a timeout or carries no server error's
-- status, and is not that of a throttle, a refused connection or an unknown host.
pub deliver_all-at_most_once :
    (start : ℕ) (key : String) (xs : List (Env × NotificationCommand)) (db : Db)
    → All (IsInMonth start) xs
    → accepted_for key db.outbox ≡ 0
    → accepted_for key (deliver_all xs db).outbox ≤ 1
deliver_all-at_most_once start key xs db h fresh =
    (deliver_all-AtMostOnce start key xs db h (omega arith, λ _. fresh)).0
