-- ===== src/Notification/Delivery.antt =====
-- `DeliveryService` (services/notification-service/src/delivery.ts), over the tables of
-- cql/001_keyspace.cql.
pub mod Claim
pub mod Once
pub mod Consent
use ecomerce_microservices_o.Prelude.{
  ℕ, ◌+◌, ◌%◌, ◌≡◌, refl, Bool, true, false, not, ◌&&◌, ◌||◌, String, List, [], ◌∷◌, ◌++◌, Option,
  none, some, ltb, leb, if◌then◌else◌, str_eq, ◌⊎◌, inl, inr, Bool-cases,
}
use ecomerce_microservices_o.Prelude.Store.{update}
use ecomerce_microservices_o.Prelude.Codes.{codes, to_lower, ends_with, contains}
use ecomerce_microservices_o.Notification.Types.{
  Channel, email, sms, push, webhook, TemplateName, order_confirmed, order_cancelled, order_shipped,
  order_delivered, payment_failed, payment_refunded, password_reset, email_verification,
  security_alert, abandoned_cart, back_in_stock, NotificationCommand, Recipient, SuppressionReason,
  duplicate, opted_out, no_address, hard_bounced, quiet_hours, DeliveryOutcome, sent, suppressed,
  failed, Content, SendError, LogEntry,
}

-- What a provider's `send` ends with. `landed` says of a throw whether the message was accepted all
-- the same, which the service cannot see.
pub data SendResult : Type 0 where
  accepted : Option String → SendResult
  thrown : SendError → Bool → SendResult

-- The tables of Cassandra, with the time of each claim of a key, and the messages that a provider has accepted, with their dedupe keys.
pub record Db : Type 0 where
  pub dedupe : String → Option ℕ
  pub delivery_log : List LogEntry
  pub suppression_list : String → Bool
  pub outbox : List (String × String)

-- What one delivery meets: the time in milliseconds, the hour of the UTC clock, the recipients of
-- identity-service, the renderer, SES and SNS, and what Cassandra does: whether the claim of a key is
-- answered or throws, and is then made all the same, whether the suppression list can be read, and
-- whether the log entry and the release of a claim are taken.
pub record Env : Type 0 where
  pub now : ℕ
  pub utc_hour : ℕ
  pub load_recipient : String → Option Recipient
  pub render : TemplateName → String → List (String × String) → Content
  pub ses : String → Content → SendResult
  pub sns : String → String → SendResult
  pub claim_ok : Bool
  pub claim_landed : Bool
  pub lookup_ok : Bool
  pub log_ok : Bool
  pub release_ok : Bool

-- TRANSACTIONAL
unfoldable pub is_transactional : TemplateName → Bool
is_transactional abandoned_cart = false
is_transactional back_in_stock = false
is_transactional _ = true

unfoldable pub address_for : Channel → Option Recipient → Option String
address_for channel none = none
address_for email (some r) = r.email
address_for sms (some r) = r.phone
address_for _ (some r) = none

unfoldable pub is_opted_out : Channel → Recipient → Bool
is_opted_out email r = r.email_opt_out
is_opted_out sms r = r.sms_opt_out
is_opted_out push r = r.push_opt_out
is_opted_out webhook r = false

unfoldable pub in_quiet_hours : ℕ → String → Bool
in_quiet_hours utc_hour locale =
    let offset : ℕ =
      if ends_with (codes locale) (codes "-EG") || str_eq locale "ar" then 2 else 0 in
    let hour = (utc_hour + offset + 24) % 24 in leb 22 hour || ltb hour 8

abbrev pub is_server_error : Option ℕ → Bool
is_server_error none = false
is_server_error (some status) = leb 500 status

unfoldable pub is_retriable : SendError → Bool
is_retriable err =
    let message = to_lower err.message in
    if str_eq err.name "ThrottlingException" || str_eq err.name "TooManyRequestsException"
    then true
    else if contains message (codes "econnrefused") || contains message (codes "enotfound")
    then true
    else if contains message (codes "timeout") || contains message (codes "etimedout")
    then false
    else is_server_error err.http_status

-- The `Error` thrown for a channel that has no provider.
abbrev not_implemented : String → SendResult
not_implemented name =
    thrown
      (record {
        name = "Error";
        message = codes name ++ codes " delivery is not implemented";
        http_status = none;
      })
      false

unfoldable pub send : Env → Channel → String → Content → SendResult
send env email address content = env.ses address content
send env sms address content = env.sns address content.text
send env push address content = not_implemented "PUSH"
send env webhook address content = not_implemented "WEBHOOK"

-- The 30 days of `default_time_to_live`, in milliseconds, after which a claim is gone.
abbrev pub dedupe_lifetime : ℕ
dedupe_lifetime = 2592000000

abbrev pub is_claimed : ℕ → Option ℕ → Bool
is_claimed now none = false
is_claimed now (some at) = ltb now (at + dedupe_lifetime)

abbrev pub with_claim : Env → String → Db → Db
with_claim env key db = record db { dedupe = update db.dedupe key (some env.now) }

-- INSERT … IF NOT EXISTS; `none` is a throw of the client, which may hide that the row was written.
unfoldable pub claim_dedupe_key : Env → String → Db → Option Bool × Db
claim_dedupe_key env key db =
    let taken = is_claimed env.now (db.dedupe key) in
    let db' = if taken then db else with_claim env key db in
    if env.claim_ok then (some (not taken), db') else (none, if env.claim_landed then db' else db)

unfoldable pub release_dedupe_key : Env → String → Db → Db
release_dedupe_key env key db =
    if env.release_ok then record db { dedupe = update db.dedupe key none } else db

abbrev pub user_of : NotificationCommand → Option Recipient → String
user_of cmd (some r) = r.user_id
user_of cmd none = elim cmd.user_id [ some u ↦ u | none ↦ "anonymous" ]

unfoldable pub log : Env → NotificationCommand → Option Recipient → DeliveryOutcome → Db → Db
log env cmd recipient outcome db =
    if env.log_ok
    then record db {
      delivery_log =
          record {
            user_id = user_of cmd recipient;
            channel = cmd.channel;
            template = cmd.template;
            outcome = outcome;
            dedupe_key = cmd.dedupe_key;
          }
          ∷ db.delivery_log;
    }
    else db

-- `if (!text)`: the empty text is false too.
abbrev pub truthy : Option String → Option String
truthy none = none
truthy (some s) = if str_eq s "" then none else some s

unfoldable pub recipient_of : Env → NotificationCommand → Option Recipient
recipient_of env cmd = elim (truthy cmd.user_id) [ none ↦ none | some u ↦ env.load_recipient u ]

-- `cmd.to ?? this.addressFor(cmd.channel, recipient)`
unfoldable pub address_of : NotificationCommand → Option Recipient → Option String
unfolding address_for
address_of cmd recipient =
    truthy (elim cmd.to [ some a ↦ some a | none ↦ address_for cmd.channel recipient ])

abbrev pub locale_of : NotificationCommand → Option Recipient → String
locale_of cmd none = cmd.locale
locale_of cmd (some r) = r.locale

abbrev pub has_opted_out : Channel → Option Recipient → Bool
has_opted_out channel none = false
has_opted_out channel (some r) = is_opted_out channel r

abbrev pub is_sms : Channel → Bool
is_sms sms = true
is_sms _ = false

abbrev pub message_id : Option String → String
message_id none = "unknown"
message_id (some id) = id

abbrev pub accept : NotificationCommand → String → Db → Db
accept cmd address db = record db { outbox = (cmd.dedupe_key, address) ∷ db.outbox }

-- The `try` and its handler, after every check has passed.
unfoldable pub settle :
    Env → NotificationCommand → Option Recipient → String → SendResult → Db → DeliveryOutcome × Db
settle env cmd recipient address (accepted id) db =
    let outcome = sent (message_id id) in
    (outcome, log env cmd recipient outcome (accept cmd address db))
settle env cmd recipient address (thrown err landed) db =
    let retriable = is_retriable err in
    let outcome = failed err.message retriable in
    let db' = log env cmd recipient outcome (if landed then accept cmd address db else db) in
    (outcome, if retriable then release_dedupe_key env cmd.dedupe_key db' else db')

abbrev pub suppress :
    Env → NotificationCommand → Option Recipient → SuppressionReason → Db → DeliveryOutcome × Db
suppress env cmd recipient reason db =
    (suppressed reason, log env cmd recipient (suppressed reason) db)

-- What a delivery ends with: `none` where its promise is rejected.
abbrev pub resolved : DeliveryOutcome × Db → Option DeliveryOutcome × Db
resolved (outcome, db) = (some outcome, db)

-- The checks in their order, for a claimed key and an address.
unfoldable pub deliver_to :
    Env → NotificationCommand → Option Recipient → String → Db → Option DeliveryOutcome × Db
deliver_to env cmd recipient address db =
    if not (is_transactional cmd.template) && has_opted_out cmd.channel recipient
    then resolved (suppress env cmd recipient opted_out db)
    else if not (is_transactional cmd.template)
        && is_sms cmd.channel
        && in_quiet_hours env.utc_hour (locale_of cmd recipient)
    then resolved (suppress env cmd recipient quiet_hours db)
    else if not env.lookup_ok
    then (none, db)
    else if db.suppression_list address
    then resolved (suppress env cmd recipient hard_bounced db)
    else resolved (
        settle env cmd recipient address
          (send env cmd.channel address
            (env.render cmd.template (locale_of cmd recipient) cmd.params))
          db)

abbrev pub deliver_claimed :
    Env → NotificationCommand → Option String → Db → Option DeliveryOutcome × Db
deliver_claimed env cmd none db = resolved (suppress env cmd (recipient_of env cmd) no_address db)
deliver_claimed env cmd (some address) db = deliver_to env cmd (recipient_of env cmd) address db

abbrev pub deliver_if : Env → NotificationCommand → Option Bool × Db → Option DeliveryOutcome × Db
deliver_if env cmd (none, db) = (none, db)
deliver_if env cmd (some true, db) =
    deliver_claimed env cmd (address_of cmd (recipient_of env cmd)) db
deliver_if env cmd (some false, db) = (some (suppressed duplicate), db)

unfoldable pub deliver : Env → NotificationCommand → Db → Option DeliveryOutcome × Db
deliver env cmd db = deliver_if env cmd (claim_dedupe_key env cmd.dedupe_key db)
