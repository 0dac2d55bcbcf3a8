-- ===== src/Notification/Consumer/Reach.antt =====
-- Addresses that the consumer and the webhook reach
-- (services/notification-service/src/index.ts and delivery.ts).
use ecomerce_microservices_o.Prelude.{
  ℕ, suc, ◌≡◌, refl, inl, inr, Bool, true, false, String, List, [], ◌∷◌, Option, none, some,
  if◌then◌else◌, str_eq, includes, arith, eq_iff, Bool-cases,
}
use ecomerce_microservices_o.Prelude.Store.{update}
use ecomerce_microservices_o.Notification.Types.{NotificationCommand, Recipient}
use ecomerce_microservices_o.Notification.Delivery.{
  SendResult, accepted, thrown, Db, Env, deliver, deliver_claimed, deliver_to, settle, log,
  release_dedupe_key, with_claim, address_of, recipient_of, locale_of, send,
}
use ecomerce_microservices_o.Notification.Delivery.Claim.{deliver-cases}
use ecomerce_microservices_o.Notification.Delivery.Consent.{deliver-outbox}
use ecomerce_microservices_o.Notification.Webhook.{
  SnsBody, SesMessage, is_text, ses_webhook, ses_message, suppress_all, suppressed_by,
}
use ecomerce_microservices_o.Notification.Consumer.{
  Message, each_message, command_of, handle_command,
}

-- What reaches the service: a message of Kafka in its circumstances, or a notification of SES with
-- the inserts that Cassandra takes.
pub data Input : Type 0 where
  message : Env → Message → Input
  ses : (String → Bool) → SnsBody → Input

unfoldable pub handle : Input → Db → Db
handle (message env m) db = (each_message env m db).1
handle (ses takes body) db = ses_webhook takes body db

unfoldable pub handle_all : List Input → Db → Db
handle_all [] db = db
handle_all (x ∷ xs) db = handle_all xs (handle x db)

-- How many messages went to an address.
unfoldable pub sent_to : String → List (String × String) → ℕ
sent_to a [] = 0
sent_to a ((k, b) ∷ xs) = let rest = sent_to a xs in if str_eq b a then suc rest else rest

pub settle-suppression_list :
    (env : Env) (cmd : NotificationCommand) (recipient : Option Recipient) (address : String)
    (res : SendResult) (db : Db)
    → (settle env cmd recipient address res db).1.suppression_list ≡ db.suppression_list
unfolding settle log release_dedupe_key
settle-suppression_list env cmd recipient address (accepted id) db = ground arith
settle-suppression_list env cmd recipient address (thrown err landed) db = ground arith

deliver_claimed-suppression_list :
    (env : Env) (cmd : NotificationCommand) (address : Option String) (db : Db)
    → (deliver_claimed env cmd address db).1.suppression_list ≡ db.suppression_list
unfolding deliver_to log
deliver_claimed-suppression_list env cmd none db = ground arith
deliver_claimed-suppression_list env cmd (some address) db =
    let content = env.render cmd.template (locale_of cmd (recipient_of env cmd)) cmd.params in
    ground (
      arith,
      settle-suppression_list env cmd (recipient_of env cmd) address
          (send env cmd.channel address content) db,
    )

pub deliver-suppression_list :
    (env : Env) (cmd : NotificationCommand) (db : Db)
    → (deliver env cmd db).1.suppression_list ≡ db.suppression_list
deliver-suppression_list env cmd db = elim (deliver-cases env cmd db) [
  | inl taken ↦ rw taken refl
  | inr (inl (_, thrown_out)) ↦ rw thrown_out refl
  | inr (inr (inl (_, _, landed))) ↦ rw landed refl
  | inr (inr (inr (_, _, made))) ↦ rw made (
      deliver_claimed-suppression_list env cmd (address_of cmd (recipient_of env cmd))
        (with_claim env cmd.dedupe_key db))
]

-- A suppressed address, and what has been sent to it before.
abbrev IsQuiet : String → ℕ → Db → Type 0
IsQuiet a n db = (db.suppression_list a ≡ true) × (sent_to a db.outbox ≡ n)

deliver-IsQuiet :
    (a : String) (n : ℕ) (env : Env) (cmd : NotificationCommand) (db : Db)
    → IsQuiet a n db
    → IsQuiet a n (deliver env cmd db).1
unfolding sent_to
deliver-IsQuiet a n env cmd db (listed, count) = (
  rw (deliver-suppression_list env cmd db) listed,
  elim (deliver-outbox env cmd db) [
    | inl same ↦ rw same count
    | inr (address, found, added, free, kept, allowed) ↦ rw added (ground (arith, eq_iff address a))
  ],
)

handle_command-IsQuiet :
    (a : String) (n : ℕ) (env : Env) (cmd : Option NotificationCommand) (db : Db)
    → IsQuiet a n db
    → IsQuiet a n (handle_command env cmd db).1
handle_command-IsQuiet a n env none db h = h
handle_command-IsQuiet a n env (some cmd) db h = deliver-IsQuiet a n env cmd db h

suppress_all-IsQuiet :
    (a : String) (n : ℕ) (takes : String → Bool) (addresses : List String) (db : Db)
    → IsQuiet a n db
    → IsQuiet a n (suppress_all takes addresses db)
unfolding suppress_all
suppress_all-IsQuiet a n takes [] db h = h
suppress_all-IsQuiet a n takes (b ∷ others) db (listed, count) =
    let rest =
      suppress_all-IsQuiet a n takes others
        (record db { suppression_list = update db.suppression_list b true })
        (ground (arith, eq_iff a b), count) in
    ground (arith, rest)

ses_message-IsQuiet :
    (a : String) (n : ℕ) (takes : String → Bool) (m : Option SesMessage) (db : Db)
    → IsQuiet a n db
    → IsQuiet a n (ses_message takes m db)
unfolding ses_message
ses_message-IsQuiet a n takes none db h = h
ses_message-IsQuiet a n takes (some m) db h = suppress_all-IsQuiet a n takes (suppressed_by m) db h

handle-IsQuiet :
    (a : String) (n : ℕ) (x : Input) (db : Db) → IsQuiet a n db → IsQuiet a n (handle x db)
unfolding handle each_message ses_webhook
handle-IsQuiet a n (message env m) db h = handle_command-IsQuiet a n env (command_of m) db h
handle-IsQuiet a n (ses takes body) db h =
    ground (arith, ses_message-IsQuiet a n takes body.message db h)

handle_all-IsQuiet :
    (a : String) (n : ℕ) (xs : List Input) (db : Db)
    → IsQuiet a n db
    → IsQuiet a n (handle_all xs db)
unfolding handle_all
handle_all-IsQuiet a n [] db h = h
handle_all-IsQuiet a n (x ∷ xs) db h =
    handle_all-IsQuiet a n xs (handle x db) (handle-IsQuiet a n x db h)

suppress_all-listed :
    (a : String) (addresses : List String) (db : Db)
    → includes a addresses ≡ true
    → IsQuiet a (sent_to a db.outbox) (suppress_all (λ _. true) addresses db)
unfolding suppress_all
suppress_all-listed a [] db h = absurd (cc h)
suppress_all-listed a (b ∷ others) db h =
    let db' : Db = record db { suppression_list = update db.suppression_list b true } in
    elim (Bool-cases (includes a others)) [
      | inl later ↦ suppress_all-listed a others db' later
      | inr rest ↦
          suppress_all-IsQuiet a (sent_to a db.outbox) (λ _. true) others db'
            (ground (arith, eq_iff b a, eq_iff a b), refl)
    ]

ses_webhook-IsQuiet :
    (a : String) (body : SnsBody) (m : SesMessage) (db : Db)
    → is_text "SubscriptionConfirmation" body.sns_type ≡ false
    → body.message ≡ some m
    → includes a (suppressed_by m) ≡ true
    → IsQuiet a (sent_to a db.outbox) (ses_webhook (λ _. true) body db)
unfolding ses_webhook ses_message
ses_webhook-IsQuiet a body m db plain read listed =
    rw plain (rw read (suppress_all-listed a (suppressed_by m) db listed))

-- After SES has reported a permanent bounce of an address, or a complaint from it, and Cassandra has
-- taken the inserts, no message goes to the address any more, whatever events and notifications are
-- handled afterwards.
pub handle_all-suppressed :
    (a : String) (body : SnsBody) (m : SesMessage) (xs : List Input) (db : Db)
    → is_text "SubscriptionConfirmation" body.sns_type ≡ false
    → body.message ≡ some m
    → includes a (suppressed_by m) ≡ true
    → sent_to a (handle_all (ses (λ _. true) body ∷ xs) db).outbox ≡ sent_to a db.outbox
unfolding handle_all handle
handle_all-suppressed a body m xs db plain read listed =
    (handle_all-IsQuiet a (sent_to a db.outbox) xs (ses_webhook (λ _. true) body db)
      (ses_webhook-IsQuiet a body m db plain read listed)).1
