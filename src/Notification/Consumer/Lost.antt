-- ===== src/Notification/Consumer/Lost.antt =====
-- Messages that are lost after a throw of Cassandra
-- (services/notification-service/src/index.ts and delivery.ts).
use ecomerce_microservices_o.Prelude.{
  ◌+◌, ◌<◌, ◌≡◌, refl, sym, ◌∙◌, ap, inl, inr, true, false, Option, none, some, String, arith,
  lt→ltb, str_eq_self,
}
use ecomerce_microservices_o.Notification.Types.{
  NotificationCommand, Recipient, DeliveryOutcome, sent, suppressed, failed,
}
use ecomerce_microservices_o.Notification.Delivery.{
  Db, Env, deliver, deliver_to, deliver_claimed, address_of, recipient_of, with_claim,
  dedupe_lifetime,
}
use ecomerce_microservices_o.Notification.Delivery.Claim.{deliver-cases, deliver-duplicate}
use ecomerce_microservices_o.Notification.Consumer.{
  Message, command_of, done, rejected, answer, handle_command, each_message,
}

answer-rejected : (outcome : Option DeliveryOutcome) → answer outcome ≡ rejected → outcome ≡ none
unfolding answer
answer-rejected none h = refl
answer-rejected (some (sent id)) h = absurd (cc h)
answer-rejected (some (suppressed why)) h = absurd (cc h)
answer-rejected (some (failed r true)) h = absurd (cc h)
answer-rejected (some (failed r false)) h = absurd (cc h)

deliver_to-rejected :
    (env : Env) (cmd : NotificationCommand) (recipient : Option Recipient) (address : String)
    (db : Db)
    → (deliver_to env cmd recipient address db).0 ≡ none
    → (deliver_to env cmd recipient address db).1 ≡ db
unfolding deliver_to
deliver_to-rejected env cmd recipient address db h = ground arith

deliver_claimed-rejected :
    (env : Env) (cmd : NotificationCommand) (address : Option String) (db : Db)
    → (deliver_claimed env cmd address db).0 ≡ none
    → (deliver_claimed env cmd address db).1 ≡ db
deliver_claimed-rejected env cmd none db h = absurd (cc h)
deliver_claimed-rejected env cmd (some address) db h =
    deliver_to-rejected env cmd (recipient_of env cmd) address db h

-- A delivery whose claim was answered and that is rejected only leaves the claim.
deliver-rejected :
    (env : Env) (cmd : NotificationCommand) (db : Db)
    → env.claim_ok ≡ true
    → (deliver env cmd db).0 ≡ none
    → (deliver env cmd db).1 ≡ with_claim env cmd.dedupe_key db
deliver-rejected env cmd db ok h = elim (deliver-cases env cmd db) [
  | inl taken ↦ absurd (cc (rw taken at h))
  | inr (inl (lost, _)) ↦ absurd (cc (sym ok ∙ lost))
  | inr (inr (inl (_, lost, _))) ↦ absurd (cc (sym ok ∙ lost))
  | inr (inr (inr (_, _, made))) ↦
      ap (λ x. x.1) made
      ∙ deliver_claimed-rejected env cmd (address_of cmd (recipient_of env cmd))
          (with_claim env cmd.dedupe_key db) (sym (ap (λ x. x.0) made) ∙ h)
]

handle_command-lost :
    (env later : Env) (cmd : Option NotificationCommand) (db : Db)
    → env.claim_ok ≡ true
    → later.claim_ok ≡ true
    → later.now < env.now + dedupe_lifetime
    → (handle_command env cmd db).0 ≡ rejected
    → let db' = (handle_command env cmd db).1 in
      (db'.outbox ≡ db.outbox) × (handle_command later cmd db' ≡ (done, db'))
unfolding answer
handle_command-lost env later none db ok ok' soon h = absurd (cc h)
handle_command-lost env later (some cmd) db ok ok' soon h =
    rw (deliver-rejected env cmd db ok (answer-rejected (deliver env cmd db).0 h)) (
      refl,
      rw
          (deliver-duplicate later cmd (with_claim env cmd.dedupe_key db) ok'
            (rw (str_eq_self cmd.dedupe_key) (lt→ltb later.now (env.now + dedupe_lifetime) soon)))
          refl,
    )

-- When the delivery of a message is rejected although the claim of its dedupe key was answered, nothing
-- is sent, and handling the message again within 30 days, in whatever circumstances but that Cassandra
-- answers the claim, sends nothing, changes nothing and is done with it.
pub each_message-lost :
    (env later : Env) (m : Message) (db : Db)
    → env.claim_ok ≡ true
    → later.claim_ok ≡ true
    → later.now < env.now + dedupe_lifetime
    → (each_message env m db).0 ≡ rejected
    → let db' = (each_message env m db).1 in
      (db'.outbox ≡ db.outbox) × (each_message later m db' ≡ (done, db'))
unfolding each_message
each_message-lost env later m db ok ok' soon h =
    handle_command-lost env later (command_of m) db ok ok' soon h
