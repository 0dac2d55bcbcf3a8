-- ===== src/Notification/Delivery/Consent.antt =====
-- The checks before a message leaves (services/notification-service/src/delivery.ts).
use ecomerce_microservices_o.Prelude.{
  ◌≡◌, refl, ◌⊎◌, true, false, String, ◌∷◌, Option, some, arith, inl, inr, Option-cases,
}
use ecomerce_microservices_o.Notification.Types.{sms, NotificationCommand, Recipient}
use ecomerce_microservices_o.Notification.Delivery.{
  SendResult, accepted, thrown, Db, Env, is_transactional, has_opted_out, in_quiet_hours, locale_of,
  recipient_of, address_of, send, release_dedupe_key, log, settle, deliver_to, deliver, with_claim,
  is_claimed,
}
use ecomerce_microservices_o.Notification.Delivery.Claim.{deliver-cases}

-- Marketing reaches nobody who opted out of the channel, and no phone in its quiet hours.
abbrev pub IsAllowed : Env → NotificationCommand → Option Recipient → Type 0
IsAllowed env cmd recipient =
    (is_transactional cmd.template ≡ true)
    ⊎ ((has_opted_out cmd.channel recipient ≡ false)
        × (cmd.channel ≡ sms → in_quiet_hours env.utc_hour (locale_of cmd recipient) ≡ false))

settle-outbox :
    (env : Env) (cmd : NotificationCommand) (recipient : Option Recipient) (address : String)
    (res : SendResult) (db : Db)
    → ((settle env cmd recipient address res db).1.outbox ≡ db.outbox)
      ⊎ ((settle env cmd recipient address res db).1.outbox ≡ (cmd.dedupe_key, address) ∷ db.outbox)
unfolding settle log release_dedupe_key
settle-outbox env cmd recipient address (accepted id) db = ground arith
settle-outbox env cmd recipient address (thrown err landed) db = ground arith

deliver_to-outbox :
    (env : Env) (cmd : NotificationCommand) (recipient : Option Recipient) (address : String)
    (db : Db)
    → ((deliver_to env cmd recipient address db).1.outbox ≡ db.outbox)
      ⊎ (((deliver_to env cmd recipient address db).1.outbox
            ≡ (cmd.dedupe_key, address) ∷ db.outbox)
          × (db.suppression_list address ≡ false)
          × IsAllowed env cmd recipient)
unfolding deliver_to log
deliver_to-outbox env cmd recipient address db =
    let content = env.render cmd.template (locale_of cmd recipient) cmd.params in
    let settled =
      settle-outbox env cmd recipient address (send env cmd.channel address content) db in
    ground (arith, settled)

-- A delivery hands over at most one message; if it does, the dedupe key was free, the message goes
-- to the command's address, which is not on the suppression list, and it is transactional or the
-- recipient has not opted out and, for an SMS, it is not a quiet hour for them.
pub deliver-outbox :
    (env : Env) (cmd : NotificationCommand) (db : Db)
    → ((deliver env cmd db).1.outbox ≡ db.outbox)
      ⊎ ((address : String) × (address_of cmd (recipient_of env cmd) ≡ some address)
          × ((deliver env cmd db).1.outbox ≡ (cmd.dedupe_key, address) ∷ db.outbox)
          × (is_claimed env.now (db.dedupe cmd.dedupe_key) ≡ false)
          × (db.suppression_list address ≡ false)
          × IsAllowed env cmd (recipient_of env cmd))
unfolding log
deliver-outbox env cmd db = elim (deliver-cases env cmd db) [
  | inl taken ↦ inl (rw taken refl)
  | inr (inl (_, thrown_out)) ↦ inl (rw thrown_out refl)
  | inr (inr (inl (free, _, landed))) ↦ inl (rw landed refl)
  | inr (inr (inr (free, _, made))) ↦
      rw made (elim (Option-cases (address_of cmd (recipient_of env cmd))) [
        | inl missing ↦ inl (rw missing (ground arith))
        | inr (address, found) ↦
            rw found
              (elim (deliver_to-outbox env cmd (recipient_of env cmd) address
                (with_claim env cmd.dedupe_key db)) [
                  | inl same ↦ inl same
                  | inr (added, kept, allowed) ↦ inr (address, refl, added, free, kept, allowed)
                ])
      ])
]
