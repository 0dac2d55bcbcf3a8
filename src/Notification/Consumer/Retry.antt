-- ===== src/Notification/Consumer/Retry.antt =====
-- Messages that Kafka hands over again (services/notification-service/src/index.ts and delivery.ts).
use ecomerce_microservices_o.Prelude.{
  ℕ, ◌≡◌, refl, ap, inl, inr, Bool, true, false, not, ◌&&◌, String, List, ◌∷◌, Option, none, some,
  str_eq_self, arith, Option-cases,
}
use ecomerce_microservices_o.Notification.Types.{
  Channel, email, sms, push, webhook, NotificationCommand, Recipient, Content, DeliveryOutcome,
  sent, suppressed, failed,
}
use ecomerce_microservices_o.Notification.Delivery.{
  SendResult, accepted, thrown, Db, Env, is_transactional, is_retriable, has_opted_out, is_sms,
  in_quiet_hours, locale_of, recipient_of, address_of, send, release_dedupe_key, log, settle,
  deliver_to, deliver, resolved, with_claim, is_claimed,
}
use ecomerce_microservices_o.Notification.Delivery.Claim.{deliver-cases, deliver-claimed}
use ecomerce_microservices_o.Notification.Consumer.Reach.{settle-suppression_list}
use ecomerce_microservices_o.Notification.Consumer.{
  Message, command_of, Handled, done, thrown_for, answer, handle_command, each_message,
}

-- The same circumstances, but that the providers accept.
abbrev pub accepting : Option String → Env → Env
accepting id env = record env { ses = λ _ _. accepted id; sns = λ _ _. accepted id }

answer-thrown :
    (outcome : Option DeliveryOutcome) (reason : List ℕ)
    → answer outcome ≡ thrown_for reason
    → outcome ≡ some (failed reason true)
unfolding answer
answer-thrown none reason h = absurd (cc h)
answer-thrown (some (sent id)) reason h = absurd (cc h)
answer-thrown (some (suppressed why)) reason h = absurd (cc h)
answer-thrown (some (failed r true)) reason h = cc h
answer-thrown (some (failed r false)) reason h = absurd (cc h)

-- The checks of `deliver` let a command pass.
abbrev Passes : Env → NotificationCommand → Option Recipient → String → Db → Type 0
Passes env cmd recipient address db =
    (not (is_transactional cmd.template) && has_opted_out cmd.channel recipient ≡ false)
    × (not (is_transactional cmd.template)
          && is_sms cmd.channel
          && in_quiet_hours env.utc_hour (locale_of cmd recipient)
        ≡ false)
    × (env.lookup_ok ≡ true)
    × (db.suppression_list address ≡ false)

abbrev result_of : Env → NotificationCommand → Option Recipient → Channel → String → SendResult
result_of env cmd recipient channel address =
    send env channel address (env.render cmd.template (locale_of cmd recipient) cmd.params)

-- A throw that counts as retriable.
abbrev fails : SendResult → Bool
fails (accepted id) = false
fails (thrown err landed) = is_retriable err

deliver_to-Passes :
    (env : Env) (cmd : NotificationCommand) (recipient : Option Recipient) (address : String)
    (db : Db) (reason : List ℕ)
    → (deliver_to env cmd recipient address db).0 ≡ some (failed reason true)
    → Passes env cmd recipient address db
      × ((settle env cmd recipient address (result_of env cmd recipient cmd.channel address) db).0
          ≡ failed reason true)
unfolding deliver_to
deliver_to-Passes env cmd recipient address db reason h = ground arith

settle-retriable :
    (env : Env) (cmd : NotificationCommand) (recipient : Option Recipient) (address : String)
    (res : SendResult) (db : Db) (reason : List ℕ)
    → env.release_ok ≡ true
    → (settle env cmd recipient address res db).0 ≡ failed reason true
    → ((settle env cmd recipient address res db).1.dedupe cmd.dedupe_key ≡ none)
      × (fails res ≡ true)
unfolding settle log release_dedupe_key
settle-retriable env cmd recipient address (accepted id) db reason ok h = absurd (cc h)
settle-retriable env cmd recipient address (thrown err landed) db reason ok h =
    ground (arith, str_eq_self cmd.dedupe_key)

-- E-mail and SMS are the only channels that fail in a retriable way.
send-accepting :
    (env : Env) (channel : Channel) (address : String) (content : Content) (id : Option String)
    → fails (send env channel address content) ≡ true
    → (content' : Content) → send (accepting id env) channel address content' ≡ accepted id
unfolding send is_retriable
send-accepting env email address content id h content' = refl
send-accepting env sms address content id h content' = refl
send-accepting env push address content id h content' = absurd (cc h)
send-accepting env webhook address content id h content' = absurd (cc h)

deliver_to-passed :
    (env : Env) (cmd : NotificationCommand) (recipient : Option Recipient) (address : String)
    (db : Db)
    → Passes env cmd recipient address db
    → deliver_to env cmd recipient address db
      ≡ resolved
          (settle env cmd recipient address (result_of env cmd recipient cmd.channel address) db)
unfolding deliver_to
deliver_to-passed env cmd recipient address db (p, q, l, r) = simp (p, q, l, r) refl

deliver_to-sends :
    (env : Env) (cmd : NotificationCommand) (recipient : Option Recipient) (address : String)
    (db : Db) (id : Option String)
    → Passes env cmd recipient address db
    → result_of env cmd recipient cmd.channel address ≡ accepted id
    → (answer (deliver_to env cmd recipient address db).0 ≡ done)
      × ((deliver_to env cmd recipient address db).1.outbox ≡ (cmd.dedupe_key, address) ∷ db.outbox)
unfolding settle log answer
deliver_to-sends env cmd recipient address db id passes sends =
    rw (deliver_to-passed env cmd recipient address db passes) (rw sends (refl, ground arith))

deliver-sends :
    (env : Env) (cmd : NotificationCommand) (address : String) (db : Db) (id : Option String)
    → db.dedupe cmd.dedupe_key ≡ none
    → env.claim_ok ≡ true
    → address_of cmd (recipient_of env cmd) ≡ some address
    → Passes env cmd (recipient_of env cmd) address db
    → result_of env cmd (recipient_of env cmd) cmd.channel address ≡ accepted id
    → (answer (deliver env cmd db).0 ≡ done)
      × ((deliver env cmd db).1.outbox ≡ (cmd.dedupe_key, address) ∷ db.outbox)
deliver-sends env cmd address db id free ok found passes sends =
    rw (deliver-claimed env cmd db ok (ap (is_claimed env.now) free)) (
      rw found (
        deliver_to-sends env cmd (recipient_of env cmd) address (with_claim env cmd.dedupe_key db)
          id passes sends))

-- What a retriable failure of `deliver` leaves for the next attempt.
abbrev IsReadyAt : Env → NotificationCommand → String → Db → Type 0
IsReadyAt env cmd address db =
    (db.dedupe cmd.dedupe_key ≡ none)
    × (env.claim_ok ≡ true)
    × Passes env cmd (recipient_of env cmd) address db
    × (fails (result_of env cmd (recipient_of env cmd) cmd.channel address) ≡ true)

abbrev IsReady : Env → NotificationCommand → Db → Type 0
IsReady env cmd db =
    (address : String) × (address_of cmd (recipient_of env cmd) ≡ some address)
    × IsReadyAt env cmd address db

deliver_to-IsReadyAt :
    (env : Env) (cmd : NotificationCommand) (address : String) (db : Db) (reason : List ℕ)
    → env.release_ok ≡ true
    → env.claim_ok ≡ true
    → (deliver_to env cmd (recipient_of env cmd) address db).0 ≡ some (failed reason true)
    → IsReadyAt env cmd address (deliver_to env cmd (recipient_of env cmd) address db).1
deliver_to-IsReadyAt env cmd address db reason ok claims h =
    let recipient = recipient_of env cmd in
    let (passes, settled) = deliver_to-Passes env cmd recipient address db reason h in
    let (p, q, l, r) = passes in
    let res = result_of env cmd recipient cmd.channel address in
    let (free, fail) = settle-retriable env cmd recipient address res db reason ok settled in
    rw (deliver_to-passed env cmd recipient address db passes) (
      free,
      claims,
      (p, q, l, rw (settle-suppression_list env cmd recipient address res db) r),
      fail,
    )

deliver-IsReady :
    (env : Env) (cmd : NotificationCommand) (db : Db) (reason : List ℕ)
    → env.release_ok ≡ true
    → (deliver env cmd db).0 ≡ some (failed reason true)
    → IsReady env cmd (deliver env cmd db).1
deliver-IsReady env cmd db reason ok h = elim (deliver-cases env cmd db) [
  | inl taken ↦ absurd (cc (rw taken at h))
  | inr (inl (_, thrown_out)) ↦ absurd (cc (rw thrown_out at h))
  | inr (inr (inl (_, _, landed))) ↦ absurd (cc (rw landed at h))
  | inr (inr (inr (_, claims, made))) ↦
      rw made (elim (Option-cases (address_of cmd (recipient_of env cmd))) [
        | inl missing ↦ absurd (cc (rw (made, missing) at h))
        | inr (address, found) ↦ rw found (
          address,
          refl,
          deliver_to-IsReadyAt env cmd address (with_claim env cmd.dedupe_key db) reason ok claims
              (rw (made, found) at h),
        )
      ])
]

-- The message handled once more, with providers that accept, is sent and done with.
abbrev IsSent : NotificationCommand → Db → Handled × Db → Type 0
IsSent cmd db (handled, db') =
    (handled ≡ done) × ((address : String) × (db'.outbox ≡ (cmd.dedupe_key, address) ∷ db.outbox))

handle_command-retried :
    (env : Env) (cmd : Option NotificationCommand) (db : Db) (reason : List ℕ) (id : Option String)
    → env.release_ok ≡ true
    → (handle_command env cmd db).0 ≡ thrown_for reason
    → let db' = (handle_command env cmd db).1 in
      (c : NotificationCommand) × (cmd ≡ some c)
      × IsSent c db' (handle_command (accepting id env) cmd db')
unfolding recipient_of
handle_command-retried env none db reason id ok h = absurd (cc h)
handle_command-retried env (some cmd) db reason id ok h =
    let (address, found, (free, claims, passes, fail)) =
      deliver-IsReady env cmd db reason ok (answer-thrown (deliver env cmd db).0 reason h) in
    let recipient = recipient_of env cmd in
    let content = env.render cmd.template (locale_of cmd recipient) cmd.params in
    let (finished, added) =
      deliver-sends (accepting id env) cmd address (deliver env cmd db).1 id free claims found
        passes (send-accepting env cmd.channel address content id fail content) in
    (cmd, refl, (finished, (address, added)))

-- When handling a message throws its own error, for a delivery that failed in a retriable way, and
-- Cassandra has taken the release of its dedupe key, handling it once more, in the same circumstances but with providers that accept, sends exactly one message
-- under its key and is done with it.
pub each_message-retried :
    (env : Env) (m : Message) (db : Db) (reason : List ℕ) (id : Option String)
    → env.release_ok ≡ true
    → (each_message env m db).0 ≡ thrown_for reason
    → let db' = (each_message env m db).1 in
      (cmd : NotificationCommand) × (command_of m ≡ some cmd)
      × IsSent cmd db' (each_message (accepting id env) m db')
unfolding each_message
each_message-retried env m db reason id ok h =
    handle_command-retried env (command_of m) db reason id ok h
