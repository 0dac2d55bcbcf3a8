-- ===== src/Notification/Consumer/Address.antt =====
-- Events that carry no user (services/notification-service/src/index.ts).
use ecomerce_microservices_o.Prelude.{
  ◌≡◌, ◌≢◌, refl, inl, inr, Bool, true, false, String, List, Option, none, some, if◌then◌else◌,
  str_eq, str_eq_ne, str_eq_self, arith, Bool-cases,
}
use ecomerce_microservices_o.Notification.Types.{NotificationCommand, TemplateName, email}
use ecomerce_microservices_o.Notification.Delivery.{
  Db, Env, log, address_of, address_for, recipient_of, is_claimed,
}
use ecomerce_microservices_o.Notification.Delivery.Claim.{deliver-duplicate, deliver-claimed}
use ecomerce_microservices_o.Notification.Consumer.{
  EventData, Draft, about, to_command, template_named, checked, command_of, envelope, Handled, done,
  answer, handle_command, each_message,
}

-- A command by e-mail with neither an address nor a user.
abbrev pub IsUnaddressed : NotificationCommand → Type 0
IsUnaddressed cmd = (cmd.to ≡ none) × (cmd.user_id ≡ none) × (cmd.channel ≡ email)

abbrev DraftIsUnaddressed : Option Draft → Type 0
DraftIsUnaddressed none = Unit
DraftIsUnaddressed (some draft) = (name : TemplateName) → IsUnaddressed (draft.command name)

abbrev CommandIsUnaddressed : Option NotificationCommand → Type 0
CommandIsUnaddressed none = Unit
CommandIsUnaddressed (some cmd) = IsUnaddressed cmd

if-DraftIsUnaddressed :
    (b : Bool) (x y : Option Draft)
    → DraftIsUnaddressed x
    → DraftIsUnaddressed y
    → DraftIsUnaddressed (if b then x else y)
if-DraftIsUnaddressed true x y h k = h
if-DraftIsUnaddressed false x y h k = k

about-IsUnaddressed :
    (d : EventData) (template : String) (params : List (String × String)) (key : String)
    → d.user_id ≡ none
    → (name : TemplateName) → IsUnaddressed ((about d template params key).command name)
about-IsUnaddressed d template params key h name = (refl, h, refl)

to_command-IsUnaddressed :
    (type : String) (d : EventData)
    → type ≢ "souq.notify.v1"
    → d.user_id ≡ none
    → DraftIsUnaddressed (to_command type d)
unfolding to_command
to_command-IsUnaddressed type d other h = rw (str_eq_ne type "souq.notify.v1" other) (
    if-DraftIsUnaddressed (str_eq type "souq.order.confirmed.v1") _ _ (λ name. (refl, h, refl))
      (if-DraftIsUnaddressed (str_eq type "souq.order.cancelled.v1") _ _ (λ name. (refl, h, refl))
        (if-DraftIsUnaddressed (str_eq type "souq.order.shipped.v1") _ _ (λ name. (refl, h, refl))
          (if-DraftIsUnaddressed (str_eq type "souq.payment.failed.v1") _ _
            (if-DraftIsUnaddressed d.retriable _ _ tt (λ name. (refl, h, refl)))
            (if-DraftIsUnaddressed (str_eq type "souq.payment.refunded.v1") _ _
              (λ name. (refl, h, refl)) tt)))))

checked-IsUnaddressed :
    (draft : Draft) (name : Option TemplateName)
    → ((t : TemplateName) → IsUnaddressed (draft.command t))
    → CommandIsUnaddressed (checked draft name)
checked-IsUnaddressed draft none h = tt
checked-IsUnaddressed draft (some t) h = h t

command_of-IsUnaddressed :
    (type : String) (d : EventData)
    → type ≢ "souq.notify.v1"
    → d.user_id ≡ none
    → CommandIsUnaddressed (command_of (envelope type d))
unfolding command_of
command_of-IsUnaddressed type d other h =
    go (to_command type d) (to_command-IsUnaddressed type d other h)
  where
    go :
        (draft : Option Draft)
        → DraftIsUnaddressed draft
        → CommandIsUnaddressed
            (elim draft [ none ↦ none | some x ↦ checked x (template_named x.template) ])
    go none k = tt
    go (some x) k = checked-IsUnaddressed x (template_named x.template) k

address_of-none :
    (env : Env) (cmd : NotificationCommand)
    → IsUnaddressed cmd
    → address_of cmd (recipient_of env cmd) ≡ none
unfolding address_of recipient_of address_for
address_of-none env cmd (no_to, no_user, by_email) = ground arith

-- Nothing is sent and the message is done with; its dedupe key is spent.
abbrev IsLost : Env → Db → Option NotificationCommand → Handled × Db → Type 0
IsLost env db none (handled, db') = (handled ≡ done) × (db'.outbox ≡ db.outbox)
IsLost env db (some cmd) (handled, db') =
    (handled ≡ done)
    × (db'.outbox ≡ db.outbox)
    × (is_claimed env.now (db'.dedupe cmd.dedupe_key) ≡ true)

handle_command-IsLost :
    (env : Env) (cmd : Option NotificationCommand) (db : Db)
    → env.claim_ok ≡ true
    → CommandIsUnaddressed cmd
    → IsLost env db cmd (handle_command env cmd db)
unfolding log answer
handle_command-IsLost env none db ok h = (refl, refl)
handle_command-IsLost env (some cmd) db ok h =
    elim (Bool-cases (is_claimed env.now (db.dedupe cmd.dedupe_key))) [
      | inl taken ↦ rw (deliver-duplicate env cmd db ok taken) (refl, refl, taken)
      | inr free ↦
          rw (deliver-claimed env cmd db ok free)
            (rw (address_of-none env cmd h) (ground (arith, str_eq_self cmd.dedupe_key)))
    ]

-- An event other than a notify command that carries no user sends nothing and is done with, where the
-- claim of its key is answered; if it asks for a notification, the dedupe key of that is spent.
pub each_message-no_address :
    (env : Env) (type : String) (d : EventData) (db : Db)
    → env.claim_ok ≡ true
    → type ≢ "souq.notify.v1"
    → d.user_id ≡ none
    → IsLost env db (command_of (envelope type d)) (each_message env (envelope type d) db)
unfolding each_message
each_message-no_address env type d db ok other h =
    handle_command-IsLost env (command_of (envelope type d)) db ok
      (command_of-IsUnaddressed type d other h)
