-- ===== src/Notification/Consumer.antt =====
-- The consumer of the notification, order and payment topics
-- (services/notification-service/src/index.ts) and `templateExists` (src/templates.ts).
pub mod Reach
pub mod Retry
pub mod Lost
pub mod Address
use ecomerce_microservices_o.Prelude.{
  ℕ, Bool, true, false, String, List, [], ◌∷◌, ◌++◌, Option, none, some, if◌then◌else◌, str_eq,
  concat,
}
use ecomerce_microservices_o.Notification.Types.{
  Channel, email, TemplateName, order_confirmed, order_cancelled, order_shipped, order_delivered,
  payment_failed, payment_refunded, password_reset, email_verification, security_alert,
  abandoned_cart, back_in_stock, NotificationCommand, DeliveryOutcome, sent, suppressed, failed,
}
use ecomerce_microservices_o.Notification.Delivery.{Env, Db, deliver}

-- The `data` of an event: what the handled types carry. `total` and `amount` are the texts of
-- `total.amount` and `amount.amount`; the last seven are those of a notify command.
pub record EventData : Type 0 where
  pub user_id : Option String
  pub order_id : Option String
  pub reason_code : Option String
  pub carrier : Option String
  pub tracking_number : Option String
  pub payment_id : Option String
  pub refund_id : Option String
  pub total : Option String
  pub amount : Option String
  pub retriable : Bool
  pub channel : Channel
  pub to : Option String
  pub template : String
  pub locale : Option String
  pub params : List (String × String)
  pub dedupe_key : String
  pub send_after : Option String

-- A command whose template is only a name, which `eachMessage` checks before it delivers.
pub record Draft : Type 0 where
  pub template : String
  pub command : TemplateName → NotificationCommand

-- `${id}`
abbrev pub printed : Option String → String
printed none = "undefined"
printed (some s) = s

-- A parameter that is undefined is left out: the renderer shows both as nothing.
abbrev pub param : String → Option String → List (String × String)
param name none = []
param name (some value) = (name, value) ∷ []

abbrev pub locale_or : Option String → String
locale_or none = "en-GB"
locale_or (some l) = l

-- `{ ...base, template, params, dedupeKey }`
abbrev pub about : EventData → String → List (String × String) → String → Draft
about d template params dedupe_key = record {
  template = template;
  command = λ name. record {
    channel = email;
    user_id = d.user_id;
    to = none;
    template = name;
    locale = "en-GB";
    params = params ++ param "name" (some "there");
    dedupe_key = dedupe_key;
    send_after = none;
  };
}

abbrev pub notified : EventData → Draft
notified d = record {
  template = d.template;
  command = λ name. record {
    channel = d.channel;
    user_id = d.user_id;
    to = d.to;
    template = name;
    locale = locale_or d.locale;
    params = d.params;
    dedupe_key = d.dedupe_key;
    send_after = d.send_after;
  };
}

unfoldable pub to_command : String → EventData → Option Draft
to_command type d =
    if str_eq type "souq.order.confirmed.v1"
    then some (
        about d "order_confirmed" (param "orderRef" d.order_id ++ param "total" d.total)
          (concat "order_confirmed:" (printed d.order_id)))
    else if str_eq type "souq.order.cancelled.v1"
    then some (
        about d "order_cancelled" (param "orderRef" d.order_id ++ param "reason" d.reason_code)
          (concat "order_cancelled:" (printed d.order_id)))
    else if str_eq type "souq.order.shipped.v1"
    then some (
        about d "order_shipped"
          (param "orderRef" d.order_id
            ++ param "carrier" d.carrier
            ++ param "trackingNumber" d.tracking_number)
          (concat "order_shipped:" (printed d.order_id)))
    else if str_eq type "souq.payment.failed.v1"
    then if d.retriable
      then none
      else some (
          about d "payment_failed" (param "orderRef" d.order_id)
            (concat "payment_failed:" (printed d.payment_id)))
    else if str_eq type "souq.payment.refunded.v1"
    then some (
        about d "payment_refunded" (param "orderRef" d.order_id ++ param "amount" d.amount)
          (concat "payment_refunded:" (printed d.refund_id)))
    else if str_eq type "souq.notify.v1"
    then some (notified d)
    else none

-- templateExists, with the template that the name stands for.
unfoldable pub template_named : String → Option TemplateName
template_named name =
    if str_eq name "order_confirmed"
    then some order_confirmed
    else if str_eq name "order_cancelled"
    then some order_cancelled
    else if str_eq name "order_shipped"
    then some order_shipped
    else if str_eq name "order_delivered"
    then some order_delivered
    else if str_eq name "payment_failed"
    then some payment_failed
    else if str_eq name "payment_refunded"
    then some payment_refunded
    else if str_eq name "password_reset"
    then some password_reset
    else if str_eq name "email_verification"
    then some email_verification
    else if str_eq name "security_alert"
    then some security_alert
    else if str_eq name "abandoned_cart"
    then some abandoned_cart
    else if str_eq name "back_in_stock"
    then some back_in_stock
    else none

-- A message of Kafka: without a value, with one that is not JSON, or an envelope.
pub data Message : Type 0 where
  no_value : Message
  malformed : Message
  envelope : String → EventData → Message

-- How the handler ends: a throw, its own for a retriable failure or that of a delivery that is rejected,
-- makes kafkajs hand the message over again.
pub data Handled : Type 0 where
  done : Handled
  thrown_for : List ℕ → Handled
  rejected : Handled

abbrev pub checked : Draft → Option TemplateName → Option NotificationCommand
checked draft none = none
checked draft (some name) = some (draft.command name)

-- The command that a message asks for: none where the handler returns early.
unfoldable pub command_of : Message → Option NotificationCommand
command_of no_value = none
command_of malformed = none
command_of (envelope type d) = elim (to_command type d) [
  | none ↦ none
  | some draft ↦ checked draft (template_named draft.template)
]

unfoldable pub answer : Option DeliveryOutcome → Handled
answer none = rejected
answer (some (failed reason true)) = thrown_for reason
answer (some (failed reason false)) = done
answer (some _) = done

abbrev pub handle_command : Env → Option NotificationCommand → Db → Handled × Db
handle_command env none db = (done, db)
handle_command env (some cmd) db = let (outcome, db') = deliver env cmd db in (answer outcome, db')

-- eachMessage
unfoldable pub each_message : Env → Message → Db → Handled × Db
each_message env message db = handle_command env (command_of message) db
