-- ===== src/Tests/Consumers.antt =====
-- The consumer, the webhook and the recipients at concrete data
-- (services/notification-service/src/index.ts and templates.ts).
use ecomerce_microservices_o.Prelude.{arith, ◌≡◌, refl, true, false, String, [], ◌∷◌, none, some}
use ecomerce_microservices_o.Prelude.Codes.{codes}
use ecomerce_microservices_o.Notification.Templates.{
  Translations, pick, exact, same_language, text_eq, escaped,
}
use ecomerce_microservices_o.Notification.Templates.Escape.{each_once, escaped-each_once}
use ecomerce_microservices_o.Notification.Types.{email, Recipient, NotificationCommand}
use ecomerce_microservices_o.Notification.Delivery.{
  SendResult, accepted, thrown, Db, Env, deliver, claim_dedupe_key, deliver_to, settle, send, log,
  release_dedupe_key, is_retriable, recipient_of, address_of, is_transactional,
}
use ecomerce_microservices_o.Notification.Recipients.{answered, refused, Lookup, Cache}
use ecomerce_microservices_o.Notification.Webhook.{SnsBody, SesMessage, suppressed_by}
use ecomerce_microservices_o.Notification.Consumer.{
  EventData, Message, envelope, done, thrown_for, rejected, each_message, command_of, to_command,
  template_named, answer,
}
use ecomerce_microservices_o.Notification.Consumer.Reach.{
  message, ses, handle_all, sent_to, handle_all-suppressed,
}
use ecomerce_microservices_o.Notification.Consumer.Lost.{each_message-lost}
use ecomerce_microservices_o.Notification.Consumer.Retry.{accepting, each_message-retried}

abbrev known : Recipient
known = record {
  user_id = "u1";
  email = some "a@b.c";
  phone = none;
  locale = "en-GB";
  email_opt_out = false;
  sms_opt_out = false;
  push_opt_out = false;
}

-- A recipient found at 0; at 60001 identity-service answers 503, and at 60002 it would answer again.
abbrev old_cache : Cache
old_cache _ = some (record { r = some known; at = 0 })

abbrev down : String → Lookup
down _ = refused

abbrev up : String → Lookup
up _ = answered known

abbrev event : EventData
event = record {
  user_id = some "u1";
  order_id = some "ord_1";
  reason_code = none;
  carrier = none;
  tracking_number = none;
  payment_id = none;
  refund_id = none;
  total = some "100";
  amount = none;
  retriable = false;
  channel = email;
  to = none;
  template = "";
  locale = none;
  params = [];
  dedupe_key = "";
  send_after = none;
}

abbrev confirmed_event : Message
confirmed_event = envelope "souq.order.confirmed.v1" event

abbrev env_with : SendResult → Env
env_with res = record {
  now = 1000;
  claim_ok = true;
  claim_landed = false;
  lookup_ok = true;
  utc_hour = 12;
  load_recipient = λ _. some known;
  render = λ _ _ _. record { subject = ""; html = ""; text = "" };
  ses = λ _ _. res;
  sns = λ _ _. res;
  log_ok = true;
  release_ok = true;
}

abbrev throttled : SendResult
throttled = thrown (record { name = "ThrottlingException"; message = []; http_status = none }) false

abbrev empty_db : Db
empty_db = record {
  dedupe = λ _. none;
  delivery_log = [];
  suppression_list = λ _. false;
  outbox = [];
}

throttled_run : (each_message (env_with throttled) confirmed_event empty_db).0 ≡ thrown_for []
unfolding each_message command_of to_command template_named deliver claim_dedupe_key deliver_to
    settle send log release_dedupe_key is_retriable recipient_of address_of is_transactional answer
throttled_run = refl

each_message-retried_example :
    let db' = (each_message (env_with throttled) confirmed_event empty_db).1 in
    (cmd : NotificationCommand) × (command_of confirmed_event ≡ some cmd)
    × (((each_message (accepting (some "m1") (env_with throttled)) confirmed_event db').0 ≡ done)
        × ((address : String) × ((each_message
                (accepting (some "m1") (env_with throttled))
                confirmed_event
                db').1.outbox
              ≡ (cmd.dedupe_key, address) ∷ db'.outbox)))
each_message-retried_example =
    each_message-retried (env_with throttled) confirmed_event empty_db [] (some "m1") refl
      throttled_run

-- The suppression list cannot be read, and the message is handled again a second later.
abbrev unread : Env
unread = record (env_with (accepted none)) { lookup_ok = false }

abbrev second_later : Env
second_later = record (env_with (accepted none)) { now = 2000 }

unread_run : (each_message unread confirmed_event empty_db).0 ≡ rejected
unfolding each_message command_of to_command template_named deliver claim_dedupe_key deliver_to
    recipient_of address_of is_transactional answer
unread_run = refl

each_message-lost_example :
    let db' = (each_message unread confirmed_event empty_db).1 in
    (db'.outbox ≡ []) × (each_message second_later confirmed_event db' ≡ (done, db'))
each_message-lost_example =
    each_message-lost unread second_later confirmed_event empty_db refl refl (omega arith)
      unread_run

-- An order.shipped event has no user in its contract.
abbrev shipped : EventData
shipped = record event { user_id = none; carrier = some "DHL" }

abbrev bounced : SesMessage
bounced = record {
  notification_type = some "Bounce";
  event_type = none;
  bounce = some (record { bounce_type = some "Permanent"; bounced_recipients = "a@b.c" ∷ [] });
  complained_recipients = [];
}

abbrev bounce_body : SnsBody
bounce_body = record { sns_type = some "Notification"; message = some bounced }

bounced_addresses : suppressed_by bounced ≡ "a@b.c" ∷ []
unfolding suppressed_by
bounced_addresses = refl

handle_all-suppressed_example :
    let later = message (env_with (accepted none)) confirmed_event ∷ [] in
    sent_to "a@b.c" (handle_all (ses (λ _. true) bounce_body ∷ later) empty_db).outbox
    ≡ sent_to "a@b.c" []
unfolding suppressed_by
handle_all-suppressed_example =
    handle_all-suppressed "a@b.c" bounce_body bounced
      (message (env_with (accepted none)) confirmed_event ∷ []) empty_db refl refl refl

-- A bare language finds the text of its region, and an unknown one the English text.
abbrev greetings : Translations
greetings = (codes "en-GB", codes "Hello") ∷ (codes "ar-EG", codes "Ahlan") ∷ []

picked :
    (pick (codes "ar") greetings ≡ some (codes "Ahlan"))
    × (pick (codes "fr-FR") greetings ≡ some (codes "Hello"))
unfolding pick exact same_language text_eq
picked = (refl, refl)

escaped-each_once_example : escaped (codes "a<b & c") ≡ each_once (codes "a<b & c")
escaped-each_once_example = escaped-each_once (codes "a<b & c")
