-- ===== src/Tests/Notifications.antt =====
-- Deliveries at concrete data (services/notification-service/src/delivery.ts): an SMS that is
-- throttled once, and then sent by the retry.
use ecomerce_microservices_o.Prelude.{
  arith, ◌≤◌, ◌≡◌, refl, sym, ap, ◌∙◌, ◌⊎◌, Bool, true, false, String, List, [], ◌∷◌, none, some,
}
use ecomerce_microservices_o.Notification.Types.{
  Channel, sms, email, push, webhook, TemplateName, order_shipped, abandoned_cart,
  NotificationCommand, Recipient, Content, suppressed, quiet_hours,
}
use ecomerce_microservices_o.Notification.Delivery.{
  SendResult, accepted, thrown, Db, Env, deliver, address_of, recipient_of, send, is_retriable,
  claim_dedupe_key, release_dedupe_key, log, settle, deliver_to, is_transactional, in_quiet_hours,
  is_opted_out, is_claimed,
}
use ecomerce_microservices_o.Notification.Delivery.Once.{
  accepted_for, IsHonest, deliver_all, deliver_all-at_most_once,
}
use ecomerce_microservices_o.Notification.Delivery.Consent.{IsAllowed, deliver-outbox}

abbrev customer : Recipient
customer = record {
  user_id = "u1";
  email = none;
  phone = some "+201";
  locale = "ar-EG";
  email_opt_out = false;
  sms_opt_out = false;
  push_opt_out = false;
}

abbrev command : TemplateName → NotificationCommand
command template = record {
  channel = sms;
  user_id = some "u1";
  to = none;
  template = template;
  locale = "en-GB";
  params = [];
  dedupe_key = "order-1";
  send_after = none;
}

abbrev empty_db : Db
empty_db = record {
  dedupe = λ _. none;
  delivery_log = [];
  suppression_list = λ _. false;
  outbox = [];
}

-- SNS answers with `res`; it is 21:00 by UTC.
abbrev env_with : SendResult → Env
env_with res = record {
  now = 1000;
  claim_ok = true;
  claim_landed = false;
  lookup_ok = true;
  utc_hour = 21;
  load_recipient = λ _. some customer;
  render = λ _ _ _. record { subject = ""; html = ""; text = "on its way" };
  ses = λ _ _. res;
  sns = λ _ _. res;
  log_ok = true;
  release_ok = true;
}

abbrev throttled : SendResult
throttled = thrown (record { name = "ThrottlingException"; message = []; http_status = none }) false

abbrev run : List (Env × NotificationCommand)
run =
    (env_with throttled, command order_shipped)
    ∷ (env_with (accepted (some "m1")), command order_shipped)
    ∷ (env_with (accepted (some "m2")), command order_shipped)
    ∷ []

run_outbox : (deliver_all run empty_db).outbox ≡ ("order-1", "+201") ∷ []
unfolding deliver_all deliver claim_dedupe_key release_dedupe_key log settle deliver_to send
    is_retriable is_transactional address_of recipient_of
run_outbox = refl

quiet_run :
    (deliver (env_with throttled) (command abandoned_cart) empty_db).0
    ≡ some (suppressed quiet_hours)
unfolding deliver claim_dedupe_key log deliver_to is_transactional address_of recipient_of
    in_quiet_hours is_opted_out
quiet_run = refl

abbrev landed : SendResult → Bool
landed (accepted id) = false
landed (thrown err b) = b

-- SNS and SES both end with `res` here, and the other channels are not implemented.
send-landed :
    (res : SendResult) (channel : Channel) (address : String) (content : Content)
    → landed res ≡ false
    → landed (send (env_with res) channel address content) ≡ false
unfolding send
send-landed res email address content h = h
send-landed res sms address content h = h
send-landed res push address content h = refl
send-landed res webhook address content h = refl

env_with-IsHonest : (res : SendResult) → landed res ≡ false → IsHonest (env_with res)
env_with-IsHonest res h cmd address content err e =
    absurd (cc (sym (send-landed res cmd.channel address content h) ∙ ap landed e))

deliver_all-at_most_once_example : accepted_for "order-1" (deliver_all run empty_db).outbox ≤ 1
unfolding accepted_for
deliver_all-at_most_once_example =
    deliver_all-at_most_once 1000 "order-1" run empty_db
      (
        (omega arith, omega arith, env_with-IsHonest throttled refl),
        (
          (omega arith, omega arith, env_with-IsHonest (accepted (some "m1")) refl),
          ((omega arith, omega arith, env_with-IsHonest (accepted (some "m2")) refl), tt),
        ),
      )
      refl

deliver-outbox_example :
    ((deliver (env_with (accepted none)) (command order_shipped) empty_db).1.outbox ≡ [])
    ⊎ ((address : String) × (address_of
            (command order_shipped)
            (recipient_of (env_with (accepted none)) (command order_shipped))
          ≡ some address)
        × ((deliver (env_with (accepted none)) (command order_shipped) empty_db).1.outbox
            ≡ ("order-1", address) ∷ [])
        × (is_claimed 1000 (empty_db.dedupe "order-1") ≡ false)
        × (empty_db.suppression_list address ≡ false)
        × IsAllowed
            (env_with (accepted none))
            (command order_shipped)
            (recipient_of (env_with (accepted none)) (command order_shipped)))
deliver-outbox_example = deliver-outbox (env_with (accepted none)) (command order_shipped) empty_db
