-- ===== src/Notification/Types.antt =====
-- The data of notification delivery (services/notification-service/src/delivery.ts, templates.ts).
use ecomerce_microservices_o.Prelude.{ℕ, Bool, String, List, Option}

pub data Channel : Type 0 where
  email sms push webhook : Channel

pub data TemplateName : Type 0 where
  order_confirmed order_cancelled order_shipped order_delivered : TemplateName
  payment_failed payment_refunded : TemplateName
  password_reset email_verification security_alert : TemplateName
  abandoned_cart back_in_stock : TemplateName

pub record NotificationCommand : Type 0 where
  pub channel : Channel
  pub user_id : Option String
  pub to : Option String
  pub template : TemplateName
  pub locale : String
  pub params : List (String × String)
  pub dedupe_key : String
  pub send_after : Option String

pub record Recipient : Type 0 where
  pub user_id : String
  pub email : Option String
  pub phone : Option String
  pub locale : String
  pub email_opt_out : Bool
  pub sms_opt_out : Bool
  pub push_opt_out : Bool

pub data SuppressionReason : Type 0 where
  duplicate opted_out no_address hard_bounced quiet_hours rate_limited : SuppressionReason

-- An error's text, as character codes.
pub data DeliveryOutcome : Type 0 where
  sent : String → DeliveryOutcome
  suppressed : SuppressionReason → DeliveryOutcome
  failed : List ℕ → Bool → DeliveryOutcome

pub record Content : Type 0 where
  pub subject : String
  pub html : String
  pub text : String

-- What an SDK throws: `name`, `message` and `$metadata.httpStatusCode`.
pub record SendError : Type 0 where
  pub name : String
  pub message : List ℕ
  pub http_status : Option ℕ

-- A row of `delivery_log`.
pub record LogEntry : Type 0 where
  pub user_id : String
  pub channel : Channel
  pub template : TemplateName
  pub outcome : DeliveryOutcome
  pub dedupe_key : String
