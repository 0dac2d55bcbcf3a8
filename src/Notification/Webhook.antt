-- ===== src/Notification/Webhook.antt =====
-- The notifications of SES that arrive over SNS (services/notification-service/src/index.ts).
use ecomerce_microservices_o.Prelude.{
  Bool, true, false, String, List, [], ◌∷◌, Option, none, some, if◌then◌else◌, str_eq,
}
use ecomerce_microservices_o.Prelude.Store.{update}
use ecomerce_microservices_o.Notification.Delivery.{Db}

-- `message.bounce` and `message.complaint`, with the `emailAddress` of each recipient; a list that
-- is missing is empty.
pub record Bounce : Type 0 where
  pub bounce_type : Option String
  pub bounced_recipients : List String

pub record SesMessage : Type 0 where
  pub notification_type : Option String
  pub event_type : Option String
  pub bounce : Option Bounce
  pub complained_recipients : List String

-- `message` is `none` when the text in `body.Message` is not JSON of an object.
pub record SnsBody : Type 0 where
  pub sns_type : Option String
  pub message : Option SesMessage

abbrev pub is_text : String → Option String → Bool
is_text t none = false
is_text t (some s) = str_eq s t

abbrev pub type_of : SesMessage → Option String
type_of m = elim m.notification_type [ some t ↦ some t | none ↦ m.event_type ]

abbrev pub permanent_recipients : Option Bounce → List String
permanent_recipients none = []
permanent_recipients (some b) =
    if is_text "Permanent" b.bounce_type then b.bounced_recipients else []

-- The addresses that a notification suppresses.
unfoldable pub suppressed_by : SesMessage → List String
suppressed_by m =
    let bounced = permanent_recipients m.bounce in
    if is_text "Bounce" (type_of m)
    then bounced
    else if is_text "Complaint" (type_of m)
    then m.complained_recipients
    else []

-- INSERT INTO suppression_list, one address after the other until one is refused; `takes` says which
-- inserts Cassandra takes.
unfoldable pub suppress_all : (String → Bool) → List String → Db → Db
suppress_all takes [] db = db
suppress_all takes (a ∷ others) db =
    let rest =
      suppress_all takes others
        (record db { suppression_list = update db.suppression_list a true }) in
    if takes a then rest else db

unfoldable pub ses_message : (String → Bool) → Option SesMessage → Db → Db
ses_message takes none db = db
ses_message takes (some m) db = suppress_all takes (suppressed_by m) db

-- The handler of /v1/webhooks/ses, which answers 200 on every path.
unfoldable pub ses_webhook : (String → Bool) → SnsBody → Db → Db
ses_webhook takes body db =
    let processed = ses_message takes body.message db in
    if is_text "SubscriptionConfirmation" body.sns_type then db else processed
