-- ===== src/Account/Enrolment.antt =====
-- Enrolment of a second factor (apps/storefront/src/components/auth/mfa-enrolment.tsx): the state of
-- MfaEnrolment, what it shows, and the events of its buttons and answers, each of which does nothing
-- where the page does not offer it.
pub mod Kept
use ecomerce_microservices_o.Prelude.{
  ℕ, Bool, true, false, ◌&&◌, not, String, List, [], ◌∷◌, Option, none, some, leb, ◌==◌,
  if◌then◌else◌, length,
}
use ecomerce_microservices_o.Account.{Text, Outcome, answered, refused, thrown}
use ecomerce_microservices_o.ApiClient.{UserMessage, user_message}

pub record EnrolStart : Type 0 where
  pub secret : Text
  pub uri : Text

-- The text of an alert: the fallback of `start`, that of `confirm`, or the message of an ApiError.
pub data Fault : Type 0 where
  not_started : Fault
  not_accepted : Fault
  of_api : UserMessage → Fault

-- The request that waits for its answer: `busy` is true while there is one.
pub data Request : Type 0 where
  starting : Request
  confirming : Text → Request

pub record Enrolment : Type 0 where
  pub enrolment : Option EnrolStart
  pub code : Text
  pub recovery_codes : Option (List Text)
  pub acknowledged : Bool
  pub error : Option Fault
  pub pending : Option Request

unfoldable pub mounted : Enrolment
mounted = record {
  enrolment = none;
  code = [];
  recovery_codes = none;
  acknowledged = false;
  error = none;
  pending = none;
}

abbrev pub is_busy : Option Request → Bool
is_busy none = false
is_busy (some r) = true

-- What the session provider says: a profile is being read, there is none, or there is one with
-- `mfaEnabled`.
pub data SessionState : Type 0 where
  loading : SessionState
  absent : SessionState
  present : Bool → SessionState

-- What is rendered, with what its buttons need.
pub data View : Type 0 where
  skeleton : View
  sign_in : View
  is_on : View
  codes_shown : List Text → Bool → View
  set_up : Option Fault → Bool → View
  enter_code : Option Fault → Text → Bool → View

abbrev pub enrol_view : Option EnrolStart → Enrolment → View
enrol_view none s = set_up s.error (not (is_busy s.pending))
enrol_view (some e) s = enter_code s.error e.secret (not (is_busy s.pending) && length s.code == 6)

abbrev pub view_held : Bool → Option (List Text) → Enrolment → View
view_held enabled (some codes) s = codes_shown codes s.acknowledged
view_held true none s = is_on
view_held false none s = enrol_view s.enrolment s

unfoldable pub view : SessionState → Enrolment → View
view loading s = skeleton
view absent s = sign_in
view (present enabled) s = view_held enabled s.recovery_codes s

-- start and confirm, up to their answers
abbrev pub start : Enrolment → Enrolment
start s = record s { error = none; pending = some starting }

abbrev pub confirm : Enrolment → Enrolment
confirm s = record s { error = none; pending = some (confirming s.code) }

-- start and confirm, from their answers
abbrev pub take_start : Outcome EnrolStart → Enrolment → Enrolment
take_start (answered e) s = record s { enrolment = some e }
take_start (refused e) s = record s { error = some (of_api (user_message e)) }
take_start thrown s = record s { error = some not_started }

abbrev pub started : Outcome EnrolStart → Enrolment → Enrolment
started o s = record (take_start o s) { pending = none }

abbrev pub take_confirm : Outcome (List Text) → Enrolment → Enrolment
take_confirm (answered codes) s = record s { recovery_codes = some codes; code = [] }
take_confirm (refused e) s = record s { error = some (of_api (user_message e)) }
take_confirm thrown s = record s { error = some not_accepted }

abbrev pub confirmed : Outcome (List Text) → Enrolment → Enrolment
confirmed o s = record (take_confirm o s) { pending = none }

-- onChange of the code, which keeps its digits.
unfoldable pub digits_of : Text → Text
digits_of [] = []
digits_of (c ∷ s) = let rest = digits_of s in if leb 48 c && leb c 57 then c ∷ rest else rest

-- What the controls of the page do, and the events: an action on a control, or an answer.
pub data Action : Type 0 where
  clicks_start : Action
  types_code : Text → Action
  submits : Action
  cancels : Action
  ticks : Bool → Action
  clicks_done : Action

pub data Event : Type 0 where
  acts : Action → Event
  start_ends : Outcome EnrolStart → Event
  confirm_ends : Outcome (List Text) → Event

-- An action, in the page that is shown.
abbrev pub act : View → Action → Enrolment → Enrolment
act (set_up e true) clicks_start s = start s
act (enter_code e secret ready) (types_code t) s = record s { code = digits_of t }
act (enter_code e secret true) submits s = confirm s
act (enter_code e secret ready) cancels s = record s { enrolment = none }
act (codes_shown codes a) (ticks b) s = record s { acknowledged = b }
act (codes_shown codes true) clicks_done s = record s { recovery_codes = none }
act v a s = s

-- An answer ends the request that waits for it.
abbrev pub start_ended : Option Request → Outcome EnrolStart → Enrolment → Enrolment
start_ended (some starting) o s = started o s
start_ended (some (confirming t)) o s = s
start_ended none o s = s

abbrev pub confirm_ended : Option Request → Outcome (List Text) → Enrolment → Enrolment
confirm_ended (some (confirming t)) o s = confirmed o s
confirm_ended (some starting) o s = s
confirm_ended none o s = s

unfoldable pub happen : SessionState → Event → Enrolment → Enrolment
happen session (acts a) s = act (view session s) a s
happen session (start_ends o) s = start_ended s.pending o s
happen session (confirm_ends o) s = confirm_ended s.pending o s

-- A history: the events in their order, each with the session that it meets.
unfoldable pub happen_all : List (SessionState × Event) → Enrolment → Enrolment
happen_all [] s = s
happen_all ((session, e) ∷ es) s = happen_all es (happen session e s)
