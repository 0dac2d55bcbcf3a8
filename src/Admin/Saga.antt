-- ===== src/Admin/Saga.antt =====
-- The saga inspector of the admin app (apps/admin/src/components/saga-inspector.tsx) on the traces of
-- libs/ts-contracts/src/api.ts. Times are milliseconds; markup is left out.
pub mod Controls
pub mod Ages
use ecomerce_microservices_o.Prelude.{
  ℕ, suc, ◌-◌, ◌/◌, Bool, true, false, ◌&&◌, ◌||◌, not, String, List, [], ◌∷◌, ◌++◌, Option, none,
  some, ltb, leb, if◌then◌else◌, length, nat_eq,
}
use ecomerce_microservices_o.Orders.{
  OrderStatus, pending, stock_reserved, paid, stock_committed, confirmed, compensating, cancelled,
  shipped, delivered, refunded,
}

pub data StepName : Type 0 where
  reserve authorize commit capture release void : StepName

pub data StepState : Type 0 where
  not_started sent acked failed timed_out skipped : StepState

pub record Step : Type 0 where
  pub step : StepName
  pub state : StepState
  pub attempts : ℕ
  pub sent_at : Option ℕ
  pub acked_at : Option ℕ
  pub deadline_at : Option ℕ
  pub error : Option String
  pub event_id : Option String

pub record SagaTrace : Type 0 where
  pub order_id : String
  pub status : OrderStatus
  pub steps : List Step
  pub rollback_forbidden : Bool
  pub correlation_id : String
  pub started_at : ℕ

pub data Owner : Type 0 where
  inventory_service payment_service : Owner

pub record StepDetail : Type 0 where
  pub owner : Owner
  pub what : String
  pub reversible : Bool

-- STEP_DETAIL
unfoldable pub step_detail : StepName → StepDetail
step_detail reserve = record {
  owner = inventory_service;
  what = "Hold the stock";
  reversible = true;
}
step_detail authorize = record {
  owner = payment_service;
  what = "Ring-fence the funds";
  reversible = true;
}
step_detail commit = record {
  owner = inventory_service;
  what = "Deduct the stock";
  reversible = false;
}
step_detail capture = record {
  owner = payment_service;
  what = "Take the money";
  reversible = false;
}
step_detail release = record {
  owner = inventory_service;
  what = "Return the stock";
  reversible = true;
}
step_detail void = record { owner = payment_service; what = "Release the funds"; reversible = true }

-- PAST_NO_RETURN
unfoldable pub is_past_no_return : OrderStatus → Bool
is_past_no_return paid = true
is_past_no_return stock_committed = true
is_past_no_return confirmed = true
is_past_no_return _ = false

abbrev pub same_step : StepName → StepName → Bool
same_step reserve reserve = true
same_step authorize authorize = true
same_step commit commit = true
same_step capture capture = true
same_step release release = true
same_step void void = true
same_step _ _ = false

-- byStep: the last step of the trace with the name.
unfoldable pub by_step : StepName → List Step → Option Step
by_step name [] = none
by_step name (s ∷ ss) =
    let rest = by_step name ss in
    elim rest [ none ↦ if same_step s.step name then some s else none | some t ↦ some t ]

abbrev pub is_sent : StepState → Bool
is_sent sent = true
is_sent _ = false

abbrev pub is_failed : StepState → Bool
is_failed failed = true
is_failed _ = false

abbrev pub is_over : ℕ → Option ℕ → Bool
is_over now none = false
is_over now (some deadline) = ltb deadline now

unfoldable pub is_overdue : ℕ → Step → Bool
is_overdue now s = is_sent s.state && is_over now s.deadline_at

unfoldable pub overdue : ℕ → List Step → List Step
unfolding is_overdue
overdue now [] = []
overdue now (s ∷ ss) = let rest = overdue now ss in if is_overdue now s then s ∷ rest else rest

abbrev pub is_cancelled : OrderStatus → Bool
is_cancelled cancelled = true
is_cancelled _ = false

abbrev pub is_compensating : OrderStatus → Bool
is_compensating compensating = true
is_compensating _ = false

unfoldable pub past_no_return : SagaTrace → Bool
past_no_return t = t.rollback_forbidden || is_past_no_return t.status

-- Is the cancel control there?
unfoldable pub offers_cancel : Bool → SagaTrace → Bool
offers_cancel can_act t = can_act && not (past_no_return t) && not (is_cancelled t.status)

-- The notices: of the point of no return, of one step that is waited for, or of several.
pub data Notice : Type 0 where
  cannot_roll_back : Notice
  waiting_on : StepName → Notice
  several_overdue : ℕ → Notice

abbrev pub overdue_notice : List Step → List Notice
overdue_notice [] = []
overdue_notice (s ∷ []) = waiting_on s.step ∷ []
overdue_notice (s ∷ t ∷ ss) = several_overdue (length (s ∷ t ∷ ss)) ∷ []

unfoldable pub notices : ℕ → SagaTrace → List Notice
unfolding past_no_return
notices now t =
    if past_no_return t then cannot_roll_back ∷ [] else overdue_notice (overdue now t.steps)

-- StepRow, with its place on the forward path
pub record Row : Type 0 where
  pub index : Option ℕ
  pub name : StepName
  pub step : Option Step
  pub reversible : Bool
  pub can_retry : Bool

abbrev pub has_failed : Option Step → Bool
has_failed none = false
has_failed (some s) = is_failed s.state

abbrev pub forward_row : Bool → List Step → ℕ → StepName → Row
forward_row can_act steps index name = record {
  index = some index;
  name = name;
  step = by_step name steps;
  reversible = (step_detail name).reversible;
  can_retry = can_act && has_failed (by_step name steps);
}

-- The forward path, with the boundary before the third row.
unfoldable pub forward_rows : Bool → List Step → List Row
unfolding by_step step_detail
forward_rows can_act steps =
    forward_row can_act steps 1 reserve
    ∷ forward_row can_act steps 2 authorize
    ∷ forward_row can_act steps 3 commit
    ∷ forward_row can_act steps 4 capture
    ∷ []

abbrev pub compensation_row : Bool → StepName → Option Step → List Row
compensation_row can_act name none = []
compensation_row can_act name (some s) =
    record {
      index = none;
      name = name;
      step = some s;
      reversible = true;
      can_retry = can_act && is_failed s.state;
    }
    ∷ []

unfoldable pub compensation_rows : Bool → List Step → List Row
unfolding by_step
compensation_rows can_act steps =
    compensation_row can_act release (by_step release steps)
    ++ compensation_row can_act void (by_step void steps)

abbrev pub has_step : Option Step → Bool
has_step none = false
has_step (some s) = true

unfoldable pub shows_compensation : SagaTrace → Bool
unfolding by_step
shows_compensation t =
    is_compensating t.status
    || has_step (by_step release t.steps)
    || has_step (by_step void t.steps)

pub data Icon : Type 0 where
  check cross clock spinner ban circle : Icon

-- StepIcon
unfoldable pub icon_of : StepState → Bool → Icon
icon_of acked late = check
icon_of failed late = cross
icon_of timed_out late = clock
icon_of sent true = clock
icon_of sent false = spinner
icon_of skipped true = clock
icon_of skipped false = ban
icon_of not_started true = clock
icon_of not_started false = circle

pub data Variant : Type 0 where
  default destructive outline secondary : Variant

-- StatusBadge
unfoldable pub badge_of : OrderStatus → Variant
badge_of confirmed = default
badge_of delivered = default
badge_of cancelled = destructive
badge_of refunded = destructive
badge_of compensating = outline
badge_of _ = secondary

pub data Age : Type 0 where
  just_now : Age
  seconds_ago minutes_ago hours_ago days_ago : ℕ → Age

-- formatRelative, of the seconds that have passed; a time to come is "just now".
unfoldable pub age_of : ℕ → Age
age_of seconds =
    if ltb seconds 5
    then just_now
    else if ltb seconds 60
    then seconds_ago seconds
    else if ltb seconds 3600
    then minutes_ago (seconds / 60)
    else if ltb seconds 86400
    then hours_ago (seconds / 3600)
    else days_ago (seconds / 86400)

unfoldable pub format_relative : ℕ → ℕ → Age
unfolding age_of
format_relative now at = age_of ((now - at) / 1000)
