-- ===== src/Admin/Pages.antt =====
-- The pages of the admin app (apps/admin/src/app/page.tsx, orders/page.tsx, catalog/page.tsx and
-- dlq/page.tsx): the guard, the requests of the tables, and what the cells show. The schemas' answers
-- are arguments; markup is left out.
pub mod Guard
use ecomerce_microservices_o.Prelude.{
  ℕ, ◌+◌, Bool, true, false, ◌&&◌, ◌||◌, String, List, [], ◌∷◌, ◌++◌, Option, none, some, ltb, leb,
  ◌==◌, if◌then◌else◌, str_eq,
}
use ecomerce_microservices_o.Prelude.Codes.{parse_digits}
use ecomerce_microservices_o.Cart.Codes.{trim_start}
use ecomerce_microservices_o.Orders.{
  OrderStatus, confirmed, compensating, cancelled, delivered, refunded, shipped,
}
use ecomerce_microservices_o.Listing.{Params}
use ecomerce_microservices_o.Admin.Client.{
  Reason, AdminError, api, not_authorised, parse_error, Result, ok, err, Request, Env,
}
use ecomerce_microservices_o.Admin.Session.{AdminSession, Schemas, require_admin}

-- What a page comes to: the panel that says why one may not see it, an error, or its frame, with what
-- its table comes to.
pub data Page (A : Type 0) : Type 0 where
  unauthorised : Reason → Page A
  thrown : AdminError → Page A
  frame : Result A → Page A

module _ {J A : Type 0} (env : Env J) (schemas : Schemas J) where
  -- The table: it resolves the session once more, then makes its request.
  abbrev pub with_session :
      (AdminSession → List (Request J) → Result A × List (Request J))
      → Result AdminSession × List (Request J)
      → Result A × List (Request J)
  with_session content (err e, log) = (err e, log)
  with_session content (ok session, log) = content session log

  unfoldable pub table :
      Option String
      → (AdminSession → List (Request J) → Result A × List (Request J))
      → List (Request J)
      → Result A × List (Request J)
  table cookie content log = with_session content (require_admin env schemas cookie log)

  abbrev pub framed : Result A × List (Request J) → Page A × List (Request J)
  framed (r, log) = (frame r, log)

  abbrev pub guarded_page :
      Option String
      → (AdminSession → List (Request J) → Result A × List (Request J))
      → Result AdminSession × List (Request J)
      → Page A × List (Request J)
  guarded_page cookie content (err (not_authorised reason), log) = (unauthorised reason, log)
  guarded_page cookie content (err (api e), log) = (thrown (api e), log)
  guarded_page cookie content (err parse_error, log) = (thrown parse_error, log)
  guarded_page cookie content (ok session, log) = framed (table cookie content log)

  -- OverviewPage, OrdersPage, CatalogPage and DlqPageRoute
  unfoldable pub page :
      Option String
      → (AdminSession → List (Request J) → Result A × List (Request J))
      → List (Request J)
      → Page A × List (Request J)
  page cookie content log = guarded_page cookie content (require_admin env schemas cookie log)

-- What a table makes of the one result that it gathers: the panel that says it is unavailable, a note
-- that there is nothing, or its rows.
pub data Panel (A : Type 0) : Type 0 where
  unavailable : Panel A
  nothing : Panel A
  rows : List A → Panel A

unfoldable pub panel_of : {A : Type 0} → Option (List A) → Panel A
panel_of none = unavailable
panel_of (some []) = nothing
panel_of (some (x ∷ xs)) = rows (x ∷ xs)

-- `if (value) search.set(key, value)`
abbrev pub set_given : String → Option String → Params → Params
set_given key none ps = ps
set_given key (some v) ps = if str_eq v "" then ps else ps ++ (key, v) ∷ []

-- OrderTable
unfoldable pub order_query : Option String → Option String → Params
order_query status query = set_given "q" query (set_given "status" status (("limit", "50") ∷ []))

-- `Math.max(0, Number.parseInt(page ?? '0', 10) || 0)`
abbrev pub or_zero : Option ℕ → ℕ
or_zero none = 0
or_zero (some n) = n

abbrev pub signed_index : List ℕ → ℕ
signed_index [] = 0
signed_index (c ∷ s) =
    if c == b'-'
    then 0
    else if c == b'+'
    then or_zero (parse_digits s)
    else or_zero (parse_digits (c ∷ s))

unfoldable pub page_index : Option (List ℕ) → ℕ
page_index none = 0
page_index (some t) = signed_index (trim_start t)

-- ProductTable, with the text that `String` writes for a number
unfoldable pub product_query : (ℕ → String) → Option (List ℕ) → Option String → Params
unfolding page_index
product_query string_of page status =
    set_given "status" status (("size", "50") ∷ ("page", string_of (page_index page)) ∷ [])

pub data Tone : Type 0 where
  default secondary success destructive warning : Tone

-- stateTone
unfoldable pub state_tone : OrderStatus → Tone
state_tone cancelled = destructive
state_tone compensating = warning
state_tone refunded = warning
state_tone confirmed = success
state_tone delivered = success
state_tone shipped = default
state_tone _ = secondary

-- The stock of a product in the grid, from what is known of its variants.
pub data Stock : Type 0 where
  unknown : Stock
  known : ℕ → Bool → Stock

abbrev pub all_unknown : List (Option ℕ) → Bool
all_unknown [] = true
all_unknown (none ∷ vs) = all_unknown vs
all_unknown (some n ∷ vs) = false

abbrev pub any_unknown : List (Option ℕ) → Bool
any_unknown [] = false
any_unknown (none ∷ vs) = true
any_unknown (some n ∷ vs) = any_unknown vs

abbrev pub sum_known : List (Option ℕ) → ℕ
sum_known [] = 0
sum_known (none ∷ vs) = sum_known vs
sum_known (some n ∷ vs) = n + sum_known vs

unfoldable pub stock_of : List (Option ℕ) → Stock
stock_of vs = if all_unknown vs then unknown else known (sum_known vs) (any_unknown vs)

-- The tone of a figure of the overview.
pub data KpiTone : Type 0 where
  fine warn bad : KpiTone

abbrev pub band : ℕ → ℕ → ℕ → KpiTone
band low high n = if ltb n low then fine else if ltb n high then warn else bad

unfoldable pub stuck_tone : ℕ → KpiTone
stuck_tone n = if n == 0 then fine else bad

unfoldable pub dlq_tone : ℕ → KpiTone
dlq_tone n = band 1 10 n

unfoldable pub checkout_tone : ℕ → KpiTone
checkout_tone ms = band 5000 10000 ms

-- The burn of the error budget is counted in tenths of a percent.
unfoldable pub burn_tone : ℕ → KpiTone
burn_tone tenths = band 20 100 tenths
