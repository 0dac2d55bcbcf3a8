-- ===== src/Search.antt =====
-- The search box and the search page of the storefront
-- (apps/storefront/src/components/layout/search-box.tsx, app/search/page.tsx,
-- app/api/bff/suggest/route.ts and components/catalog/sort-select.tsx). Texts are character codes;
-- the encoding of a query in an address is left out.
pub mod Typing
pub mod Page
use ecomerce_microservices_o.Prelude.{
  ℕ, suc, ◌-◌, Bool, true, false, ◌&&◌, String, List, [], ◌∷◌, Option, none, some, ltb,
  if◌then◌else◌, str_eq, length, take,
}
use ecomerce_microservices_o.Cart.Codes.{trim_start, trim_end, code_eq}

abbrev pub Text : Type 0
Text = List ℕ

-- `s.trim()`
unfoldable pub trim : Text → Text
trim s = trim_end (trim_start s)

pub record Suggestion : Type 0 where
  pub text : Text
  pub kind : String
  pub product_id : Option String

-- The state of the box. `timer` is the query of the timer that runs, `live` that of the request in
-- flight that is not aborted, and `aborted` counts the aborted ones that have not ended.
pub record State : Type 0 where
  pub value : Text
  pub suggestions : List Suggestion
  pub is_open : Bool
  pub loading : Bool
  pub timer : Option Text
  pub live : Option Text
  pub aborted : ℕ

abbrev pub is_some : Option Text → Bool
is_some none = false
is_some (some q) = true

-- The clean-up of the effect.
abbrev pub abort_live : Option Text → ℕ → ℕ
abort_live none n = n
abort_live (some q) n = suc n

unfoldable pub clean_up : State → State
clean_up s = record s { timer = none; live = none; aborted = abort_live s.live s.aborted }

-- The effect, for the value as it is.
unfoldable pub effect : State → State
effect s =
    let query = trim s.value in
    if ltb (length query) 2
    then record s { suggestions = []; loading = false }
    else record s { timer = some query }

-- The first render, with the query of the address.
unfoldable pub mount : Text → State
unfolding effect
mount q = effect (record {
  value = q;
  suggestions = [];
  is_open = false;
  loading = false;
  timer = none;
  live = none;
  aborted = 0;
})

-- setValue, by the input or by a change of the address: the effect runs again where the value changed.
unfoldable pub set_value : Text → State → State
set_value v s = if code_eq v s.value then s else effect (clean_up (record s { value = v }))

-- The timer runs out.
abbrev pub start_request : Option Text → State → State
start_request none s = s
start_request (some q) s = record s { timer = none; live = some q; loading = true }

unfoldable pub timer_fired : State → State
timer_fired s = start_request s.timer s

abbrev pub is_nonempty : List Suggestion → Bool
is_nonempty [] = false
is_nonempty (_ ∷ _) = true

-- The request that is live ends: with suggestions, or with an error.
unfoldable pub answered : Option (List Suggestion) → State → State
answered (some found) s = record s {
  suggestions = found;
  is_open = is_nonempty found;
  loading = false;
  live = none;
}
answered none s = record s { suggestions = []; loading = false; live = none }

-- A request that was aborted ends with an AbortError.
unfoldable pub aborted_ended : State → State
aborted_ended s = record s { suggestions = []; loading = false; aborted = s.aborted - 1 }

-- onFocus, and what closes the list: Escape, a click outside, a suggestion that is chosen
abbrev pub focus : State → State
focus s = if is_nonempty s.suggestions then record s { is_open = true } else s

abbrev pub close : State → State
close s = record s { is_open = false }

-- The button that clears the box.
unfoldable pub clear : State → State
clear s = record (set_value [] s) { suggestions = [] }

pub data Location : Type 0 where
  everything : Location
  search_for : Text → Location
  product : String → Location

-- submit
unfoldable pub submit : State → Location × State
submit s =
    let query = trim s.value in (if is_empty query then everything else search_for query, close s)
  where
    is_empty : Text → Bool
    is_empty [] = true
    is_empty (_ ∷ _) = false

-- The suggestions that are listed, and where one leads.
unfoldable pub listed : State → List Suggestion
listed s = if s.is_open then take 8 s.suggestions else []

abbrev pub of_product : Suggestion → Option String → Location
of_product x none = search_for x.text
of_product x (some id) = if str_eq id "" then search_for x.text else product id

unfoldable pub location_of : Suggestion → Location
location_of x = if str_eq x.kind "product" then of_product x x.product_id else search_for x.text

-- GET /api/bff/suggest, with what search-service answers to a query (`none`: an error), and the
-- query of the address.
abbrev pub or_none : Option (List Suggestion) → List Suggestion
or_none none = []
or_none (some found) = found

unfoldable pub get_suggest : (Text → Option (List Suggestion)) → Option Text → List Suggestion
get_suggest service none = []
get_suggest service (some q) =
    if ltb (length (trim q)) 2 then [] else or_none (service (take 100 (trim q)))
