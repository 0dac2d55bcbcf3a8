-- ===== src/Listing.antt =====
-- What the storefront's listing computes: the page links
-- (apps/storefront/src/components/catalog/pagination.tsx), the filters (catalog/facets.tsx), and the
-- saving and the query string of apps/storefront/src/lib/utils.ts. A `URLSearchParams` is the list of
-- its entries.
pub mod Filters
pub mod Bounds
use ecomerce_microservices_o.Prelude.{
  ℕ, suc, ◌+◌, ◌-◌, ◌*◌, ◌/◌, min, max, Bool, true, false, String, List, [], ◌∷◌, ◌++◌, Option,
  none, some, leb, ltb, ◌==◌, if◌then◌else◌, str_eq,
}

abbrev pub Params : Type 0
Params = List (String × String)

-- `getAll`
unfoldable pub get_all : String → Params → List String
get_all key [] = []
get_all key ((k, v) ∷ ps) = let rest = get_all key ps in if str_eq k key then v ∷ rest else rest

-- `delete`
unfoldable pub delete_key : String → Params → Params
delete_key key [] = []
delete_key key ((k, v) ∷ ps) =
    let rest = delete_key key ps in if str_eq k key then rest else (k, v) ∷ rest

-- `append`, for each value
abbrev pub append_all : String → List String → Params → Params
append_all key [] ps = ps
append_all key (v ∷ vs) ps = append_all key vs (ps ++ (key, v) ∷ [])

-- `current.filter((v) => v !== value)`
unfoldable pub without : String → List String → List String
without value [] = []
without value (v ∷ vs) = let rest = without value vs in if str_eq v value then rest else v ∷ rest

abbrev pub updated : String → Bool → List String → List String
updated value true current = current ++ value ∷ []
updated value false current = without value current

-- toggle: the parameters of the page that the router goes to
unfoldable pub toggle : String → String → Bool → Params → Params
toggle field value next params =
    delete_key "page"
      (append_all field (updated value next (get_all field params)) (delete_key field params))

-- `searchParams.get('q')`
abbrev pub first_of : List String → Option String
first_of [] = none
first_of (v ∷ vs) = some v

-- clearAll: `if (q)`, where an empty query is false too
unfoldable pub clear_all : Params → Params
clear_all params = elim (first_of (get_all "q" params)) [
  | none ↦ []
  | some q ↦ if str_eq q "" then [] else ("q", q) ∷ []
]

-- activeCount, on the `selected` of the values of each facet
abbrev pub count_selected : List Bool → ℕ
count_selected [] = 0
count_selected (true ∷ vs) = suc (count_selected vs)
count_selected (false ∷ vs) = count_selected vs

unfoldable pub active_count : List (List Bool) → ℕ
active_count [] = 0
active_count (facet ∷ facets) = count_selected facet + active_count facets

abbrev pub max_result_window : ℕ
max_result_window = 10000

-- `Math.ceil(n / size)`, for a size that is not 0
abbrev pub ceil_div : ℕ → ℕ → ℕ
ceil_div n size = (n + (size - 1)) / size

unfoldable pub last_page : ℕ → ℕ → ℕ
last_page total size = max 1 (ceil_div (min total max_result_window) size)

-- `params.set(key, value)` keeps the place of the first entry.
abbrev pub set_key : String → String → Params → Params
set_key key value [] = (key, value) ∷ []
set_key key value ((k, v) ∷ ps) =
    let later = (k, v) ∷ set_key key value ps in
    if str_eq k key then (key, value) ∷ delete_key key ps else later

-- href, for how a page number is written
unfoldable pub href : (ℕ → String) → ℕ → Params → Params
href written target params =
    if leb target 1 then delete_key "page" params else set_key "page" (written target) params

-- The links that are offered: the page before and the one after.
unfoldable pub links : ℕ → ℕ → ℕ → Option ℕ × Option ℕ
unfolding last_page
links page total size =
    let last = last_page total size in
    if leb last 1 then (none, none) else (
      if leb page 1 then none else some (page - 1),
      if leb last page then none else some (page + 1),
    )

-- discountPercent, on the amounts; the quotient is exact where the code rounds a floating-point one.
abbrev pub saved_percent : ℕ → ℕ → Option ℕ
saved_percent price list_price =
    let saved = (list_price - price) * 100 / list_price in if leb saved 0 then none else some saved

unfoldable pub discount_percent : ℕ → Option ℕ → Option ℕ
discount_percent price none = none
discount_percent price (some list_price) =
    if leb list_price price then none else saved_percent price list_price

-- A value that `toQuery` is given: nothing, one text (a number or a Boolean as `String` writes it),
-- or several.
pub data QueryValue : Type 0 where
  nothing : QueryValue
  one : String → QueryValue
  several : List String → QueryValue

abbrev pub add_values : String → List String → Params → Params
add_values key [] ps = ps
add_values key (v ∷ vs) ps =
    let added = add_values key vs (ps ++ (key, v) ∷ []) in
    let skipped = add_values key vs ps in if str_eq v "" then skipped else added

abbrev pub add_value : String → QueryValue → Params → Params
add_value key nothing ps = ps
add_value key (one v) ps = if str_eq v "" then ps else set_key key v ps
add_value key (several vs) ps = add_values key vs ps

-- toQuery, up to the encoding of the parameters
unfoldable pub to_query : List (String × QueryValue) → Params → Params
to_query [] ps = ps
to_query ((key, value) ∷ rest) ps = to_query rest (add_value key value ps)
