-- ===== src/Search/Page.antt =====
-- The search page (apps/storefront/src/app/search/page.tsx) and its control of the order
-- (components/catalog/sort-select.tsx), up to the encoding of the parameters. The text that `String`
-- writes for a number is an argument.
pub mod Query
use ecomerce_microservices_o.Prelude.{
  ℕ, max, Bool, true, false, ◌||◌, ◌&&◌, not, String, List, [], ◌∷◌, ◌++◌, Option, none, some, ◌==◌,
  if◌then◌else◌, str_eq, includes,
}
use ecomerce_microservices_o.Prelude.Codes.{codes, parse_digits}
use ecomerce_microservices_o.Cart.Codes.{trim_start}
use ecomerce_microservices_o.Listing.{
  Params, QueryValue, nothing, one, several, to_query, set_key, delete_key,
}

-- A parameter of the address that is present.
pub data ParamValue : Type 0 where
  single : String → ParamValue
  repeated : List String → ParamValue

abbrev pub SearchParams : Type 0
SearchParams = List (String × ParamValue)

abbrev pub reserved_params : List String
reserved_params =
    "q" ∷ "page" ∷ "size" ∷ "sort" ∷ "category" ∷ "priceMin" ∷ "priceMax" ∷ "inStockOnly" ∷ []

abbrev pub is_reserved : String → Bool
is_reserved key = includes key reserved_params

unfoldable pub lookup : String → SearchParams → Option ParamValue
lookup key [] = none
lookup key ((k, v) ∷ ps) = if str_eq k key then some v else lookup key ps

abbrev pub as_single : Option ParamValue → Option String
as_single none = none
as_single (some (single v)) = some v
as_single (some (repeated vs)) = none

-- `typeof params.key === 'string' ? params.key : undefined`
abbrev pub single_of : String → SearchParams → Option String
single_of key params = as_single (lookup key params)

abbrev pub or_text : Option String → String → String
or_text none other = other
or_text (some v) other = v

-- `Number.parseInt(t, 10) || 1`, and one at least
abbrev pub page_or_one : Option ℕ → ℕ
page_or_one none = 1
page_or_one (some n) = if n == 0 then 1 else n

abbrev pub signed_page : List ℕ → ℕ
signed_page [] = 1
signed_page (c ∷ s) =
    if c == b'-'
    then 1
    else if c == b'+'
    then page_or_one (parse_digits s)
    else page_or_one (parse_digits (c ∷ s))

unfoldable pub parsed_page : List ℕ → ℕ
parsed_page t = signed_page (trim_start t)

-- `String(params.page ?? '1')`, of which the number stands before the first comma.
abbrev pub page_text : Option ParamValue → List ℕ
page_text none = codes "1"
page_text (some (single v)) = codes v
page_text (some (repeated [])) = []
page_text (some (repeated (v ∷ vs))) = codes v ++ b',' ∷ []

unfoldable pub page_of : SearchParams → ℕ
page_of params = parsed_page (page_text (lookup "page" params))

abbrev pub values_of : ParamValue → List String
values_of (single v) = v ∷ []
values_of (repeated vs) = vs

-- filters
unfoldable pub filters : SearchParams → List (String × QueryValue)
filters [] = []
filters ((k, v) ∷ ps) =
    let rest = filters ps in if is_reserved k then rest else (k, several (values_of v)) ∷ rest

abbrev pub optional : Option String → QueryValue
optional none = nothing
optional (some v) = one v

abbrev pub in_stock_only : Option ParamValue → QueryValue
in_stock_only (some (single v)) = if str_eq v "true" then one "true" else nothing
in_stock_only _ = nothing

unfoldable pub fixed : (ℕ → String) → SearchParams → List (String × QueryValue)
fixed string_of params =
    ("q", one (or_text (single_of "q" params) ""))
    ∷ ("sort", one (or_text (single_of "sort" params) "relevance"))
    ∷ ("page", one (string_of (page_of params)))
    ∷ ("size", one (string_of 24))
    ∷ ("category", optional (single_of "category" params))
    ∷ ("inStockOnly", in_stock_only (lookup "inStockOnly" params))
    ∷ ("priceMin", optional (single_of "priceMin" params))
    ∷ ("priceMax", optional (single_of "priceMax" params))
    ∷ []

-- The parameters of the request to search-service.
unfoldable pub search_query : (ℕ → String) → SearchParams → Params
unfolding fixed
search_query string_of params = to_query (fixed string_of params ++ filters params) []

-- generateMetadata: which title, and whether the page is for an index
pub data Title : Type 0 where
  quoted : String → Title
  category_name : List ℕ → Title
  all_products : Title

abbrev pub with_spaces : List ℕ → List ℕ
with_spaces [] = []
with_spaces (c ∷ s) = (if c == b'-' then b' ' else c) ∷ with_spaces s

unfoldable pub title_of : SearchParams → Title
title_of params =
    let q = or_text (single_of "q" params) "" in
    let category = or_text (single_of "category" params) "" in
    if not (str_eq q "")
    then quoted q
    else if not (str_eq category "")
    then category_name (with_spaces (codes category))
    else all_products

unfoldable pub is_indexed : SearchParams → Bool
is_indexed [] = true
is_indexed ((k, v) ∷ ps) = not (not (is_reserved k) || str_eq k "page") && is_indexed ps

-- onChange of the sort control
unfoldable pub sort_by : String → Params → Params
sort_by next params = delete_key "page" (set_key "sort" next params)

-- EmptyResults: what is said, and where the suggestion leads.
pub data EmptyResults : Type 0 where
  did_you_mean : String → EmptyResults
  try_fewer_words : EmptyResults
  remove_filters : EmptyResults

abbrev no_suggestion : String → EmptyResults
no_suggestion query = if str_eq query "" then remove_filters else try_fewer_words

unfoldable pub empty_results : String → Option String → EmptyResults
empty_results query none = no_suggestion query
empty_results query (some suggestion) =
    if str_eq suggestion "" then no_suggestion query else did_you_mean suggestion
