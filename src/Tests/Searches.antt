-- ===== src/Tests/Searches.antt =====
-- The search box and the search page at concrete data
-- (apps/storefront/src/components/layout/search-box.tsx, app/search/page.tsx).
use ecomerce_microservices_o.Prelude.{ℕ, ◌≡◌, refl, String, List, [], ◌∷◌}
use ecomerce_microservices_o.Prelude.Codes.{codes}
use ecomerce_microservices_o.Listing.{get_all}
use ecomerce_microservices_o.Search.{State, mount}
use ecomerce_microservices_o.Search.Typing.{
  Event, typed, fired, abort_ended, IsCurrent, IsBusy, happen_all, happen_all-IsCurrent,
}
use ecomerce_microservices_o.Search.Page.{SearchParams, single, repeated, search_query}
use ecomerce_microservices_o.Search.Page.Query.{all_values, nonempty, search_query-filters}

-- "sony" is typed while the request for "so" is in flight.
abbrev keys : List Event
keys = fired ∷ typed (codes "sony") ∷ abort_ended ∷ fired ∷ []

abbrev box : State
box = happen_all keys (mount (codes "so"))

happen_all-IsCurrent_example :
    IsCurrent box.value box.timer
    × IsCurrent box.value box.live
    × IsBusy box.loading box.live box.aborted
happen_all-IsCurrent_example = happen_all-IsCurrent (codes "so") keys

abbrev address : SearchParams
address =
    ("q", single "tv") ∷ ("brand", repeated ("sony" ∷ "" ∷ "lg" ∷ [])) ∷ ("page", single "2") ∷ []

abbrev one_digit : ℕ → String
one_digit _ = "1"

search_query-filters_example :
    get_all "brand" (search_query one_digit address) ≡ nonempty (all_values "brand" address)
search_query-filters_example = search_query-filters one_digit "brand" address refl

values_run : nonempty (all_values "brand" address) ≡ "sony" ∷ "lg" ∷ []
unfolding all_values
values_run = refl
