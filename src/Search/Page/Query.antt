-- ===== src/Search/Page/Query.antt =====
-- The filters of the search page on their way to search-service
-- (apps/storefront/src/app/search/page.tsx and lib/utils.ts).
use ecomerce_microservices_o.Prelude.{
  ℕ, ◌≡◌, ◌≢◌, refl, sym, ap, ◌∙◌, false, true, String, List, [], ◌∷◌, ◌++◌, str_eq, str_eq_self,
  str_eq_ne, str_ne, includes, arith, eq_iff, inl, inr, Bool-cases, All, if◌then◌else◌,
}
use ecomerce_microservices_o.Listing.{
  Params, QueryValue, nothing, one, several, get_all, add_values, add_value, set_key, to_query,
}
use ecomerce_microservices_o.Listing.Filters.{
  get_all-append, get_all-delete_ne, append_assoc, append_nil,
}
use ecomerce_microservices_o.Search.Page.{
  SearchParams, values_of, is_reserved, reserved_params, filters, fixed, search_query,
}

abbrev pub nonempty : List String → List String
nonempty [] = []
nonempty (v ∷ vs) = let rest = nonempty vs in if str_eq v "" then rest else v ∷ rest

-- All that the address has under a key.
unfoldable pub all_values : String → SearchParams → List String
all_values key [] = []
all_values key ((k, v) ∷ ps) =
    let rest = all_values key ps in if str_eq k key then values_of v ++ rest else rest

get_all-set_ne :
    (key other v : String) (ps : Params)
    → key ≢ other
    → get_all key (set_key other v ps) ≡ get_all key ps
unfolding get_all
get_all-set_ne key other v [] h = ground (arith, eq_iff other key)
get_all-set_ne key other v ((k, w) ∷ ps) h = ground (
  arith,
  eq_iff k other,
  eq_iff k key,
  eq_iff other key,
  get_all-set_ne key other v ps h,
  get_all-delete_ne key other ps h,
)

get_all-add_values_ne :
    (key other : String) (vs : List String) (ps : Params)
    → key ≢ other
    → get_all key (add_values other vs ps) ≡ get_all key ps
unfolding get_all
get_all-add_values_ne key other [] ps h = refl
get_all-add_values_ne key other (v ∷ vs) ps h = elim (Bool-cases (str_eq v "")) [
  | inl empty ↦ rw empty (get_all-add_values_ne key other vs ps h)
  | inr full ↦ rw full (
      get_all-add_values_ne key other vs (ps ++ (other, v) ∷ []) h
      ∙ get_all-append key ps ((other, v) ∷ [])
      ∙ rw (str_eq_ne other key (λ e. h (sym e))) (append_nil (get_all key ps)))
]

get_all-add_values_self :
    (key : String) (vs : List String) (ps : Params)
    → get_all key (add_values key vs ps) ≡ get_all key ps ++ nonempty vs
unfolding get_all
get_all-add_values_self key [] ps = sym (append_nil (get_all key ps))
get_all-add_values_self key (v ∷ vs) ps = elim (Bool-cases (str_eq v "")) [
  | inl empty ↦ rw empty (get_all-add_values_self key vs ps)
  | inr full ↦ rw full (
      get_all-add_values_self key vs (ps ++ (key, v) ∷ [])
      ∙ rw (get_all-append key ps ((key, v) ∷ []))
          (rw (str_eq_self key) (append_assoc (get_all key ps) (v ∷ []) (nonempty vs))))
]

get_all-add_value_ne :
    (key other : String) (v : QueryValue) (ps : Params)
    → key ≢ other
    → get_all key (add_value other v ps) ≡ get_all key ps
get_all-add_value_ne key other nothing ps h = refl
get_all-add_value_ne key other (one v) ps h = elim (Bool-cases (str_eq v "")) [
  | inl empty ↦ rw empty refl
  | inr full ↦ rw full (get_all-set_ne key other v ps h)
]
get_all-add_value_ne key other (several vs) ps h = get_all-add_values_ne key other vs ps h

get_all-to_query_ne :
    (key : String) (xs : List (String × QueryValue)) (ps : Params)
    → All (λ x. key ≢ x.0) xs
    → get_all key (to_query xs ps) ≡ get_all key ps
unfolding to_query
get_all-to_query_ne key [] ps h = refl
get_all-to_query_ne key ((k, v) ∷ xs) ps (ne, h) =
    get_all-to_query_ne key xs (add_value k v ps) h ∙ get_all-add_value_ne key k v ps ne

to_query-append :
    (xs ys : List (String × QueryValue)) (ps : Params)
    → to_query (xs ++ ys) ps ≡ to_query ys (to_query xs ps)
unfolding to_query
to_query-append [] ys ps = refl
to_query-append ((k, v) ∷ xs) ys ps = to_query-append xs ys (add_value k v ps)

nonempty-append : (us vs : List String) → nonempty (us ++ vs) ≡ nonempty us ++ nonempty vs
nonempty-append [] vs = refl
nonempty-append (u ∷ us) vs = elim (Bool-cases (str_eq u "")) [
  | inl empty ↦ rw empty (nonempty-append us vs)
  | inr full ↦ rw full (ap (λ ws. u ∷ ws) (nonempty-append us vs))
]

-- A reserved parameter is not the filter.
reserved_other :
    (k key : String) → is_reserved k ≡ true → is_reserved key ≡ false → str_eq k key ≡ false
reserved_other k key reserved free =
    str_eq_ne k key (λ e. absurd (cc (sym reserved ∙ ap (λ x. is_reserved x) e ∙ free)))

get_all-filters :
    (key : String) (params : SearchParams) (ps : Params)
    → is_reserved key ≡ false
    → get_all key (to_query (filters params) ps)
      ≡ get_all key ps ++ nonempty (all_values key params)
unfolding to_query filters all_values
get_all-filters key [] ps h = sym (append_nil (get_all key ps))
get_all-filters key ((k, v) ∷ params) ps h = elim (Bool-cases (is_reserved k)) [
  | inl reserved ↦
      rw reserved (rw (reserved_other k key reserved h) (get_all-filters key params ps h))
  | inr free ↦ elim (Bool-cases (str_eq k key)) [
    | inl same ↦ rw free (
        rw same (
          get_all-filters key params (add_values k (values_of v) ps) h
          ∙ rw ((eq_iff k key).0 same) (
              rw (get_all-add_values_self key (values_of v) ps) (
                rw (nonempty-append (values_of v) (all_values key params)) (
                  append_assoc (get_all key ps) (nonempty (values_of v))
                    (nonempty (all_values key params)))))))
    | inr other ↦ rw free (
        rw other (
          get_all-filters key params (add_values k (values_of v) ps) h
          ∙ ap (λ vs. vs ++ nonempty (all_values key params))
              (get_all-add_values_ne key k (values_of v) ps (λ e. str_ne k key other (sym e)))))
  ]
]

includes-ne : (key : String) (xs : List String) → includes key xs ≡ false → All (λ x. key ≢ x) xs
includes-ne key [] h = tt
includes-ne key (x ∷ xs) h = elim (Bool-cases (str_eq x key)) [
  | inl same ↦ absurd (cc (rw same at h))
  | inr other ↦ (λ e. str_ne x key other (sym e), includes-ne key xs (rw other at h))
]

-- The request to search-service has, under every key that is not reserved, the values that the address
-- of the page has under it, less the empty ones, and nothing else.
pub search_query-filters :
    (string_of : ℕ → String) (key : String) (params : SearchParams)
    → is_reserved key ≡ false
    → get_all key (search_query string_of params) ≡ nonempty (all_values key params)
unfolding search_query fixed get_all
search_query-filters string_of key params h =
    let (q, (page, (size, (sort, (category, (low, (high, (stock, _)))))))) =
      includes-ne key reserved_params h in
    rw (to_query-append (fixed string_of params) (filters params) []) (
      get_all-filters key params (to_query (fixed string_of params) []) h
      ∙ ap (λ vs. vs ++ nonempty (all_values key params))
          (get_all-to_query_ne key (fixed string_of params) []
            (q, (sort, (page, (size, (category, (stock, (low, (high, tt))))))))))
