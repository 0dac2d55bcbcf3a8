-- ===== src/Listing/Filters.antt =====
-- The filters of a listing and its page (apps/storefront/src/components/catalog/facets.tsx).
use ecomerce_microservices_o.Prelude.{
  ◌≡◌, ◌≢◌, refl, sym, ap, ◌∙◌, Bool, String, List, [], ◌∷◌, ◌++◌, str_eq, str_eq_self, str_eq_ne,
  arith, eq_iff, inl, inr, Bool-cases,
}
use ecomerce_microservices_o.Listing.{Params, get_all, delete_key, append_all, updated, toggle}

pub get_all-append :
    (key : String) (ps qs : Params) → get_all key (ps ++ qs) ≡ get_all key ps ++ get_all key qs
unfolding get_all
get_all-append key [] qs = refl
get_all-append key ((k, v) ∷ ps) qs = elim (Bool-cases (str_eq k key)) [
  | inl same ↦ rw same (ap (λ vs. v ∷ vs) (get_all-append key ps qs))
  | inr other ↦ rw other (get_all-append key ps qs)
]

get_all-delete_self : (key : String) (ps : Params) → get_all key (delete_key key ps) ≡ []
unfolding get_all delete_key
get_all-delete_self key [] = refl
get_all-delete_self key ((k, v) ∷ ps) = elim (Bool-cases (str_eq k key)) [
  | inl same ↦ rw same (get_all-delete_self key ps)
  | inr other ↦ rw other (rw other (get_all-delete_self key ps))
]

pub get_all-delete_ne :
    (key other : String) (ps : Params)
    → key ≢ other
    → get_all key (delete_key other ps) ≡ get_all key ps
unfolding get_all delete_key
get_all-delete_ne key other [] h = refl
get_all-delete_ne key other ((k, v) ∷ ps) h =
    ground (arith, eq_iff k other, eq_iff k key, get_all-delete_ne key other ps h)

pub append_nil : (vs : List String) → vs ++ [] ≡ vs
append_nil [] = refl
append_nil (v ∷ vs) = ap (λ ws. v ∷ ws) (append_nil vs)

pub append_assoc : (us vs ws : List String) → (us ++ vs) ++ ws ≡ us ++ (vs ++ ws)
append_assoc [] vs ws = refl
append_assoc (u ∷ us) vs ws = ap (λ xs. u ∷ xs) (append_assoc us vs ws)

get_all-append_self :
    (key : String) (vs : List String) (ps : Params)
    → get_all key (append_all key vs ps) ≡ get_all key ps ++ vs
unfolding get_all
get_all-append_self key [] ps = sym (append_nil (get_all key ps))
get_all-append_self key (v ∷ vs) ps =
    get_all-append_self key vs (ps ++ (key, v) ∷ [])
    ∙ rw (get_all-append key ps ((key, v) ∷ []))
        (rw (str_eq_self key) (append_assoc (get_all key ps) (v ∷ []) vs))

get_all-append_ne :
    (key other : String) (vs : List String) (ps : Params)
    → key ≢ other
    → get_all key (append_all other vs ps) ≡ get_all key ps
unfolding get_all
get_all-append_ne key other [] ps h = refl
get_all-append_ne key other (v ∷ vs) ps h =
    get_all-append_ne key other vs (ps ++ (other, v) ∷ []) h
    ∙ rw (get_all-append key ps ((other, v) ∷ []))
        (rw (str_eq_ne other key (λ e. h (sym e))) (append_nil (get_all key ps)))

-- Toggling a value of a filter other than page changes the values of that filter as asked, keeps
-- those of every other parameter, and goes back to the first page.
pub toggle-filters :
    (field value other : String) (next : Bool) (params : Params)
    → field ≢ "page"
    → other ≢ field
    → other ≢ "page"
    → (get_all field (toggle field value next params) ≡ updated value next (get_all field params))
      × (get_all other (toggle field value next params) ≡ get_all other params)
      × (get_all "page" (toggle field value next params) ≡ [])
unfolding toggle
toggle-filters field value other next params no_page distinct no_page' =
    let values = updated value next (get_all field params) in
    let cleared = delete_key field params in
    (
      get_all-delete_ne field "page" (append_all field values cleared) no_page
          ∙ get_all-append_self field values cleared
          ∙ rw (get_all-delete_self field params) refl,
      get_all-delete_ne other "page" (append_all field values cleared) no_page'
          ∙ get_all-append_ne other field values cleared distinct
          ∙ get_all-delete_ne other field params distinct,
      get_all-delete_self "page" (append_all field values cleared),
    )
