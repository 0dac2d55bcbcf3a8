-- ===== src/Variants/Choice.antt =====
-- A click of the variant picker lands on a variant
-- (apps/storefront/src/components/catalog/variant-picker.tsx).
use ecomerce_microservices_o.Prelude.{
  ℕ, ◌≡◌, ◌≢◌, refl, sym, ap, ◌∙◌, ◌⊎◌, inl, inr, Bool, true, false, String, List, [], ◌∷◌, some,
  if◌then◌else◌, str_eq, str_eq_self, arith, eq_iff, ltb, All, Bool-cases,
}
use mathlib.Core.Path.{subst}
use ecomerce_microservices_o.Variants.{
  Attributes, ProductVariant, has_value, filter_variants, agrees, find_variant, score, best_of,
  choose_among, choose,
}

-- The keys of a map occur once each.
abbrev pub HasNoKey : String → Attributes → Type 0
HasNoKey key attributes = All (λ (kv : String × String). str_eq kv.0 key ≡ false) attributes

abbrev pub IsMap : Attributes → Type 0
IsMap [] = Unit
IsMap ((k, v) ∷ attributes) = HasNoKey k attributes × IsMap attributes

agrees-cons :
    (k v : String) (selected attributes : Attributes)
    → HasNoKey k selected
    → agrees selected attributes ≡ true
    → agrees selected ((k, v) ∷ attributes) ≡ true
unfolding agrees has_value
agrees-cons k v [] attributes fresh h = refl
agrees-cons k v ((l, w) ∷ selected) attributes (other, fresh) h =
    ground (arith, eq_iff k l, eq_iff l k, agrees-cons k v selected attributes fresh)

pub agrees_self : (attributes : Attributes) → IsMap attributes → agrees attributes attributes ≡ true
unfolding agrees has_value
agrees_self [] h = refl
agrees_self ((k, v) ∷ attributes) (fresh, h) =
    rw (str_eq_self k)
      (rw (str_eq_self v) (agrees-cons k v attributes attributes fresh (agrees_self attributes h)))

agrees-has_value :
    (key value : String) (selected attributes : Attributes)
    → agrees selected attributes ≡ true
    → has_value key value selected ≡ true
    → has_value key value attributes ≡ true
unfolding agrees has_value
agrees-has_value key value [] attributes h k = absurd (cc k)
agrees-has_value key value ((l, w) ∷ selected) attributes h k =
    elim (Bool-cases (has_value l w attributes)) [
      | inl has ↦
          let rest = agrees-has_value key value selected attributes in
          elim (Bool-cases (str_eq l key)) [
            | inl same ↦
                let same_key : l ≡ key = (eq_iff l key).0 same in
                let same_value : w ≡ value = (eq_iff w value).0 (rw same at k) in
                rw (← same_key) (rw (← same_value) has)
            | inr other ↦ rest (rw has at h) (rw other at k)
          ]
      | inr hasnt ↦ absurd (cc (rw hasnt at h))
    ]

abbrev pub IsIn : {A : Type 0} → A → List A → Type 0
IsIn w [] = ⊥
IsIn w (v ∷ vs) = (v ≡ w) ⊎ IsIn w vs

-- A variant that is found, and agrees with the selection.
abbrev IsFound : Attributes → List ProductVariant → Type 0
IsFound selected vs =
    (v : ProductVariant) × (find_variant selected vs ≡ some v)
    × (agrees selected v.attributes ≡ true)

find_variant-IsFound :
    (w : ProductVariant) (selected : Attributes) (vs : List ProductVariant)
    → IsIn w vs
    → agrees selected w.attributes ≡ true
    → IsFound selected vs
unfolding find_variant
find_variant-IsFound w selected [] h k = absurd h
find_variant-IsFound w selected (v ∷ vs) h k = elim (Bool-cases (agrees selected v.attributes)) [
  | inl this ↦ rw this (v, refl, this)
  | inr other ↦ elim h [
    | inl same ↦
        absurd (cc (sym other ∙ ap (λ (x : ProductVariant). agrees selected x.attributes) same ∙ k))
    | inr later ↦ rw other (find_variant-IsFound w selected vs later k)
  ]
]

-- `find` gives a variant when no other one agrees with the selection.
pub find_variant-only :
    (w : ProductVariant) (selected : Attributes) (vs : List ProductVariant)
    → IsIn w vs
    → agrees selected w.attributes ≡ true
    → All (λ v. agrees selected v.attributes ≡ true → v ≡ w) vs
    → find_variant selected vs ≡ some w
unfolding find_variant
find_variant-only w selected [] h k only = absurd h
find_variant-only w selected (v ∷ vs) h k (mine, only) =
    elim (Bool-cases (agrees selected v.attributes)) [
      | inl this ↦ rw this (ap some (mine this))
      | inr other ↦ elim h [
        | inl same ↦
            absurd
              (cc (sym other ∙ ap (λ (x : ProductVariant). agrees selected x.attributes) same ∙ k))
        | inr later ↦ rw other (find_variant-only w selected vs later k only)
      ]
    ]

filter_variants-IsIn :
    (test : ProductVariant → Bool) (w : ProductVariant) (vs : List ProductVariant)
    → IsIn w (filter_variants test vs)
    → IsIn w vs × (test w ≡ true)
unfolding filter_variants
filter_variants-IsIn test w [] h = absurd h
filter_variants-IsIn test w (v ∷ vs) h = elim (Bool-cases (test v)) [
  | inl on ↦ elim (rw on at h) [
    | inl same ↦ (inl same, ap test (sym same) ∙ on)
    | inr later ↦ let (member, good) = filter_variants-IsIn test w vs later in (inr member, good)
  ]
  | inr off ↦
      let (member, good) = filter_variants-IsIn test w vs (rw off at h) in (inr member, good)
]

pub pick-IsIn :
    {A : Type 0} (better : Bool) (w best v : A) (vs : List A)
    → IsIn w ((if better then v else best) ∷ vs)
    → IsIn w (best ∷ v ∷ vs)
pick-IsIn true w best v vs h = inr h
pick-IsIn false w best v vs (inl same) = inl same
pick-IsIn false w best v vs (inr later) = inr (inr later)

best_of-IsIn :
    (mark : ProductVariant → ℕ) (best : ProductVariant) (vs : List ProductVariant)
    → IsIn (best_of mark best vs) (best ∷ vs)
best_of-IsIn mark best [] = inl refl
best_of-IsIn mark best (v ∷ vs) =
    let better = ltb (mark best) (mark v) in
    let next = if better then v else best in
    pick-IsIn better (best_of mark next vs) best v vs (best_of-IsIn mark next vs)

All-IsIn :
    (P : ProductVariant → Type 0) (w : ProductVariant) (vs : List ProductVariant)
    → All P vs
    → IsIn w vs
    → P w
All-IsIn P w [] h k = absurd k
All-IsIn P w (v ∷ vs) (p, h) (inl same) = subst P same p
All-IsIn P w (v ∷ vs) (p, h) (inr later) = All-IsIn P w vs h later

-- The selection leads to a variant with the value that was clicked.
abbrev pub IsLanded : List ProductVariant → String → String → Attributes → Type 0
IsLanded variants axis value selected =
    (v : ProductVariant) × (find_variant selected variants ≡ some v)
    × (has_value axis value v.attributes ≡ true)

landed :
    (variants : List ProductVariant) (axis value : String) (w : ProductVariant)
    → All (λ v. IsMap v.attributes) variants
    → IsIn w variants
    → has_value axis value w.attributes ≡ true
    → IsLanded variants axis value w.attributes
landed variants axis value w maps member good =
    let own =
      agrees_self w.attributes (All-IsIn (λ v. IsMap v.attributes) w variants maps member) in
    let (v, found, agreed) = find_variant-IsFound w w.attributes variants member own in
    (v, found, agrees-has_value axis value w.attributes v.attributes agreed good)

choose_among-IsLanded :
    (variants candidates : List ProductVariant) (axis value : String) (selected : Attributes)
    → All (λ v. IsMap v.attributes) variants
    → ((w : ProductVariant)
        → IsIn w candidates
        → IsIn w variants × (has_value axis value w.attributes ≡ true))
    → candidates ≢ []
    → IsLanded variants axis value (choose_among axis selected candidates)
choose_among-IsLanded variants [] axis value selected maps good some_left = absurd (some_left refl)
choose_among-IsLanded variants (v ∷ vs) axis value selected maps good some_left =
    let best = best_of (λ w. score axis selected w.attributes) v vs in
    let (member, has) = good best (best_of-IsIn (λ w. score axis selected w.attributes) v vs) in
    landed variants axis value best maps member has

-- When the attributes of each variant have distinct keys, a click on a value that some variant has
-- leads to a selection for which a variant is found, and that variant has the value.
pub choose-IsLanded :
    (variants : List ProductVariant) (axis value : String) (selected : Attributes)
    → All (λ v. IsMap v.attributes) variants
    → filter_variants (λ v. has_value axis value v.attributes) variants ≢ []
    → IsLanded variants axis value (choose variants axis value selected)
unfolding choose
choose-IsLanded variants axis value selected maps offered =
    let test : ProductVariant → Bool = λ v. has_value axis value v.attributes in
    choose_among-IsLanded variants (filter_variants test variants) axis value selected maps
      (λ w member. filter_variants-IsIn test w variants member) offered
