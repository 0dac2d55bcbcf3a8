-- ===== src/Checkout/Attempts.antt =====
-- The requests of one mount of the checkout
-- (apps/storefront/src/components/checkout/checkout-flow.tsx).
use ecomerce_microservices_o.Prelude.{
  ℕ, suc, ◌+◌, ◌≡◌, refl, ◌∙◌, Bool, true, false, String, [], ◌∷◌, Option, none, some, length, All,
  arith,
}
use ecomerce_microservices_o.Checkout.{
  Address, Text, FieldErrors, Basket, Sent, State, mount, can_submit, on_submit, send_parsed,
  issues, Outcome, placed, refused, thrown, take_outcome, on_answer,
}

-- A field is typed into; the form is submitted, which the browser allows while the button is enabled;
-- or the request in flight ends. The number counts the requests that have ended.
pub data Reach : State → ℕ → State → Type 0 where
  start : (s : State) → Reach s 0 s
  typed : (s t : State) (n : ℕ) (a : Address) → Reach s n t → Reach s n (record t { address = a })
  submitted :
      (s t : State) (n : ℕ) (b : Basket) (loading : Bool)
      → Reach s n t
      → can_submit (some b) loading t ≡ true
      → Reach s n (on_submit (some b) t)
  answered :
      (s t : State) (n : ℕ) (o : Outcome)
      → Reach s n t
      → t.submitting ≡ true
      → Reach s (suc n) (on_answer o t)

abbrev pub in_flight : Bool → ℕ
in_flight true = 1
in_flight false = 0

-- A request of the mount: under its key, with an address that the schema accepts.
abbrev pub IsOfMount : String → Sent → Type 0
IsOfMount key r = (r.idempotency_key ≡ key) × (issues r.body.shipping_address ≡ [])

abbrev IsValid : String → ℕ → State → Type 0
IsValid key n s =
    (s.idempotency_key ≡ key)
    × All (IsOfMount key) s.requests
    × (length s.requests ≡ n + in_flight s.submitting)

send_parsed-IsValid :
    (key : String) (n : ℕ) (b : Basket) (es : FieldErrors) (s : State)
    → issues s.address ≡ es
    → s.submitting ≡ false
    → IsValid key n s
    → IsValid key n (send_parsed b es s)
send_parsed-IsValid key n b [] s ok idle (mine, sent, count) =
    let all = rw idle at count in (mine, ((mine, ok), sent), omega arith)
send_parsed-IsValid key n b (e ∷ es) s ok idle h = h

take_outcome-same :
    (o : Outcome) (s : State)
    → ((take_outcome o s).idempotency_key ≡ s.idempotency_key)
      × ((take_outcome o s).requests ≡ s.requests)
take_outcome-same (placed id) s = (refl, refl)
take_outcome-same (refused e none) s = (refl, refl)
take_outcome-same (refused e (some fs)) s = (refl, refl)
take_outcome-same thrown s = (refl, refl)

can_submit-idle :
    (b : Basket) (loading : Bool) (s : State)
    → can_submit (some b) loading s ≡ true
    → s.submitting ≡ false
unfolding can_submit
can_submit-idle b loading s h = ground arith

reach-IsValid :
    (s t : State) (n : ℕ)
    → Reach s n t
    → IsValid s.idempotency_key 0 s
    → IsValid s.idempotency_key n t
unfolding on_submit on_answer
reach-IsValid _ _ _ (start s) h = h
reach-IsValid _ _ _ (typed s t n a r) h = reach-IsValid s t n r h
reach-IsValid _ _ _ (submitted s t n b loading r can) h =
    send_parsed-IsValid s.idempotency_key n b (issues t.address)
      (record t { error = none; field_errors = [] }) refl (can_submit-idle b loading t can)
      (reach-IsValid s t n r h)
reach-IsValid _ _ _ (answered s t n o r busy) h =
    let (mine, sent, count) = reach-IsValid s t n r h in
    let (same_key, same) = take_outcome-same o t in
    let all = rw busy at count in (same_key ∙ mine, rw same sent, rw same (omega arith))

-- In every state that a mount of the checkout reaches, all its requests carry the one key that was
-- drawn, with an address without an issue, and as many of them have ended as were sent, but for the one
-- that is in flight while the form is submitting.
pub mount-reaches :
    (key : String) (name : Option Text) (n : ℕ) (s : State)
    → Reach (mount key name) n s
    → All (IsOfMount key) s.requests × (length s.requests ≡ n + in_flight s.submitting)
unfolding mount
mount-reaches key name n s r =
    let (mine, sent, count) = reach-IsValid (mount key name) s n r (refl, tt, refl) in (sent, count)
