-- ===== src/Basket/Latest.antt =====
-- Answers that arrive out of order
-- (apps/storefront/src/components/cart/cart-provider.tsx).
use ecomerce_microservices_o.Prelude.{
  ℕ, suc, ◌≤◌, ◌≡◌, ◌≢◌, refl, sym, ◌∙◌, ap, inl, inr, Bool, true, false, List, [], ◌∷◌, Option,
  some, if◌then◌else◌, nat_eq, arith, All, Bool-cases,
}
use ecomerce_microservices_o.Basket.{
  Cart, State, Refreshed, got, not_found, failed, Outcome, changed, stale, rejected, refreshed,
  begin_mutation, end_mutation, remove_ticket, take_answer, close,
}

unfoldable pub has_ticket : ℕ → List ℕ → Bool
has_ticket t [] = false
has_ticket t (u ∷ us) = let rest = has_ticket t us in if nat_eq u t then true else rest

-- A mutation starts, one that is pending ends, or a refresh of the page ends.
pub data Step : State → State → Type 0 where
  started : (s : State) → Step s (begin_mutation s).1
  ended :
      (s : State) (t : ℕ) (o : Outcome)
      → has_ticket t s.pending ≡ true
      → Step s (end_mutation t o s)
  reloaded : (s : State) (r : Refreshed) → Step s (refreshed r s)

pub data Reach : State → State → Type 0 where
  here : (s : State) → Reach s s
  then_step : (s t u : State) → Reach s t → Step t u → Reach s u

abbrev pub initial : Option Cart → State
initial cart = record { cart = cart; loading = false; in_flight = 0; pending = [] }

-- The spinner shows exactly while the last mutation is pending, and no ticket is from the future.
abbrev pub IsValid : State → Type 0
IsValid s = (s.loading ≡ has_ticket s.in_flight s.pending) × All (λ t. t ≤ s.in_flight) s.pending

All-later : (n : ℕ) (ts : List ℕ) → All (λ t. t ≤ n) ts → All (λ t. t ≤ suc n) ts
All-later n [] h = tt
All-later n (t ∷ ts) (le, h) = (omega (arith, le), All-later n ts h)

All-remove_ticket :
    (n t : ℕ) (ts : List ℕ) → All (λ u. u ≤ n) ts → All (λ u. u ≤ n) (remove_ticket t ts)
All-remove_ticket n t [] h = tt
All-remove_ticket n t (u ∷ us) (le, h) = ground (arith, All-remove_ticket n t us h)

has_ticket-remove_ticket_self : (t : ℕ) (ts : List ℕ) → has_ticket t (remove_ticket t ts) ≡ false
unfolding has_ticket
has_ticket-remove_ticket_self t [] = refl
has_ticket-remove_ticket_self t (u ∷ us) = ground (arith, has_ticket-remove_ticket_self t us)

has_ticket-remove_ticket :
    (t u : ℕ) (ts : List ℕ)
    → nat_eq t u ≡ false
    → has_ticket u (remove_ticket t ts) ≡ has_ticket u ts
unfolding has_ticket
has_ticket-remove_ticket t u [] h = refl
has_ticket-remove_ticket t u (v ∷ vs) h = ground (arith, has_ticket-remove_ticket t u vs h)

close-IsValid : (t : ℕ) (s : State) → IsValid s → IsValid (close t s)
close-IsValid t s (shown, old) = elim (Bool-cases (nat_eq t s.in_flight)) [
  | inl last ↦
      let same : t ≡ s.in_flight = ground arith in
      rw last (
        sym (
            ap (λ u. has_ticket u (remove_ticket t s.pending)) (sym same)
            ∙ has_ticket-remove_ticket_self t s.pending),
        All-remove_ticket s.in_flight t s.pending old,
      )
  | inr other ↦ rw other (
    shown ∙ sym (has_ticket-remove_ticket t s.in_flight s.pending other),
    All-remove_ticket s.in_flight t s.pending old,
  )
]

refreshed-IsValid : (r : Refreshed) (s : State) → IsValid s → IsValid (refreshed r s)
unfolding refreshed
refreshed-IsValid (got c) s h = h
refreshed-IsValid not_found s h = h
refreshed-IsValid failed s h = h

take_answer-IsValid : (t : ℕ) (o : Outcome) (s : State) → IsValid s → IsValid (take_answer t o s)
take_answer-IsValid t (changed c) s h = elim (Bool-cases (nat_eq t s.in_flight)) [
  | inl last ↦ rw last h
  | inr other ↦ rw other h
]
take_answer-IsValid t (stale r) s h = refreshed-IsValid r s h
take_answer-IsValid t rejected s h = h

step-IsValid : (s t : State) → Step s t → IsValid s → IsValid t
unfolding begin_mutation end_mutation has_ticket
step-IsValid _ _ (started s) (shown, old) =
    (ground arith, (omega arith, All-later s.in_flight s.pending old))
step-IsValid _ _ (ended s t o has) h =
    close-IsValid t (take_answer t o s) (take_answer-IsValid t o s h)
step-IsValid _ _ (reloaded s r) h = refreshed-IsValid r s h

reach-IsValid : (s t : State) → Reach s t → IsValid s → IsValid t
reach-IsValid _ _ (here s) h = h
reach-IsValid _ _ (then_step s t u r st) h = step-IsValid t u st (reach-IsValid s t r h)

initial-IsValid : (cart : Option Cart) → IsValid (initial cart)
unfolding has_ticket
initial-IsValid cart = (refl, tt)

-- In every state that mutations and refreshes lead to, the spinner of the basket shows exactly while
-- the last mutation is pending.
pub initial-reaches :
    (cart : Option Cart) (s : State)
    → Reach (initial cart) s
    → s.loading ≡ has_ticket s.in_flight s.pending
initial-reaches cart s r = (reach-IsValid (initial cart) s r (initial-IsValid cart)).0

-- Older mutations end, none of them with CART_STALE.
pub data Late : State → State → Type 0 where
  none_more : (s : State) → Late s s
  late_end :
      (s t : State) (u : ℕ) (o : Outcome)
      → Late s t
      → has_ticket u t.pending ≡ true
      → ((r : Refreshed) → o ≢ stale r)
      → Late s (end_mutation u o t)

abbrev IsKept : ℕ → Cart → State → Type 0
IsKept n c s =
    (s.in_flight ≡ n) × (has_ticket n s.pending ≡ false) × (s.cart ≡ some c) × (s.loading ≡ false)

close-IsKept :
    (n u : ℕ) (c : Cart) (s : State) → nat_eq u n ≡ false → IsKept n c s → IsKept n c (close u s)
close-IsKept n u c s other (last, gone, same, idle) =
    rw last (rw other (refl, has_ticket-remove_ticket u n s.pending other ∙ gone, same, idle))

pending_other :
    (n u : ℕ) (ts : List ℕ) → has_ticket n ts ≡ false → has_ticket u ts ≡ true → nat_eq u n ≡ false
pending_other n u ts gone has = elim (Bool-cases (nat_eq u n)) [
  | inl same ↦
      let e : u ≡ n = ground arith in absurd (cc (sym has ∙ ap (λ v. has_ticket v ts) e ∙ gone))
  | inr other ↦ other
]

take_answer-IsKept :
    (n u : ℕ) (o : Outcome) (c : Cart) (s : State)
    → nat_eq u n ≡ false
    → ((r : Refreshed) → o ≢ stale r)
    → IsKept n c s
    → IsKept n c (take_answer u o s)
take_answer-IsKept n u (changed d) c s other fresh (last, gone, same, idle) =
    rw last (rw other (refl, gone, same, idle))
take_answer-IsKept n u (stale r) c s other fresh h = absurd (fresh r refl)
take_answer-IsKept n u rejected c s other fresh h = h

Late-IsKept : (n : ℕ) (c : Cart) (s t : State) → Late s t → IsKept n c s → IsKept n c t
unfolding end_mutation
Late-IsKept n c _ _ (none_more s) h = h
Late-IsKept n c _ _ (late_end s t u o l has fresh) h =
    let kept = Late-IsKept n c s t l h in
    let other = pending_other n u t.pending kept.1 has in
    close-IsKept n u c (take_answer u o t) other (take_answer-IsKept n u o c t other fresh kept)

ended-IsKept :
    (c : Cart) (s : State) → IsKept s.in_flight c (end_mutation s.in_flight (changed c) s)
unfolding end_mutation
ended-IsKept c s =
    let own : nat_eq s.in_flight s.in_flight ≡ true = ground arith in
    rw own (rw own (refl, has_ticket-remove_ticket_self s.in_flight s.pending, refl, refl))

-- When the last mutation of the basket succeeds, its cart stays the one shown and the spinner stays
-- off while older mutations end in any order, as long as none of them ends with CART_STALE.
pub last_wins :
    (s t : State) (c : Cart)
    → Late (end_mutation s.in_flight (changed c) s) t
    → (t.cart ≡ some c) × (t.loading ≡ false)
last_wins s t c l =
    let kept =
      Late-IsKept s.in_flight c (end_mutation s.in_flight (changed c) s) t l (ended-IsKept c s) in
    (kept.2, kept.3)
