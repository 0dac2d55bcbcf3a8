-- ===== src/Toast/Reach.antt =====
-- The states that the toast store can reach (apps/storefront/src/hooks/use-toast.ts).
use ecomerce_microservices_o.Prelude.{
  ℕ, zero, suc, ◌∙◌, ap, length-take, ◌≤◌, ◌≡◌, refl, ◌⊎◌, inl, inr, true, false, String, List, [],
  ◌∷◌, arith, length, take, All, nat_eq, Bool-cases,
}
use ecomerce_microservices_o.Toast.{
  State, ToasterToast, initial, toast, dismiss, fire, schedule_removal, close_toast, remove_toast,
  has_timer, delete_timer, toast_limit,
}

-- A call of `toast`, a dismissal of any id, or the timer of an id that has one.
pub data Step : State → State → Type 0 where
  toasted : (s : State) (content : String) → Step s (toast content s).1
  dismissed : (s : State) (id : ℕ) → Step s (dismiss id s)
  fired : (s : State) (id : ℕ) → has_timer id s.removal_timers ≡ true → Step s (fire id s)

pub data Reach : State → Type 0 where
  start : Reach initial
  then_step : (s t : State) → Reach s → Step s t → Reach t

-- A toast that is closed has a timer that will remove it.
abbrev pub IsSettled : List ℕ → ToasterToast → Type 0
IsSettled timers t = (t.is_open ≡ true) ⊎ (has_timer t.id timers ≡ true)

abbrev pub IsValid : State → Type 0
IsValid s = (length s.toasts ≤ toast_limit) × All (IsSettled s.removal_timers) s.toasts

All-take :
    (P : ToasterToast → Type 0) (n : ℕ) (ts : List ToasterToast) → All P ts → All P (take n ts)
All-take P zero ts h = tt
All-take P (suc n) [] h = tt
All-take P (suc n) (t ∷ ts) (p, h) = (p, All-take P n ts h)

nat_eq_self : (n : ℕ) → nat_eq n n ≡ true
nat_eq_self n = ground arith

toast-IsValid : (content : String) (s : State) → IsValid s → IsValid (toast content s).1
unfolding toast
toast-IsValid content s (short, settled) = (
  omega (arith, length-take 2 s.toasts),
  (inl refl, All-take (IsSettled s.removal_timers) 2 s.toasts settled),
)

close_toast-IsSettled :
    (id : ℕ) (timers : List ℕ) (ts : List ToasterToast)
    → has_timer id timers ≡ true
    → All (IsSettled timers) ts
    → All (IsSettled timers) (close_toast id ts)
unfolding close_toast
close_toast-IsSettled id timers [] has h = h
close_toast-IsSettled id timers (t ∷ ts) has (this, h) = (
  elim (Bool-cases (nat_eq t.id id)) [
    | inl same ↦
        let this_id : t.id ≡ id = ground arith in
        rw same (inr (ap (λ j. has_timer j timers) this_id ∙ has))
    | inr other ↦ rw other this
  ],
  close_toast-IsSettled id timers ts has h,
)

length-close_toast : (id : ℕ) (ts : List ToasterToast) → length (close_toast id ts) ≡ length ts
unfolding close_toast
length-close_toast id [] = refl
length-close_toast id (t ∷ ts) = ap suc (length-close_toast id ts)

more_timers :
    (id : ℕ) (timers : List ℕ) (ts : List ToasterToast)
    → All (IsSettled timers) ts
    → All (IsSettled (id ∷ timers)) ts
unfolding has_timer
more_timers id timers [] h = h
more_timers id timers (t ∷ ts) (inl p, h) = (inl p, more_timers id timers ts h)
more_timers id timers (t ∷ ts) (inr p, h) = (inr (ground arith), more_timers id timers ts h)

has_timer-delete_timer :
    (id j : ℕ) (timers : List ℕ)
    → nat_eq j id ≡ false
    → has_timer j (delete_timer id timers) ≡ has_timer j timers
unfolding has_timer delete_timer
has_timer-delete_timer id j [] other = refl
has_timer-delete_timer id j (i ∷ is) other =
    let rest : has_timer j (delete_timer id is) ≡ has_timer j is =
      has_timer-delete_timer id j is other in
    elim (Bool-cases (nat_eq i id)) [
      | inl gone ↦ let differs : nat_eq i j ≡ false = ground arith in rw gone (rw differs rest)
      | inr kept ↦ rw kept (elim (Bool-cases (nat_eq i j)) [
        | inl same ↦ rw same refl
        | inr differs ↦ rw differs rest
      ])
    ]

remove_toast-IsSettled :
    (id : ℕ) (timers : List ℕ) (ts : List ToasterToast)
    → All (IsSettled timers) ts
    → All (IsSettled (delete_timer id timers)) (remove_toast id ts)
unfolding remove_toast
remove_toast-IsSettled id timers [] h = h
remove_toast-IsSettled id timers (t ∷ ts) (this, h) = elim (Bool-cases (nat_eq t.id id)) [
  | inl same ↦ rw same (remove_toast-IsSettled id timers ts h)
  | inr other ↦ rw other (
    elim this [ inl p ↦ inl p | inr p ↦ inr (has_timer-delete_timer id t.id timers other ∙ p) ],
    remove_toast-IsSettled id timers ts h,
  )
]

length-remove_toast : (id : ℕ) (ts : List ToasterToast) → length (remove_toast id ts) ≤ length ts
unfolding remove_toast
length-remove_toast id [] = omega arith
length-remove_toast id (t ∷ ts) =
    let rest = length-remove_toast id ts in
    elim (Bool-cases (nat_eq t.id id)) [
      | inl same ↦ rw same (omega arith)
      | inr other ↦ rw other (omega arith)
    ]

dismiss-IsValid : (id : ℕ) (s : State) → IsValid s → IsValid (dismiss id s)
unfolding dismiss schedule_removal
dismiss-IsValid id s (short, settled) = elim (Bool-cases (has_timer id s.removal_timers)) [
  | inl has ↦ rw has (
    rw (length-close_toast id s.toasts) short,
    close_toast-IsSettled id s.removal_timers s.toasts has settled,
  )
  | inr new ↦ rw new (
    rw (length-close_toast id s.toasts) short,
    close_toast-IsSettled id (id ∷ s.removal_timers) s.toasts
        (unfold has_timer in rw (nat_eq_self id) refl)
        (more_timers id s.removal_timers s.toasts settled),
  )
]

-- In every state that calls, dismissals and timers lead to, at most three toasts are shown, and each
-- one that is closed has a running timer.
pub Reach-IsValid : {s : State} → Reach s → IsValid s
unfolding fire
Reach-IsValid start = (omega arith, tt)
Reach-IsValid (then_step s t before (toasted _ content)) =
    toast-IsValid content s (Reach-IsValid before)
Reach-IsValid (then_step s t before (dismissed _ id)) = dismiss-IsValid id s (Reach-IsValid before)
Reach-IsValid (then_step s t before (fired _ id has)) =
    let (short, settled) = Reach-IsValid before in
    let fewer = length-remove_toast id s.toasts in
    (omega arith, remove_toast-IsSettled id s.removal_timers s.toasts settled)
