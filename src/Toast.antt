-- ===== src/Toast.antt =====
-- The toast store of the storefront (apps/storefront/src/hooks/use-toast.ts): the module's variables
-- as one state. An id is the number that `count.toString()` prints; what a toast shows is one text,
-- and listeners only read the state.
pub mod Reach
use ecomerce_microservices_o.Prelude.{
  ℕ, ◌+◌, ◌-◌, ◌%◌, ◌^◌, Bool, true, false, not, String, List, [], ◌∷◌, if◌then◌else◌, take, nat_eq,
}

abbrev pub toast_limit : ℕ
toast_limit = 3

abbrev pub max_safe_integer : ℕ
max_safe_integer = 9007199254740991

pub record ToasterToast : Type 0 where
  pub id : ℕ
  pub content : String
  pub is_open : Bool

-- `removalTimers` holds the ids whose timer runs.
pub record State : Type 0 where
  pub count : ℕ
  pub toasts : List ToasterToast
  pub removal_timers : List ℕ

abbrev pub initial : State
initial = record { count = 0; toasts = []; removal_timers = [] }

unfoldable pub has_timer : ℕ → List ℕ → Bool
has_timer id [] = false
has_timer id (i ∷ is) = if nat_eq i id then true else has_timer id is

unfoldable pub delete_timer : ℕ → List ℕ → List ℕ
delete_timer id [] = []
delete_timer id (i ∷ is) = let rest = delete_timer id is in if nat_eq i id then rest else i ∷ rest

-- `filter((t) => t.id !== toastId)`
unfoldable pub remove_toast : ℕ → List ToasterToast → List ToasterToast
remove_toast id [] = []
remove_toast id (t ∷ ts) =
    let rest = remove_toast id ts in if nat_eq t.id id then rest else t ∷ rest

-- `map((t) => (t.id === toastId ? { ...t, open: false } : t))`
unfoldable pub close_toast : ℕ → List ToasterToast → List ToasterToast
close_toast id [] = []
close_toast id (t ∷ ts) =
    (if nat_eq t.id id then record t { is_open = false } else t) ∷ close_toast id ts

unfoldable pub schedule_removal : ℕ → State → State
schedule_removal id s =
    if has_timer id s.removal_timers then s else record s { removal_timers = id ∷ s.removal_timers }

-- The callback of the timer.
unfoldable pub fire : ℕ → State → State
fire id s = record s {
  removal_timers = delete_timer id s.removal_timers;
  toasts = remove_toast id s.toasts;
}

unfoldable pub dismiss : ℕ → State → State
dismiss id s = schedule_removal id (record s { toasts = close_toast id s.toasts })

abbrev pub next_id : State → ℕ
next_id s = (s.count + 1) % max_safe_integer

-- The new state, and the id returned.
unfoldable pub toast : String → State → ℕ × State
toast content s =
    let t : ToasterToast = record { id = next_id s; content = content; is_open = true } in
    (next_id s, record s { count = next_id s; toasts = take toast_limit (t ∷ s.toasts) })
