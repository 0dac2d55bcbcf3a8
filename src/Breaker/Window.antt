-- ===== src/Breaker/Window.antt =====
-- When the breaker opens (services/cart-service/src/circuit-breaker.ts).
use ecomerce_microservices_o.Prelude.{
  ℕ, zero, suc, ◌+◌, ◌-◌, ◌*◌, ◌≤◌, ◌<◌, ◌≡◌, refl, ◌↔◌, Bool, true, false, not, List, [], ◌∷◌,
  ◌++◌, ltb, leb, arith, length, length-append, drop, Bool-cases, inl, inr,
}
use ecomerce_microservices_o.Breaker.{
  closed, open_, Options, Breaker, new_breaker, shift, push_window, count_true, tripped,
  record_outcome,
}

-- The last `n` entries.
abbrev pub last_n : ℕ → List Bool → List Bool
last_n n xs = drop (length xs - n) xs

length-shift : (xs : List Bool) → length (shift xs) ≡ length xs - 1
length-shift [] = omega arith
length-shift (x ∷ xs) = omega arith

pub length-push_window :
    (n : ℕ) (xs : List Bool) (x : Bool) → length xs ≤ n → length (push_window n xs x) ≤ n
unfolding push_window
length-push_window n xs x h =
    ground (arith, length-append {0} xs (x ∷ []), length-shift (xs ++ x ∷ []))

drop-append :
    (k : ℕ) (xs : List Bool) (x : Bool)
    → k ≤ length xs
    → drop k (xs ++ x ∷ []) ≡ drop k xs ++ x ∷ []
drop-append zero xs x h = refl
drop-append (suc k) [] x h = absurd (omega arith)
drop-append (suc k) (y ∷ xs) x h = drop-append k xs x (omega arith)

length-drop : (k : ℕ) (xs : List Bool) → length (drop k xs) ≡ length xs - k
length-drop zero xs = omega arith
length-drop (suc k) [] = omega arith
length-drop (suc k) (x ∷ xs) = omega (arith, length-drop k xs)

shift-drop : (k : ℕ) (xs : List Bool) → shift (drop k xs) ≡ drop (suc k) xs
shift-drop zero [] = refl
shift-drop zero (x ∷ xs) = refl
shift-drop (suc k) [] = refl
shift-drop (suc k) (x ∷ xs) = shift-drop k xs

-- Pushing an outcome on the last n outcomes of a history gives the last n outcomes of the longer
-- history.
pub push_window-last_n :
    (n : ℕ) (h : List Bool) (x : Bool) → push_window n (last_n n h) x ≡ last_n n (h ++ x ∷ [])
unfolding push_window
push_window-last_n n h x = elim (Bool-cases (leb n (length h))) [
  | inl full ↦
      let cut : length (h ++ x ∷ []) - n ≡ suc (length h - n) =
        ground (arith, length-append {0} h (x ∷ [])) in
      let long : ltb n (length (last_n n h ++ x ∷ [])) ≡ true =
        ground (arith, length-append {0} (last_n n h) (x ∷ []), length-drop (length h - n) h) in
      rw long (
        rw cut (
          rw (← drop-append (length h - n) h x (omega arith))
            (shift-drop (length h - n) (h ++ x ∷ []))))
  | inr short ↦
      let cut : length (h ++ x ∷ []) - n ≡ 0 = ground (arith, length-append {0} h (x ∷ [])) in
      let none_cut : length h - n ≡ 0 = ground arith in
      let fits : ltb n (length (h ++ x ∷ [])) ≡ false =
        ground (arith, length-append {0} h (x ∷ [])) in
      rw cut (rw none_cut (rw fits))
]

-- The window never holds more than `window_size` outcomes.
pub record_outcome-length :
    (o : Options) (success : Bool) (now : ℕ) (b : Breaker)
    → length b.failures ≤ o.window_size
    → length (record_outcome o success now b).failures ≤ o.window_size
unfolding record_outcome tripped
record_outcome-length o success now b h =
    ground (arith, length-push_window o.window_size b.failures (not success) h)

-- A closed breaker that holds the window of a history is open after an outcome exactly when the new
-- window is full, is not empty, and its failures reach the threshold.
pub record_outcome-opens_iff :
    (o : Options) (success : Bool) (now : ℕ) (b : Breaker) (h : List Bool)
    → b.state ≡ closed
    → b.failures ≡ last_n o.window_size h
    → ((record_outcome o success now b).state ≡ open_) ↔ (
        (o.window_size ≤ length (last_n o.window_size (h ++ not success ∷ [])))
        × (0 < length (last_n o.window_size (h ++ not success ∷ [])))
        × (o.num * length (last_n o.window_size (h ++ not success ∷ []))
            ≤ count_true (last_n o.window_size (h ++ not success ∷ [])) * o.den))
unfolding record_outcome tripped
record_outcome-opens_iff o success now b h is_closed window =
    let view : push_window o.window_size b.failures (not success)
        ≡ last_n o.window_size (h ++ not success ∷ []) =
      rw window (push_window-last_n o.window_size h (not success)) in
    ground arith

-- The outcomes of calls in the order of their answers.
unfoldable pub record_all : Options → List (Bool × ℕ) → Breaker → Breaker
record_all o [] b = b
record_all o ((success, now) ∷ xs) b = record_all o xs (record_outcome o success now b)

record_outcome-cold :
    (o : Options) (success : Bool) (now : ℕ) (b : Breaker)
    → b.state ≡ closed
    → length b.failures + 1 < o.window_size
    → ((record_outcome o success now b).state ≡ closed)
      × (length (record_outcome o success now b).failures ≡ length b.failures + 1)
unfolding record_outcome push_window tripped
record_outcome-cold o success now b c h =
    ground (arith, length-append {0} b.failures (not success ∷ []))

record_all-cold :
    (o : Options) (xs : List (Bool × ℕ)) (b : Breaker)
    → b.state ≡ closed
    → length b.failures + length xs < o.window_size
    → (record_all o xs b).state ≡ closed
unfolding record_all
record_all-cold o [] b c h = c
record_all-cold o ((success, now) ∷ xs) b c h =
    let (c', one_more) = record_outcome-cold o success now b c (omega arith) in
    record_all-cold o xs (record_outcome o success now b) c' (omega arith)

-- After a cold start the breaker stays closed, whatever the outcomes, until a full window of calls
-- has been answered.
pub record_all-new_breaker :
    (o : Options) (xs : List (Bool × ℕ))
    → length xs < o.window_size
    → (record_all o xs new_breaker).state ≡ closed
unfolding new_breaker
record_all-new_breaker o xs h = record_all-cold o xs _ refl (omega arith)
