-- ===== src/Search/Typing.antt =====
-- What is requested while one types (apps/storefront/src/components/layout/search-box.tsx).
use ecomerce_microservices_o.Prelude.{
  ℕ, ◌≤◌, ◌<◌, ◌≡◌, refl, Bool, true, false, List, [], ◌∷◌, Option, none, some, length, arith,
  Bool-cases, inl, inr, ltb, if◌then◌else◌,
}
use ecomerce_microservices_o.Cart.Codes.{code_eq}
use ecomerce_microservices_o.Search.{
  Text, trim, Suggestion, State, mount, effect, clean_up, set_value, timer_fired, start_request,
  answered, aborted_ended, focus, close, clear, abort_live, is_nonempty,
}

-- The value changes, the timer runs out, a request ends, or the list is opened or closed.
pub data Event : Type 0 where
  typed : Text → Event
  fired : Event
  found : Option (List Suggestion) → Event
  abort_ended focused closed cleared : Event

abbrev end_live : Option (List Suggestion) → Option Text → State → State
end_live r none s = s
end_live r (some q) s = answered r s

-- An event that cannot happen in a state leaves it as it is.
unfoldable pub happen : Event → State → State
happen (typed v) s = set_value v s
happen fired s = timer_fired s
happen (found r) s = end_live r s.live s
happen abort_ended s = if ltb 0 s.aborted then aborted_ended s else s
happen focused s = focus s
happen closed s = close s
happen cleared s = clear s

unfoldable pub happen_all : List Event → State → State
happen_all [] s = s
happen_all (e ∷ es) s = happen_all es (happen e s)

-- The query of a timer or of a live request is the one of the box as it is, and long enough.
abbrev pub IsCurrent : Text → Option Text → Type 0
IsCurrent value none = Unit
IsCurrent value (some q) = (q ≡ trim value) × (2 ≤ length q)

-- The spinner shows only while a request has not ended.
abbrev pub IsBusy : Bool → Option Text → ℕ → Type 0
IsBusy false live aborted = Unit
IsBusy true (some q) aborted = Unit
IsBusy true none aborted = 0 < aborted

abbrev IsValid : State → Type 0
IsValid s = IsCurrent s.value s.timer × IsCurrent s.value s.live × IsBusy s.loading s.live s.aborted

effect-IsValid :
    (s : State)
    → s.timer ≡ none
    → s.live ≡ none
    → IsBusy s.loading none s.aborted
    → IsValid (effect s)
unfolding effect
effect-IsValid s no_timer idle busy = elim (Bool-cases (ltb (length (trim s.value)) 2)) [
  | inl short ↦ rw short (rw no_timer (rw idle (tt, tt, tt)))
  | inr long ↦ rw long (rw idle ((refl, ground arith), tt, busy))
]

clean_up-IsBusy :
    (loading : Bool) (live : Option Text) (n : ℕ)
    → IsBusy loading live n
    → IsBusy loading none (abort_live live n)
clean_up-IsBusy false live n h = tt
clean_up-IsBusy true none n h = h
clean_up-IsBusy true (some q) n h = omega arith

set_value-IsValid : (v : Text) (s : State) → IsValid s → IsValid (set_value v s)
unfolding set_value clean_up
set_value-IsValid v s (timer, live, busy) = elim (Bool-cases (code_eq v s.value)) [
  | inl same ↦ rw same (timer, live, busy)
  | inr other ↦ rw other (
      effect-IsValid (clean_up (record s { value = v })) refl refl
        (clean_up-IsBusy s.loading s.live s.aborted busy))
]

timer_fired-IsValid :
    (o : Option Text) (s : State) → IsCurrent s.value o → IsValid s → IsValid (start_request o s)
timer_fired-IsValid none s h valid = valid
timer_fired-IsValid (some q) s h valid = (tt, h, tt)

answered-IsValid : (r : Option (List Suggestion)) (s : State) → IsValid s → IsValid (answered r s)
unfolding answered
answered-IsValid none s (timer, live, busy) = (timer, tt, tt)
answered-IsValid (some xs) s (timer, live, busy) = (timer, tt, tt)

end_live-IsValid :
    (r : Option (List Suggestion)) (o : Option Text) (s : State)
    → IsValid s
    → IsValid (end_live r o s)
end_live-IsValid r none s h = h
end_live-IsValid r (some q) s h = answered-IsValid r s h

happen-IsValid : (e : Event) (s : State) → IsValid s → IsValid (happen e s)
unfolding happen timer_fired aborted_ended clear
happen-IsValid (typed v) s h = set_value-IsValid v s h
happen-IsValid fired s (timer, live, busy) = timer_fired-IsValid s.timer s timer (timer, live, busy)
happen-IsValid (found r) s h = end_live-IsValid r s.live s h
happen-IsValid abort_ended s (timer, live, busy) = elim (Bool-cases (ltb 0 s.aborted)) [
  | inl ended ↦ rw ended (timer, live, tt)
  | inr none_left ↦ rw none_left (timer, live, busy)
]
happen-IsValid focused s h = elim (Bool-cases (is_nonempty s.suggestions)) [
  | inl some_found ↦ rw some_found h
  | inr nothing ↦ rw nothing h
]
happen-IsValid closed s h = h
happen-IsValid cleared s h = set_value-IsValid [] s h

happen_all-IsValid : (es : List Event) (s : State) → IsValid s → IsValid (happen_all es s)
unfolding happen_all
happen_all-IsValid [] s h = h
happen_all-IsValid (e ∷ es) s h = happen_all-IsValid es (happen e s) (happen-IsValid e s h)

-- Whatever happens to the search box, in any order, the request that is not aborted, and the timer that
-- leads to one, are for the text that stands in the box, trimmed, of at least two characters; and the
-- spinner shows only while some request has not ended.
pub happen_all-IsCurrent :
    (q : Text) (es : List Event)
    → IsCurrent (happen_all es (mount q)).value (happen_all es (mount q)).timer
      × IsCurrent (happen_all es (mount q)).value (happen_all es (mount q)).live
      × IsBusy
          (happen_all es (mount q)).loading
          (happen_all es (mount q)).live
          (happen_all es (mount q)).aborted
unfolding mount
happen_all-IsCurrent q es = happen_all-IsValid es (mount q) (
    effect-IsValid
      (record {
        value = q;
        suggestions = [];
        is_open = false;
        loading = false;
        timer = none;
        live = none;
        aborted = 0;
      })
      refl refl tt)
