-- ===== src/Account/Enrolment/Kept.antt =====
-- Recovery codes stay on the page until they are acknowledged
-- (apps/storefront/src/components/auth/mfa-enrolment.tsx).
use ecomerce_microservices_o.Prelude.{
  ◌≡◌, refl, Bool, true, false, List, [], ◌∷◌, none, some, ◌||◌, Bool-cases, inl, inr,
}
use ecomerce_microservices_o.Account.{Text, answered}
use ecomerce_microservices_o.Account.Enrolment.{
  Enrolment, SessionState, loading, absent, present, Event, Action, acts, clicks_start, types_code,
  submits, cancels, ticks, clicks_done, start_ends, confirm_ends, confirming, happen, happen_all,
  view, View, skeleton, sign_in, codes_shown, act,
}

-- The codes are held, not acknowledged, and no request waits for an answer.
pub record IsHeld (codes : List Text) (s : Enrolment) : Type 0 where
  pub held : s.recovery_codes ≡ some codes
  pub unread : s.acknowledged ≡ false
  pub quiet : s.pending ≡ none

-- Whether the checkbox is ticked in a history.
abbrev pub is_tick : Event → Bool
is_tick (acts (ticks true)) = true
is_tick e = false

unfoldable pub ticked : List (SessionState × Event) → Bool
ticked [] = false
ticked ((session, e) ∷ es) = is_tick e || ticked es

neither : (a b : Bool) → a || b ≡ false → (a ≡ false) × (b ≡ false)
neither true b e = absurd (cc e)
neither false b e = (refl, e)

-- What such a state shows.
data Frozen (codes : List Text) : View → Type 0 where
  hidden : Frozen codes skeleton
  signed_out : Frozen codes sign_in
  shown : Frozen codes (codes_shown codes false)

view-Frozen :
    (codes : List Text) (session : SessionState) (s : Enrolment)
    → IsHeld codes s
    → Frozen codes (view session s)
unfolding view
view-Frozen codes loading s h = hidden
view-Frozen codes absent s h = signed_out
view-Frozen codes (present enabled) s h =
    rw h.held
      (elim (Bool-cases enabled) [ inl on ↦ rw h.unread shown | inr off ↦ rw h.unread shown ])

act-IsHeld :
    (codes : List Text) (a : Action) (v : View) (s : Enrolment)
    → Frozen codes v
    → is_tick (acts a) ≡ false
    → IsHeld codes s
    → IsHeld codes (act v a s)
act-IsHeld codes a _ s hidden no_tick h = h
act-IsHeld codes a _ s signed_out no_tick h = h
act-IsHeld codes clicks_start _ s shown no_tick h = h
act-IsHeld codes (types_code t) _ s shown no_tick h = h
act-IsHeld codes submits _ s shown no_tick h = h
act-IsHeld codes cancels _ s shown no_tick h = h
act-IsHeld codes (ticks true) _ s shown no_tick h = absurd (cc no_tick)
act-IsHeld codes (ticks false) _ s shown no_tick h = record {
  held = h.held;
  unread = refl;
  quiet = h.quiet;
}
act-IsHeld codes clicks_done _ s shown no_tick h = h

happen-IsHeld :
    (codes : List Text) (session : SessionState) (e : Event) (s : Enrolment)
    → is_tick e ≡ false
    → IsHeld codes s
    → IsHeld codes (happen session e s)
unfolding happen
happen-IsHeld codes session (acts a) s no_tick h =
    act-IsHeld codes a (view session s) s (view-Frozen codes session s h) no_tick h
happen-IsHeld codes session (start_ends o) s no_tick h = simp (h.quiet) h
happen-IsHeld codes session (confirm_ends o) s no_tick h = simp (h.quiet) h

happen_all-IsHeld :
    (codes : List Text) (es : List (SessionState × Event)) (s : Enrolment)
    → ticked es ≡ false
    → IsHeld codes s
    → IsHeld codes (happen_all es s)
unfolding happen_all ticked
happen_all-IsHeld codes [] s no_tick h = h
happen_all-IsHeld codes ((session, e) ∷ es) s no_tick h =
    happen_all-IsHeld codes es (happen session e s) (neither (is_tick e) (ticked es) no_tick).1
      (happen-IsHeld codes session e s (neither (is_tick e) (ticked es) no_tick).0 h)

confirm_ends-IsHeld :
    (codes : List Text) (session : SessionState) (t : Text) (s : Enrolment)
    → s.pending ≡ some (confirming t)
    → s.acknowledged ≡ false
    → IsHeld codes (happen session (confirm_ends (answered codes)) s)
unfolding happen
confirm_ends-IsHeld codes session t s waits unread =
    simp (waits) (record { held = refl; unread = unread; quiet = refl })

-- Once the server has answered a code with recovery codes, the page shows them to the signed-in
-- user after any history of controls, answers and changes of the session in which the checkbox is
-- not ticked, where it was not ticked before.
pub happen_all-codes_shown :
    (codes : List Text) (session : SessionState) (t : Text) (s : Enrolment)
    (es : List (SessionState × Event)) (enabled : Bool)
    → s.pending ≡ some (confirming t)
    → s.acknowledged ≡ false
    → ticked es ≡ false
    → view (present enabled) (happen_all es (happen session (confirm_ends (answered codes)) s))
      ≡ codes_shown codes false
unfolding view
happen_all-codes_shown codes session t s es enabled waits unread no_tick =
    let h =
      happen_all-IsHeld codes es (happen session (confirm_ends (answered codes)) s) no_tick
        (confirm_ends-IsHeld codes session t s waits unread) in
    simp (h.held, h.unread)
