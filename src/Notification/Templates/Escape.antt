-- ===== src/Notification/Templates/Escape.antt =====
-- The escaping of wrapHtml (services/notification-service/src/templates.ts).
use ecomerce_microservices_o.Prelude.{
  ℕ, ◌==◌, ◌≡◌, refl, ◌∙◌, ap, Bool-cases, inl, inr, [], ◌∷◌, ◌++◌, if◌then◌else◌,
}
use ecomerce_microservices_o.Prelude.Codes.{codes}
use ecomerce_microservices_o.Notification.Templates.{Text, replace, escaped}

-- What HTML writes for a character.
abbrev pub entity : ℕ → Text
entity c =
    if c == 38
    then codes "&amp;"
    else if c == 60
    then codes "&lt;"
    else if c == 62
    then codes "&gt;"
    else if c == 10
    then codes "<br>"
    else c ∷ []

unfoldable pub each_once : Text → Text
each_once [] = []
each_once (c ∷ s) = entity c ++ each_once s

append_assoc : (s t u : Text) → (s ++ t) ++ u ≡ s ++ (t ++ u)
append_assoc [] t u = refl
append_assoc (c ∷ s) t u = ap (λ x. c ∷ x) (append_assoc s t u)

replace-append :
    (c : ℕ) (new s t : Text) → replace c new (s ++ t) ≡ replace c new s ++ replace c new t
unfolding replace
replace-append c new [] t = refl
replace-append c new (d ∷ s) t =
    rw (replace-append c new s t)
      (rw (append_assoc (if d == c then new else d ∷ []) (replace c new s) (replace c new t)) refl)

escaped-append : (s t : Text) → escaped (s ++ t) ≡ escaped s ++ escaped t
unfolding escaped
escaped-append s t = simp (replace-append) refl

escaped-char : (c : ℕ) → escaped (c ∷ []) ≡ entity c
unfolding escaped replace
escaped-char c = elim (Bool-cases (c == 38)) [
  | inl amp ↦ rw amp refl
  | inr not_amp ↦ rw not_amp (elim (Bool-cases (c == 60)) [
    | inl lt ↦ rw lt refl
    | inr not_lt ↦ rw not_lt (elim (Bool-cases (c == 62)) [
      | inl gt ↦ rw gt refl
      | inr not_gt ↦ rw not_gt (elim (Bool-cases (c == 10)) [
        | inl newline ↦ rw newline refl
        | inr other ↦ rw other refl
      ])
    ])
  ])
]

-- The four replacements of wrapHtml, one after the other over the whole text, write for each of its
-- characters once what HTML writes for it.
pub escaped-each_once : (text : Text) → escaped text ≡ each_once text
unfolding each_once escaped replace
escaped-each_once [] = refl
escaped-each_once (c ∷ s) =
    escaped-append (c ∷ []) s
    ∙ ap (λ x. x ++ escaped s) (escaped-char c)
    ∙ ap (λ x. entity c ++ x) (escaped-each_once s)
