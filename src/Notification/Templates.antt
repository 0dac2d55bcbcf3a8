-- ===== src/Notification/Templates.antt =====
-- `pick` and wrapHtml of services/notification-service/src/templates.ts. A locale and a text are
-- character codes.
pub mod Escape
use ecomerce_microservices_o.Prelude.{
  ℕ, ◌==◌, Bool, true, false, ◌&&◌, List, [], ◌∷◌, ◌++◌, Option, none, some, if◌then◌else◌,
}
use ecomerce_microservices_o.Prelude.Codes.{codes, to_lower, starts_with}

abbrev pub Text : Type 0
Text = List ℕ

unfoldable pub text_eq : Text → Text → Bool
text_eq [] [] = true
text_eq (c ∷ s) (d ∷ t) = c == d && text_eq s t
text_eq _ _ = false

-- A field of a template: its texts by locale, in order.
abbrev pub Translations : Type 0
Translations = List (Text × Text)

-- `m[locale]`
unfoldable pub exact : Text → Translations → Option Text
exact locale [] = none
exact locale ((key, value) ∷ m) = if text_eq key locale then some value else exact locale m

-- `s.slice(0, 2).toLowerCase()`
abbrev pub language : Text → Text
language (c ∷ d ∷ s) = to_lower (c ∷ d ∷ [])
language s = to_lower s

unfoldable pub same_language : Text → Translations → Option Text
unfolding text_eq
same_language locale [] = none
same_language locale ((key, value) ∷ m) =
    if text_eq (language key) (language locale) then some value else same_language locale m

abbrev or_else : Option Text → Option Text → Option Text
or_else (some t) other = some t
or_else none other = other

-- `none` is undefined, where there is no text for en-GB.
unfoldable pub pick : Text → Translations → Option Text
pick locale m =
    or_else (exact locale m) (or_else (same_language locale m) (exact (codes "en-GB") m))

-- `text.replace(/c/g, new)`
unfoldable pub replace : ℕ → Text → Text → Text
replace c new [] = []
replace c new (d ∷ s) = (if d == c then new else d ∷ []) ++ replace c new s

unfoldable pub escaped : Text → Text
escaped text =
    replace 10 (codes "<br>")
      (replace 62 (codes "&gt;") (replace 60 (codes "&lt;") (replace 38 (codes "&amp;") text)))

-- What wrapHtml fills its markup with.
pub record Html : Type 0 where
  pub lang : Text
  pub rtl : Bool
  pub body : Text

unfoldable pub wrap_html : Text → Text → Html
wrap_html text locale = record {
  lang = locale;
  rtl = starts_with locale (codes "ar");
  body = escaped text;
}
