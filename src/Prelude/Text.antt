-- ===== src/Prelude/Text.antt =====
-- Texts that are only compared whole: ids, codes and keys.
use Prim.Native.String.{String, ◌++◌}
use mathlib.Core.Path.{◌≡◌}
use mathlib.Core.Logic.{◌≢◌, ◌⊎◌}
use mathlib.Core.Bool.{Bool, true, false, ◌||◌}
use mathlib.Core.List.{List, [], ◌∷◌}
use text.Mathlib.Text.{◌==◌}
use text.Mathlib.TextEquality.{eq_iff}
use native.Mathlib.Omega.{arith}

abbrev pub str_eq : String → String → Bool
str_eq a b = a == b

-- `${a}${b}`
abbrev pub concat : String → String → String
concat a b = a ++ b

-- `xs.includes(a)`
abbrev pub includes : String → List String → Bool
includes a [] = false
includes a (x ∷ xs) = str_eq x a || includes a xs

pub str_eq_self : (a : String) → str_eq a a ≡ true
str_eq_self a = (eq_iff a a).1 (λ i. a)

pub str_eq_ne : (a b : String) → a ≢ b → str_eq a b ≡ false
str_eq_ne a b h = ground (arith, eq_iff a b)

pub str_ne : (a b : String) → str_eq a b ≡ false → a ≢ b
str_ne a b h = ground (arith, eq_iff a b)

pub String-cases : (a b : String) → (a ≡ b) ⊎ (a ≢ b)
String-cases a b = ground (arith, eq_iff a b)
