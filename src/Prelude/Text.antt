-- ===== src/Prelude/Text.antt =====
-- Equality of whole texts.
use Prim.Native.String.{String, compare}
use Prim.Native.Nat.{Ordering}
use mathlib.Core.Path.{◌≡◌}
use mathlib.Core.Bool.{Bool, true, false}
use mathlib.Core.Logic.{◌↔◌}
use native.Mathlib.Omega.{arith}
use text.Mathlib.Text.{◌==◌}
use text.Mathlib.TextEquality.{eq_iff}

abbrev pub str_eq : String → String → Bool
str_eq s t = s == t

pub str_eq_iff : (s t : String) → (str_eq s t ≡ true) ↔ (s ≡ t)
str_eq_iff s t = eq_iff s t

pub str_eq_of : (s t : String) → s ≡ t → str_eq s t ≡ true
str_eq_of s t e = (str_eq_iff s t).1 e

pub str_eq_apart : (s t u : String) → str_eq s t ≡ false → str_eq s u ≡ true → str_eq t u ≡ false
str_eq_apart s t u h e = ground (arith, str_eq_iff s t, str_eq_iff s u, str_eq_iff t u)

-- `s < t`: the order of the bytes is that of the code points.
abbrev pub str_ltb : String → String → Bool
str_ltb s t = elim (compare s t) [ Ordering.lt ↦ true | _ ↦ false ]
