-- ===== src/Prelude/Points.antt =====
-- Text as a list of code points, with what the source uses of Go's `strings`: trimming of Unicode
-- white space and tests of a prefix.
use Prim.Native.Nat.{ℕ}
use mathlib.Core.Path.{◌≡◌, refl}
use mathlib.Core.Bool.{Bool, true, false, ◌&&◌, ◌||◌}
use mathlib.Core.List.{List, [], ◌∷◌, ◌++◌}
use native.Mathlib.Omega.{arith}
use callstorm.Prelude.Tests.{ltb, leb, ◌==◌, if◌then◌else◌}

abbrev pub Runes : Type 0
Runes = List ℕ

-- `unicode.IsSpace`.
unfoldable pub is_space : ℕ → Bool
is_space c =
    (leb 9 c && leb c 13)
    || ((c == 32)
        || ((c == 133)
            || ((c == 160)
                || ((c == 5760)
                    || ((leb 8192 c && leb c 8202)
                        || ((c == 8232)
                            || ((c == 8233) || ((c == 8239) || ((c == 8287) || (c == 12288))))))))))

abbrev pub is_nil : Runes → Bool
is_nil [] = true
is_nil (c ∷ cs) = false

unfoldable pub trim_left : Runes → Runes
unfolding is_space
trim_left [] = []
trim_left (c ∷ cs) = let rest = trim_left cs in if is_space c then rest else (c ∷ cs)

unfoldable pub trim_right : Runes → Runes
unfolding is_space
trim_right [] = []
trim_right (c ∷ cs) =
    let rest = trim_right cs in if is_space c && is_nil rest then [] else (c ∷ rest)

-- `strings.TrimSpace`.
unfoldable pub trim_space : Runes → Runes
unfolding trim_left trim_right
trim_space s = trim_right (trim_left s)

-- The rest of a text after a prefix, if it has it: `strings.TrimPrefix` and `HasPrefix`.
unfoldable pub strip_prefix : Runes → Runes → Bool × Runes
strip_prefix [] s = (true, s)
strip_prefix (p ∷ ps) [] = (false, [])
strip_prefix (p ∷ ps) (c ∷ cs) = if p == c then strip_prefix ps cs else (false, c ∷ cs)

unfoldable pub trim_prefix : Runes → Runes → Runes
unfolding strip_prefix
trim_prefix p s = if (strip_prefix p s).0 then (strip_prefix p s).1 else s

unfoldable pub equal : Runes → Runes → Bool
equal [] [] = true
equal [] (d ∷ ds) = false
equal (c ∷ cs) [] = false
equal (c ∷ cs) (d ∷ ds) = (c == d) && equal cs ds

-- The order of Go's strings, which on UTF-8 is that of the code points.
unfoldable pub before : Runes → Runes → Bool
before s [] = false
before [] (d ∷ ds) = true
before (c ∷ cs) (d ∷ ds) = if c == d then before cs ds else ltb c d

unfoldable pub insert_runes : Runes → List Runes → List Runes
unfolding before
insert_runes x [] = x ∷ []
insert_runes x (y ∷ ys) =
    let rest = insert_runes x ys in if before y x then (y ∷ rest) else (x ∷ y ∷ ys)

-- `sort.Strings`.
unfoldable pub sort_runes : List Runes → List Runes
unfolding insert_runes
sort_runes [] = []
sort_runes (x ∷ xs) = insert_runes x (sort_runes xs)

-- A text that ends in no space keeps its end.
pub trim_right-snoc :
    (s : Runes) (c : ℕ) → is_space c ≡ false → trim_right (s ++ (c ∷ [])) ≡ s ++ (c ∷ [])
unfolding trim_right
trim_right-snoc [] c e = rw (e) refl
trim_right-snoc (d ∷ s) c e = rw (trim_right-snoc s c e) (keep s)
  where
    keep :
        (t : Runes)
        → (if is_space d && is_nil (t ++ (c ∷ [])) then [] else (d ∷ (t ++ (c ∷ []))))
          ≡ d ∷ (t ++ (c ∷ []))
    keep [] = ground arith
    keep (u ∷ t) = ground arith

pub trim_left-start : (c : ℕ) (s : Runes) → is_space c ≡ false → trim_left (c ∷ s) ≡ c ∷ s
unfolding trim_left
trim_left-start c s e = rw (e) refl
