-- ===== src/Judge/Wer.antt =====
-- internal/judge/wer.go: the word error rate. `normalize` runs Unicode tables of Go's library and
-- is an argument. A rate is the fraction `errors / words` with its parts kept apart.
pub mod Table
pub mod Walk
use callstorm.Prelude.{
  ℕ, zero, suc, ◌+◌, String, Bool, true, false, ◌&&◌, List, [], ◌∷◌, ◌==◌, ltb, if◌then◌else◌,
  length, get_or, str_eq,
}

-- `min3`.
unfoldable pub min3 : ℕ → ℕ → ℕ → ℕ
min3 a b c = let a' = if ltb b a then b else a in if ltb c a' then c else a'

-- `xs[i]`, used in range only.
abbrev pub word : List String → ℕ → String
word xs i = get_or xs i ""

-- One row of the table from the row above it: `left` is `d[i][j-1]`, `diag :: above` the row above
-- from column j-1, and `hs` the words of `hyp` from j-1.
unfoldable pub fill_row : String → ℕ → ℕ → List ℕ → List String → List ℕ
fill_row r left diag above [] = []
fill_row r left diag [] (h ∷ hs) = []
fill_row r left diag (up ∷ above) (h ∷ hs) =
    let cell = if str_eq r h then diag else suc (min3 diag up left) in
    cell ∷ fill_row r cell up above hs

-- `d[0][j] = j`.
unfoldable pub first_row : ℕ → List String → List ℕ
first_row j [] = j ∷ []
first_row j (h ∷ hs) = j ∷ first_row (suc j) hs

next_row : ℕ → String → List ℕ → List String → List ℕ
next_row i r [] hyp = i ∷ []
next_row i r (diag ∷ above) hyp = i ∷ fill_row r i diag above hyp

rows : ℕ → List ℕ → List String → List String → List (List ℕ)
unfolding next_row fill_row
rows i row [] hyp = row ∷ []
rows i row (r ∷ ref) hyp = row ∷ rows (suc i) (next_row (suc i) r row hyp) ref hyp

-- The whole table.
unfoldable pub table : List String → List String → List (List ℕ)
unfolding rows first_row
table ref hyp = rows 0 (first_row 0 hyp) ref hyp

abbrev pub at : List (List ℕ) → ℕ → ℕ → ℕ
at d i j = get_or (get_or d i []) j 0

pub record Counts : Type 0 where
  pub subs : ℕ
  pub dels : ℕ
  pub ins : ℕ

-- The walk back from the corner, over fuel. The guards `i > 0` and `j > 0` are the constructors.
unfoldable pub walk : List (List ℕ) → List String → List String → ℕ → ℕ → ℕ → Counts → Counts
walk d ref hyp zero i j c = c
walk d ref hyp (suc fuel) zero zero c = c
walk d ref hyp (suc fuel) zero (suc j) c = walk d ref hyp fuel zero j (record c { ins = suc c.ins })
walk d ref hyp (suc fuel) (suc i) zero c =
    let up = walk d ref hyp fuel i zero (record c { dels = suc c.dels }) in
    let stay = walk d ref hyp fuel (suc i) zero (record c { ins = suc c.ins }) in
    if at d (suc i) zero == suc (at d i zero) then up else stay
walk d ref hyp (suc fuel) (suc i) (suc j) c =
    let keep = walk d ref hyp fuel i j c in
    let sub = walk d ref hyp fuel i j (record c { subs = suc c.subs }) in
    let del = walk d ref hyp fuel i (suc j) (record c { dels = suc c.dels }) in
    let add = walk d ref hyp fuel (suc i) j (record c { ins = suc c.ins }) in
    if str_eq (word ref i) (word hyp j) && (at d (suc i) (suc j) == at d i j)
    then keep
    else (if at d (suc i) (suc j) == suc (at d i j)
        then sub
        else (if at d (suc i) (suc j) == suc (at d i (suc j)) then del else add))

abbrev pub no_errors : Counts
no_errors = record { subs = 0; dels = 0; ins = 0 }

-- `align`. Each round of the walk lowers i + j.
unfoldable pub align : List String → List String → Counts
unfolding table walk
align ref hyp =
    walk (table ref hyp) ref hyp (length ref + length hyp) (length ref) (length hyp) no_errors

-- `Wer`, with the rate as errors over words.
pub record Wer : Type 0 where
  pub rate_num : ℕ
  pub rate_den : ℕ
  pub counts : Counts
  pub ref_words : ℕ

rate : ℕ → ℕ → Counts → Wer
rate zero zero c = record { rate_num = 0; rate_den = 1; counts = c; ref_words = 0 }
rate zero (suc m) c = record {
  rate_num = 1;
  rate_den = 1;
  counts = record c { ins = suc m };
  ref_words = 0;
}
rate (suc n) m c = record {
  rate_num = c.subs + c.dels + c.ins;
  rate_den = suc n;
  counts = c;
  ref_words = suc n;
}

-- `Score`.
unfoldable pub score : (String → List String) → String → String → Wer
unfolding rate align
score normalize said heard =
    let ref = normalize said in
    let hyp = normalize heard in rate (length ref) (length hyp) (align ref hyp)
