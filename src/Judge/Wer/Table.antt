-- ===== src/Judge/Wer/Table.antt =====
-- The table of `align` in internal/judge/wer.go against the recurrence of the edit distance.
use callstorm.Prelude.{
  ℕ, zero, suc, ◌+◌, ◌≤◌, ◌<◌, ◌≡◌, refl, sym, ap, ap₂, ◌∙◌, String, List, [], ◌∷◌, arith,
  if◌then◌else◌, length, get_or, str_eq,
}
use callstorm.Judge.Wer.{min3, word, fill_row, first_row, next_row, rows, table, at}

-- The edit distance between the first `i` words of one line and the first `j` of another.
unfoldable pub lev : (ℕ → String) → (ℕ → String) → ℕ → ℕ → ℕ
lev r h zero j = j
lev r h (suc i) zero = suc i
lev r h (suc i) (suc j) =
    if str_eq (r i) (h j)
    then lev r h i j
    else suc (min3 (lev r h i j) (lev r h i (suc j)) (lev r h (suc i) j))

-- `xs` holds `f k`, `f (k + 1)`, …, `n` of them.
abbrev Cells : (ℕ → ℕ) → ℕ → List ℕ → ℕ → Type 0
Cells f k [] zero = Unit
Cells f k [] (suc n) = ⊥
Cells f k (x ∷ xs) zero = ⊥
Cells f k (x ∷ xs) (suc n) = (x ≡ f k) × Cells f (suc k) xs n

Cells-get :
    (f : ℕ → ℕ) (k : ℕ) (xs : List ℕ) (n j : ℕ) → Cells f k xs n → j < n → get_or xs j 0 ≡ f (k + j)
Cells-get f k [] zero j c h = absurd (omega arith)
Cells-get f k [] (suc n) j c h = absurd c
Cells-get f k (x ∷ xs) zero j c h = absurd c
Cells-get f k (x ∷ xs) (suc n) zero c h = c.0 ∙ ap f (omega arith)
Cells-get f k (x ∷ xs) (suc n) (suc j) c h =
    Cells-get f (suc k) xs n j c.1 (omega arith) ∙ ap f (omega arith)

-- `w k`, `w (k + 1)`, … are the words of the list.
abbrev Words : (ℕ → String) → ℕ → List String → Type 0
Words w k [] = Unit
Words w k (x ∷ xs) = (w k ≡ x) × Words w (suc k) xs

Words-of :
    (w : ℕ → String) (k : ℕ) (xs : List String)
    → ((j : ℕ) → w (k + j) ≡ get_or xs j "")
    → Words w k xs
Words-of w k [] h = tt
Words-of w k (x ∷ xs) h =
    (ap w (omega arith) ∙ h zero, Words-of w (suc k) xs (λ j. ap w (omega arith) ∙ h (suc j)))

Words-word : (xs : List String) → Words (word xs) zero xs
Words-word xs = Words-of (word xs) zero xs (λ j. ap (word xs) (omega arith))

Cells-first_row :
    (f : ℕ → ℕ) (k : ℕ) (hs : List String)
    → ((j : ℕ) → f j ≡ j)
    → Cells f k (first_row k hs) (suc (length hs))
unfolding first_row
Cells-first_row f k [] e = (sym (e k), tt)
Cells-first_row f k (h ∷ hs) e = (sym (e k), Cells-first_row f (suc k) hs e)

module _ (r h : ℕ → String) (i : ℕ) where
  Cells-fill_row :
      (x : String) (k left diag : ℕ) (above : List ℕ) (hs : List String)
      → r i ≡ x
      → Words h k hs
      → left ≡ lev r h (suc i) k
      → diag ≡ lev r h i k
      → Cells (lev r h i) (suc k) above (length hs)
      → Cells (lev r h (suc i)) (suc k) (fill_row x left diag above hs) (length hs)
  unfolding fill_row lev
  Cells-fill_row x k left diag [] [] er w el ed c = tt
  Cells-fill_row x k left diag [] (y ∷ hs) er w el ed c = absurd c
  Cells-fill_row x k left diag (up ∷ above) [] er w el ed c = absurd c
  Cells-fill_row x k left diag (up ∷ above) (y ∷ hs) er w el ed c =
      (here, Cells-fill_row x (suc k) _ up above hs er w.1 here c.0 c.1)
    where
      here : (if str_eq x y then diag else suc (min3 diag up left)) ≡ lev r h (suc i) (suc k)
      here = rw (← er, ← w.0, el, ed, c.0, lev) refl

pub lev-zero : (r h : ℕ → String) (i : ℕ) → lev r h i zero ≡ i
unfolding lev
lev-zero r h zero = refl
lev-zero r h (suc i) = refl

module _ (r h : ℕ → String) (hyp : List String) (hyp_words : Words h zero hyp) where
  Cells-next_row :
      (i : ℕ) (x : String) (row : List ℕ)
      → r i ≡ x
      → Cells (lev r h i) zero row (suc (length hyp))
      → Cells (lev r h (suc i)) zero (next_row (suc i) x row hyp) (suc (length hyp))
  unfolding next_row
  Cells-next_row i x [] e c = absurd c
  Cells-next_row i x (diag ∷ above) e c = (
    sym (lev-zero r h (suc i)),
    Cells-fill_row r h i x zero (suc i) diag above hyp e hyp_words (sym (lev-zero r h (suc i))) c.0
        c.1,
  )

  at-rows :
      (k : ℕ) (row : List ℕ) (ref : List String) (i j : ℕ)
      → Words r k ref
      → Cells (lev r h k) zero row (suc (length hyp))
      → i ≤ length ref
      → j ≤ length hyp
      → at (rows k row ref hyp) i j ≡ lev r h (k + i) j
  unfolding rows
  at-rows k row [] zero j w c hi hj =
      Cells-get (lev r h k) zero row (suc (length hyp)) j c (omega arith)
      ∙ ap₂ (lev r h) (omega arith) (omega arith)
  at-rows k row [] (suc i) j w c hi hj = absurd (omega arith)
  at-rows k row (x ∷ ref) zero j w c hi hj =
      Cells-get (lev r h k) zero row (suc (length hyp)) j c (omega arith)
      ∙ ap₂ (lev r h) (omega arith) (omega arith)
  at-rows k row (x ∷ ref) (suc i) j w c hi hj =
      at-rows (suc k) (next_row (suc k) x row hyp) ref i j w.1 (Cells-next_row k x row w.0 c)
        (omega arith) hj
      ∙ ap (λ n. lev r h n j) (omega arith)

-- The cell (i, j) of the table is what the recurrence gives at (i, j), for every cell of the table.
pub at-table :
    (ref hyp : List String) (i j : ℕ)
    → i ≤ length ref
    → j ≤ length hyp
    → at (table ref hyp) i j ≡ lev (word ref) (word hyp) i j
unfolding table
at-table ref hyp i j hi hj =
    at-rows (word ref) (word hyp) hyp (Words-word hyp) zero (first_row 0 hyp) ref i j
      (Words-word ref)
      (Cells-first_row (lev (word ref) (word hyp) zero) zero hyp (λ k. unfold lev in refl)) hi hj
    ∙ ap (λ n. lev (word ref) (word hyp) n j) (omega arith)
