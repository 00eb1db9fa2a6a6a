-- ===== src/Judge/Wer/Walk.antt =====
-- The counts of `align` in internal/judge/wer.go: a real edit script, and the shortest.
use callstorm.Prelude.{
  ℕ, zero, suc, ◌+◌, ◌≤◌, ◌<◌, ◌≡◌, ◌≢◌, refl, sym, ◌∙◌, String, false, if_intro, and-split, ==_iff,
  List, arith, ◌==◌, ◌&&◌, if◌then◌else◌, length, str_eq, str_eq_iff,
}
use callstorm.Judge.Wer.{min3, word, table, at, Counts, walk, align, no_errors}
use callstorm.Judge.Wer.Table.{lev, lev-zero, at-table}

-- The ways to turn the first `i` words of one line into the first `j` of another by `s`
-- substitutions, `d` deletions and `n` insertions.
pub data Script (r h : ℕ → String) : ℕ → ℕ → ℕ → ℕ → ℕ → Type 0 where
  start : Script r h 0 0 0 0 0
  keep : {i j s d n : ℕ} → r i ≡ h j → Script r h i j s d n → Script r h (suc i) (suc j) s d n
  substitute : {i j s d n : ℕ} → Script r h i j s d n → Script r h (suc i) (suc j) (suc s) d n
  delete : {i j s d n : ℕ} → Script r h i j s d n → Script r h (suc i) j s (suc d) n
  insert : {i j s d n : ℕ} → Script r h i j s d n → Script r h i (suc j) s d (suc n)

module _ (r h : ℕ → String) where
  -- Neighbouring cells differ by at most one.
  Near : ℕ → ℕ → Type 0
  Near i j = (lev r h (suc i) j ≤ suc (lev r h i j)) × (lev r h i j ≤ suc (lev r h i (suc j)))

  near : (i j : ℕ) → Near i j
  unfolding Near lev min3
  near zero zero = omega arith
  near zero (suc j) = ground (arith, near zero j)
  near (suc i) zero = ground (arith, near i zero)
  near (suc i) (suc j) = ground (arith, near (suc i) j, near i (suc j))

  Across : ℕ → ℕ → Type 0
  Across i j = (lev r h i (suc j) ≤ suc (lev r h i j)) × (lev r h i j ≤ suc (lev r h (suc i) j))

  across : (i j : ℕ) → Across i j
  unfolding Across lev min3
  across zero zero = omega arith
  across zero (suc j) = ground (arith, across zero j)
  across (suc i) zero = ground (arith, across i zero)
  across (suc i) (suc j) = ground (arith, across (suc i) j, across i (suc j))

  lev_step : (i j : ℕ) → lev r h (suc i) (suc j) ≤ suc (lev r h i j)
  unfolding lev min3
  lev_step i j = ground arith

  lev_same : (i j : ℕ) → r i ≡ h j → lev r h (suc i) (suc j) ≡ lev r h i j
  unfolding lev
  lev_same i j e = rw ((str_eq_iff (r i) (h j)).1 e)

  -- No script is shorter than the distance.
  lev-le-Script : {i j s d n : ℕ} → Script r h i j s d n → lev r h i j ≤ s + d + n
  unfolding Near Across
  lev-le-Script start = unfold lev in omega arith
  lev-le-Script (keep {i = i} {j = j} e p) = omega (arith, lev_same i j e, lev-le-Script p)
  lev-le-Script (substitute {i = i} {j = j} p) = omega (arith, lev_step i j, lev-le-Script p)
  lev-le-Script (delete {i = i} {j = j} p) = omega (arith, near i j, lev-le-Script p)
  lev-le-Script (insert {i = i} {j = j} p) = omega (arith, across i j, lev-le-Script p)

  -- The number of words of the second line is that of the first, less the deletions, with the
  -- insertions.
  Script-balance : {i j s d n : ℕ} → Script r h i j s d n → i + n ≡ j + d
  Script-balance start = omega arith
  Script-balance (keep e p) = omega (arith, Script-balance p)
  Script-balance (substitute p) = omega (arith, Script-balance p)
  Script-balance (delete p) = omega (arith, Script-balance p)
  Script-balance (insert p) = omega (arith, Script-balance p)

  -- What the walk adds to its counts is a script of the length of the distance.
  record Walked (i j : ℕ) (c c' : Counts) : Type 0 where
    s : ℕ
    d : ℕ
    n : ℕ
    script : Script r h i j s d n
    shortest : s + d + n ≡ lev r h i j
    subs_eq : c'.subs ≡ c.subs + s
    dels_eq : c'.dels ≡ c.dels + d
    ins_eq : c'.ins ≡ c.ins + n

  walked_start : (c : Counts) → Walked zero zero c c
  unfolding lev
  walked_start c = record {
    s = 0;
    d = 0;
    n = 0;
    script = start;
    shortest = omega arith;
    subs_eq = omega arith;
    dels_eq = omega arith;
    ins_eq = omega arith;
  }

  walked_keep :
      (i j : ℕ) (c c' : Counts) → r i ≡ h j → Walked i j c c' → Walked (suc i) (suc j) c c'
  walked_keep i j c c' e w = record {
    s = w.s;
    d = w.d;
    n = w.n;
    script = keep e w.script;
    shortest = omega (arith, w.shortest, lev_same i j e);
    subs_eq = w.subs_eq;
    dels_eq = w.dels_eq;
    ins_eq = w.ins_eq;
  }

  walked_sub :
      (i j : ℕ) (c c' : Counts)
      → lev r h (suc i) (suc j) ≡ suc (lev r h i j)
      → Walked i j (record c { subs = suc c.subs }) c'
      → Walked (suc i) (suc j) c c'
  walked_sub i j c c' e w = record {
    s = suc w.s;
    d = w.d;
    n = w.n;
    script = substitute w.script;
    shortest = omega (arith, w.shortest);
    subs_eq = omega (arith, w.subs_eq);
    dels_eq = w.dels_eq;
    ins_eq = w.ins_eq;
  }

  walked_del :
      (i j : ℕ) (c c' : Counts)
      → lev r h (suc i) j ≡ suc (lev r h i j)
      → Walked i j (record c { dels = suc c.dels }) c'
      → Walked (suc i) j c c'
  walked_del i j c c' e w = record {
    s = w.s;
    d = suc w.d;
    n = w.n;
    script = delete w.script;
    shortest = omega (arith, w.shortest);
    subs_eq = w.subs_eq;
    dels_eq = omega (arith, w.dels_eq);
    ins_eq = w.ins_eq;
  }

  walked_ins :
      (i j : ℕ) (c c' : Counts)
      → lev r h i (suc j) ≡ suc (lev r h i j)
      → Walked i j (record c { ins = suc c.ins }) c'
      → Walked i (suc j) c c'
  walked_ins i j c c' e w = record {
    s = w.s;
    d = w.d;
    n = suc w.n;
    script = insert w.script;
    shortest = omega (arith, w.shortest);
    subs_eq = w.subs_eq;
    dels_eq = w.dels_eq;
    ins_eq = omega (arith, w.ins_eq);
  }

  -- Where neither the diagonal nor the cell above made this cell, the one on the left did.
  lev_left :
      (i j : ℕ)
      → (str_eq (r i) (h j) && (lev r h (suc i) (suc j) == lev r h i j)) ≡ false
      → lev r h (suc i) (suc j) ≢ suc (lev r h i j)
      → lev r h (suc i) (suc j) ≢ suc (lev r h i (suc j))
      → lev r h (suc i) (suc j) ≡ suc (lev r h (suc i) j)
  unfolding lev min3
  lev_left i j a b c = ground arith

module _ (ref hyp : List String) where
  abbrev cell : ℕ → ℕ → ℕ
  cell i j = at (table ref hyp) i j

  abbrev dist : ℕ → ℕ → ℕ
  dist i j = lev (word ref) (word hyp) i j

  abbrev WalkedFrom : ℕ → ℕ → Counts → Counts → Type 0
  WalkedFrom i j c c' = Walked (word ref) (word hyp) i j c c'

  -- The branches of one round, with the rest of the walk done.
  walked_round :
      (i j : ℕ) (c kp sub del add : Counts)
      → i < length ref
      → j < length hyp
      → WalkedFrom i j c kp
      → WalkedFrom i j (record c { subs = suc c.subs }) sub
      → WalkedFrom i (suc j) (record c { dels = suc c.dels }) del
      → WalkedFrom (suc i) j (record c { ins = suc c.ins }) add
      → WalkedFrom (suc i) (suc j) c (
          if str_eq (word ref i) (word hyp j) && (cell (suc i) (suc j) == cell i j)
          then kp
          else (if cell (suc i) (suc j) == suc (cell i j)
              then sub
              else (if cell (suc i) (suc j) == suc (cell i (suc j)) then del else add)))
  walked_round i j c kp sub del add hi hj wk ws wd wa =
      rw
        (
          at-table ref hyp (suc i) (suc j) (omega arith) (omega arith),
          at-table ref hyp i j (omega arith) (omega arith),
          at-table ref hyp i (suc j) (omega arith) (omega arith),
        )
        (if_intro P _ kp _
          (λ a.
            walked_keep _ _ i j c kp ((str_eq_iff (word ref i) (word hyp j)).0 (and-split _ _ a).0)
              wk)
          (λ a.
            if_intro P _ sub _ (λ b. walked_sub _ _ i j c sub ((==_iff _ _).0 b) ws)
              (λ b.
                if_intro P _ del add (λ e. walked_del _ _ i (suc j) c del ((==_iff _ _).0 e) wd)
                  (λ e.
                    walked_ins _ _ (suc i) j c add
                      (lev_left _ _ i j a (λ q. not-eq _ _ b q) (λ q. not-eq _ _ e q)) wa))))
    where
      P : Counts → Type 0
      P = WalkedFrom (suc i) (suc j) c

      not-eq : (a b : ℕ) → (a == b) ≡ false → a ≢ b
      not-eq a b h = ground arith

  -- In the first column the cell above always made this one.
  walked_column :
      (i : ℕ) (c up stay : Counts)
      → i < length ref
      → WalkedFrom i zero (record c { dels = suc c.dels }) up
      → WalkedFrom (suc i) zero c (if cell (suc i) zero == suc (cell i zero) then up else stay)
  walked_column i c up stay hi w =
      rw
        (
          at-table ref hyp (suc i) zero (omega arith) (omega arith),
          at-table ref hyp i zero (omega arith) (omega arith),
          lev-zero (word ref) (word hyp) (suc i),
          lev-zero (word ref) (word hyp) i,
          (==_iff (suc i) (suc i)).1 refl,
        )
        (walked_del _ _ i zero c up
          (omega (arith, lev-zero (word ref) (word hyp) (suc i), lev-zero (word ref) (word hyp) i))
          w)

  walk-Walked :
      (fuel i j : ℕ) (c : Counts)
      → i + j ≤ fuel
      → i ≤ length ref
      → j ≤ length hyp
      → WalkedFrom i j c (walk (table ref hyp) ref hyp fuel i j c)
  unfolding walk
  walk-Walked zero zero zero c f hi hj = walked_start _ _ c
  walk-Walked zero zero (suc j) c f hi hj = absurd (omega arith)
  walk-Walked zero (suc i) j c f hi hj = absurd (omega arith)
  walk-Walked (suc fuel) zero zero c f hi hj = walked_start _ _ c
  walk-Walked (suc fuel) zero (suc j) c f hi hj =
      walked_ins _ _ zero j c _ (unfold lev in refl)
        (walk-Walked fuel zero j (record c { ins = suc c.ins }) (omega arith) hi (omega arith))
  walk-Walked (suc fuel) (suc i) zero c f hi hj =
      walked_column i c _ _ (omega arith)
        (walk-Walked fuel i zero (record c { dels = suc c.dels }) (omega arith) (omega arith) hj)
  walk-Walked (suc fuel) (suc i) (suc j) c f hi hj =
      walked_round i j c _ _ _ _ (omega arith) (omega arith)
        (walk-Walked fuel i j c (omega arith) (omega arith) (omega arith))
        (walk-Walked fuel i j (record c { subs = suc c.subs }) (omega arith) (omega arith)
          (omega arith))
        (walk-Walked fuel i (suc j) (record c { dels = suc c.dels }) (omega arith) (omega arith) hj)
        (walk-Walked fuel (suc i) j (record c { ins = suc c.ins }) (omega arith) hi (omega arith))

  walk-Walked_whole : WalkedFrom (length ref) (length hyp) no_errors (align ref hyp)
  unfolding align
  walk-Walked_whole =
      walk-Walked (length ref + length hyp) (length ref) (length hyp) no_errors (omega arith)
        (omega arith) (omega arith)

module _ (r h : ℕ → String) (i j : ℕ) (c : Counts) (w : Walked r h i j no_errors c) where
  Script-of : Script r h i j c.subs c.dels c.ins
  Script-of =
      let es : c.subs ≡ w.s = omega (arith, w.subs_eq) in
      let ed : c.dels ≡ w.d = omega (arith, w.dels_eq) in
      let en : c.ins ≡ w.n = omega (arith, w.ins_eq) in rw (es, ed, en) w.script

  total-le : (s d n : ℕ) → Script r h i j s d n → c.subs + c.dels + c.ins ≤ s + d + n
  total-le s d n p = omega (arith, w.shortest, w.subs_eq, w.dels_eq, w.ins_eq, lev-le-Script r h p)

-- The counts of `align` are those of an edit script from the reference to the hypothesis, and no
-- script has fewer edits.
pub align_optimal :
    (ref hyp : List String)
    → Script
        (word ref)
        (word hyp)
        (length ref)
        (length hyp)
        (align ref hyp).subs
        (align ref hyp).dels
        (align ref hyp).ins
      × ((s d n : ℕ)
          → Script (word ref) (word hyp) (length ref) (length hyp) s d n
          → (align ref hyp).subs + (align ref hyp).dels + (align ref hyp).ins ≤ s + d + n)
align_optimal ref hyp =
    let w = walk-Walked_whole ref hyp in (Script-of _ _ _ _ _ w, total-le _ _ _ _ _ w)

-- The words heard are the words said, less the deletions, with the insertions.
pub align_balance :
    (ref hyp : List String) → length ref + (align ref hyp).ins ≡ length hyp + (align ref hyp).dels
align_balance ref hyp = Script-balance _ _ (align_optimal ref hyp).0

-- `k` is the length of a script from the first `i` words to the first `j`, and none is shorter.
pub record IsDistance (r h : ℕ → String) (i j k : ℕ) : Type 0 where
  pub s : ℕ
  pub d : ℕ
  pub n : ℕ
  pub script : Script r h i j s d n
  pub reached : s + d + n ≡ k
  pub least : (s d n : ℕ) → Script r h i j s d n → k ≤ s + d + n

-- The cell (i, j) of the table is the length of the shortest edit script from the first `i` words of
-- the reference to the first `j` words of the hypothesis, for every cell of the table.
pub at-table-IsDistance :
    (ref hyp : List String) (i j : ℕ)
    → i ≤ length ref
    → j ≤ length hyp
    → IsDistance (word ref) (word hyp) i j (at (table ref hyp) i j)
at-table-IsDistance ref hyp i j hi hj =
    let w = walk-Walked ref hyp (i + j) i j no_errors (omega arith) hi hj in
    let e = at-table ref hyp i j hi hj in
    record {
      s = w.s;
      d = w.d;
      n = w.n;
      script = w.script;
      reached = w.shortest ∙ sym e;
      least = λ s d n p. omega (arith, e, lev-le-Script (word ref) (word hyp) p);
    }
