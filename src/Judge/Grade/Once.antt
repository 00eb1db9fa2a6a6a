-- ===== src/Judge/Grade/Once.antt =====
-- A judgement of internal/judge/judge.go, `Score`, answers every criterion once.
use callstorm.Prelude.{
  ℕ, zero, suc, ◌+◌, ◌≤◌, ◌≡◌, refl, sym, ◌∙◌, ap, ℤ, pos, negsuc, String, ◌==◌, ==_iff, Option,
  none, some, List, [], ◌∷◌, length, All, Any, Result, ok, err, Bool-cases, inl, inr, arith, Runes,
  ok-injective,
}
use mathlib.Core.Path.{subst}
use callstorm.Judge.Grade.{
  Answer, Outcome, Fault, Judgement, number_of, outcome_of, Slots, empty_slots, front, fill,
  fill_number, then_fill, fill_all, written, graded, grade_parsed, strip_fences, grade_reply, score,
}

-- An answer names number `k` and says what the outcome does.
abbrev pub Says : ℕ → Outcome → Answer → Type 0
Says k o a =
    (number_of a ≡ some (pos k))
    × (o.met ≡ a.met)
    × (o.evidence ≡ a.evidence)
    × (o.reasoning ≡ a.reasoning)

-- From criterion `k` on, each given outcome is its criterion's and one of the answers says it.
abbrev pub Given : List Answer → ℕ → List String → Slots → Type 0
Given all k [] [] = Unit
Given all k [] (s ∷ ss) = ⊥
Given all k (c ∷ cs) [] = ⊥
Given all k (c ∷ cs) (none ∷ ss) = Given all (suc k) cs ss
Given all k (c ∷ cs) (some o ∷ ss) =
    (o.criterion ≡ c) × Any (Says k o) all × Given all (suc k) cs ss

abbrev pub filled : Slots → ℕ
filled [] = 0
filled (none ∷ ss) = filled ss
filled (some o ∷ ss) = suc (filled ss)

empty-Given : (all : List Answer) (k : ℕ) (cs : List String) → Given all k cs (empty_slots cs)
empty-Given all k [] = tt
empty-Given all k (c ∷ cs) = empty-Given all (suc k) cs

filled-empty : (cs : List String) → filled (empty_slots cs) ≡ 0
filled-empty [] = refl
filled-empty (c ∷ cs) = filled-empty cs

-- One more slot is given.
abbrev pub Filled : List Answer → ℕ → List String → Slots → Slots → Type 0
Filled all k cs ss ts = Given all k cs ts × (filled ts ≡ suc (filled ss))

front_inv :
    (s : Option Outcome) (r : Result Fault Slots) (ts : Slots)
    → front s r ≡ ok ts
    → (us : Slots) × (r ≡ ok us) × (ts ≡ s ∷ us)
front_inv s (ok us) ts e = (us, refl, cc)
front_inv s (err why) ts e = cc

then_inv :
    (r : Result Fault Slots) (next : Slots → Result Fault Slots) (ts : Slots)
    → then_fill r next ≡ ok ts
    → (us : Slots) × (r ≡ ok us) × (next us ≡ ok ts)
then_inv (ok us) next ts e = (us, refl, e)
then_inv (err why) next ts e = cc

zero_right : (k : ℕ) → k + 0 ≡ k
zero_right k = omega arith

shift : (k i : ℕ) → k + suc i ≡ suc k + i
shift k i = omega arith

one_more : (i : ℕ) → suc i ≡ 1 + i
one_more i = omega arith

named_after :
    (all : List Answer) (k i : ℕ) (c : String) (a : Answer)
    → number_of a ≡ some (pos (k + i))
    → Any (λ (x : Answer). x ≡ a) all
    → Any (Says (k + i) (outcome_of c a)) all
named_after [] k i c a n h = absurd h
named_after (x ∷ xs) k i c a n (inl e) = inl (
  ap number_of e ∙ n,
  ap (λ (y : Answer). y.met) (sym e),
  ap (λ (y : Answer). y.evidence) (sym e),
  ap (λ (y : Answer). y.reasoning) (sym e),
)
named_after (x ∷ xs) k i c a n (inr h) = inr (named_after xs k i c a n h)

module _ (all : List Answer) (a : Answer) (here : Any (λ (x : Answer). x ≡ a) all) where
  fill-Filled :
      (i k : ℕ) (cs : List String) (ss ts : Slots)
      → number_of a ≡ some (pos (k + i))
      → Given all k cs ss
      → fill i cs a ss ≡ ok ts
      → Filled all k cs ss ts
  unfolding fill
  fill-Filled i k [] ss ts n g e = cc
  fill-Filled i k (c ∷ cs) [] ts n g e = cc
  fill-Filled zero k (c ∷ cs) (none ∷ ss) ts n g e =
      subst (Filled all k (c ∷ cs) (none ∷ ss)) (ok-injective e) (
        (
          refl,
          subst (λ (m : ℕ). Any (Says m (outcome_of c a)) all) (zero_right k)
              (named_after all k 0 c a n here),
          g,
        ),
        refl,
      )
  fill-Filled zero k (c ∷ cs) (some o ∷ ss) ts n g e = cc
  fill-Filled (suc i) k (c ∷ cs) (none ∷ ss) ts n g e =
      let (us, same, split) = front_inv none (fill i cs a ss) ts e in
      let (h, one) =
        fill-Filled i (suc k) cs ss us (n ∙ ap (λ (m : ℕ). some (pos m)) (shift k i)) g same in
      subst (Filled all k (c ∷ cs) (none ∷ ss)) (sym split) (h, one)
  fill-Filled (suc i) k (c ∷ cs) (some o ∷ ss) ts n (kind, said, g) e =
      let (us, same, split) = front_inv (some o) (fill i cs a ss) ts e in
      let (h, one) =
        fill-Filled i (suc k) cs ss us (n ∙ ap (λ (m : ℕ). some (pos m)) (shift k i)) g same in
      subst (Filled all k (c ∷ cs) (some o ∷ ss)) (sym split) ((kind, said, h), ap suc one)

  fill_number-Filled :
      (n : Option ℤ) (cs : List String) (ss ts : Slots)
      → number_of a ≡ n
      → Given all 1 cs ss
      → fill_number n cs a ss ≡ ok ts
      → Filled all 1 cs ss ts
  fill_number-Filled none cs ss ts m g e = cc
  fill_number-Filled (some (negsuc n)) cs ss ts m g e = cc
  fill_number-Filled (some (pos zero)) cs ss ts m g e = cc
  fill_number-Filled (some (pos (suc i))) cs ss ts m g e =
      fill-Filled i 1 cs ss ts (m ∙ ap (λ (j : ℕ). some (pos j)) (one_more i)) g e

-- Every answer of a list is one of them.
each :
    (Q : Answer → Type 0) (xs : List Answer)
    → ((a : Answer) → Any (λ (x : Answer). x ≡ a) xs → Q a)
    → All Q xs
each Q [] f = tt
each Q (x ∷ xs) f = (f x (inl refl), each Q xs (λ a h. f a (inr h)))

fill_all-Given :
    (all : List Answer) (cs : List String) (more : List Answer) (ss ts : Slots)
    → All (λ (a : Answer). Any (λ (x : Answer). x ≡ a) all) more
    → Given all 1 cs ss
    → fill_all cs more ss ≡ ok ts
    → Given all 1 cs ts × (filled ts ≡ length more + filled ss)
unfolding fill_all
fill_all-Given all cs [] ss ts h g e =
    subst (λ (t : Slots). Given all 1 cs t × (filled t ≡ 0 + filled ss)) (ok-injective e)
      (g, omega arith)
fill_all-Given all cs (a ∷ more) ss ts (here, h) g e =
    let (us, first, rest) = then_inv (fill_number (number_of a) cs a ss) _ ts e in
    let (g1, one) = fill_number-Filled all a here (number_of a) cs ss us refl g first in
    let (g2, n) = fill_all-Given all cs more us ts h g1 rest in (g2, omega (arith, n, one))

-- From criterion `k` on, there is an outcome for each criterion, which one of the answers says.
abbrev pub Agrees : List Answer → ℕ → List String → List Outcome → Type 0
Agrees all k [] [] = Unit
Agrees all k [] (o ∷ os) = ⊥
Agrees all k (c ∷ cs) [] = ⊥
Agrees all k (c ∷ cs) (o ∷ os) = (o.criterion ≡ c) × Any (Says k o) all × Agrees all (suc k) cs os

filled-le :
    (all : List Answer) (k : ℕ) (cs : List String) (ss : Slots)
    → Given all k cs ss
    → filled ss ≤ length cs
filled-le all k [] [] g = omega arith
filled-le all k [] (s ∷ ss) g = absurd g
filled-le all k (c ∷ cs) [] g = absurd g
filled-le all k (c ∷ cs) (none ∷ ss) g = omega (arith, filled-le all (suc k) cs ss g)
filled-le all k (c ∷ cs) (some o ∷ ss) (kind, said, g) =
    omega (arith, filled-le all (suc k) cs ss g)

written-Agrees :
    (all : List Answer) (k : ℕ) (cs : List String) (ss : Slots)
    → Given all k cs ss
    → filled ss ≡ length cs
    → Agrees all k cs (written ss)
written-Agrees all k [] [] g e = tt
written-Agrees all k [] (s ∷ ss) g e = absurd g
written-Agrees all k (c ∷ cs) [] g e = absurd g
written-Agrees all k (c ∷ cs) (none ∷ ss) g e =
    absurd (omega (arith, filled-le all (suc k) cs ss g, e))
written-Agrees all k (c ∷ cs) (some o ∷ ss) (kind, said, g) e =
    (kind, said, written-Agrees all (suc k) cs ss g (omega (arith, e)))

-- A judgement of some criteria rests on answers as many as those, and its outcomes on them.
abbrev pub Rests : List String → List Answer → Judgement → Type 0
Rests cs all j = (length all ≡ length cs) × Agrees all 1 cs j.outcomes

graded-Rests :
    (cs : List String) (all : List Answer) (r : Result Fault Slots)
    → fill_all cs all (empty_slots cs) ≡ r
    → (graded (length all) (length cs) r).fault ≡ none
    → Rests cs all (graded (length all) (length cs) r)
graded-Rests cs all (err why) e h = cc
graded-Rests cs all (ok ss) e h = elim (Bool-cases (length all == length cs)) [
  | inl q ↦
      let (g, n) =
        fill_all-Given all cs all (empty_slots cs) ss (each _ all (λ a i. i)) (empty-Given all 1 cs)
          e in
      let same = (==_iff (length all) (length cs)).0 q in
      rw (q) (same, written-Agrees all 1 cs ss g (omega (arith, n, same, filled-empty cs)))
  | inr q ↦ let f = rw (q) at h in cc
]

module _ (decode : Runes → Result String (List Answer)) where
  -- What a judgement without a fault came from.
  abbrev pub Graded : List String → Option (Result String Runes) → Judgement → Type 0
  Graded cs reply j =
      (out : Runes) × (all : List Answer) × (reply ≡ some (ok out))
      × (decode (strip_fences out) ≡ ok all)
      × Rests cs all j

  parsed-Graded :
      (cs : List String) (out : Runes) (r : Result String (List Answer))
      → decode (strip_fences out) ≡ r
      → (grade_parsed cs r).fault ≡ none
      → Graded cs (some (ok out)) (grade_parsed cs r)
  parsed-Graded cs out (err why) e h = cc
  parsed-Graded cs out (ok []) e h = cc
  parsed-Graded cs out (ok (a ∷ more)) e h = (
    out,
    a ∷ more,
    refl,
    e,
    graded-Rests cs (a ∷ more) (fill_all cs (a ∷ more) (empty_slots cs)) refl h,
  )

  reply-Graded :
      (cs : List String) (reply : Option (Result String Runes))
      → (grade_reply decode cs reply).fault ≡ none
      → Graded cs reply (grade_reply decode cs reply)
  reply-Graded cs none h = cc
  reply-Graded cs (some (err why)) h = cc
  reply-Graded cs (some (ok out)) h = parsed-Graded cs out (decode (strip_fences out)) refl h

  -- A judgement of at least one criterion that has no fault: the model replied with as many verdicts
  -- as there are criteria, and the outcomes are, in the order of the criteria, one for each, saying
  -- what the verdict that names its number says.
  pub score-Graded :
      (c : String) (cs : List String) (reply : Option (Result String Runes))
      → (score decode (c ∷ cs) reply).fault ≡ none
      → Graded (c ∷ cs) reply (score decode (c ∷ cs) reply)
  unfolding score
  score-Graded c cs reply h = reply-Graded (c ∷ cs) reply h
