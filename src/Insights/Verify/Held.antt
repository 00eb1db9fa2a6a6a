-- ===== src/Insights/Verify/Held.antt =====
-- What internal/insights/verify.go lets through.
use Prim.Native.Nat.{◌^◌}
use callstorm.Prelude.{
  refl, and-split, ==_iff, leb→le, ◌+◌, ◌-◌, ◌*◌, ◌≤◌, ◌%◌, ◌≡◌, ◌⊎◌, inl, inr, leb, Bool, true,
  false, ◌&&◌, ◌||◌, List, [], ◌∷◌, All, Any, Bool-cases, Runes, arith,
}
use callstorm.Insights.Verify.{
  Quotient, Match, number, is_out_of_range, matches, Measure, bare, percent, millis, seconds, times,
  unit_after, forms, near, some_near, some_held, is_bare, is_count, held, not_held, unchecked,
}

-- Two quotients differ by two percent of the second and a twentieth at most.
abbrev pub Near : Quotient → Quotient → Type 0
Near (p, q) (a, b) =
    (100 * (p * b) ≤ 100 * (a * q) + (2 * (a * q) + 5 * (b * q)))
    × (100 * (a * q) ≤ 100 * (p * b) + (2 * (a * q) + 5 * (b * q)))

-- The number is past the largest `float64` by half the last step between two of these at least.
abbrev pub TooLarge : Quotient → Type 0
TooLarge (n, d) = (2 ^ 1024 - 2 ^ 970) * d ≤ n

-- A whole number up to twelve with no unit, or a number near one of the forms of a fact.
abbrev pub Stands : List Quotient → Match → Type 0
Stands facts m =
    ((unit_after m.after ≡ bare)
      × ((number m).0 % (number m).1 ≡ 0)
      × ((number m).0 ≤ 12 * (number m).1))
    ⊎ Any (λ (f : Quotient). Any (Near (number m)) (forms (unit_after m.after) f)) facts

-- A number that stands, or that is no `float64`, which the check passes over.
abbrev pub Supported : List Quotient → Match → Type 0
Supported facts m = TooLarge (number m) ⊎ Stands facts m

or-cases : (a b : Bool) → (a || b) ≡ true → (a ≡ true) ⊎ (b ≡ true)
or-cases true b e = inl e
or-cases false b e = inr e

near-Near : (n c : Quotient) → near n c ≡ true → Near n c
near-Near (p, q) (a, b) e = ground arith

some_near-Near : (n : Quotient) (cs : List Quotient) → some_near n cs ≡ true → Any (Near n) cs
unfolding some_near
some_near-Near n [] e = cc
some_near-Near n (c ∷ cs) e = elim (or-cases (near n c) (some_near n cs) e) [
  | inl h ↦ inl (near-Near n c h)
  | inr h ↦ inr (some_near-Near n cs h)
]

some_held-Near :
    (n : Quotient) (u : Measure) (facts : List Quotient)
    → some_held n u facts ≡ true
    → Any (λ (f : Quotient). Any (Near n) (forms u f)) facts
unfolding some_held
some_held-Near n u [] e = cc
some_held-Near n u (f ∷ fs) e = elim (or-cases (some_near n (forms u f)) (some_held n u fs) e) [
  | inl h ↦ inl (some_near-Near n (forms u f) h)
  | inr h ↦ inr (some_held-Near n u fs h)
]

is_bare-eq : (u : Measure) → is_bare u ≡ true → u ≡ bare
is_bare-eq bare e = refl
is_bare-eq percent e = cc
is_bare-eq millis e = cc
is_bare-eq seconds e = cc
is_bare-eq times e = cc

held-Stands :
    (m : Match) (facts : List Quotient)
    → held (number m) (unit_after m.after) facts ≡ true
    → Stands facts m
unfolding held
held-Stands m facts e =
    elim (or-cases (is_bare (unit_after m.after) && is_count (number m))
      (some_held (number m) (unit_after m.after) facts) e) [
        | inl h ↦
            let (b, c) = and-split (is_bare (unit_after m.after)) (is_count (number m)) h in
            let (whole, small) = and-split _ (leb (number m).0 (12 * (number m).1)) c in
            inl (is_bare-eq _ b, (==_iff ((number m).0 % (number m).1) 0).0 whole, leb→le _ _ small)
        | inr h ↦ inr (some_held-Near (number m) (unit_after m.after) facts h)
      ]

is_out_of_range-TooLarge : (q : Quotient) → is_out_of_range q ≡ true → TooLarge q
unfolding is_out_of_range
is_out_of_range-TooLarge (n, d) e = leb→le _ n e

passed-Supported :
    (m : Match) (facts : List Quotient)
    → (is_out_of_range (number m) || held (number m) (unit_after m.after) facts) ≡ true
    → Supported facts m
passed-Supported m facts e =
    elim (or-cases (is_out_of_range (number m)) (held (number m) (unit_after m.after) facts) e) [
      | inl h ↦ inl (is_out_of_range-TooLarge (number m) h)
      | inr h ↦ inr (held-Stands m facts h)
    ]

not_held-Supported :
    (ms : List Match) (facts : List Quotient) → not_held ms facts ≡ [] → All (Supported facts) ms
unfolding not_held
not_held-Supported [] facts e = tt
not_held-Supported (m ∷ ms) facts e =
    elim (Bool-cases (is_out_of_range (number m) || held (number m) (unit_after m.after) facts)) [
      | inl h ↦ (passed-Supported m facts h, not_held-Supported ms facts (rw (h) at e))
      | inr h ↦ let q = rw (h) at e in cc
    ]

-- A text that passes the check has no number but small counts, what the data holds, and what is no
-- `float64`.
pub unchecked-Supported :
    (text : Runes) (facts : List Quotient)
    → unchecked text facts ≡ []
    → All (Supported facts) (matches text)
unfolding unchecked
unchecked-Supported text facts e = not_held-Supported (matches text) facts e
