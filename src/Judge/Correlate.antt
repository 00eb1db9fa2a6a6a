-- ===== src/Judge/Correlate.antt =====
-- internal/judge/correlate.go: whether the calls that the agent misheard are the calls it failed. A
-- word error rate is a quotient of naturals with a positive divisor; a call with no words has rate
-- 0 over 1. Quotients are compared by their products; a rate of passes is a quotient.
pub mod Split
use callstorm.Prelude.{
  ℕ, suc, ◌+◌, ◌-◌, ◌*◌, ◌/◌, ◌%◌, ltb, leb, ◌==◌, String, Bool, true, false, not, ◌&&◌, ◌||◌, List,
  [], ◌∷◌, ◌++◌, if◌then◌else◌, length, get_or, ℤ, pos, ◌-ℤ◌,
}

abbrev pub Quotient : Type 0
Quotient = ℕ × ℕ

pub record CallScore : Type 0 where
  pub step : String
  pub request_id : String
  pub wer : Quotient
  pub ref_words : ℕ
  pub met : Bool
  pub judged : Bool

abbrev pub clean_wer : Quotient
clean_wer = (5, 100)

abbrev pub min_calls : ℕ
min_calls = 8

abbrev pub at_most : Quotient → Quotient → Bool
at_most (a, b) (c, d) = leb (a * d) (c * b)

abbrev pub below : Quotient → Quotient → Bool
below (a, b) (c, d) = ltb (a * d) (c * b)

-- The counters of the loop.
pub record Groups : Type 0 where
  pub calls : ℕ
  pub clean_calls : ℕ
  pub clean_passed : ℕ
  pub misheard_calls : ℕ
  pub misheard_passed : ℕ
  pub passed_wer : List Quotient
  pub failed_wer : List Quotient

abbrev pub no_groups : Groups
no_groups = record {
  calls = 0;
  clean_calls = 0;
  clean_passed = 0;
  misheard_calls = 0;
  misheard_passed = 0;
  passed_wer = [];
  failed_wer = [];
}

abbrev pub bump : Bool → ℕ → ℕ
bump b n = if b then suc n else n

abbrev pub in_group : Bool → Bool → Groups → Groups
in_group true met g = record g {
  clean_calls = suc g.clean_calls;
  clean_passed = bump met g.clean_passed;
}
in_group false met g = record g {
  misheard_calls = suc g.misheard_calls;
  misheard_passed = bump met g.misheard_passed;
}

abbrev pub with_rate : Bool → Quotient → Groups → Groups
with_rate true rate g = record g { passed_wer = g.passed_wer ++ (rate ∷ []) }
with_rate false rate g = record g { failed_wer = g.failed_wer ++ (rate ∷ []) }

unfoldable pub count_score : CallScore → Groups → Groups
count_score s g =
    if not s.judged || (s.ref_words == 0)
    then g
    else with_rate s.met s.wer
        (in_group (at_most s.wer clean_wer) s.met (record g { calls = suc g.calls }))

unfoldable pub count_scores : List CallScore → Groups → Groups
unfolding count_score
count_scores [] g = g
count_scores (s ∷ ss) g = count_scores ss (count_score s g)

unfoldable pub insert_rate : Quotient → List Quotient → List Quotient
insert_rate x [] = x ∷ []
insert_rate x (y ∷ ys) =
    let rest = insert_rate x ys in if below y x then (y ∷ rest) else (x ∷ y ∷ ys)

unfoldable pub sort_rates : List Quotient → List Quotient
unfolding insert_rate
sort_rates [] = []
sort_rates (x ∷ xs) = insert_rate x (sort_rates xs)

abbrev pub half_sum : Quotient → Quotient → Quotient
half_sum (a, b) (c, d) = (a * d + c * b, 2 * (b * d))

-- `median`.
unfoldable pub median : List Quotient → Quotient
unfolding sort_rates
median vs =
    let s = sort_rates vs in
    let mid = length s / 2 in
    if length vs == 0
    then (0, 1)
    else (if (length s % 2) == 1
        then get_or s mid (0, 1)
        else half_sum (get_or s (mid - 1) (0, 1)) (get_or s mid (0, 1)))

pub data Note : Type 0 where
  no_note too_few all_clean all_misheard : Note

pub record Correlation : Type 0 where
  pub groups : Groups
  pub clean_pass_rate : Quotient
  pub misheard_pass_rate : Quotient
  pub gap : ℤ × ℕ
  pub median_passed : Quotient
  pub median_failed : Quotient
  pub conclusive : Bool
  pub note : Note

abbrev pub rate_of : ℕ → ℕ → Quotient
rate_of passed n = if ltb 0 n then (passed, n) else (0, 1)

abbrev pub note_of : Groups → Note
note_of g =
    if ltb g.calls min_calls
    then too_few
    else (if g.misheard_calls == 0
        then all_clean
        else (if g.clean_calls == 0 then all_misheard else no_note))

abbrev pub is_conclusive : Note → Bool
is_conclusive no_note = true
is_conclusive too_few = false
is_conclusive all_clean = false
is_conclusive all_misheard = false

abbrev pub gap_of : Groups → ℤ × ℕ
gap_of g =
    if ltb 0 g.clean_calls && ltb 0 g.misheard_calls
    then (
      pos (g.clean_passed * g.misheard_calls) -ℤ pos (g.misheard_passed * g.clean_calls),
      g.clean_calls * g.misheard_calls,
    )
    else (pos 0, 1)

unfoldable pub correlate : List CallScore → Correlation
unfolding count_scores median
correlate scores =
    let g = count_scores scores no_groups in
    record {
      groups = g;
      clean_pass_rate = rate_of g.clean_passed g.clean_calls;
      misheard_pass_rate = rate_of g.misheard_passed g.misheard_calls;
      gap = gap_of g;
      median_passed = median g.passed_wer;
      median_failed = median g.failed_wer;
      conclusive = is_conclusive (note_of g);
      note = note_of g;
    }
