-- ===== src/Judge/Correlate/Split.antt =====
-- What the groups of internal/judge/correlate.go, `Correlate`, count.
use callstorm.Prelude.{
  ℕ, suc, ◌+◌, ◌≡◌, refl, ltb, leb, ◌==◌, Bool, true, false, not, ◌&&◌, ◌||◌, List, [], ◌∷◌, length,
  length-append, count_if, count_if_yes, count_if_no, Bool-cases, inl, inr, arith,
}
use mathlib.Core.Path.{subst}
use callstorm.Judge.Correlate.{
  CallScore, Groups, no_groups, clean_wer, min_calls, at_most, in_group, with_rate, count_score,
  count_scores, note_of, is_conclusive, correlate,
}

-- A call that was judged and transcribed.
abbrev pub is_counted : CallScore → Bool
is_counted s = s.judged && not (s.ref_words == 0)

-- Each counted call is in one group, and with the passed or the failed.
pub record Tallied (n : ℕ) (g : Groups) : Type 0 where
  pub counted : g.calls ≡ n
  pub grouped : g.clean_calls + g.misheard_calls ≡ n
  pub passed : g.clean_passed + g.misheard_passed ≡ length g.passed_wer
  pub either : length g.passed_wer + length g.failed_wer ≡ n

add-Tallied :
    (clean met : Bool) (s : CallScore) (n : ℕ) (g : Groups)
    → Tallied n g
    → Tallied (suc n) (with_rate met s.wer (in_group clean met (record g { calls = suc g.calls })))
add-Tallied true true s n g v = record {
  counted = omega (arith, v.counted);
  grouped = omega (arith, v.grouped);
  passed = omega (arith, v.passed, length-append g.passed_wer (s.wer ∷ []));
  either = omega (arith, v.either, length-append g.passed_wer (s.wer ∷ []));
}
add-Tallied true false s n g v = record {
  counted = omega (arith, v.counted);
  grouped = omega (arith, v.grouped);
  passed = v.passed;
  either = omega (arith, v.either, length-append g.failed_wer (s.wer ∷ []));
}
add-Tallied false true s n g v = record {
  counted = omega (arith, v.counted);
  grouped = omega (arith, v.grouped);
  passed = omega (arith, v.passed, length-append g.passed_wer (s.wer ∷ []));
  either = omega (arith, v.either, length-append g.passed_wer (s.wer ∷ []));
}
add-Tallied false false s n g v = record {
  counted = omega (arith, v.counted);
  grouped = omega (arith, v.grouped);
  passed = v.passed;
  either = omega (arith, v.either, length-append g.failed_wer (s.wer ∷ []));
}

same_test : (a b : Bool) → (a && not b) ≡ false → (not a || b) ≡ true
same_test a b e = ground arith

other_test : (a b : Bool) → (a && not b) ≡ true → (not a || b) ≡ false
other_test a b e = ground arith

more : (n m : ℕ) (g : Groups) → n ≡ m → Tallied n g → Tallied m g
more n m g e v = subst (λ (t : ℕ). Tallied t g) e v

count_scores-Tallied :
    (ss : List CallScore) (n : ℕ) (g : Groups)
    → Tallied n g
    → Tallied (n + count_if is_counted ss) (count_scores ss g)
unfolding count_scores count_score
count_scores-Tallied [] n g v = more _ _ g (omega arith) v
count_scores-Tallied (s ∷ ss) n g v = elim (Bool-cases (is_counted s)) [
  | inl e ↦ rw (other_test s.judged (s.ref_words == 0) e) (
      more _ _ _ (omega (arith, count_if_yes is_counted s ss e))
        (count_scores-Tallied ss (suc n) _ (add-Tallied (at_most s.wer clean_wer) s.met s n g v)))
  | inr e ↦
      rw (same_test s.judged (s.ref_words == 0) e)
        (more _ _ _ (omega (arith, count_if_no is_counted s ss e)) (count_scores-Tallied ss n g v))
]

decided :
    (g : Groups)
    → is_conclusive (note_of g)
      ≡ leb min_calls g.calls && (ltb 0 g.clean_calls && ltb 0 g.misheard_calls)
decided g = ground arith

-- Each call that was judged and transcribed is counted in the clean or the misheard group and its
-- rate among those of the passed or the failed, as many passed by either count, and the comparison is
-- conclusive exactly if there are eight such calls at least and both groups have one.
pub correlate-Tallied :
    (ss : List CallScore)
    → Tallied (count_if is_counted ss) (correlate ss).groups
      × ((correlate ss).conclusive
          ≡ leb min_calls (correlate ss).groups.calls
            && (ltb 0 (correlate ss).groups.clean_calls
                && ltb 0 (correlate ss).groups.misheard_calls))
unfolding correlate
correlate-Tallied ss = (
  more _ _ _ (omega arith) (
      count_scores-Tallied ss 0 no_groups (record {
        counted = refl;
        grouped = omega arith;
        passed = omega arith;
        either = omega arith;
      })),
  decided (count_scores ss no_groups),
)
