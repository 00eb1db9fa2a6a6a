-- ===== src/Loadgen/Tasks/Join/Ranks.antt =====
-- The calls that internal/loadgen/tasks.go, `SummarizeJudgements`, joins with their verdicts.
use callstorm.Prelude.{
  ◌≡◌, ℤ, String, Bool, true, false, Option, none, some, List, [], ◌∷◌, length, count_if, All, Any,
}
use callstorm.Judge.Agreement.{Judgement}
use callstorm.Judge.Correlate.{CallScore, at_most}
use callstorm.Judge.Correlate.Split.{Tallied, is_counted}
use callstorm.Loadgen.Tasks.{CallRecord}
use callstorm.Loadgen.Tasks.Join.{JudgedTask, call_score, verdict_on}

-- Each call was heard no worse than the next.
abbrev pub Ranked : List CallScore → Type 0
Ranked [] = Unit
Ranked (s ∷ []) = Unit
Ranked (s ∷ t ∷ ts) = (at_most s.wer t.wer ≡ true) × Ranked (t ∷ ts)

abbrev is_given : Option Judgement → Bool
is_given none = false
is_given (some g) = true

module _ (call_key : String → String → String) (normalize : String → List String)
    (hundredths : ℤ → ℤ) (js : List Judgement) where
  abbrev on : CallRecord → Option Judgement
  on c = verdict_on call_key normalize hundredths js c

  -- A score is that of one of the calls, with the verdict on it.
  abbrev pub IsScoreOf : List CallRecord → CallScore → Type 0
  IsScoreOf cs s =
      Any
        (λ (c : CallRecord).
          (g : Judgement) × (on c ≡ some g) × (call_score call_key normalize hundredths c g ≡ s))
        cs

  -- Whether there is a verdict on a call.
  abbrev pub has_verdict : CallRecord → Bool
  has_verdict c = is_given (on c)

  -- The calls of a judged run, and the counts of its correlation.
  pub record IsJudged (cs : List CallRecord) (t : JudgedTask) : Type 0 where
    pub ranked : Ranked t.calls
    pub scores : All (IsScoreOf cs) t.calls
    pub all_of : length t.calls ≡ count_if has_verdict cs
    pub tallied : Tallied (count_if is_counted t.calls) t.correlation.groups
