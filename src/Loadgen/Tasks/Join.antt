-- ===== src/Loadgen/Tasks/Join.antt =====
-- internal/loadgen/tasks.go, `SummarizeJudgements`: the judged calls with what was heard of them, and
-- what the correlation and the split by waiting make of those. `normalize` is the words of a text.
pub mod Ranks
use callstorm.Prelude.{
  ℕ, suc, ◌+◌, ◌*◌, ◌≡◌, refl, ltb, leb, ℤ, String, str_eq, Bool, true, false, not, Option, none,
  some, List, [], ◌∷◌, if◌then◌else◌, if_intro, length, count_if, All, All-map, Any, inl, inr,
  Bool-cases, arith, ap, ◌∙◌,
}
use callstorm.Metrics.Turn.{TurnMetric}
use callstorm.Judge.Agreement.{Judgement}
use callstorm.Judge.Wer.{score}
use callstorm.Judge.Correlate.{CallScore, Quotient, Correlation, at_most, below, correlate}
use callstorm.Loadgen.Tasks.{
  CallRecord, TaskSuccess, WaitOutcome, is_errored, met, verdict_of, summarize_judgements,
  wait_outcome,
}

pub record JudgedTask : Type 0 where
  pub success : TaskSuccess
  pub calls : List CallScore
  pub correlation : Correlation
  pub waits : WaitOutcome

-- After the calls of a lower rate, as `sort.SliceStable` puts it.
unfoldable pub insert_score : CallScore → List CallScore → List CallScore
insert_score s [] = s ∷ []
insert_score s (x ∷ xs) =
    let rest = insert_score s xs in if below x.wer s.wer then (x ∷ rest) else (s ∷ x ∷ xs)

unfoldable pub sort_scores : List CallScore → List CallScore
unfolding insert_score
sort_scores [] = []
sort_scores (s ∷ ss) = insert_score s (sort_scores ss)

module _ (call_key : String → String → String) (normalize : String → List String)
    (hundredths : ℤ → ℤ) where
  -- The errors and the words of the turns that were heard.
  unfoldable pub call_errors : List TurnMetric → ℕ × ℕ
  call_errors [] = (0, 0)
  call_errors (t ∷ ts) =
      let rest = call_errors ts in
      let w = score normalize t.caller_text t.heard_text in
      if str_eq t.heard_text ""
      then rest
      else (w.counts.subs + w.counts.dels + w.counts.ins + rest.0, w.ref_words + rest.1)

  unfoldable pub call_score : CallRecord → Judgement → CallScore
  unfolding call_errors
  call_score c g =
      let (errs, words) = call_errors c.turns in
      record {
        step = c.step;
        request_id = c.request_id;
        wer = if ltb 0 words then (errs, words) else (0, 1);
        ref_words = words;
        met = met g;
        judged = not (is_errored g);
      }

  abbrev pub put_score : CallRecord → Option Judgement → List CallScore → List CallScore
  put_score c none ss = ss
  put_score c (some g) ss = call_score c g ∷ ss

  abbrev pub verdict_on : List Judgement → CallRecord → Option Judgement
  verdict_on js c = verdict_of call_key hundredths js (call_key c.step c.request_id) none

  unfoldable pub join_calls : List Judgement → List CallRecord → List CallScore
  unfolding call_score verdict_of
  join_calls js [] = []
  join_calls js (c ∷ cs) = put_score c (verdict_on js c) (join_calls js cs)

  abbrev pub with_calls : List Judgement → List CallRecord → Option TaskSuccess → Option JudgedTask
  with_calls js cs none = none
  with_calls js cs (some t) =
      let scores = sort_scores (join_calls js cs) in
      some (record {
        success = t;
        calls = scores;
        correlation = correlate scores;
        waits = wait_outcome call_key hundredths cs js;
      })

  -- The whole of `SummarizeJudgements`.
  unfoldable pub judge_task :
      List CallRecord → List Judgement → String → List String → Option JudgedTask
  unfolding join_calls sort_scores summarize_judgements wait_outcome correlate
  judge_task cs js backend criteria = with_calls js cs (summarize_judgements js backend criteria)
