-- ===== src/Loadgen/Tasks.antt =====
-- internal/loadgen/tasks.go: what the judge made of a run, and whether the calls that kept a caller
-- waiting went worse. `call_key` is the text that joins a step and a request, `hundredths` the
-- rounding of `Millis`; a share is in thousandths. The join with the word error rates is in Join.
pub mod Groups
pub mod Join
use callstorm.Prelude.{
  ℕ, suc, ◌+◌, ◌*◌, ◌≤◌, ◌≡◌, ℤ, pos, ltb, leb, ltb_ℤ, String, str_eq, Bool, true, false, not, ◌&&◌,
  ◌==◌, Option, none, some, List, [], ◌∷◌, if◌then◌else◌, if_intro, arith,
}
use callstorm.Metrics.Turn.{TurnMetric}
use callstorm.Metrics.Mirror.{millis}
use callstorm.Judge.Agreement.{Outcome, Judgement}
use callstorm.Loadgen.Summary.{round_ℕ}

-- A call of the log, as far as the join reads it.
pub record CallRecord : Type 0 where
  pub step : String
  pub request_id : String
  pub turns : List TurnMetric

abbrev pub is_errored : Judgement → Bool
is_errored j = not (str_eq j.err "")

unfoldable pub all_met : List Outcome → Bool
all_met [] = true
all_met (o ∷ os) = if not o.met then false else all_met os

abbrev pub is_blank : List Outcome → Bool
is_blank [] = true
is_blank (o ∷ os) = false

-- `Judgement.Met`.
unfoldable pub met : Judgement → Bool
unfolding all_met
met j =
    if is_errored j
    then false
    else (if not (all_met j.outcomes) then false else not (is_blank j.outcomes))

pub record CriterionMiss : Type 0 where
  pub criterion : String
  pub missed : ℕ
  pub judged : ℕ
  pub evidence : String

pub record Tally : Type 0 where
  pub judged : ℕ
  pub passed : ℕ
  pub errored : ℕ

unfoldable pub count_verdicts : List Judgement → Tally → Tally
unfolding met
count_verdicts [] t = t
count_verdicts (g ∷ gs) t = count_verdicts gs (
    if is_errored g
    then record t { errored = suc t.errored }
    else record t { judged = suc t.judged; passed = if met g then suc t.passed else t.passed })

abbrev pub unmissed : String → CriterionMiss
unmissed c = record { criterion = c; missed = 0; judged = 0; evidence = "" }

unfoldable pub listed : List CriterionMiss → String → Bool
listed [] c = false
listed (m ∷ ms) c = if str_eq m.criterion c then true else listed ms c

abbrev pub count_outcome : Outcome → CriterionMiss → CriterionMiss
count_outcome o m = record m {
  judged = suc m.judged;
  missed = if o.met then m.missed else suc m.missed;
  evidence = if not o.met && str_eq m.evidence "" then o.evidence else m.evidence;
}

-- At the last row of the criterion, which is the one that the map of the source keeps.
unfoldable pub put_outcome : Outcome → List CriterionMiss → List CriterionMiss
unfolding listed
put_outcome o [] = count_outcome o (unmissed o.criterion) ∷ []
put_outcome o (m ∷ ms) =
    let rest = put_outcome o ms in
    if str_eq m.criterion o.criterion && not (listed ms o.criterion)
    then (count_outcome o m ∷ ms)
    else (m ∷ rest)

unfoldable pub put_outcomes : List Outcome → List CriterionMiss → List CriterionMiss
unfolding put_outcome
put_outcomes [] ms = ms
put_outcomes (o ∷ os) ms = put_outcomes os (put_outcome o ms)

unfoldable pub tally_misses : List Judgement → List CriterionMiss → List CriterionMiss
unfolding put_outcomes
tally_misses [] ms = ms
tally_misses (g ∷ gs) ms = tally_misses gs (if is_errored g then ms else put_outcomes g.outcomes ms)

unfoldable pub rows_of : List String → List CriterionMiss
rows_of [] = []
rows_of (c ∷ cs) = unmissed c ∷ rows_of cs

pub record TaskSuccess : Type 0 where
  pub backend : String
  pub criteria : List String
  pub tally : Tally
  pub misses : List CriterionMiss

-- `SummarizeJudgements`, up to the join.
unfoldable pub summarize_judgements : List Judgement → String → List String → Option TaskSuccess
unfolding count_verdicts tally_misses rows_of
summarize_judgements [] backend criteria = none
summarize_judgements (j ∷ js) backend criteria = some (record {
  backend = backend;
  criteria = criteria;
  tally = count_verdicts (j ∷ js) (record { judged = 0; passed = 0; errored = 0 });
  misses = tally_misses (j ∷ js) (rows_of criteria);
})

pub data Note : Type 0 where
  no_note too_few none_slow none_quick : Note

pub record WaitOutcome : Type 0 where
  pub calls : ℕ
  pub slow_calls : ℕ
  pub slow_passed : ℕ
  pub quick_calls : ℕ
  pub quick_passed : ℕ
  pub slow_pass_rate : ℕ
  pub quick_pass_rate : ℕ
  pub conclusive : Bool
  pub note : Note

abbrev pub no_calls : WaitOutcome
no_calls = record {
  calls = 0;
  slow_calls = 0;
  slow_passed = 0;
  quick_calls = 0;
  quick_passed = 0;
  slow_pass_rate = 0;
  quick_pass_rate = 0;
  conclusive = false;
  note = no_note;
}

-- One judged call, slow or not, passed or not.
unfoldable pub split_call : Bool → Bool → WaitOutcome → WaitOutcome
split_call true passed w = record w {
  calls = suc w.calls;
  slow_calls = suc w.slow_calls;
  slow_passed = if passed then suc w.slow_passed else w.slow_passed;
}
split_call false passed w = record w {
  calls = suc w.calls;
  quick_calls = suc w.quick_calls;
  quick_passed = if passed then suc w.quick_passed else w.quick_passed;
}

abbrev pub share : ℕ → ℕ → ℕ
share passed n = if ltb 0 n then round_ℕ (1000 * passed) n else 0

abbrev pub note_of : WaitOutcome → Note
note_of w =
    if ltb w.calls 8
    then too_few
    else (if w.slow_calls == 0
        then none_slow
        else (if w.quick_calls == 0 then none_quick else no_note))

abbrev pub is_conclusive : Note → Bool
is_conclusive no_note = true
is_conclusive too_few = false
is_conclusive none_slow = false
is_conclusive none_quick = false

abbrev pub conclude : WaitOutcome → WaitOutcome
conclude w = record w {
  slow_pass_rate = share w.slow_passed w.slow_calls;
  quick_pass_rate = share w.quick_passed w.quick_calls;
  conclusive = is_conclusive (note_of w);
  note = note_of w;
}

module _ (call_key : String → String → String) (hundredths : ℤ → ℤ) where
  -- The map of the source keeps the last judgement of a key.
  unfoldable pub verdict_of : List Judgement → String → Option Judgement → Option Judgement
  verdict_of [] k found = found
  verdict_of (g ∷ gs) k found =
      verdict_of gs k (if str_eq (call_key g.step g.request_id) k then some g else found)

  -- Some turn that the agent did not talk over waited past 1,200 milliseconds.
  unfoldable pub is_slow : List TurnMetric → Bool
  is_slow [] = false
  is_slow (t ∷ ts) =
      if not t.caller_yielded && ltb_ℤ (pos 120000) (millis hundredths t.ttfa)
      then true
      else is_slow ts

  abbrev pub split_judged : Option Judgement → List TurnMetric → WaitOutcome → WaitOutcome
  split_judged none ts w = w
  split_judged (some g) ts w = if is_errored g then w else split_call (is_slow ts) (met g) w

  unfoldable pub split_calls : List Judgement → List CallRecord → WaitOutcome → WaitOutcome
  unfolding verdict_of is_slow split_call
  split_calls js [] w = w
  split_calls js (c ∷ cs) w =
      split_calls js cs (split_judged (verdict_of js (call_key c.step c.request_id) none) c.turns w)

  unfoldable pub wait_outcome : List CallRecord → List Judgement → WaitOutcome
  unfolding split_calls
  wait_outcome cs js = conclude (split_calls js cs no_calls)
