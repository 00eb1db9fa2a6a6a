-- ===== src/Tests/Judged.antt =====
-- A run of two calls, one of which was judged.
use callstorm.Prelude.{ℤ, true, Option, none, some, List, [], ◌∷◌, String}
use callstorm.Metrics.Turn.{zero_metric}
use callstorm.Judge.Agreement.{Judgement}
use callstorm.Judge.Correlate.{correlate}
use callstorm.Loadgen.Tasks.{CallRecord, no_calls}
use callstorm.Loadgen.Tasks.Join.{JudgedTask, judge_task}

abbrev request_key : String → String → String
request_key step request = request

abbrev one_word : String → List String
one_word s = s ∷ []

abbrev whole : ℤ → ℤ
whole us = us

abbrev call_of : String → CallRecord
call_of request = record {
  step = "one";
  request_id = request;
  turns = record zero_metric { caller_text = "yes"; heard_text = "guess" } ∷ [];
}

abbrev judged : List Judgement
judged =
    record {
      step = "one";
      request_id = "r";
      err = "";
      outcomes = record { criterion = "booked"; met = true; evidence = "" } ∷ [];
    }
    ∷ []

abbrev placed : List CallRecord
placed = call_of "q" ∷ call_of "r" ∷ []

abbrev or_nothing : Option JudgedTask → JudgedTask
or_nothing (some t) = t
or_nothing none = record {
  success = record {
    backend = "";
    criteria = [];
    tally = record { judged = 0; passed = 0; errored = 0 };
    misses = [];
  };
  calls = [];
  correlation = correlate [];
  waits = no_calls;
}

abbrev made : JudgedTask
made = or_nothing (judge_task request_key one_word whole placed judged "stub" ("booked" ∷ []))
