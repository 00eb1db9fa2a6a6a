-- ===== src/Tests/Reports.antt =====
-- Two calls of a step, their report, its score and its quality, and the percentiles under them.
use callstorm.Prelude.{
  ℕ, ◌*◌, ◌≤◌, ◌<◌, ◌≡◌, refl, ℤ, pos, negsuc, ◌+ℤ◌, true, false, Option, none, some, List, [], ◌∷◌,
  String, str_eq_iff, length, Any, inl, arith,
}
use callstorm.Metrics.Turn.{TurnMetric, zero_metric}
use callstorm.Metrics.Percentile.{
  percentile, ninety_five, count_up_to, count_below, percentile-IsNearestRank,
}
use callstorm.Metrics.Mirror.{
  Mirrors, Rounds, ReadsBack, scale, finalize, rehydrate, finalize-rehydrate,
}
use callstorm.Loadgen.Outcome.{CallOutcome, Step, turns_of}
use callstorm.Loadgen.Nodes.{summarize_nodes}
use callstorm.Loadgen.Nodes.Counts.{IsTallied, summarize_nodes-IsTallied}
use callstorm.Loadgen.Summary.{round_div}
use callstorm.Loadgen.Timeline.{CallPoint}
use callstorm.Loadgen.StepReport.{Reading, StepReport, build_step_report}
use callstorm.Loadgen.StepReport.Counts.{IsConsistent, build_step_report-IsConsistent}
use callstorm.Loadgen.Score.{Report, score_against}
use callstorm.Loadgen.Score.Verdicts.{Pairwise, Judged, score_against-Judged}

abbrev few : List ℤ
few = pos 1 ∷ pos 2 ∷ []

percentile-IsNearestRank_example :
    (95 * length (pos 3 ∷ few)
      ≤ 100 * count_up_to (percentile ninety_five (pos 3 ∷ few)) (pos 3 ∷ few))
    × (100 * count_below (percentile ninety_five (pos 3 ∷ few)) (pos 3 ∷ few)
        < 95 * length (pos 3 ∷ few))
percentile-IsNearestRank_example = percentile-IsNearestRank ninety_five (pos 3) few

-- Exact arithmetic, as a rounding that meets what the mirrors ask.
abbrev nearest : ℤ → ℤ
nearest us = round_div us 10

abbrev exact : ℤ → ℤ
exact c = scale 10000 c

nearest-Rounds : Rounds nearest
unfolding round_div ◌+ℤ◌
nearest-Rounds (pos n) = ground arith
nearest-Rounds (negsuc n) = ground arith

exact-ReadsBack : ReadsBack exact
unfolding ◌+ℤ◌
exact-ReadsBack (pos n) = ground arith
exact-ReadsBack (negsuc n) = ground arith

abbrev mirrors : Mirrors
mirrors = record {
  ttfa_ms = pos 81250;
  endpointing_ms = negsuc 99;
  think_speak_ms = pos 81350;
  caller_speech_ms = pos 0;
  agent_speech_ms = pos 200000;
  turn_latency_ms = pos 281250;
  pacing_drift_ms = pos 3;
  barge_in_yield_ms = pos 0;
  transport_rtt_ms = pos 1113;
  leading_silence_ms = pos 0;
}

finalize-rehydrate_example : finalize nearest (rehydrate exact mirrors zero_metric) ≡ mirrors
finalize-rehydrate_example =
    finalize-rehydrate nearest exact nearest-Rounds exact-ReadsBack mirrors zero_metric

abbrev answered : TurnMetric
answered = record zero_metric {
  node = "ask";
  ttfa = pos 900000000;
  expect_checked = true;
  expect_met = true;
}

abbrev talked_over : TurnMetric
talked_over = record zero_metric { node = "ask"; turn = 1; caller_yielded = true }

abbrev call : Option String → CallOutcome
call err = record {
  step = "one";
  request_id = "r";
  worker = "w";
  turns = answered ∷ talked_over ∷ [];
  err = err;
  started_at = some 5;
  ended_at = some 9;
  clock_zero = none;
  call_ended = none;
}

abbrev pub calls : List CallOutcome
calls = call none ∷ call (some "refused") ∷ []

summarize_nodes-IsTallied_example :
    Any (IsTallied "ask" (turns_of calls)) (summarize_nodes calls ("ask" ∷ []))
unfolding turns_of
summarize_nodes-IsTallied_example =
    summarize_nodes-IsTallied calls ("ask" ∷ []) "ask" (λ e. ground (arith, str_eq_iff "ask" ""))
      refl (inl (λ e. ground (arith, str_eq_iff "ask" "")))

abbrev at_time : ℕ → ℤ → CallPoint
at_time at ttfa = record { at = at; ttfa_ms = ttfa; failed = false }

abbrev recovering : List CallPoint
recovering = at_time 10 (pos 90) ∷ at_time 20 (pos 40) ∷ at_time 30 (pos 45) ∷ []

abbrev pub reading : Reading
reading = record {
  texts = record { words = λ s. s ∷ []; join = λ ws. "" };
  fields = λ s. 1;
  hundredths = nearest;
  cut = λ s. s;
  normalize = λ s. s ∷ [];
}

abbrev pub one_step : Step
one_step = record { name = "one"; concurrency = 1; calls = 2; kind = ""; hold = pos 0 }

build_step_report-IsConsistent_example :
    IsConsistent calls (build_step_report reading one_step calls (pos 0))
build_step_report-IsConsistent_example =
    build_step_report-IsConsistent reading one_step calls (pos 0)

abbrev report : Report
report = record { baseline = "one"; steps = build_step_report reading one_step calls (pos 0) ∷ [] }

score_against-Judged_example :
    Pairwise (Judged (pos 300000000)) report.steps (score_against (pos 300000000) report).steps
score_against-Judged_example = score_against-Judged (pos 300000000) report

abbrev first_step : StepReport
first_step = build_step_report reading one_step calls (pos 0)
