-- ===== src/Loadgen/Distributed.antt =====
-- internal/loadgen/distributed.go, `RunDistributed`: the steps of a profile over a fleet, one at a
-- time, and their report. A `Drive` is what happens while a step runs: the rounds of its dispatch,
-- and whether the context is cancelled by its end. `ids` are the scenario's nodes. Starting times,
-- names and printing are left out, and of a call its events.
pub mod Whole
use callstorm.Prelude.{
  ℕ, ◌+◌, ℤ, pos, ltb_ℤ, String, str_eq, Bool, true, false, Option, none, some, List, [], ◌∷◌, ◌++◌,
  if◌then◌else◌,
}
use callstorm.Metrics.Turn.{TurnMetric}
use callstorm.Loadgen.Outcome.{CallOutcome, Step}
use callstorm.Loadgen.Dispatch.{
  StepDispatch, Round, Status, running, finished, assign_failed, results_failed, dispatch_step,
}
use callstorm.Loadgen.Nodes.{summarize_nodes}
use callstorm.Loadgen.Timeline.{began}
use callstorm.Loadgen.Timeline as Timeline
use callstorm.Loadgen.StepReport.{Reading, StepReport, build_step_report}
use callstorm.Loadgen.Score.{Report, score_latency}
use callstorm.Loadgen.Quality.{Quality, score_quality}

-- `CallRecord`, a call as the log keeps it.
pub record LoggedCall : Type 0 where
  pub step : String
  pub request_id : String
  pub worker : String
  pub turns : List TurnMetric
  pub started_at : Option ℕ
  pub ended_at : Option ℕ
  pub error : String

abbrev pub error_of : Option String → String
error_of none = ""
error_of (some why) = why

unfoldable pub call_records : List CallOutcome → List LoggedCall
unfolding began Timeline.finished
call_records [] = []
call_records (o ∷ os) =
    record {
      step = o.step;
      request_id = o.request_id;
      worker = o.worker;
      turns = o.turns;
      started_at = began o;
      ended_at = Timeline.finished o;
      error = error_of o.err;
    }
    ∷ call_records os

-- `DispatchIntegrity`.
pub record DispatchIntegrity : Type 0 where
  pub dispatched : ℕ
  pub received : ℕ
  pub duplicates : ℕ
  pub missing : ℕ
  pub late : ℕ
  pub steps : List StepDispatch

unfoldable pub add : StepDispatch → DispatchIntegrity → DispatchIntegrity
add s d = record {
  dispatched = d.dispatched + s.dispatched;
  received = d.received + s.received;
  duplicates = d.duplicates + s.duplicates;
  missing = d.missing + s.missing;
  late = d.late + s.late;
  steps = d.steps ++ (s ∷ []);
}

pub record Drive : Type 0 where
  pub rounds : List Round
  pub cancelled : Bool

-- The report while its steps run.
pub record Draft : Type 0 where
  pub steps : List StepReport
  pub calls : List LoggedCall
  pub dispatch : DispatchIntegrity

pub data RunError : Type 0 where
  held : String → ℤ → RunError
  not_assigned : ℕ → RunError
  no_results : RunError

pub data Drafted : Type 0 where
  going : Drafted
  refused : RunError → Drafted
  drafted : Draft → Drafted

pub record RunReport : Type 0 where
  pub report : Report
  pub quality : List (StepReport × Quality)
  pub calls : List LoggedCall
  pub dispatch : DispatchIntegrity

pub data Ran : Type 0 where
  still_running : Ran
  failed : RunError → Ran
  ran : RunReport → Ran

abbrev pub empty_draft : Draft
empty_draft = record {
  steps = [];
  calls = [];
  dispatch = record {
    dispatched = 0;
    received = 0;
    duplicates = 0;
    missing = 0;
    late = 0;
    steps = [];
  };
}

module _ (reading : Reading) (rate : ℤ) (ids : List String) where
  unfoldable pub report_of : Step → List CallOutcome → StepReport
  unfolding build_step_report summarize_nodes
  report_of step os = record (build_step_report reading step os rate) {
    nodes = summarize_nodes os ids;
  }

  -- A step that was dispatched to its end joins the report.
  unfoldable pub add_step : Step → Status → Draft → Draft
  unfolding report_of call_records add
  add_step step (finished o) d = record {
    steps = d.steps ++ (report_of step o.outcomes ∷ []);
    calls = d.calls ++ call_records o.outcomes;
    dispatch = add o.sd d.dispatch;
  }
  add_step step (running o) d = d
  add_step step (assign_failed n o) d = d
  add_step step (results_failed o) d = d

  -- What follows a step: the others, unless it failed or the context is cancelled.
  abbrev pub after_step : Status → Bool → Draft → Drafted → Drafted
  after_step (finished o) cancelled d rest = if cancelled then drafted d else rest
  after_step (running o) cancelled d rest = going
  after_step (assign_failed n o) cancelled d rest = refused (not_assigned n)
  after_step (results_failed o) cancelled d rest = refused no_results

  unfoldable pub run_steps : List (Step × Drive) → Draft → Drafted
  unfolding dispatch_step add_step
  run_steps [] d = drafted d
  run_steps ((step, e) ∷ more) d =
      let s = dispatch_step step e.rounds in
      let rest = run_steps more (add_step step s d) in
      if ltb_ℤ (pos 0) step.hold
      then refused (held step.name step.hold)
      else after_step s e.cancelled (add_step step s d) rest

  abbrev pub no_step : Step
  no_step = record { name = ""; concurrency = 0; calls = 0; kind = ""; hold = pos 0 }

  -- `baselineStep`, an empty report if there is none.
  unfoldable pub baseline_step : String → List StepReport → StepReport
  unfolding build_step_report
  baseline_step name [] = build_step_report reading no_step [] (pos 0)
  baseline_step name (s ∷ ss) =
      let rest = baseline_step name ss in if str_eq s.step.name name then s else rest

  -- `score`, latency and then quality.
  unfoldable pub score_draft : String → Draft → RunReport
  unfolding score_latency score_quality baseline_step
  score_draft baseline d =
      let r = score_latency (record { baseline = baseline; steps = d.steps }) in
      record {
        report = r;
        quality = score_quality (baseline_step baseline r.steps) [] r.steps;
        calls = d.calls;
        dispatch = d.dispatch;
      }

  abbrev pub with_score : String → Drafted → Ran
  with_score baseline going = still_running
  with_score baseline (refused why) = failed why
  with_score baseline (drafted d) = ran (score_draft baseline d)

  unfoldable pub run_distributed : String → List (Step × Drive) → Ran
  unfolding run_steps score_draft
  run_distributed baseline plan = with_score baseline (run_steps plan empty_draft)
