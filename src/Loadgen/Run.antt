-- ===== src/Loadgen/Run.antt =====
-- internal/loadgen/run.go, `Run`: the steps of a profile, one at a time. What `runStep` returned for a
-- step, whether the context is cancelled by then, and the error of warming the cache are arguments.
use callstorm.Prelude.{
  ℤ, String, Bool, Option, none, some, List, [], ◌∷◌, ◌++◌, if◌then◌else◌, Result, ok, err,
}
use callstorm.Loadgen.Outcome.{CallOutcome, Step}
use callstorm.Loadgen.StepReport.{Reading}
use callstorm.Loadgen.Distributed.{
  Draft, RunReport, empty_draft, report_of, call_records, score_draft,
}

-- What a step made: its calls, and whether the context was cancelled.
pub record Placed : Type 0 where
  pub outcomes : List CallOutcome
  pub cancelled : Bool

module _ (reading : Reading) (rate : ℤ) (ids : List String) where
  unfoldable pub place_step : Step → List CallOutcome → Draft → Draft
  unfolding report_of call_records
  place_step step os d = record d {
    steps = d.steps ++ (report_of reading rate ids step os ∷ []);
    calls = d.calls ++ call_records os;
  }

  unfoldable pub place_steps : List (Step × Placed) → Draft → Draft
  unfolding place_step
  place_steps [] d = d
  place_steps ((step, p) ∷ more) d =
      let next = place_step step p.outcomes d in
      let rest = place_steps more next in if p.cancelled then next else rest

  abbrev pub after_warm : Option String → RunReport → Result String RunReport
  after_warm (some why) r = err why
  after_warm none r = ok r

  -- `Run`.
  unfoldable pub run : Option String → String → List (Step × Placed) → Result String RunReport
  unfolding place_steps score_draft
  run warm baseline plan =
      after_warm warm (score_draft reading rate ids baseline (place_steps plan empty_draft))
