-- ===== src/Loadgen/Matrix.antt =====
-- internal/loadgen/matrix.go: a profile run once under each network condition, the clean one first.
-- An `Attempt` is what happens under a condition: the answer of `Apply`, the run, and whether the
-- context is cancelled by its end. Instants and printing are left out.
pub mod Compared
use callstorm.Prelude.{
  ℕ, ◌*◌, ℤ, pos, ltb_ℤ, pos_part, String, str_eq, Bool, true, false, ◌&&◌, not, Option, none, some,
  List, [], ◌∷◌, ◌++◌, map, if◌then◌else◌, Result, ok, err,
}
use callstorm.Impair.{Profile, is_clean}
use callstorm.Loadgen.Summary.{round_ℕ}
use callstorm.Loadgen.StepReport.{Reading, StepReport}
use callstorm.Loadgen.Score.{Report, baseline_p95, score_against, breakpoint}
use callstorm.Loadgen.Quality.{Quality, score_quality}
use callstorm.Loadgen.Distributed.{LoggedCall, RunReport, baseline_step}

pub record Attempt : Type 0 where
  pub command : String
  pub qdisc : String
  pub apply_err : Option String
  pub outcome : Result String RunReport
  pub cancelled : Bool

pub record Cohort : Type 0 where
  pub impairment : Profile
  pub command : String
  pub qdisc : String
  pub steps : List StepReport
  pub quality : List (StepReport × Quality)
  -- The ratio of each step's p95 to the clean one, in hundredths.
  pub vs_clean : List ℕ
  pub breakpoint_at : String

pub data MatrixError : Type 0 where
  no_control : MatrixError
  not_applied not_run : String → String → MatrixError

-- A call with the cohort that it was placed under.
abbrev pub CohortCall : Type 0
CohortCall = String × LoggedCall

pub record MatrixReport : Type 0 where
  pub clean : RunReport
  pub calls : List CohortCall
  pub device : String
  pub cohorts : List Cohort

abbrev pub mark_calls : String → List LoggedCall → List CohortCall
mark_calls name [] = []
mark_calls name (c ∷ cs) = (name, c) ∷ mark_calls name cs

-- The p95 of the last clean step of a name; a map that has none answers zero.
unfoldable pub clean_p95 : List StepReport → String → ℤ → ℤ
clean_p95 [] name found = found
clean_p95 (s ∷ ss) name found =
    clean_p95 ss name (if str_eq s.step.name name then s.ttfa.p95_raw else found)

unfoldable pub mark_step : List StepReport → StepReport → ℕ
unfolding clean_p95
mark_step clean s =
    let base = clean_p95 clean s.step.name (pos 0) in
    if ltb_ℤ (pos 0) base && ltb_ℤ (pos 0) s.ttfa.p95_raw
    then round_ℕ (100 * pos_part s.ttfa.p95_raw) (pos_part base)
    else 0

-- `markVsClean`.
unfoldable pub mark_vs_clean : List StepReport → List StepReport → List ℕ
unfolding mark_step
mark_vs_clean clean [] = []
mark_vs_clean clean (s ∷ ss) = mark_step clean s ∷ mark_vs_clean clean ss

abbrev pub name_of : Option StepReport → String
name_of none = ""
name_of (some s) = s.step.name

unfoldable pub cohort_of : Profile → Attempt → List StepReport → RunReport → Cohort
unfolding mark_vs_clean breakpoint
cohort_of p a clean r = record {
  impairment = p;
  command = a.command;
  qdisc = a.qdisc;
  steps = r.report.steps;
  quality = r.quality;
  vs_clean = mark_vs_clean clean r.report.steps;
  breakpoint_at = name_of (breakpoint r.report);
}

abbrev pub ran : String → Result String RunReport → Result MatrixError RunReport
ran name (ok r) = ok r
ran name (err why) = err (not_run name why)

abbrev pub applied : String → Option String → Result String RunReport → Result MatrixError RunReport
applied name (some why) r = err (not_applied name why)
applied name none r = ran name r

-- The run under a condition, unless applying it or the run failed.
abbrev pub attempt : Profile → Attempt → Result MatrixError RunReport
attempt p a = applied p.name a.apply_err a.outcome

abbrev pub Cohorts : Type 0
Cohorts = List Cohort × List CohortCall

-- A cohort and its calls, before the others.
abbrev pub put_cohort :
    Cohort → List CohortCall → Result MatrixError Cohorts → Result MatrixError Cohorts
put_cohort c calls (ok (cs, more)) = ok (c ∷ cs, calls ++ more)
put_cohort c calls (err why) = err why

abbrev pub unless_cancelled : Bool → Result MatrixError Cohorts → Result MatrixError Cohorts
unless_cancelled true rest = ok ([], [])
unless_cancelled false rest = rest

module _ (reading : Reading) (rate : ℤ) (ids : List String) where
  -- `compareToClean`.
  unfoldable pub compare_to_clean : RunReport → RunReport → RunReport
  unfolding baseline_p95 score_against baseline_step score_quality
  compare_to_clean clean r =
      let base = clean.report in
      let scored = score_against (baseline_p95 base.baseline base.steps) r.report in
      record r {
        report = scored;
        quality =
            score_quality (baseline_step reading rate ids base.baseline base.steps) [] scored.steps;
      }

  abbrev pub join_cohort :
      Profile
      → Attempt
      → RunReport
      → Result MatrixError RunReport
      → Result MatrixError Cohorts
      → Result MatrixError Cohorts
  join_cohort p a clean (err why) rest = err why
  join_cohort p a clean (ok r) rest =
      put_cohort (cohort_of p a clean.report.steps (compare_to_clean clean r))
        (mark_calls p.name r.calls) (unless_cancelled a.cancelled rest)

  -- The loop over the conditions after the control.
  unfoldable pub run_impaired : RunReport → List (Profile × Attempt) → Result MatrixError Cohorts
  unfolding cohort_of compare_to_clean
  run_impaired clean [] = ok ([], [])
  run_impaired clean ((p, a) ∷ more) = join_cohort p a clean (attempt p a) (run_impaired clean more)

  abbrev pub finish :
      RunReport → String → Result MatrixError Cohorts → Result MatrixError MatrixReport
  finish clean device (err why) = err why
  finish clean device (ok (cs, calls)) =
      ok (record { clean = clean; calls = calls; device = device; cohorts = cs })

  abbrev pub with_control :
      Profile
      → Attempt
      → String
      → List (Profile × Attempt)
      → Result MatrixError RunReport
      → Result MatrixError MatrixReport
  with_control p a device more (err why) = err why
  with_control p a device more (ok clean) = finish clean device (
      put_cohort (cohort_of p a clean.report.steps clean) (mark_calls p.name clean.calls)
        (unless_cancelled a.cancelled (run_impaired clean more)))

  -- `RunMatrix`.
  unfoldable pub run_matrix : String → List (Profile × Attempt) → Result MatrixError MatrixReport
  unfolding run_impaired cohort_of
  run_matrix device [] = err no_control
  run_matrix device ((p, a) ∷ more) =
      if not (is_clean p) then err no_control else with_control p a device more (attempt p a)
