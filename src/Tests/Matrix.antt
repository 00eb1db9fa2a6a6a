-- ===== src/Tests/Matrix.antt =====
-- A matrix of the control and one impaired condition, of two calls each.
use callstorm.Prelude.{refl, pos, false, none, List, [], ◌∷◌, String, Result, ok, err}
use callstorm.Impair.{Profile, control, profile}
use callstorm.Loadgen.Distributed.{RunReport, empty_draft, score_draft}
use callstorm.Loadgen.Run.{place_steps}
use callstorm.Loadgen.Matrix.{Attempt, MatrixError, MatrixReport, run_matrix}
use callstorm.Loadgen.Matrix.Compared.{Compared, run_matrix-Compared}
use callstorm.Tests.Reports.{reading, one_step, calls}

abbrev a_run : RunReport
a_run = score_draft reading (pos 0) [] "one" (
    place_steps reading (pos 0) [] ((one_step, record { outcomes = calls; cancelled = false }) ∷ [])
      empty_draft)

abbrev applied_to : String → Attempt
applied_to qdisc = record {
  command = "tc";
  qdisc = qdisc;
  apply_err = none;
  outcome = ok a_run;
  cancelled = false;
}

abbrev plan : List (Profile × Attempt)
plan =
    (control, applied_to "netem")
    ∷ (profile "light" 1000 20000 100000, applied_to "netem loss 1%")
    ∷ []

abbrev or_a_run : Result MatrixError MatrixReport → MatrixReport
or_a_run (ok m) = m
or_a_run (err why) = record { clean = a_run; calls = []; device = ""; cohorts = [] }

abbrev made : MatrixReport
made = or_a_run (run_matrix reading (pos 0) [] "eth0" plan)

run_matrix-Compared_example : Compared reading (pos 0) [] plan made
unfolding run_matrix
run_matrix-Compared_example = run_matrix-Compared reading (pos 0) [] "eth0" plan made refl
