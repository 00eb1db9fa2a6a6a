-- ===== src/Loadgen/Quality/Reasons.antt =====
-- The verdict of internal/loadgen/quality.go is the worst of its reasons.
use callstorm.Prelude.{◌≡◌, List, [], ◌∷◌, ◌++◌, All}
use callstorm.Loadgen.StepReport.{StepReport}
use callstorm.Loadgen.Quality.{warned, failed, Reason, Verdict, pass, warn, fail, Quality}

abbrev pub worst : List Reason → List Reason → Verdict
worst (f ∷ fs) ws = fail
worst [] (w ∷ ws) = warn
worst [] [] = pass

-- The reasons are failures and then warnings, and the verdict is the worst of them.
pub record IsWorst (q : Quality) : Type 0 where
  pub failures : List Reason
  pub warnings : List Reason
  pub split : q.reasons ≡ failures ++ warnings
  pub are_failed : All (λ (r : Reason). r.level ≡ failed) failures
  pub are_warned : All (λ (r : Reason). r.level ≡ warned) warnings
  pub verdict_is : q.verdict ≡ worst failures warnings
