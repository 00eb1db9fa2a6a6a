-- ===== src/Loadgen/Score.antt =====
-- internal/loadgen/report.go: the degradation ratio and the verdict of each step, against the p95 of
-- the baseline step. A ratio is in hundredths. A p95 is positive, as every wait that it ranks is.
pub mod Verdicts
use callstorm.Prelude.{
  ℕ, suc, ◌+◌, ◌*◌, ◌/◌, ℤ, pos, ltb, leb, ltb_ℤ, leb_ℤ, String, str_eq, Bool, true, false, not,
  ◌&&◌, ◌||◌, ◌==◌, Option, none, some, List, [], ◌∷◌, map, if◌then◌else◌, pos_part,
}
use callstorm.Loadgen.Outcome.{Step}
use callstorm.Loadgen.Summary.{Summary, round_ℕ}
use callstorm.Loadgen.Phase.{Phase}
use callstorm.Loadgen.Timeline.{CallPoint, back_to_normal}
use callstorm.Loadgen.StepReport.{StepReport, Verdict, pass, warn, fail, not_available}

pub record Report : Type 0 where
  pub baseline : String
  pub steps : List StepReport

unfoldable pub baseline_p95 : String → List StepReport → ℤ
baseline_p95 name [] = pos 0
baseline_p95 name (s ∷ ss) =
    if str_eq s.step.name name then s.ttfa.p95_raw else baseline_p95 name ss

unfoldable pub baseline_p50_ms : String → List StepReport → ℤ
baseline_p50_ms name [] = pos 0
baseline_p50_ms name (s ∷ ss) =
    if str_eq s.step.name name then s.ttfa.p50_ms else baseline_p50_ms name ss

-- Fewer than 97 percent of the attempted calls connected.
abbrev pub setup_failed : StepReport → Bool
setup_failed s = ltb 0 s.calls_attempted && ltb (100 * s.calls_connected) (97 * s.calls_attempted)

abbrev pub unscorable : ℤ → StepReport → Bool
unscorable base s = leb_ℤ base (pos 0) || (s.ttfa.n == 0)

abbrev pub ratio : ℤ → StepReport → ℕ
ratio base s = round_ℕ (100 * pos_part s.ttfa.p95_raw) (pos_part base)

abbrev pub verdict_of : ℕ → Verdict
verdict_of r = if ltb 200 r then fail else (if ltb 150 r then warn else pass)

unfoldable pub grade : ℤ → StepReport → StepReport
grade base s =
    if setup_failed s
    then record s { p95_ratio = 0; verdict = fail }
    else (if unscorable base s
        then record s { p95_ratio = 0; verdict = not_available }
        else record s { p95_ratio = ratio base s; verdict = verdict_of (ratio base s) })

abbrev pub start_or_zero : Option ℕ → ℕ
start_or_zero none = 0
start_or_zero (some t) = t

-- Whether a recovery came back.
unfoldable pub judge_recovery : ℤ → StepReport → StepReport
unfolding back_to_normal
judge_recovery base_p50 s =
    let back = back_to_normal s.timeline.points (start_or_zero s.timeline.started_at) base_p50 in
    if str_eq s.phase.kind "recovery"
    then record s {
      phase = record (s.phase) {
        recovered = ltb 0 s.p95_ratio && leb s.p95_ratio 120;
        back_to_normal = back.0;
        back_to_normal_after_s = back.1;
      };
    }
    else s

unfoldable pub score_against : ℤ → Report → Report
unfolding grade judge_recovery baseline_p50_ms
score_against base r = record r {
  steps = map (λ s. judge_recovery (baseline_p50_ms r.baseline r.steps) (grade base s)) r.steps;
}

-- The part of `score` that grades latency.
unfoldable pub score_latency : Report → Report
unfolding score_against baseline_p95
score_latency r = score_against (baseline_p95 r.baseline r.steps) r

abbrev pub is_fail : Verdict → Bool
is_fail fail = true
is_fail _ = false

unfoldable pub breakpoint_of : List StepReport → Option StepReport
breakpoint_of [] = none
breakpoint_of (s ∷ ss) = if is_fail s.verdict then some s else breakpoint_of ss

-- `Breakpoint`.
unfoldable pub breakpoint : Report → Option StepReport
unfolding breakpoint_of
breakpoint r = breakpoint_of r.steps
