-- ===== src/Loadgen/Outcome.antt =====
-- internal/loadgen/report.go and profile.go: one completed or failed call, and one step of a
-- profile. A wall-clock instant is an optional count of nanoseconds, `none` for Go's zero time. The
-- counts of a step are natural numbers: a negative one meets the same tests as zero. `hold` is
-- `HoldSeconds` in nanoseconds. The event log of a call is left out.
use callstorm.Prelude.{ℕ, ℤ, String, Option, none, some, List, [], ◌∷◌, ◌++◌}
use callstorm.Metrics.Turn.{TurnMetric}

pub record CallOutcome : Type 0 where
  pub step : String
  pub request_id : String
  pub worker : String
  pub turns : List TurnMetric
  pub err : Option String
  pub started_at : Option ℕ
  pub ended_at : Option ℕ
  pub clock_zero : Option ℕ
  pub call_ended : Option ℕ

pub record Step : Type 0 where
  pub name : String
  pub concurrency : ℕ
  pub calls : ℕ
  pub kind : String
  pub hold : ℤ

-- The turns of the calls that connected, one after another.
abbrev pub turns_if : Option String → List TurnMetric → List TurnMetric
turns_if (some why) ts = []
turns_if none ts = ts

unfoldable pub turns_of : List CallOutcome → List TurnMetric
turns_of [] = []
turns_of (o ∷ os) = turns_if o.err o.turns ++ turns_of os
