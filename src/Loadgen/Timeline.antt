-- ===== src/Loadgen/Timeline.antt =====
-- internal/loadgen/timeline.go: the calls of a step in start order, and how long a recovery took.
-- Instants are nanoseconds since 1970; a millisecond value is an integer of tenths. `hundredths`
-- is the rounding of `Millis`, as in Metrics/Mirror.
pub mod Recovery
use callstorm.Prelude.{
  ℕ, zero, suc, ◌+◌, ◌*◌, ◌-◌, ℤ, pos, negsuc, ◌-ℤ◌, ltb, ltb_ℤ, leb_ℤ, String, Bool, true, false,
  not, ◌&&◌, ◌||◌, Option, none, some, List, [], ◌∷◌, ◌++◌, if◌then◌else◌, sort_on,
}
use mathlib.Core.List.{reverse}
use callstorm.Metrics.Turn.{TurnMetric}
use callstorm.Metrics.Mirror.{scale, millis}
use callstorm.Metrics.Percentile.{percentile, fifty}
use callstorm.Loadgen.Outcome.{CallOutcome}
use callstorm.Loadgen.Summary.{round_div}

pub record CallPoint : Type 0 where
  pub at : ℕ
  pub ttfa_ms : ℤ
  pub failed : Bool

abbrev pub or_else : Option ℕ → Option ℕ → Option ℕ
or_else (some a) b = some a
or_else none b = b

unfoldable pub began : CallOutcome → Option ℕ
began o = or_else o.clock_zero o.started_at

unfoldable pub finished : CallOutcome → Option ℕ
finished o = or_else o.call_ended o.ended_at

-- `start.IsZero() || b.Before(start)`, and `f.After(end)`.
abbrev pub earlier : ℕ → Option ℕ → Option ℕ
earlier b none = some b
earlier b (some start) = if ltb b start then some b else some start

abbrev pub later : Option ℕ → Option ℕ → Option ℕ
later none end = end
later (some f) none = some f
later (some f) (some end) = if ltb end f then some f else some end

abbrev pub has_error : Option String → Bool
has_error none = false
has_error (some why) = true

unfoldable pub some_failed : List TurnMetric → Bool
some_failed [] = false
some_failed (t ∷ ts) = if t.failed then true else some_failed ts

-- The waits of the turns that count toward a percentile.
unfoldable pub waits : List TurnMetric → List ℤ
waits [] = []
waits (t ∷ ts) =
    let rest = waits ts in
    if not t.caller_yielded && ltb_ℤ (pos 0) t.ttfa then (t.ttfa ∷ rest) else rest

abbrev pub median_ms : (ℤ → ℤ) → List ℤ → ℤ
median_ms hundredths [] = pos 0
median_ms hundredths (d ∷ ds) = round_div (millis hundredths (percentile fifty (d ∷ ds))) 10

abbrev pub point : (ℤ → ℤ) → CallOutcome → ℕ → CallPoint
point hundredths o b = record {
  at = b;
  ttfa_ms = median_ms hundredths (waits o.turns);
  failed = has_error o.err || some_failed o.turns;
}

pub record Timeline : Type 0 where
  pub started_at : Option ℕ
  pub ended_at : Option ℕ
  pub points : List CallPoint

-- One call of the loop; a call that no worker reported is left out.
abbrev pub place : (ℤ → ℤ) → CallOutcome → Option ℕ → Timeline → Timeline
place hundredths o none l = l
place hundredths o (some b) l = record {
  started_at = earlier b l.started_at;
  ended_at = later (finished o) l.ended_at;
  points = l.points ++ (point hundredths o b ∷ []);
}

unfoldable pub place_calls : (ℤ → ℤ) → List CallOutcome → Timeline → Timeline
unfolding began finished some_failed waits
place_calls hundredths [] l = l
place_calls hundredths (o ∷ os) l = place_calls hundredths os (place hundredths o (began o) l)

abbrev pub by_start : CallPoint → ℤ
by_start p = pos p.at

unfoldable pub summarize_timeline : (ℤ → ℤ) → List CallOutcome → Timeline
unfolding place_calls sort_on
summarize_timeline hundredths outcomes =
    let l =
      place_calls hundredths outcomes
        (record { started_at = none; ended_at = none; points = [] }) in
    record l { points = sort_on by_start l.points }

-- Within 1.2 of the baseline's median.
abbrev pub is_normal : ℤ → CallPoint → Bool
is_normal base p =
    not (p.failed || leb_ℤ p.ttfa_ms (pos 0) || ltb_ℤ (scale 12 base) (scale 10 p.ttfa_ms))

-- The loop from the end of the timeline, over its reverse; `from` is the earliest call so far.
unfoldable pub walk_back : ℤ → List CallPoint → Option CallPoint → Option CallPoint
walk_back base [] from = from
walk_back base (p ∷ ps) from =
    let rest = walk_back base ps (some p) in if is_normal base p then rest else from

abbrev pub since : ℕ → Option CallPoint → Bool × ℤ
since start none = (false, pos 0)
since start (some p) = (true, round_div (pos p.at -ℤ pos start) 100000000)

-- With the step's start; the result is in tenths of a second.
unfoldable pub back_to_normal : List CallPoint → ℕ → ℤ → Bool × ℤ
unfolding walk_back
back_to_normal timeline start base =
    if leb_ℤ base (pos 0)
    then (false, pos 0)
    else since start (walk_back base (reverse timeline) none)
