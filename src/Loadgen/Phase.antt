-- ===== src/Loadgen/Phase.antt =====
-- internal/loadgen/phase.go: how a step behaved over its own duration. A drift is in thousandths,
-- seconds are in tenths. `zero_time` is Go's zero time, and a difference of two times saturates.
use Prim.Native.Nat.{◌^◌}
use callstorm.Prelude.{
  ℕ, ◌*◌, ◌/◌, ◌-◌, ℤ, pos, negsuc, ◌-ℤ◌, ltb, ltb_ℤ, leb_ℤ, String, Bool, false, ◌||◌, Option,
  none, some, List, [], ◌∷◌, ◌++◌, if◌then◌else◌, length, take, drop, sort_on, pos_part,
}
use callstorm.Metrics.Turn.{TurnMetric}
use callstorm.Metrics.Mirror.{scale}
use callstorm.Loadgen.Outcome.{CallOutcome, Step}
use callstorm.Loadgen.Profile.{phase}
use callstorm.Loadgen.Summary.{Summary, no_summary, summarize, round_div}

pub data Drift : Type 0 where
  unknown steady drifting settling : Drift

pub record Phase : Type 0 where
  pub kind : String
  pub held_seconds : ℤ
  pub first_half : Summary
  pub second_half : Summary
  pub drift_pct : ℤ
  pub drift : Drift
  pub recovered : Bool
  pub back_to_normal : Bool
  pub back_to_normal_after_s : ℤ

abbrev pub zero_time : ℤ
zero_time = negsuc (62135596800 * 1000000000 - 1)

abbrev pub time_of : Option ℕ → ℤ
time_of none = zero_time
time_of (some t) = pos t

-- `Time.Sub`.
unfoldable pub time_sub : ℤ → ℤ → ℤ
time_sub a b =
    let d = a -ℤ b in
    if ltb_ℤ (pos (2 ^ 63 - 1)) d
    then pos (2 ^ 63 - 1)
    else (if ltb_ℤ d (negsuc (2 ^ 63 - 1)) then negsuc (2 ^ 63 - 1) else d)

-- A call that counts, with its times.
pub record Placed : Type 0 where
  pub start : ℕ
  pub end_time : ℤ
  pub turns : List TurnMetric

abbrev pub place_call : Option String → List TurnMetric → Option ℕ → ℤ → List Placed
place_call none (t ∷ ts) (some b) e = record { start = b; end_time = e; turns = t ∷ ts } ∷ []
place_call none [] b e = []
place_call none (t ∷ ts) none e = []
place_call (some why) ts b e = []

unfoldable pub placed_calls : List CallOutcome → List Placed
placed_calls [] = []
placed_calls (o ∷ os) =
    place_call o.err o.turns o.started_at (time_of o.ended_at) ++ placed_calls os

unfoldable pub last_end : ℤ → List Placed → ℤ
last_end last [] = last
last_end last (p ∷ ps) = last_end (if ltb_ℤ last p.end_time then p.end_time else last) ps

-- The waits of one call's turns, and of a list of calls: `phaseTTFA`.
unfoldable pub timed_ttfa : List TurnMetric → List ℤ
timed_ttfa [] = []
timed_ttfa (t ∷ ts) =
    let rest = timed_ttfa ts in
    if t.caller_yielded || leb_ℤ t.ttfa (pos 0) then rest else (t.ttfa ∷ rest)

unfoldable pub phase_ttfa : List Placed → List ℤ
unfolding timed_ttfa
phase_ttfa [] = []
phase_ttfa (p ∷ ps) = timed_ttfa p.turns ++ phase_ttfa ps

abbrev pub drift_of : ℤ → Drift
drift_of pct =
    if leb_ℤ (pos 150) pct then drifting else (if leb_ℤ pct (negsuc 149) then settling else steady)

abbrev pub min_half_turns : ℕ
min_half_turns = 10

unfoldable pub compare_halves : Phase → Summary → Summary → Phase
unfolding round_div
compare_halves p a b =
    let p' : Phase = record p { first_half = a; second_half = b } in
    let pct = round_div (scale 1000 (b.p50_ms -ℤ a.p50_ms)) (pos_part a.p50_ms) in
    if ltb a.n min_half_turns || ltb b.n min_half_turns || leb_ℤ a.p50_ms (pos 0)
    then p'
    else record p' { drift_pct = pct; drift = drift_of pct }

abbrev pub by_start : Placed → ℤ
by_start p = pos p.start

unfoldable pub split_phase : Phase → List Placed → Phase
unfolding last_end phase_ttfa summarize compare_halves time_sub round_div
split_phase p [] = p
split_phase p (o ∷ os) =
    let all = o ∷ os in
    let mid = length all / 2 in
    let p' : Phase = record p {
      held_seconds = round_div (time_sub (last_end o.end_time all) (pos o.start)) 100000000;
    } in
    if ltb (length all) 2
    then p'
    else compare_halves p' (summarize (phase_ttfa (take mid all)))
        (summarize (phase_ttfa (drop mid all)))

abbrev pub new_phase : String → Phase
new_phase kind = record {
  kind = kind;
  held_seconds = pos 0;
  first_half = no_summary;
  second_half = no_summary;
  drift_pct = pos 0;
  drift = unknown;
  recovered = false;
  back_to_normal = false;
  back_to_normal_after_s = pos 0;
}

unfoldable pub summarize_phase : Step → List CallOutcome → Phase
unfolding phase placed_calls sort_on split_phase
summarize_phase step outcomes =
    split_phase (new_phase (phase step)) (sort_on by_start (placed_calls outcomes))
