-- ===== src/Loadgen/Tasks/Groups.antt =====
-- The two groups of internal/loadgen/tasks.go, `waitOutcome`.
use callstorm.Prelude.{
  ◌+◌, ◌≤◌, ◌≡◌, ℤ, ltb, leb, String, Bool, true, false, ◌&&◌, Option, none, some, List, [], ◌∷◌,
  if_intro, arith,
}
use callstorm.Metrics.Turn.{TurnMetric}
use callstorm.Judge.Agreement.{Judgement}
use callstorm.Loadgen.Tasks.{
  CallRecord, is_errored, met, WaitOutcome, no_calls, split_call, note_of, is_conclusive, conclude,
  verdict_of, is_slow, split_judged, split_calls, wait_outcome,
}

-- The judged calls fall into two groups, neither with more passes than calls.
pub record IsSplit (w : WaitOutcome) : Type 0 where
  pub groups : w.calls ≡ w.slow_calls + w.quick_calls
  pub slow_room : w.slow_passed ≤ w.slow_calls
  pub quick_room : w.quick_passed ≤ w.quick_calls

split_call-IsSplit :
    (slow passed : Bool) (w : WaitOutcome) → IsSplit w → IsSplit (split_call slow passed w)
unfolding split_call
split_call-IsSplit true passed w v = record {
  groups = ground arith;
  slow_room = ground arith;
  quick_room = v.quick_room;
}
split_call-IsSplit false passed w v = record {
  groups = ground arith;
  slow_room = v.slow_room;
  quick_room = ground arith;
}

-- What the note and the verdict on a comparison rest on.
abbrev pub Concluded : WaitOutcome → Type 0
Concluded w =
    (w.conclusive ≡ leb 8 w.calls && (ltb 0 w.slow_calls && ltb 0 w.quick_calls)) × IsSplit w

conclude-Concluded : (w : WaitOutcome) → IsSplit w → Concluded (conclude w)
conclude-Concluded w v =
    (decided, record { groups = v.groups; slow_room = v.slow_room; quick_room = v.quick_room })
  where
    decided :
        is_conclusive (note_of w) ≡ leb 8 w.calls && (ltb 0 w.slow_calls && ltb 0 w.quick_calls)
    decided = ground arith

module _ (call_key : String → String → String) (hundredths : ℤ → ℤ) where
  split_judged-IsSplit :
      (g : Option Judgement) (ts : List TurnMetric) (w : WaitOutcome)
      → IsSplit w
      → IsSplit (split_judged call_key hundredths g ts w)
  split_judged-IsSplit none ts w v = v
  split_judged-IsSplit (some g) ts w v =
      if_intro IsSplit (is_errored g) _ _ (λ e. v)
        (λ e. split_call-IsSplit (is_slow call_key hundredths ts) (met g) w v)

  split_calls-IsSplit :
      (js : List Judgement) (cs : List CallRecord) (w : WaitOutcome)
      → IsSplit w
      → IsSplit (split_calls call_key hundredths js cs w)
  unfolding split_calls
  split_calls-IsSplit js [] w v = v
  split_calls-IsSplit js (c ∷ cs) w v = split_calls-IsSplit js cs _ (
      split_judged-IsSplit (verdict_of call_key hundredths js (call_key c.step c.request_id) none)
        c.turns w v)

  -- The split of the judged calls by waiting puts each in one of two groups, and is conclusive
  -- exactly if there are eight judged calls at least and both groups have one.
  pub wait_outcome-Concluded :
      (cs : List CallRecord) (js : List Judgement)
      → Concluded (wait_outcome call_key hundredths cs js)
  unfolding wait_outcome
  wait_outcome-Concluded cs js =
      conclude-Concluded (split_calls call_key hundredths js cs no_calls) (
        split_calls-IsSplit js cs no_calls
          (record { groups = omega arith; slow_room = omega arith; quick_room = omega arith }))
