-- ===== src/Tests/Dispatch.antt =====
-- A step of three calls, two at a time, whose last call never comes back.
use callstorm.Prelude.{
  ℕ, ◌≡◌, ◌-◌, ◌≤◌, refl, pos, ◌+ℤ◌, ◌-ℤ◌, Bool, true, false, none, List, [], ◌∷◌, length, arith,
}
use callstorm.Bus.Worker.{CallResult}
use callstorm.Loadgen.Outcome.{Step}
use callstorm.Loadgen.Dispatch.{
  Dispatch, Round, arrived, Status, running, finished, start, fill, dispatch_step, round,
  take_result,
}
use callstorm.Loadgen.Dispatch.Pigeonhole.{Distinct}
use callstorm.Loadgen.Dispatch.Window.{Refilled}
use callstorm.Loadgen.Dispatch.Account.{
  Final, NoneCancelled, dispatch_step_window, dispatch_step_account, dispatch_step-Refilled,
}
use callstorm.Loadgen.StepReport.{Reading}
use callstorm.Loadgen.Distributed.{
  Drive, RunReport, empty_draft, add_step, run_steps, score_draft, run_distributed,
}
use callstorm.Loadgen.Distributed.Whole.{Accounted, run_distributed-Accounted}

abbrev peak : Step
peak = record { name = "peak"; concurrency = 2; calls = 3; kind = "ramp"; hold = pos 0 }

abbrev result : ℕ → CallResult
result n = record {
  run = "r1";
  step = "peak";
  seq = n;
  worker = "w";
  request_id = "q";
  clock_zero = none;
  ended_at = none;
  turns = [];
  err = "";
}

abbrev quiet : List CallResult → Bool → Round
quiet rs expired = record {
  assign_ok = λ _. true;
  sent = λ n. n;
  polled = arrived rs;
  now = 9;
  cancelled = false;
  expired = expired;
}

abbrev two_rounds : List Round
two_rounds = quiet (result 1 ∷ result 1 ∷ []) false ∷ quiet (result 0 ∷ []) true ∷ []

abbrev state : Status → Dispatch
state (running d) = d
state (finished d) = d
state _ = start peak

abbrev one_missing : Dispatch
unfolding dispatch_step start round take_result ◌+ℤ◌ ◌-ℤ◌
one_missing = state (dispatch_step peak two_rounds)

-- The second call is reported twice, and the third never.
one_missing_account :
    (one_missing.sd.received ≡ 2) × (one_missing.sd.missing ≡ 1) × (one_missing.sd.duplicates ≡ 1)
unfolding one_missing
one_missing_account = (refl, refl, refl)

dispatch_step_account_example : Final (NoneCancelled two_rounds) peak one_missing
unfolding dispatch_step start round take_result ◌+ℤ◌ ◌-ℤ◌
dispatch_step_account_example =
    dispatch_step_account peak two_rounds one_missing
      (((λ _. omega arith), ((λ _. omega arith), tt)), (((λ _. omega arith), tt), tt)) refl

abbrev one_answered : Dispatch
unfolding dispatch_step start round take_result ◌+ℤ◌ ◌-ℤ◌
one_answered = state (dispatch_step peak (quiet (result 1 ∷ []) false ∷ []))

dispatch_step_window_example :
    (one_answered.in_flight ≡ pos (one_answered.dispatched - one_answered.received))
    × (one_answered.dispatched - one_answered.received ≤ 2)
    × (one_answered.dispatched ≤ 3)
    × Distinct one_answered.answered
    × (length one_answered.answered ≡ one_answered.received)
unfolding dispatch_step start round take_result ◌+ℤ◌ ◌-ℤ◌
dispatch_step_window_example =
    dispatch_step_window peak (quiet (result 1 ∷ []) false ∷ []) one_answered
      (((λ _. omega arith), tt), tt) refl

dispatch_step-Refilled_example :
    Refilled peak
      (quiet [] false)
      one_answered.dispatched
      one_answered.received
      (fill peak (quiet [] false) (3 - one_answered.dispatched) one_answered)
unfolding dispatch_step start round take_result ◌+ℤ◌ ◌-ℤ◌
dispatch_step-Refilled_example =
    dispatch_step-Refilled peak (quiet (result 1 ∷ []) false ∷ []) (quiet [] false) one_answered
      (((λ _. omega arith), tt), tt) refl

abbrev reading : Reading
reading = record {
  texts = record { words = λ s. s ∷ []; join = λ ws. "" };
  fields = λ s. 1;
  hundredths = λ us. us;
  cut = λ s. s;
  normalize = λ s. s ∷ [];
}

abbrev plan : List (Step × Drive)
plan = (peak, record { rounds = two_rounds; cancelled = false }) ∷ []

abbrev whole_run : RunReport
whole_run =
    score_draft reading (pos 0) [] "peak"
      (add_step reading (pos 0) [] peak (dispatch_step peak two_rounds) empty_draft)

run_distributed-Accounted_example : Accounted reading (pos 0) [] plan whole_run
unfolding dispatch_step start round take_result ◌+ℤ◌ ◌-ℤ◌ run_distributed run_steps
run_distributed-Accounted_example =
    run_distributed-Accounted reading (pos 0) [] "peak" plan whole_run
      (
        (
          (((λ _. omega arith), ((λ _. omega arith), tt)), (((λ _. omega arith), tt), tt)),
          (refl, (refl, tt)),
          refl,
        ),
        tt,
      )
      refl
