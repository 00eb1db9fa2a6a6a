-- ===== src/Loadgen/Dispatch.antt =====
-- internal/loadgen/distributed.go, `dispatchStep`: a sliding window of assignments over a fleet.
--
-- What the fleet, the clock and the context do in one round of the loop is the argument `Round`.
-- A step is run over a list of rounds; when the list is used up the step is still running.
-- `in_flight` is Go's `int`, which the code decrements without a test.
pub mod Pigeonhole
pub mod Window
pub mod Account
use callstorm.Prelude.{
  ℕ, zero, suc, ◌+◌, ◌-◌, ◌*◌, ◌/◌, ℤ, pos, ◌+ℤ◌, ◌-ℤ◌, ltb_ℤ, ltb, ◌==◌, String, str_eq, Bool,
  true, false, ◌&&◌, not, Option, none, some, List, [], ◌∷◌, ◌++◌, if◌then◌else◌, replicate,
}
use callstorm.Bus.Worker.{CallResult}
use callstorm.Loadgen.Outcome.{CallOutcome, Step}

-- `StepDispatch`.
pub record StepDispatch : Type 0 where
  pub step : String
  pub dispatched : ℕ
  pub received : ℕ
  pub duplicates : ℕ
  pub missing : ℕ
  pub late : ℕ

pub data Polled : Type 0 where
  poll_failed : Polled
  poll_deadline : Polled
  arrived : List CallResult → Polled

pub record Round : Type 0 where
  pub assign_ok : ℕ → Bool
  pub sent : ℕ → ℕ
  pub polled : Polled
  pub now : ℕ
  pub cancelled : Bool
  pub expired : Bool

-- The variables of the loop.
pub record Dispatch : Type 0 where
  pub outcomes : List CallOutcome
  pub workers : List (String × ℕ)
  pub dispatched : ℕ
  pub received : ℕ
  pub in_flight : ℤ
  pub sd : StepDispatch
  pub sent_at : List (ℕ × ℕ)
  pub answered : List ℕ

unfoldable pub start : Step → Dispatch
start step = record {
  outcomes = [];
  workers = [];
  dispatched = 0;
  received = 0;
  in_flight = pos 0;
  sd = record {
    step = step.name;
    dispatched = 0;
    received = 0;
    duplicates = 0;
    missing = 0;
    late = 0;
  };
  sent_at = [];
  answered = [];
}

pub data Status : Type 0 where
  running : Dispatch → Status
  finished : Dispatch → Status
  assign_failed : ℕ → Dispatch → Status
  results_failed : Dispatch → Status

unfoldable pub contains : ℕ → List ℕ → Bool
contains n [] = false
contains n (k ∷ ks) = if k == n then true else contains n ks

unfoldable pub lookup : ℕ → List (ℕ × ℕ) → Option ℕ
lookup n [] = none
lookup n ((k, t) ∷ m) = if k == n then some t else lookup n m

unfoldable pub count_worker : String → List (String × ℕ) → List (String × ℕ)
count_worker w [] = (w, 1) ∷ []
count_worker w ((v, n) ∷ m) = if str_eq v w then (v, suc n) ∷ m else (v, n) ∷ count_worker w m

-- `err` is nil for the empty text.
result_err : String → Option String
result_err e = if str_eq e "" then none else some e

unfoldable pub outcome_of : Round → Dispatch → CallResult → CallOutcome
unfolding lookup result_err
outcome_of e d r = record {
  step = r.step;
  request_id = r.request_id;
  worker = r.worker;
  turns = r.turns;
  err = result_err r.err;
  started_at = lookup r.seq d.sent_at;
  ended_at = some e.now;
  clock_zero = r.clock_zero;
  call_ended = r.ended_at;
}

unfoldable pub assign : Round → Dispatch → Dispatch
assign e d = record d {
  sent_at = (d.dispatched, e.sent d.dispatched) ∷ d.sent_at;
  dispatched = suc d.dispatched;
  in_flight = d.in_flight +ℤ pos 1;
}

module _ (step : Step) (e : Round) where
  -- The inner loop. `room` rounds are enough when it is at least calls - dispatched.
  unfoldable pub fill : ℕ → Dispatch → Status
  unfolding assign
  fill zero d = running d
  fill (suc room) d =
      let more = fill room (assign e d) in
      if ltb_ℤ d.in_flight (pos step.concurrency) && ltb d.dispatched step.calls
      then (if e.assign_ok d.dispatched then more else assign_failed d.dispatched d)
      else running d

  unfoldable pub take_result : Dispatch → CallResult → Dispatch
  unfolding contains outcome_of count_worker
  take_result d r =
      if not (str_eq r.step step.name)
      then record d { sd = record (d.sd) { late = suc d.sd.late } }
      else (if contains r.seq d.answered
          then record d { sd = record (d.sd) { duplicates = suc d.sd.duplicates } }
          else record d {
            answered = r.seq ∷ d.answered;
            outcomes = d.outcomes ++ (outcome_of e d r ∷ []);
            workers = count_worker r.worker d.workers;
            received = suc d.received;
            in_flight = d.in_flight -ℤ pos 1;
          })

  unfoldable pub take_results : Dispatch → List CallResult → Dispatch
  take_results d [] = d
  take_results d (r ∷ rs) = take_results (take_result d r) rs

-- A call that no worker reported.
unfoldable pub missing_call : Step → CallOutcome
missing_call step = record {
  step = step.name;
  request_id = "";
  worker = "";
  turns = [];
  err = some "no worker reported this call";
  started_at = none;
  ended_at = none;
  clock_zero = none;
  call_ended = none;
}

unfoldable pub give_up : Step → Dispatch → Dispatch
unfolding missing_call
give_up step d = record d {
  sd = record (d.sd) { missing = step.calls - d.received };
  outcomes = d.outcomes ++ replicate (step.calls - d.received) (missing_call step);
}

-- After the loop: `sd.Received = received`.
unfoldable pub finish : Dispatch → Status
finish d = finished (record d { sd = record (d.sd) { received = d.received } })

unfoldable pub after_poll : Step → Round → Dispatch → Status
unfolding give_up finish
after_poll step e d =
    if e.cancelled then finish d else (if e.expired then finish (give_up step d) else running d)

unfoldable pub poll : Step → Round → Polled → Dispatch → Status
unfolding take_results after_poll
poll step e poll_failed d = results_failed d
poll step e poll_deadline d = after_poll step e d
poll step e (arrived rs) d = after_poll step e (take_results step e d rs)

unfoldable pub note_dispatched : Dispatch → Dispatch
note_dispatched d = record d { sd = record (d.sd) { dispatched = d.dispatched } }

-- What follows the inner loop in one round.
unfoldable pub filled : Step → Round → Status → Status
unfolding poll note_dispatched
filled step e (running d) = poll step e e.polled (note_dispatched d)
filled step e (finished d) = finished d
filled step e (assign_failed n d) = assign_failed n d
filled step e (results_failed d) = results_failed d

unfoldable pub round : Step → Round → Dispatch → Status
unfolding fill filled finish
round step e d =
    if ltb d.received step.calls
    then filled step e (fill step e (step.calls - d.dispatched) d)
    else finish d

-- The outer loop. Its test is also made when no round is left.
unfoldable pub next_status : Step → Round → Status → Status
unfolding round
next_status step e (running d) = round step e d
next_status step e (finished d) = finished d
next_status step e (assign_failed n d) = assign_failed n d
next_status step e (results_failed d) = results_failed d

unfoldable pub last_test : Step → Status → Status
unfolding finish
last_test step (running d) = if ltb d.received step.calls then running d else finish d
last_test step (finished d) = finished d
last_test step (assign_failed n d) = assign_failed n d
last_test step (results_failed d) = results_failed d

unfoldable pub rounds : Step → List Round → Status → Status
unfolding next_status last_test
rounds step [] s = last_test step s
rounds step (e ∷ es) s = rounds step es (next_status step e s)

unfoldable pub dispatch_step : Step → List Round → Status
unfolding rounds start
dispatch_step step es = rounds step es (running (start step))

unfoldable pub max_int : ℕ → ℕ → ℕ
max_int a b = if ltb b a then a else b

abbrev pub minute : ℕ
minute = 60_000_000_000

-- `stepBudget`, in nanoseconds, from the turn timeout and the scenario's turn limit.
unfoldable pub step_budget : ℕ → ℕ → Step → ℕ
unfolding max_int
step_budget turn_timeout turn_limit step =
    let asked : ℕ = turn_timeout * (turn_limit + 2) in
    let per_call : ℕ = if ltb asked minute then minute else asked in
    let waves : ℕ = (step.calls + step.concurrency - 1) / max_int step.concurrency 1 in
    per_call * waves + 2 * minute
