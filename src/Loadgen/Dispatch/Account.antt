-- ===== src/Loadgen/Dispatch/Account.antt =====
-- How `dispatchStep` ends: every call of the step is answered once or reported missing.
use callstorm.Prelude.{
  ℕ, ◌+◌, ◌-◌, ◌≤◌, ◌<◌, ◌≡◌, refl, sym, ◌∙◌, pos, false, List, [], ◌∷◌, length, length-append,
  length-replicate, replicate, arith, All, if_intro, ltb, ltb→le,
}
use mathlib.Core.Path.{subst}
use mathlib.Core.Bool.{true≢false}
use callstorm.Loadgen.Outcome.{Step}
use callstorm.Loadgen.Dispatch.{
  Dispatch, Round, Polled, poll_failed, poll_deadline, arrived, Status, running, finished,
  results_failed, assign_failed, start, fill, take_results, give_up, finish, missing_call,
  after_poll, poll, note_dispatched, filled, round, next_status, last_test, rounds, dispatch_step,
}
use callstorm.Loadgen.Dispatch.Pigeonhole.{Distinct}
use callstorm.Loadgen.Dispatch.Window.{
  Inv, Holds, Assigned, start-Inv, fill-Inv, take_results-Inv, note-Inv, received-le, Refilled,
  fill-Refilled,
}

-- The account of a finished step, where `Q` says that no round was cancelled.
pub record Final (Q : Type 0) (step : Step) (d : Dispatch) : Type 0 where
  pub distinct : Distinct d.answered
  pub below : All (λ k. k < d.sd.dispatched) d.answered
  pub answered_count : length d.answered ≡ d.sd.received
  pub outcome_count : length d.outcomes ≡ d.sd.received + d.sd.missing
  pub within : d.sd.dispatched ≤ step.calls
  pub complete : Q → d.sd.received + d.sd.missing ≡ step.calls

abbrev pub Good : Type 0 → Step → Status → Type 0
Good Q step (running d) = Inv step d × (d.sd.dispatched ≡ d.dispatched)
Good Q step (finished d) = Final Q step d
Good Q step (assign_failed n d) = Unit
Good Q step (results_failed d) = Unit

-- Every result of this step that a round brings is for a call assigned by then.
abbrev pub PolledAt : Step → ℕ → Polled → Type 0
PolledAt step n (arrived rs) = All (Assigned step n) rs
PolledAt step n poll_failed = Unit
PolledAt step n poll_deadline = Unit

abbrev pub PolledFor : Step → Polled → Status → Type 0
PolledFor step p (running d) = PolledAt step d.dispatched p
PolledFor step p (finished d) = Unit
PolledFor step p (assign_failed n d) = Unit
PolledFor step p (results_failed d) = Unit

abbrev pub RoundFor : Step → Round → Status → Type 0
RoundFor step e (running d) = PolledFor step e.polled (fill step e (step.calls - d.dispatched) d)
RoundFor step e (finished d) = Unit
RoundFor step e (assign_failed n d) = Unit
RoundFor step e (results_failed d) = Unit

-- Along the rounds, results come only for calls that were assigned.
abbrev pub Answers : Step → List Round → Status → Type 0
Answers step [] s = Unit
Answers step (e ∷ es) s = RoundFor step e s × Answers step es (next_status step e s)

all_received :
    {step : Step} {d : Dispatch}
    → Inv step d
    → ltb d.received step.calls ≡ false
    → d.received ≡ step.calls
all_received i stop = omega (arith, received-le i, i.within, ltb→le _ _ stop)

module _ (Q : Type 0) (step : Step) where
  finish-Good :
      (d : Dispatch)
      → Inv step d
      → d.sd.dispatched ≡ d.dispatched
      → (Q → d.received ≡ step.calls)
      → Good Q step (finish d)
  unfolding finish
  finish-Good d i n c = record {
    distinct = i.distinct;
    below = rw n i.below;
    answered_count = i.answered_count;
    outcome_count = omega (arith, i.outcome_count, i.none_missing);
    within = omega (arith, n, i.within);
    complete = λ q. omega (arith, c q, i.none_missing);
  }

  give_up-Good :
      (d : Dispatch)
      → Inv step d
      → d.sd.dispatched ≡ d.dispatched
      → Good Q step (finish (give_up step d))
  unfolding finish give_up
  give_up-Good d i n =
      let le = received-le i in
      record {
        distinct = i.distinct;
        below = rw n i.below;
        answered_count = i.answered_count;
        outcome_count = omega (
          arith,
          length-append d.outcomes (replicate (step.calls - d.received) (missing_call step)),
          length-replicate (step.calls - d.received) (missing_call step),
          i.outcome_count,
        );
        within = omega (arith, n, i.within);
        complete = λ q. omega (arith, le, i.within);
      }

  module _ (e : Round) (quiet : Q → e.cancelled ≡ false) where
    after_poll-Good :
        (d : Dispatch)
        → Inv step d
        → d.sd.dispatched ≡ d.dispatched
        → Good Q step (after_poll step e d)
    unfolding after_poll
    after_poll-Good d i n =
        if_intro (Good Q step) e.cancelled (finish d) _
          (λ c. finish-Good d i n (λ q. absurd (true≢false (sym c ∙ quiet q))))
          (λ _.
            if_intro (Good Q step) e.expired (finish (give_up step d)) (running d)
              (λ _. give_up-Good d i n) (λ _. (i, n)))

    poll-Good :
        (p : Polled) (d : Dispatch)
        → Inv step d
        → d.sd.dispatched ≡ d.dispatched
        → PolledFor step p (running d)
        → Good Q step (poll step e p d)
    unfolding poll
    poll-Good poll_failed d i n a = tt
    poll-Good poll_deadline d i n a = after_poll-Good d i n
    poll-Good (arrived rs) d i n a =
        let (i', same, noted) = take_results-Inv step e d rs i a in
        after_poll-Good (take_results step e d rs) i' (noted ∙ n ∙ sym same)

    filled-Good :
        (s : Status)
        → Holds (Inv step) s
        → PolledFor step e.polled s
        → Good Q step (filled step e s)
    unfolding filled note_dispatched
    filled-Good (running d) i a = poll-Good e.polled (note_dispatched d) (note-Inv step d i) refl a
    filled-Good (finished d) i a = absurd i
    filled-Good (assign_failed n d) i a = tt
    filled-Good (results_failed d) i a = tt

    round-Good :
        (d : Dispatch)
        → Good Q step (running d)
        → RoundFor step e (running d)
        → Good Q step (round step e d)
    unfolding round
    round-Good d (i, n) a =
        if_intro (Good Q step) (ltb d.received step.calls) _ (finish d)
          (λ _. filled-Good _ (fill-Inv step e (step.calls - d.dispatched) d i) a)
          (λ stop. finish-Good d i n (λ _. all_received i stop))

    next_status-Good :
        (s : Status) → Good Q step s → RoundFor step e s → Good Q step (next_status step e s)
    unfolding next_status
    next_status-Good (running d) g a = round-Good d g a
    next_status-Good (finished d) g a = g
    next_status-Good (assign_failed n d) g a = tt
    next_status-Good (results_failed d) g a = tt

  last_test-Good : (s : Status) → Good Q step s → Good Q step (last_test step s)
  unfolding last_test
  last_test-Good (running d) (i, n) =
      if_intro (Good Q step) (ltb d.received step.calls) (running d) (finish d) (λ _. (i, n))
        (λ stop. finish-Good d i n (λ _. all_received i stop))
  last_test-Good (finished d) g = g
  last_test-Good (assign_failed n d) g = tt
  last_test-Good (results_failed d) g = tt

  rounds-Good :
      (es : List Round) (s : Status)
      → (Q → All (λ e. e.cancelled ≡ false) es)
      → Good Q step s
      → Answers step es s
      → Good Q step (rounds step es s)
  unfolding rounds
  rounds-Good [] s quiet g a = last_test-Good s g
  rounds-Good (e ∷ es) s quiet g a =
      rounds-Good es (next_status step e s) (λ q. (quiet q).1)
        (next_status-Good e (λ q. (quiet q).0) s g a.0) a.1

abbrev pub NoneCancelled : List Round → Type 0
NoneCancelled es = All (λ (e : Round). e.cancelled ≡ false) es

dispatch_step-Good :
    (step : Step) (es : List Round)
    → Answers step es (running (start step))
    → Good (NoneCancelled es) step (dispatch_step step es)
unfolding dispatch_step
dispatch_step-Good step es a =
    rounds-Good (NoneCancelled es) step es (running (start step)) (λ q. q)
      (start-Inv step, unfold start in refl) a

-- While a step runs, if results come only for calls that were assigned: the calls in flight are
-- exactly those dispatched and not yet answered, never more than the concurrency of the step, never
-- more calls are dispatched than the step has, and no call is answered twice.
pub dispatch_step_window :
    (step : Step) (es : List Round) (d : Dispatch)
    → Answers step es (running (start step))
    → dispatch_step step es ≡ running d
    → (d.in_flight ≡ pos (d.dispatched - d.received))
      × (d.dispatched - d.received ≤ step.concurrency)
      × (d.dispatched ≤ step.calls)
      × Distinct d.answered
      × (length d.answered ≡ d.received)
dispatch_step_window step es d a e =
    let (i, n) = rw e at (dispatch_step-Good step es a) in
    (i.balance, omega (arith, i.window), i.within, i.distinct, i.answered_count)

-- When a step has finished, if results came only for calls that were assigned: the answered calls
-- are distinct and were dispatched, the outcomes are as many as the results received and the calls
-- reported missing, and unless a round was cancelled these are all the calls of the step.
pub dispatch_step_account :
    (step : Step) (es : List Round) (d : Dispatch)
    → Answers step es (running (start step))
    → dispatch_step step es ≡ finished d
    → Final (NoneCancelled es) step d
dispatch_step_account step es d a e = rw e at (dispatch_step-Good step es a)

-- Where results came only for calls that were assigned and a round is to follow: its inner loop
-- assigns the next calls, each with success, until as many are in flight as the step's concurrency or
-- every call is assigned; or it stops at the first of these whose assignment fails.
pub dispatch_step-Refilled :
    (step : Step) (es : List Round) (e : Round) (d : Dispatch)
    → Answers step es (running (start step))
    → dispatch_step step es ≡ running d
    → Refilled step e d.dispatched d.received (fill step e (step.calls - d.dispatched) d)
dispatch_step-Refilled step es e d a h =
    let g : Good (NoneCancelled es) step (running d) =
      subst (Good (NoneCancelled es) step) h (dispatch_step-Good step es a) in
    fill-Refilled step e (step.calls - d.dispatched) d g.0 (omega (arith, g.0.within))
