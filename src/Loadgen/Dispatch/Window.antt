-- ===== src/Loadgen/Dispatch/Window.antt =====
-- The sliding window of `dispatchStep`: what holds of its variables in every round.
use Prim.Native.Nat.{min}
use callstorm.Prelude.{
  ℕ, zero, suc, ◌+◌, ◌-◌, ◌≤◌, ◌<◌, ◌≡◌, ◌⊎◌, refl, ap, ◌∙◌, not-false, String, pos_suc, pos_pred,
  ℤ, pos, ◌-ℤ◌, ltb_ℤ, true, false, ◌&&◌, not, List, [], ◌∷◌, ◌++◌, length, length-append, arith,
  All, All-map, if_intro, and-split, str_eq, str_eq_iff, ltb, ltb→lt,
}
use callstorm.Bus.Worker.{CallResult}
use callstorm.Loadgen.Outcome.{CallOutcome, Step}
use callstorm.Loadgen.Dispatch.{
  Dispatch, StepDispatch, Round, Status, running, finished, results_failed, assign_failed, start,
  assign, fill, contains, take_result, take_results, note_dispatched,
}
use callstorm.Loadgen.Dispatch.Pigeonhole.{Distinct, pigeonhole}

-- The window: each answered number was dispatched, none is answered twice, and the calls in flight
-- are those dispatched and not answered, never more than the step's concurrency.
pub record Inv (step : Step) (d : Dispatch) : Type 0 where
  pub answered_count : length d.answered ≡ d.received
  pub distinct : Distinct d.answered
  pub below : All (λ k. k < d.dispatched) d.answered
  pub outcome_count : length d.outcomes ≡ d.received
  pub within : d.dispatched ≤ step.calls
  pub balance : d.in_flight ≡ pos (d.dispatched - d.received)
  pub window : d.dispatched ≤ d.received + step.concurrency
  pub none_missing : d.sd.missing ≡ 0

pub received-le : {step : Step} {d : Dispatch} → Inv step d → d.received ≤ d.dispatched
received-le {d = d} i =
    omega (arith, i.answered_count, pigeonhole d.dispatched d.answered i.distinct i.below)

pub start-Inv : (step : Step) → Inv step (start step)
unfolding start
start-Inv step = record {
  answered_count = refl;
  distinct = tt;
  below = tt;
  outcome_count = refl;
  within = omega arith;
  balance = refl;
  window = omega arith;
  none_missing = refl;
}

room_left : (a c : ℕ) (z : ℤ) → z ≡ pos a → ltb_ℤ z (pos c) ≡ true → a < c
room_left a c z e h = ground arith

assign-Inv :
    (step : Step) (e : Round) (d : Dispatch)
    → Inv step d
    → ltb_ℤ d.in_flight (pos step.concurrency) ≡ true
    → ltb d.dispatched step.calls ≡ true
    → Inv step (assign e d)
unfolding assign
assign-Inv step e d i room more =
    let le = received-le i in
    let lt : d.dispatched < step.calls = ltb→lt _ _ more in
    let fits : d.dispatched - d.received < step.concurrency =
      room_left _ _ d.in_flight i.balance room in
    record {
      answered_count = i.answered_count;
      distinct = i.distinct;
      below = All-map _ _ (λ k h. omega arith) d.answered i.below;
      outcome_count = i.outcome_count;
      within = lt;
      balance = rw (i.balance, pos_suc) (ap pos (omega (arith, le)));
      window = omega (arith, le, fits);
      none_missing = i.none_missing;
    }

-- The state that the inner loop leaves.
abbrev pub Holds : (Dispatch → Type 0) → Status → Type 0
Holds P (running d) = P d
Holds P (finished d) = ⊥
Holds P (assign_failed n d) = P d
Holds P (results_failed d) = ⊥

pub fill-Inv :
    (step : Step) (e : Round) (room : ℕ) (d : Dispatch)
    → Inv step d
    → Holds (Inv step) (fill step e room d)
unfolding fill
fill-Inv step e zero d i = i
fill-Inv step e (suc room) d i =
    if_intro (Holds (Inv step)) _ _ _
      (λ go.
        let (r, m) = and-split _ _ go in
        if_intro (Holds (Inv step)) (e.assign_ok d.dispatched) _ _
          (λ _. fill-Inv step e room (assign e d) (assign-Inv step e d i r m)) (λ _. i))
      (λ _. i)

-- The assignments of `n` calls from the call `from` on succeeded.
abbrev pub AllAssigned : Round → ℕ → ℕ → Type 0
AllAssigned e from zero = Unit
AllAssigned e from (suc n) = (e.assign_ok from ≡ true) × AllAssigned e (suc from) n

-- From a state that had dispatched the calls below `from` and had `received` answers, the inner loop
-- assigns the next calls until as many are in flight as the step may have or every call is assigned;
-- or it stops at the first call whose assignment fails.
abbrev pub Refilled : Step → Round → ℕ → ℕ → Status → Type 0
Refilled step e from received (running d) =
    (n : ℕ) × (d.dispatched ≡ from + n)
    × AllAssigned e from n
    × (d.dispatched ≡ min step.calls (received + step.concurrency))
    × (d.received ≡ received)
    × (d.in_flight ≡ pos (d.dispatched - received))
Refilled step e from received (finished d) = ⊥
Refilled step e from received (assign_failed k d) =
    (n : ℕ) × (d.dispatched ≡ from + n)
    × AllAssigned e from n
    × (e.assign_ok k ≡ false)
    × (k ≡ d.dispatched)
    × (k < min step.calls (received + step.concurrency))
    × (d.received ≡ received)
Refilled step e from received (results_failed d) = ⊥

assigned-Refilled :
    (step : Step) (e : Round) (from received : ℕ) (s : Status)
    → e.assign_ok from ≡ true
    → Refilled step e (suc from) received s
    → Refilled step e from received s
assigned-Refilled step e from received (running d) ok (n, at, all, full, same, out) =
    (suc n, omega arith, (ok, all), full, same, out)
assigned-Refilled step e from received (finished d) ok h = h
assigned-Refilled step e from received (assign_failed k d) ok (n, at, all, bad, here, more, same) =
    (suc n, omega arith, (ok, all), bad, here, more, same)
assigned-Refilled step e from received (results_failed d) ok h = h

stop-Refilled :
    (step : Step) (e : Round) (d : Dispatch)
    → Inv step d
    → (ltb_ℤ d.in_flight (pos step.concurrency) && ltb d.dispatched step.calls) ≡ false
    → Refilled step e d.dispatched d.received (running d)
stop-Refilled step e d i stop =
    let le = received-le i in
    (
      0,
      omega arith,
      tt,
      omega (arith, le, i.within, i.window, full d.in_flight i.balance stop),
      refl,
      i.balance,
    )
  where
    full :
        (z : ℤ)
        → z ≡ pos (d.dispatched - d.received)
        → (ltb_ℤ z (pos step.concurrency) && ltb d.dispatched step.calls) ≡ false
        → (step.concurrency ≤ d.dispatched - d.received) ⊎ (step.calls ≤ d.dispatched)
    full z b h = ground arith

failed-Refilled :
    (step : Step) (e : Round) (d : Dispatch)
    → Inv step d
    → ltb_ℤ d.in_flight (pos step.concurrency) ≡ true
    → ltb d.dispatched step.calls ≡ true
    → e.assign_ok d.dispatched ≡ false
    → Refilled step e d.dispatched d.received (assign_failed d.dispatched d)
failed-Refilled step e d i room more bad =
    let fits : d.dispatched - d.received < step.concurrency =
      room_left _ _ d.in_flight i.balance room in
    let lt : d.dispatched < step.calls = ltb→lt _ _ more in
    (0, omega arith, tt, bad, refl, omega (arith, received-le i), refl)

pub fill-Refilled :
    (step : Step) (e : Round) (room : ℕ) (d : Dispatch)
    → Inv step d
    → step.calls ≤ d.dispatched + room
    → Refilled step e d.dispatched d.received (fill step e room d)
unfolding fill
fill-Refilled step e zero d i enough =
    (0, omega arith, tt, omega (arith, i.within, i.window), refl, i.balance)
fill-Refilled step e (suc room) d i enough =
    if_intro (Refilled step e d.dispatched d.received) _ _ _
      (λ go.
        let (r, m) = and-split _ _ go in
        if_intro (Refilled step e d.dispatched d.received) (e.assign_ok d.dispatched) _ _
          (λ ok.
            assigned-Refilled step e d.dispatched d.received (fill step e room (assign e d)) ok (
              unfold assign in
              fill-Refilled step e room (assign e d) (assign-Inv step e d i r m)
                (unfold assign in omega arith)))
          (λ bad. failed-Refilled step e d i r m bad))
      (stop-Refilled step e d i)

sd-Inv :
    (step : Step) (d : Dispatch) (sd : StepDispatch)
    → Inv step d
    → sd.missing ≡ 0
    → Inv step (record d { sd = sd })
sd-Inv step d sd i z = record {
  answered_count = i.answered_count;
  distinct = i.distinct;
  below = i.below;
  outcome_count = i.outcome_count;
  within = i.within;
  balance = i.balance;
  window = i.window;
  none_missing = z;
}

-- A result of this step is for a call that was assigned.
abbrev pub Assigned : Step → ℕ → CallResult → Type 0
Assigned step dispatched r = r.step ≡ step.name → r.seq < dispatched

fresh-Inv :
    (step : Step) (d : Dispatch) (r : CallResult) (o : CallOutcome) (ws : List (String × ℕ))
    → Inv step d
    → r.seq < d.dispatched
    → contains r.seq d.answered ≡ false
    → Inv step (record d {
      answered = r.seq ∷ d.answered;
      outcomes = d.outcomes ++ (o ∷ []);
      workers = ws;
      received = suc d.received;
      in_flight = d.in_flight -ℤ pos 1;
    })
fresh-Inv step d r o ws i lt new =
    let some_out : suc d.received ≤ d.dispatched = omega (
      arith,
      i.answered_count,
      pigeonhole d.dispatched (r.seq ∷ d.answered) (new, i.distinct) (lt, i.below),
    ) in
    let k : ℕ = d.dispatched - suc d.received in
    let shift : d.dispatched - d.received ≡ suc k = omega (arith, some_out) in
    record {
      answered_count = ap suc i.answered_count;
      distinct = (new, i.distinct);
      below = (lt, i.below);
      outcome_count = omega (arith, length-append d.outcomes (o ∷ []), i.outcome_count);
      within = i.within;
      balance = rw (i.balance, shift) (pos_pred k);
      window = omega (arith, i.window);
      none_missing = i.none_missing;
    }

-- Results change neither what was dispatched nor its note.
abbrev pub Taken : Step → Dispatch → Dispatch → Type 0
Taken step d d' =
    Inv step d' × (d'.dispatched ≡ d.dispatched) × (d'.sd.dispatched ≡ d.sd.dispatched)

take_result-Inv :
    (step : Step) (e : Round) (d : Dispatch) (r : CallResult)
    → Inv step d
    → Assigned step d.dispatched r
    → Taken step d (take_result step e d r)
unfolding take_result
take_result-Inv step e d r i a =
    if_intro P (not (str_eq r.step step.name)) _ _
      (λ _. (sd-Inv step d _ i i.none_missing, refl, refl))
      (λ mine.
        if_intro P (contains r.seq d.answered) _ _
          (λ _. (sd-Inv step d _ i i.none_missing, refl, refl))
          (λ new. (
            fresh-Inv step d r _ _ i (a ((str_eq_iff r.step step.name).0 (not-false _ mine))) new,
            refl,
            refl,
          )))
  where
    P : Dispatch → Type 0
    P d' = Taken step d d'

pub take_results-Inv :
    (step : Step) (e : Round) (d : Dispatch) (rs : List CallResult)
    → Inv step d
    → All (Assigned step d.dispatched) rs
    → Taken step d (take_results step e d rs)
unfolding take_results
take_results-Inv step e d [] i a = (i, refl, refl)
take_results-Inv step e d (r ∷ rs) i a =
    let (i', same, noted) = take_result-Inv step e d r i a.0 in
    let (i'', same', noted') =
      take_results-Inv step e (take_result step e d r) rs i' (rw same a.1) in
    (i'', same' ∙ same, noted' ∙ noted)

pub note-Inv : (step : Step) (d : Dispatch) → Inv step d → Inv step (note_dispatched d)
unfolding note_dispatched
note-Inv step d i = sd-Inv step d _ i i.none_missing
