-- ===== src/Loadgen/StepReport/Counts.antt =====
-- The counts of a step's report (internal/loadgen/report.go) agree with each other.
use callstorm.Prelude.{
  ℕ, suc, ◌+◌, ◌≤◌, ◌≡◌, refl, ℤ, pos, leb_ℤ, String, str_eq, Bool, true, false, Option, none, some,
  List, [], ◌∷◌, ◌++◌, if◌then◌else◌, if_intro, length, length-append, count_if, count_if-append,
  arith,
}
use callstorm.Metrics.Turn.{TurnMetric}
use callstorm.Loadgen.Outcome.{CallOutcome, Step, turns_of, turns_if}
use callstorm.Loadgen.Summary.{summarize}
use callstorm.Loadgen.Waits.{when_positive, is_timed, no_shape}
use callstorm.Loadgen.Waits.Bands.{shape_calls-Banded}
use callstorm.Loadgen.StepReport.{
  StepReport, Acc, Reading, empty_acc, count_turn, time_turn, hear_turn, fold_turns, fold_call,
  fold_calls, build_step_report,
}

abbrev yielded : TurnMetric → Bool
yielded t = t.caller_yielded

-- What the turns `ts` add to the variables of the loop.
record Folded (ts : List TurnMetric) (a b : Acc) : Type 0 where
  total : b.turns_total ≡ a.turns_total + length ts
  talked_over : b.turns_yielded ≡ a.turns_yielded + count_if yielded ts
  timed : length b.ttfa ≡ length a.ttfa + count_if is_timed ts
  attempted : b.calls_attempted ≡ a.calls_attempted
  connected : b.calls_connected ≡ a.calls_connected

Folded-append :
    (ts us : List TurnMetric) (a b c : Acc) → Folded ts a b → Folded us b c → Folded (ts ++ us) a c
Folded-append ts us a b c p q = record {
  total = omega (arith, p.total, q.total, length-append ts us);
  talked_over = omega (arith, p.talked_over, q.talked_over, count_if-append yielded ts us);
  timed = omega (arith, p.timed, q.timed, count_if-append is_timed ts us);
  attempted = omega (arith, p.attempted, q.attempted);
  connected = omega (arith, p.connected, q.connected);
}

length-when_positive :
    (d : ℤ) (ds : List ℤ)
    → length (when_positive d ds) ≡ length ds + (if leb_ℤ d (pos 0) then 0 else 1)
length-when_positive d ds = ground (arith, length-append ds (d ∷ []))

hear_turn-Folded :
    (reading : Reading) (t : TurnMetric) (a : Acc) → Folded [] a (hear_turn reading t a)
unfolding hear_turn
hear_turn-Folded reading t a =
    if_intro (Folded [] a) (str_eq t.heard_text "") _ _
      (λ e. record {
        total = omega arith;
        talked_over = omega arith;
        timed = omega arith;
        attempted = refl;
        connected = refl;
      })
      (λ e. record {
        total = omega arith;
        talked_over = omega arith;
        timed = omega arith;
        attempted = refl;
        connected = refl;
      })

talked_over-Folded :
    (t : TurnMetric) (a : Acc) → t.caller_yielded ≡ true → Folded (t ∷ []) a (count_turn t a)
unfolding count_turn
talked_over-Folded t a e = record {
  total = omega arith;
  talked_over = ground arith;
  timed = ground arith;
  attempted = refl;
  connected = refl;
}

finished-Folded :
    (reading : Reading) (t : TurnMetric) (a : Acc)
    → t.caller_yielded ≡ false
    → Folded (t ∷ []) a (time_turn t (hear_turn reading t (count_turn t a)))
unfolding count_turn time_turn
finished-Folded reading t a e =
    let h = hear_turn-Folded reading t (count_turn t a) in
    let w = length-when_positive t.ttfa (hear_turn reading t (count_turn t a)).ttfa in
    record {
      total = omega (arith, h.total);
      talked_over = ground (arith, h.talked_over);
      timed = ground (arith, h.timed, w);
      attempted = h.attempted;
      connected = h.connected;
    }

fold_turns-Folded :
    (reading : Reading) (ts : List TurnMetric) (a : Acc) → Folded ts a (fold_turns reading ts a)
unfolding fold_turns
fold_turns-Folded reading [] a = record {
  total = omega arith;
  talked_over = omega arith;
  timed = omega arith;
  attempted = refl;
  connected = refl;
}
fold_turns-Folded reading (t ∷ ts) a =
    if_intro (λ (b : Acc). Folded (t ∷ ts) a (fold_turns reading ts b)) t.caller_yielded
      (count_turn t a) (time_turn t (hear_turn reading t (count_turn t a)))
      (λ e.
        Folded-append (t ∷ []) ts a (count_turn t a) _ (talked_over-Folded t a e)
          (fold_turns-Folded reading ts (count_turn t a)))
      (λ e.
        Folded-append (t ∷ []) ts a (time_turn t (hear_turn reading t (count_turn t a))) _
          (finished-Folded reading t a e)
          (fold_turns-Folded reading ts (time_turn t (hear_turn reading t (count_turn t a)))))

abbrev pub is_connected : CallOutcome → Bool
is_connected o = elim (o.err) [ none ↦ true | some why ↦ false ]

-- What the calls `os` add.
record FoldedCalls (os : List CallOutcome) (a b : Acc) : Type 0 where
  total : b.turns_total ≡ a.turns_total + length (turns_of os)
  talked_over : b.turns_yielded ≡ a.turns_yielded + count_if yielded (turns_of os)
  timed : length b.ttfa ≡ length a.ttfa + count_if is_timed (turns_of os)
  attempted : b.calls_attempted ≡ a.calls_attempted + length os
  connected : b.calls_connected ≡ a.calls_connected + count_if is_connected os

-- One call, with the count of those that connected.
record FoldedCall (e : Option String) (ts : List TurnMetric) (n : ℕ) (a b : Acc) : Type 0 where
  total : b.turns_total ≡ a.turns_total + length (turns_if e ts)
  talked_over : b.turns_yielded ≡ a.turns_yielded + count_if yielded (turns_if e ts)
  timed : length b.ttfa ≡ length a.ttfa + count_if is_timed (turns_if e ts)
  attempted : b.calls_attempted ≡ a.calls_attempted
  connected : b.calls_connected ≡ a.calls_connected + n

abbrev connected_one : Option String → ℕ
connected_one none = 1
connected_one (some why) = 0

fold_call-FoldedCall :
    (reading : Reading) (e : Option String) (ts : List TurnMetric) (a : Acc)
    → FoldedCall e ts (connected_one e) a (fold_call reading e ts a)
fold_call-FoldedCall reading (some why) ts a = record {
  total = omega arith;
  talked_over = omega arith;
  timed = omega arith;
  attempted = refl;
  connected = omega arith;
}
fold_call-FoldedCall reading none ts a =
    let f = fold_turns-Folded reading ts (record a { calls_connected = suc a.calls_connected }) in
    record {
      total = f.total;
      talked_over = f.talked_over;
      timed = f.timed;
      attempted = f.attempted;
      connected = omega (arith, f.connected);
    }

is_connected_one : (o : CallOutcome) → (if is_connected o then 1 else 0) ≡ connected_one o.err
is_connected_one o = ground arith

fold_calls-FoldedCalls :
    (reading : Reading) (os : List CallOutcome) (a : Acc)
    → FoldedCalls os a (fold_calls reading os a)
unfolding fold_calls turns_of
fold_calls-FoldedCalls reading [] a = record {
  total = omega arith;
  talked_over = omega arith;
  timed = omega arith;
  attempted = omega arith;
  connected = omega arith;
}
fold_calls-FoldedCalls reading (o ∷ os) a =
    let a' : Acc = record a { calls_attempted = suc a.calls_attempted } in
    let p = fold_call-FoldedCall reading o.err o.turns a' in
    let q = fold_calls-FoldedCalls reading os (fold_call reading o.err o.turns a') in
    let ts = turns_if o.err o.turns in
    record {
      total = omega (arith, p.total, q.total, length-append ts (turns_of os));
      talked_over =
          omega (arith, p.talked_over, q.talked_over, count_if-append yielded ts (turns_of os));
      timed = omega (arith, p.timed, q.timed, count_if-append is_timed ts (turns_of os));
      attempted = omega (arith, p.attempted, q.attempted);
      connected = omega (arith, p.connected, q.connected, is_connected_one o);
    }

n-summarize : (ds : List ℤ) → (summarize ds).n ≡ length ds
unfolding summarize
n-summarize [] = refl
n-summarize (d ∷ ds) = refl

timed_or_yielded : (ts : List TurnMetric) → count_if is_timed ts + count_if yielded ts ≤ length ts
timed_or_yielded [] = omega arith
timed_or_yielded (t ∷ ts) = ground (arith, timed_or_yielded ts)

-- The counts that a report of the calls `os` shows.
pub record IsConsistent (os : List CallOutcome) (r : StepReport) : Type 0 where
  pub attempted : r.calls_attempted ≡ length os
  pub connected : r.calls_connected ≡ count_if is_connected os
  pub total : r.turns_total ≡ length (turns_of os)
  pub timed : r.ttfa.n ≡ count_if is_timed (turns_of os)
  pub room : r.ttfa.n + r.turns_yielded ≤ r.turns_total
  pub waited : r.waits.turns ≡ r.ttfa.n
  pub banded : r.waits.up_to_800 + r.waits.to_1200 + r.waits.to_2000 + r.waits.over_2000 ≡ r.ttfa.n

-- The report of a step counts every call once, the ones that connected, and every turn of those;
-- its latency summary rests on the turns that the caller finished and the agent answered, none of
-- them a turn that was talked over; and the bands of waits, which another part of the code counts,
-- hold exactly the turns of that summary, each once.
pub build_step_report-IsConsistent :
    (reading : Reading) (step : Step) (os : List CallOutcome) (rate : ℤ)
    → IsConsistent os (build_step_report reading step os rate)
unfolding build_step_report
build_step_report-IsConsistent reading step os rate =
    let f = fold_calls-FoldedCalls reading os empty_acc in
    let b = shape_calls-Banded reading.texts os no_shape in
    let n = n-summarize (fold_calls reading os empty_acc).ttfa in
    record {
      attempted = omega (arith, f.attempted);
      connected = omega (arith, f.connected);
      total = omega (arith, f.total);
      timed = omega (arith, n, f.timed);
      room = omega (arith, n, f.timed, f.talked_over, f.total, timed_or_yielded (turns_of os));
      waited = omega (arith, n, f.timed, b.counted);
      banded = omega (arith, n, f.timed, b.counted, b.sorted_out);
    }
