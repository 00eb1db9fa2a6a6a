-- ===== src/Tests/Pacing.antt =====
-- Two slots that share a budget of two calls, and a pump that falls behind.
use callstorm.Prelude.{ℕ, ◌+◌, ◌≤◌, ◌≡◌, refl, pos, false, some, List, [], ◌∷◌, count_if, arith}
use callstorm.Loadgen.Outcome.{Step}
use callstorm.Loadgen.Budget.{Tick, run_step}
use callstorm.Loadgen.Budget.Spending.{is_calling, run_step_bounds, run_step_complete}
use callstorm.Worker.Pump.{Round, run, say, cut, new_pump}
use callstorm.Worker.Pump.Frames.{OnTime, Spoken, rounds, pumping, run-OnTime, run-Spoken}

abbrev two_calls : Step
two_calls = record { name = "s"; concurrency = 2; calls = 2; kind = ""; hold = pos 0 }

abbrev by : ℕ → Tick
by slot = record { slot = slot; cancelled = false; expired = false }

abbrev racing : List Tick
racing = by 0 ∷ by 1 ∷ by 1 ∷ by 1 ∷ by 0 ∷ by 0 ∷ []

run_step_bounds_example :
    ((run_step two_calls racing).started ≤ 2)
    × (count_if is_calling (run_step two_calls racing).slots ≤ 2)
    × ((run_step two_calls racing).started
        ≡ (run_step two_calls racing).outcomes
          + count_if is_calling (run_step two_calls racing).slots)
run_step_bounds_example = run_step_bounds two_calls racing refl

run_step_complete_example :
    ((run_step two_calls racing).started ≡ 2) × ((run_step two_calls racing).outcomes ≡ 2)
unfolding run_step
run_step_complete_example =
    run_step_complete two_calls racing refl (omega arith)
      (refl, (refl, (refl, (refl, (refl, (refl, tt)))))) (refl, (refl, tt))

abbrev late : List Round
late =
    record { commands = say 0 (1 ∷ 2 ∷ 3 ∷ []) ∷ []; now = 0; at = 1; write_failed = false }
    ∷ record { commands = []; now = 90000000; at = 90000001; write_failed = false }
    ∷ record { commands = cut 90000005 ∷ []; now = 91000000; at = 91000001; write_failed = false }
    ∷ []

run-OnTime_example : OnTime 0 0 (run 0 0 late (new_pump 2)).frames
run-OnTime_example = run-OnTime 0 0 late (new_pump 2)

abbrev instants : List (ℕ × ℕ)
instants = (0, 1) ∷ (20000000, 20000001) ∷ []

run-Spoken_example :
    Spoken 2 (1 ∷ 2 ∷ 3 ∷ []) 7 (run 0 0 (rounds instants) (pumping 2 (1 ∷ 2 ∷ 3 ∷ []) (some 7)))
run-Spoken_example = run-Spoken 0 0 2 7 1 (2 ∷ 3 ∷ []) instants (omega arith) (omega arith)
