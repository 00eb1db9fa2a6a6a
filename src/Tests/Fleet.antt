-- ===== src/Tests/Fleet.antt =====
-- A worker of the fleet: a batch that is committed, and one that its end cuts off.
use callstorm.Prelude.{ℕ, ◌≡◌, refl, pos, true, false, none, List, [], ◌∷◌, ok, err}
use callstorm.Metrics.Turn.{zero_metric}
use callstorm.Bus.Worker.{records, next, commit_batch, complete}
use callstorm.Bus.Fleet.{CallOutput, Ending, Round, new_fleet, serve}
use callstorm.Tests.Bus.{decode}

abbrev a_call : CallOutput
a_call = record { request_id = "q"; turns = zero_metric ∷ []; clock_zero = none; ended_at = none }

abbrev finished : Ending
finished = record { called = ok a_call; expired = true; encode_ok = true; publish_ok = true }

abbrev cut_off : Ending
cut_off = record { called = err "cancelled"; expired = true; encode_ok = true; publish_ok = true }

abbrev round : ℕ → Ending → Round ℕ
round rec ending = record {
  stopping = false;
  answer = records ((rec, 0) ∷ []);
  ending = λ j. ending;
  order = λ js. js;
  commit_ok = true;
}

abbrev rounds : List (Round ℕ)
rounds = round 7 finished ∷ round 8 cut_off ∷ round 9 finished ∷ []

-- The batch that was cut off ends the loop.
serve_rounds : (serve decode (pos 2) rounds (new_fleet "w")).1.worker.committed ≡ 7 ∷ []
unfolding serve next commit_batch complete
serve_rounds = refl
