-- ===== src/Tests/Bus.antt =====
-- A worker's batch, committed and refused.
use callstorm.Prelude.{
  ℕ, zero, pos, ◌≡◌, ◌≢◌, refl, inl, inr, true, Option, none, some, List, [], ◌∷◌, All,
}
use callstorm.Bus.Worker.{
  Assignment, CallResult, Worker, Fetch, records, new_worker, next, complete, commit_batch,
}
use callstorm.Bus.Worker.Commit.{Published}
use callstorm.Bus.Worker.Trace.{
  Call, call_next, call_complete, call_commit, run, apply, committed_has_result,
  Unreadable-never_committed,
}

abbrev pub first_call : Assignment
first_call = record {
  run = "r1";
  step = "base";
  seq = 0;
  target_url = "";
  sample_rate = 24000;
  turn_timeout_ms = 20000;
}

-- Payload 0 is the first call, and any other payload is unreadable.
abbrev pub decode : ℕ → Option Assignment
decode zero = some first_call
decode _ = none

abbrev answer : CallResult
answer = record {
  run = "r1";
  step = "base";
  seq = 0;
  worker = "";
  request_id = "q";
  clock_zero = none;
  ended_at = none;
  turns = [];
  err = "";
}

abbrev batch : List (Call ℕ)
batch =
    call_next (pos 2) (records ((7, 0) ∷ []))
    ∷ call_complete answer (record { assignment = first_call; rec = some 7 }) true true
    ∷ call_commit true
    ∷ []

batch_commits : (run decode (new_worker "w") batch).committed ≡ 7 ∷ []
unfolding run apply next complete commit_batch
batch_commits = refl

committed_has_result_example :
    All
      (Published (run decode (new_worker "w") batch).published)
      (run decode (new_worker "w") batch).committed
committed_has_result_example = committed_has_result decode "w" batch

abbrev with_unreadable : Fetch ℕ
with_unreadable = records ((7, 0) ∷ (8, 1) ∷ [])

abbrev refused : Worker
refused = (next decode (new_worker "w") (pos 2) with_unreadable).0

Unreadable-never_committed_example :
    ((next decode (new_worker "w") (pos 2) with_unreadable).1 ≢ none)
    × ((run decode refused batch).committed ≡ [])
Unreadable-never_committed_example =
    Unreadable-never_committed decode (new_worker "w") (pos 2) ((7, 0) ∷ (8, 1) ∷ []) batch refl
      refl (inr (inl refl))
