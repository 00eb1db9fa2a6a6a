-- ===== src/Bus/Fleet.antt =====
-- cmd/worker/main.go: the loop of a worker of the fleet over the batches that it polls. What
-- `worker.Run` returned for a job, whether the batch's time was over by then, and the answers of the
-- broker are arguments; a round has the order in which its goroutines finish. Flags, logs and
-- telemetry are left out, and of a call its events.
pub mod Answers
use callstorm.Prelude.{
  ℕ, suc, ℤ, String, str_eq, Bool, true, false, not, ◌&&◌, ◌||◌, Option, none, some, List, [], ◌∷◌,
  if◌then◌else◌, Result, ok, err,
}
use callstorm.Metrics.Turn.{TurnMetric}
use callstorm.Bus.Worker.{
  Error, Assignment, CallResult, Job, Worker, Fetch, new_worker, next, commit_batch,
}
use callstorm.Bus.Worker as Worker

-- What `worker.Run` returned of a call.
pub record CallOutput : Type 0 where
  pub request_id : String
  pub turns : List TurnMetric
  pub clock_zero : Option ℕ
  pub ended_at : Option ℕ

unfoldable pub some_failed : List TurnMetric → Bool
some_failed [] = false
some_failed (t ∷ ts) = t.failed || some_failed ts

abbrev pub has_turns : List TurnMetric → Bool
has_turns [] = false
has_turns (t ∷ ts) = true

-- `complete`, of a result.
unfoldable pub is_complete : CallResult → Bool
unfolding some_failed
is_complete res = str_eq res.err "" && (not (some_failed res.turns) && has_turns res.turns)

abbrev pub result_for : Assignment → CallResult
result_for a = record {
  run = a.run;
  step = a.step;
  seq = a.seq;
  worker = "";
  request_id = "";
  clock_zero = none;
  ended_at = none;
  turns = [];
  err = "";
}

-- `place`.
unfoldable pub place : Assignment → Result String CallOutput → CallResult
place a (err why) = record (result_for a) { err = why }
place a (ok out) = record (result_for a) {
  request_id = out.request_id;
  turns = out.turns;
  clock_zero = out.clock_zero;
  ended_at = out.ended_at;
}

-- What happens to a job.
pub record Ending : Type 0 where
  pub called : Result String CallOutput
  pub expired : Bool
  pub encode_ok : Bool
  pub publish_ok : Bool

pub record Tally : Type 0 where
  pub placed : ℕ
  pub failures : ℕ
  pub abandoned : ℕ

pub record Fleet : Type 0 where
  pub worker : Worker
  pub tally : Tally

abbrev pub new_fleet : String → Fleet
new_fleet name = record {
  worker = new_worker name;
  tally = record { placed = 0; failures = 0; abandoned = 0 };
}

-- A call that the end of the batch's time cut off.
unfoldable pub is_abandoned : Assignment → Ending → Bool
unfolding place is_complete
is_abandoned a e = e.expired && not (is_complete (place a e.called))

abbrev pub count_placed : CallResult → Tally → Tally
count_placed res t = record t {
  failures = if str_eq res.err "" then t.failures else suc t.failures;
  placed = suc t.placed;
}

-- The goroutine of a job.
unfoldable pub work_job : Job → Ending → Fleet → Fleet
unfolding is_abandoned
work_job job e f =
    let res = place job.assignment e.called in
    if is_abandoned job.assignment e
    then record f { tally = record f.tally { abandoned = suc f.tally.abandoned } }
    else record f {
      worker = (Worker.complete f.worker res job e.encode_ok e.publish_ok).0;
      tally = count_placed res f.tally;
    }

-- The goroutines of a batch, in the order in which they finish.
unfoldable pub work_jobs : (Job → Ending) → List Job → Fleet → Fleet
unfolding work_job
work_jobs ending [] f = f
work_jobs ending (j ∷ js) f = work_jobs ending js (work_job j (ending j) f)

-- A round of the loop: whether the worker is told to stop before it, what the poll answers, what
-- happens to each job, in which order they finish, and whether the commit is accepted.
pub record Round {ℓ} (V : Type ℓ) : Type ℓ where
  pub stopping : Bool
  pub answer : Fetch V
  pub ending : Job → Ending
  pub order : List Job → List Job
  pub commit_ok : Bool

pub data Served : Type 0 where
  serving stopped : Served
  not_polled not_committed : Error → Served

abbrev pub after_commit : Tally → Worker × Option Error → Served × Fleet
after_commit t (w, none) = (serving, record { worker = w; tally = t })
after_commit t (w, some e) = (not_committed e, record { worker = w; tally = t })

abbrev pub with_tally : Tally → Worker → Fleet
with_tally t w = record { worker = w; tally = t }

unfoldable pub work_batch :
    (Job → Ending) → (List Job → List Job) → Bool → List Job → Fleet → Served × Fleet
unfolding work_jobs
work_batch ending order commit_ok [] f = (serving, f)
work_batch ending order commit_ok (j ∷ js) f =
    let g = work_jobs ending (order (j ∷ js)) f in
    after_commit g.tally (commit_batch g.worker commit_ok)

module _ {ℓ} {V : Type ℓ} (decode : V → Option Assignment) (slots : ℤ) where
  abbrev pub after_next : Round V → Tally → Worker × Option Error × List Job → Served × Fleet
  after_next r t (w, some e, js) = (not_polled e, with_tally t w)
  after_next r t (w, none, js) = work_batch r.ending r.order r.commit_ok js (with_tally t w)

  unfoldable pub work_round : Round V → Fleet → Served × Fleet
  unfolding work_batch
  work_round r f =
      if r.stopping
      then (stopped, f)
      else after_next r f.tally (next decode f.worker slots r.answer)

  -- What a round led to, and the rest of the loop from there.
  abbrev pub or_go_on : Served × Fleet → (Fleet → Served × Fleet) → Served × Fleet
  or_go_on (serving, f) more = more f
  or_go_on (stopped, f) more = (stopped, f)
  or_go_on (not_polled e, f) more = (not_polled e, f)
  or_go_on (not_committed e, f) more = (not_committed e, f)

  -- The loop of `main`.
  unfoldable pub serve : List (Round V) → Fleet → Served × Fleet
  unfolding work_round
  serve [] f = (serving, f)
  serve (r ∷ rs) f = or_go_on (work_round r f) (λ (g : Fleet). serve rs g)
