-- ===== src/Bus/Worker.antt =====
-- internal/bus/dispatch.go, `Worker`: bounded batches with manual commits.
--
-- A broker record is a pointer in the source and a number here; `pending` is the map from records
-- to their done flag. What the broker answers is an argument of each operation. `published` and
-- `committed` are what the broker holds: the results topic with the record each result was
-- completed for, and the records whose offsets were committed. `rebalance` says whether
-- `AllowRebalance` was called since the last poll. JSON decoding is the argument `decode`,
-- encoding cannot fail on these types unless `encode_ok` says so.
pub mod Commit
pub mod Trace
pub mod Jobs
use callstorm.Prelude.{
  ℕ, ℤ, pos, ltb_ℤ, String, Bool, true, false, ◌&&◌, Option, none, some, List, [], ◌∷◌, ◌++◌, map,
  ◌==◌, if◌then◌else◌,
}
use callstorm.Metrics.Turn.{TurnMetric}

pub data Error : Type 0 where
  slots_not_positive previous_batch cancelled deadline fetch_failed : Error
  decode_failed : ℕ → Error
  encode_failed publish_failed not_in_batch unfinished commit_failed : Error

pub record Assignment : Type 0 where
  pub run : String
  pub step : String
  pub seq : ℕ
  pub target_url : String
  pub sample_rate : ℕ
  pub turn_timeout_ms : ℕ

pub record CallResult : Type 0 where
  pub run : String
  pub step : String
  pub seq : ℕ
  pub worker : String
  pub request_id : String
  pub clock_zero : Option ℕ
  pub ended_at : Option ℕ
  pub turns : List TurnMetric
  pub err : String

pub record Job : Type 0 where
  pub assignment : Assignment
  pub rec : Option ℕ

pub record Worker : Type 0 where
  pub name : String
  pub pending : List (ℕ × Bool)
  pub batch_err : Option Error
  pub published : List (CallResult × Option ℕ)
  pub committed : List ℕ
  pub rebalance : Bool

abbrev pub new_worker : String → Worker
new_worker name = record {
  name = name;
  pending = [];
  batch_err = none;
  published = [];
  committed = [];
  rebalance = false;
}

-- The map `pending`.
pub is_pending : ℕ → List (ℕ × Bool) → Bool
is_pending r [] = false
is_pending r ((k, d) ∷ m) = if k == r then true else is_pending r m

pub put_pending : ℕ → Bool → List (ℕ × Bool) → List (ℕ × Bool)
put_pending r v [] = (r, v) ∷ []
put_pending r v ((k, d) ∷ m) = if k == r then (k, v) ∷ m else (k, d) ∷ put_pending r v m

pub all_done : List (ℕ × Bool) → Bool
all_done [] = true
all_done ((k, d) ∷ m) = d && all_done m

abbrev pub key : ℕ × Bool → ℕ
key (k, d) = k

-- What `PollRecords` returned: an error, or records with their payload.
pub data Fetch {ℓ} (V : Type ℓ) : Type ℓ where
  fetch_err : Error → Fetch V
  records : List (ℕ × V) → Fetch V

-- The callback of `EachRecord`: the jobs so far, the map and the last decoding error.
pub record Batch : Type 0 where
  pub jobs : List Job
  pub pend : List (ℕ × Bool)
  pub decode_err : Option Error

take_record : ℕ → Option Assignment → Batch → Batch
unfolding put_pending
take_record r none b = record b { decode_err = some (decode_failed r) }
take_record r (some a) b = record b {
  jobs = b.jobs ++ (record { assignment = a; rec = some r } ∷ []);
  pend = put_pending r false b.pend;
}

-- After the loop: fail closed on a decoding error, let go of an empty batch.
finish_next : Worker → Batch → Worker × Option Error × List Job
finish_next w b = elim (b.decode_err) [
  | some e ↦ (record w { pending = b.pend; batch_err = some e }, some e, [])
  | none ↦ elim (b.jobs) [
    | [] ↦ (record w { pending = b.pend; rebalance = true }, none, [])
    | j ∷ js ↦ (record w { pending = b.pend }, none, j ∷ js)
  ]
]

module _ {ℓ} {V : Type ℓ} (decode : V → Option Assignment) where
  each_record : List (ℕ × V) → Batch → Batch
  unfolding take_record
  each_record [] b = b
  each_record ((r, v) ∷ rs) b = each_record rs (take_record r (decode v) b)

  fetched : Worker → Fetch V → Worker × Option Error × List Job
  unfolding each_record finish_next
  fetched w (fetch_err cancelled) = (w, none, [])
  fetched w (fetch_err deadline) = (w, none, [])
  fetched w (fetch_err e) = (w, some e, [])
  fetched w (records rs) =
      finish_next w (each_record rs (record { jobs = []; pend = w.pending; decode_err = none }))

  poll : Worker → List (ℕ × Bool) → Fetch V → Worker × Option Error × List Job
  unfolding fetched
  poll w [] answer = fetched (record w { rebalance = false }) answer
  poll w (p ∷ ps) answer = (w, some previous_batch, [])

  -- `Next`. Polling blocks rebalancing until it is allowed again.
  unfoldable pub next : Worker → ℤ → Fetch V → Worker × Option Error × List Job
  unfolding poll
  next w slots answer =
      if ltb_ℤ slots (pos 1) then (w, some slots_not_positive, []) else poll w w.pending answer

mark_done : Worker → Option ℕ → Worker × Option Error
unfolding is_pending put_pending
mark_done w none = (w, none)
mark_done w (some r) =
    if is_pending r w.pending
    then (record w { pending = put_pending r true w.pending }, none)
    else (w, some not_in_batch)

-- `Complete`: publish, and only then mark the record.
unfoldable pub complete : Worker → CallResult → Job → Bool → Bool → Worker × Option Error
unfolding mark_done
complete w res job encode_ok publish_ok =
    if encode_ok
    then (if publish_ok
        then mark_done
            (record w {
              published = w.published ++ ((record res { worker = w.name }, job.rec) ∷ []);
            })
            job.rec
        else (w, some publish_failed))
    else (w, some encode_failed)

release : Worker → Worker
release w = record w { pending = []; rebalance = true }

commit_records : Worker → List (ℕ × Bool) → Bool → Worker × Option Error
unfolding release
commit_records w [] ok = (release w, none)
commit_records w (p ∷ ps) ok =
    if ok
    then (release (record w { committed = w.committed ++ map key (p ∷ ps) }), none)
    else (w, some commit_failed)

unless_failed : Option Error → Worker → Bool → Worker × Option Error
unfolding all_done commit_records
unless_failed (some e) w ok = (w, some e)
unless_failed none w ok =
    if all_done w.pending then commit_records w w.pending ok else (w, some unfinished)

-- `CommitBatch`.
unfoldable pub commit_batch : Worker → Bool → Worker × Option Error
unfolding unless_failed
commit_batch w ok = unless_failed w.batch_err w ok
