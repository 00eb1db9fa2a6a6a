-- ===== src/Bus/Worker/Jobs.antt =====
-- What the operations of internal/bus/dispatch.go, `Worker`, hand out and publish.
use callstorm.Prelude.{
  ℕ, ℤ, pos, ltb_ℤ, Bool, true, false, ◌≡◌, refl, inl, inr, Option, none, some, List, [], ◌∷◌,
  String, if_intro, All, All-append, Any,
}
use callstorm.Bus.Worker.{
  Error, CallResult, Job, Worker, Fetch, Assignment, Batch, fetch_err, records, cancelled, deadline,
  is_pending, take_record, each_record, finish_next, fetched, poll, next, mark_done, complete,
  commit_records, unless_failed, commit_batch, all_done,
}

-- A name and published results.
pub record Keeps (name : String) (Q : CallResult × Option ℕ → Type 0) (w : Worker) : Type 0 where
  pub named : w.name ≡ name
  pub published : All Q w.published

module _ {ℓ} {V : Type ℓ} (decode : V → Option Assignment) where
  -- A job was read from one of the records of a poll.
  abbrev pub IsRead : Fetch V → Job → Type 0
  IsRead (fetch_err e) j = ⊥
  IsRead (records rs) j =
      Any (λ (p : ℕ × V). (j.rec ≡ some p.0) × (decode p.1 ≡ some j.assignment)) rs

  take_record-All :
      (Q : Job → Type 0) (r : ℕ) (v : V) (o : Option Assignment) (b : Batch)
      → decode v ≡ o
      → ((j : Job) → j.rec ≡ some r → decode v ≡ some j.assignment → Q j)
      → All Q b.jobs
      → All Q (take_record r o b).jobs
  unfolding take_record
  take_record-All Q r v none b e f h = h
  take_record-All Q r v (some a) b e f h =
      All-append Q b.jobs (record { assignment = a; rec = some r } ∷ []) h (f _ refl e, tt)

  each_record-All :
      (Q : Job → Type 0) (rs : List (ℕ × V)) (b : Batch)
      → ((j : Job) → IsRead (records rs) j → Q j)
      → All Q b.jobs
      → All Q (each_record decode rs b).jobs
  unfolding each_record
  each_record-All Q [] b f h = h
  each_record-All Q ((r, v) ∷ rs) b f h =
      each_record-All Q rs (take_record r (decode v) b) (λ j i. f j (inr i))
        (take_record-All Q r v (decode v) b refl (λ j e d. f j (inl (e, d))) h)

  -- What a poll leaves: the jobs it hands out, and a worker that keeps what it kept.
  abbrev Polled : (Job → Type 0) → Worker → Worker × Option Error × List Job → Type 0
  Polled Q w (v, e, js) = (v.name ≡ w.name) × (v.published ≡ w.published) × All Q js

  finish_next-Polled :
      (Q : Job → Type 0) (w : Worker) (b : Batch) → All Q b.jobs → Polled Q w (finish_next w b)
  unfolding finish_next
  finish_next-Polled Q w b h = go b.decode_err b.jobs refl refl h
    where
      go :
          (o : Option Error) (js : List Job)
          → b.decode_err ≡ o
          → b.jobs ≡ js
          → All Q js
          → Polled Q w (finish_next w b)
      go (some e) js p q i = rw p (refl, refl, tt)
      go none [] p q i = rw (p, q) (refl, refl, tt)
      go none (j ∷ js) p q i = rw (p, q) (refl, refl, i)

  fetched-Polled :
      (w : Worker) (answer : Fetch V) → Polled (IsRead answer) w (fetched decode w answer)
  unfolding fetched
  fetched-Polled w (fetch_err cancelled) = (refl, refl, tt)
  fetched-Polled w (fetch_err deadline) = (refl, refl, tt)
  fetched-Polled w (fetch_err _) = (refl, refl, tt)
  fetched-Polled w (records rs) =
      let begun : Batch = record { jobs = []; pend = w.pending; decode_err = none } in
      finish_next-Polled (IsRead (records rs)) w (each_record decode rs begun)
        (each_record-All (IsRead (records rs)) rs begun (λ j i. i) tt)

  poll-Polled :
      (w : Worker) (m : List (ℕ × Bool)) (answer : Fetch V)
      → Polled (IsRead answer) w (poll decode w m answer)
  unfolding poll
  poll-Polled w [] answer = fetched-Polled (record w { rebalance = false }) answer
  poll-Polled w (p ∷ ps) answer = (refl, refl, tt)

  pub next-Polled :
      (w : Worker) (slots : ℤ) (answer : Fetch V)
      → ((next decode w slots answer).0.name ≡ w.name)
        × ((next decode w slots answer).0.published ≡ w.published)
        × All (IsRead answer) (next decode w slots answer).2
  unfolding next
  next-Polled w slots answer =
      if_intro (Polled (IsRead answer) w) (ltb_ℤ slots (pos 1)) _ _ (λ _. (refl, refl, tt))
        (λ _. poll-Polled w w.pending answer)

module _ (name : String) (Q : CallResult × Option ℕ → Type 0) where
  mark_done-Keeps : (w : Worker) (o : Option ℕ) → Keeps name Q w → Keeps name Q (mark_done w o).0
  unfolding mark_done
  mark_done-Keeps w none k = k
  mark_done-Keeps w (some r) k =
      if_intro (λ (x : Worker × Option Error). Keeps name Q x.0) (is_pending r w.pending) _ _
        (λ _. record { named = k.named; published = k.published }) (λ _. k)

  pub complete-Keeps :
      (w : Worker) (res : CallResult) (job : Job) (encode_ok publish_ok : Bool)
      → Keeps name Q w
      → Q (record res { worker = w.name }, job.rec)
      → Keeps name Q (complete w res job encode_ok publish_ok).0
  unfolding complete
  complete-Keeps w res job false p k q = k
  complete-Keeps w res job true false k q = k
  complete-Keeps w res job true true k q =
      mark_done-Keeps _ job.rec
        (record { named = k.named; published = All-append Q w.published _ k.published (q, tt) })

  commit_records-Keeps :
      (w : Worker) (m : List (ℕ × Bool)) (ok : Bool)
      → Keeps name Q w
      → Keeps name Q (commit_records w m ok).0
  unfolding commit_records
  commit_records-Keeps w [] ok k = record { named = k.named; published = k.published }
  commit_records-Keeps w (p ∷ ps) true k = record { named = k.named; published = k.published }
  commit_records-Keeps w (p ∷ ps) false k = k

  unless_failed-Keeps :
      (o : Option Error) (w : Worker) (ok : Bool)
      → Keeps name Q w
      → Keeps name Q (unless_failed o w ok).0
  unfolding unless_failed
  unless_failed-Keeps (some e) w ok k = k
  unless_failed-Keeps none w ok k =
      if_intro (λ (x : Worker × Option Error). Keeps name Q x.0) (all_done w.pending) _ _
        (λ _. commit_records-Keeps w w.pending ok k) (λ _. k)

  pub commit_batch-Keeps :
      (w : Worker) (ok : Bool) → Keeps name Q w → Keeps name Q (commit_batch w ok).0
  unfolding commit_batch
  commit_batch-Keeps w ok k = unless_failed-Keeps w.batch_err w ok k
