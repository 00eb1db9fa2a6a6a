-- ===== src/Bus/Worker/Trace.antt =====
-- Every sequence of `Next`, `Complete` and `CommitBatch` calls, with any answers of the broker.
use callstorm.Prelude.{
  ℕ, ℤ, Bool, true, false, ◌≡◌, ◌≢◌, ◌⊎◌, inl, inr, refl, Any, Option, none, some, List, [], ◌∷◌,
  String, All, if_intro, ltb_ℤ, pos,
}
use mathlib.Core.Option.{IsSome}
use callstorm.Bus.Worker.{
  Error, CallResult, Job, Worker, Fetch, Assignment, Batch, new_worker, next, complete,
  commit_batch, mark_done, unless_failed, is_pending, take_record, each_record, fetch_err, records,
  cancelled, deadline, poll, fetched, finish_next,
}
use callstorm.Bus.Worker.Commit.{
  Published, IsSafe, next-IsSafe, complete-IsSafe, commit_batch-IsSafe,
}

-- One call on the worker, with what the broker and the encoder answered.
pub data Call {ℓ} (V : Type ℓ) : Type ℓ where
  call_next : ℤ → Fetch V → Call V
  call_complete : CallResult → Job → Bool → Bool → Call V
  call_commit : Bool → Call V

module _ {ℓ} {V : Type ℓ} (decode : V → Option Assignment) where
  unfoldable pub apply : Worker → Call V → Worker
  apply w (call_next slots answer) = (next decode w slots answer).0
  apply w (call_complete res job encode_ok publish_ok) = (complete w res job encode_ok publish_ok).0
  apply w (call_commit ok) = (commit_batch w ok).0

  unfoldable pub run : Worker → List (Call V) → Worker
  run w [] = w
  run w (c ∷ cs) = run (apply w c) cs

  apply-IsSafe : (w : Worker) (c : Call V) → IsSafe w → IsSafe (apply w c)
  unfolding apply
  apply-IsSafe w (call_next slots answer) s = next-IsSafe decode w slots answer s
  apply-IsSafe w (call_complete res job e p) s = complete-IsSafe w res job e p s
  apply-IsSafe w (call_commit ok) s = commit_batch-IsSafe w ok s

  run-IsSafe : (w : Worker) (cs : List (Call V)) → IsSafe w → IsSafe (run w cs)
  unfolding run
  run-IsSafe w [] s = s
  run-IsSafe w (c ∷ cs) s = run-IsSafe (apply w c) cs (apply-IsSafe w c s)

  -- After any calls on a new worker, with any answers of the broker, every committed record has a
  -- result on the results topic that was completed for it.
  pub committed_has_result :
      (name : String) (cs : List (Call V))
      → All (Published (run (new_worker name) cs).published) (run (new_worker name) cs).committed
  committed_has_result name cs =
      let s =
        run-IsSafe (new_worker name) cs
          (record { done_published = tt; committed_published = tt }) in
      s.committed_published

-- `w` met a decoding error, and has committed `done`.
record IsClosed (done : List ℕ) (w : Worker) : Type 0 where
  failed : IsSome w.batch_err
  kept : w.committed ≡ done

finish_next-IsClosed :
    (done : List ℕ) (w : Worker) (b : Batch) → IsClosed done w → IsClosed done (finish_next w b).0
unfolding finish_next
finish_next-IsClosed done w b c = go b.decode_err b.jobs refl refl
  where
    go :
        (o : Option Error) (js : List Job)
        → b.decode_err ≡ o
        → b.jobs ≡ js
        → IsClosed done (finish_next w b).0
    go (some e) js p q = rw p (record { failed = tt; kept = c.kept })
    go none [] p q = rw (p, q) (record { failed = c.failed; kept = c.kept })
    go none (j ∷ js) p q = rw (p, q) (record { failed = c.failed; kept = c.kept })

mark_done-IsClosed :
    (done : List ℕ) (w : Worker) (o : Option ℕ) → IsClosed done w → IsClosed done (mark_done w o).0
unfolding mark_done
mark_done-IsClosed done w none c = c
mark_done-IsClosed done w (some r) c =
    if_intro (λ (x : Worker × Option Error). IsClosed done x.0) (is_pending r w.pending) _ _
      (λ _. record { failed = c.failed; kept = c.kept }) (λ _. c)

complete-IsClosed :
    (done : List ℕ) (w : Worker) (res : CallResult) (job : Job) (encode_ok publish_ok : Bool)
    → IsClosed done w
    → IsClosed done (complete w res job encode_ok publish_ok).0
unfolding complete
complete-IsClosed done w res job false p c = c
complete-IsClosed done w res job true false c = c
complete-IsClosed done w res job true true c =
    mark_done-IsClosed done _ job.rec (record { failed = c.failed; kept = c.kept })

unless_failed-IsClosed :
    (done : List ℕ) (w : Worker) (o : Option Error) (ok : Bool)
    → IsSome o
    → IsClosed done w
    → IsClosed done (unless_failed o w ok).0
unfolding unless_failed
unless_failed-IsClosed done w (some e) ok h c = c
unless_failed-IsClosed done w none ok h c = absurd h

module _ {ℓ} {V : Type ℓ} (decode : V → Option Assignment) (done : List ℕ) where
  fetched-IsClosed :
      (w : Worker) (answer : Fetch V) → IsClosed done w → IsClosed done (fetched decode w answer).0
  unfolding fetched
  fetched-IsClosed w (fetch_err cancelled) c = c
  fetched-IsClosed w (fetch_err deadline) c = c
  fetched-IsClosed w (fetch_err _) c = c
  fetched-IsClosed w (records rs) c = finish_next-IsClosed done w _ c

  poll-IsClosed :
      (w : Worker) (m : List (ℕ × Bool)) (answer : Fetch V)
      → IsClosed done w
      → IsClosed done (poll decode w m answer).0
  unfolding poll
  poll-IsClosed w [] answer c =
      fetched-IsClosed (record w { rebalance = false }) answer
        (record { failed = c.failed; kept = c.kept })
  poll-IsClosed w (p ∷ m) answer c = c

  apply-IsClosed : (w : Worker) (c : Call V) → IsClosed done w → IsClosed done (apply decode w c)
  unfolding apply next commit_batch
  apply-IsClosed w (call_next slots answer) c =
      if_intro (λ (r : Worker × Option Error × List Job). IsClosed done r.0) (ltb_ℤ slots (pos 1)) _
        _ (λ _. c) (λ _. poll-IsClosed w w.pending answer c)
  apply-IsClosed w (call_complete res job e p) c = complete-IsClosed done w res job e p c
  apply-IsClosed w (call_commit ok) c = unless_failed-IsClosed done w w.batch_err ok c.failed c

  run-IsClosed :
      (w : Worker) (cs : List (Call V)) → IsClosed done w → IsClosed done (run decode w cs)
  unfolding run
  run-IsClosed w [] c = c
  run-IsClosed w (x ∷ cs) c = run-IsClosed (apply decode w x) cs (apply-IsClosed w x c)

module _ {ℓ} {V : Type ℓ} (decode : V → Option Assignment) where
  abbrev pub Unreadable : ℕ × V → Type 0
  Unreadable p = decode p.1 ≡ none

  take_record-IsSome :
      (r : ℕ) (o : Option Assignment) (b : Batch)
      → IsSome b.decode_err
      → IsSome (take_record r o b).decode_err
  unfolding take_record
  take_record-IsSome r none b h = tt
  take_record-IsSome r (some a) b h = h

  each_record-IsSome :
      (rs : List (ℕ × V)) (b : Batch)
      → IsSome b.decode_err ⊎ Any Unreadable rs
      → IsSome (each_record decode rs b).decode_err
  unfolding each_record
  each_record-IsSome [] b (inl h) = h
  each_record-IsSome [] b (inr h) = absurd h
  each_record-IsSome ((r, v) ∷ rs) b (inl h) =
      each_record-IsSome rs _ (inl (take_record-IsSome r (decode v) b h))
  each_record-IsSome ((r, v) ∷ rs) b (inr (inl e)) =
      each_record-IsSome rs _ (inl (rw e (unfold take_record in tt)))
  each_record-IsSome ((r, v) ∷ rs) b (inr (inr h)) = each_record-IsSome rs _ (inr h)

  finish_next_failed :
      (w : Worker) (b : Batch) (o : Option Error)
      → b.decode_err ≡ o
      → IsSome o
      → IsClosed w.committed (finish_next w b).0 × ((finish_next w b).1 ≢ none)
  unfolding finish_next
  finish_next_failed w b (some e) p h = rw p (record { failed = tt; kept = refl }, λ q. cc)
  finish_next_failed w b none p h = absurd h

  poll_failed :
      (w : Worker) (m : List (ℕ × Bool)) (rs : List (ℕ × V))
      → m ≡ []
      → Any Unreadable rs
      → IsClosed w.committed (poll decode w m (records rs)).0
        × ((poll decode w m (records rs)).1 ≢ none)
  unfolding poll fetched
  poll_failed w [] rs p bad =
      finish_next_failed (record w { rebalance = false }) _ _ refl
        (each_record-IsSome rs _ (inr bad))
  poll_failed w (q ∷ m) rs p bad = cc

  next_open :
      (w : Worker) (slots : ℤ) (answer : Fetch V)
      → ltb_ℤ slots (pos 1) ≡ false
      → next decode w slots answer ≡ poll decode w w.pending answer
  unfolding next
  next_open w slots answer e = rw e

  -- A batch polled with free slots and no batch outstanding that holds an unreadable assignment is
  -- refused with an error, and nothing is ever committed afterwards, whatever calls follow.
  pub Unreadable-never_committed :
      (w : Worker) (slots : ℤ) (rs : List (ℕ × V)) (cs : List (Call V))
      → w.pending ≡ []
      → ltb_ℤ slots (pos 1) ≡ false
      → Any Unreadable rs
      → ((next decode w slots (records rs)).1 ≢ none)
        × ((run decode (next decode w slots (records rs)).0 cs).committed ≡ w.committed)
  Unreadable-never_committed w slots rs cs p q bad =
      let (c, e) = poll_failed w w.pending rs p bad in
      rw (next_open w slots (records rs) q)
        (e, (run-IsClosed decode w.committed (poll decode w w.pending (records rs)).0 cs c).kept)
