-- ===== src/Bus/Worker/Commit.antt =====
-- What the commits of internal/bus/dispatch.go mean: no offset crosses an unfinished record.
use callstorm.Prelude.{
  ℕ, ℤ, Bool, true, false, ◌≡◌, inl, inr, refl, Option, none, some, List, [], ◌∷◌, ◌++◌, map, arith,
  ◌==◌, Bool-cases, if_intro, pos, ltb_ℤ, All, All-append, All-map, Any, Any-append_left,
  Any-append_right, and-split,
}
use callstorm.Bus.Worker.{
  Error, CallResult, Job, Worker, Fetch, Assignment, key, is_pending, put_pending, all_done, next,
  Batch, each_record, finish_next, fetched, take_record, poll, mark_done, commit_records,
  unless_failed, cancelled, deadline, fetch_err, records, complete, commit_batch,
}

-- Some published result was completed for record `r`.
abbrev pub Published : List (CallResult × Option ℕ) → ℕ → Type 0
Published ps r = Any (λ (p : CallResult × Option ℕ). p.1 ≡ some r) ps

abbrev pub Backed : List (CallResult × Option ℕ) → ℕ × Bool → Type 0
Backed ps kd = kd.1 ≡ true → Published ps kd.0

-- A record marked done, and a committed record, has a published result.
pub record IsSafe (w : Worker) : Type 0 where
  pub done_published : All (Backed w.published) w.pending
  pub committed_published : All (Published w.published) w.committed

module _ (ps : List (CallResult × Option ℕ)) where
  Backed-put :
      (r : ℕ) (v : Bool) (m : List (ℕ × Bool))
      → All (Backed ps) m
      → (v ≡ true → Published ps r)
      → All (Backed ps) (put_pending r v m)
  unfolding put_pending
  Backed-put r v [] h p = (p, tt)
  Backed-put r v ((k, d) ∷ m) h p = elim (Bool-cases (k == r)) [
    | inl e ↦ rw e ((λ t. let k≡r : k ≡ r = ground arith in rw k≡r (p t)), h.1)
    | inr e ↦ rw e (h.0, Backed-put r v m h.1 p)
  ]

  Published-keys :
      (m : List (ℕ × Bool)) → All (Backed ps) m → all_done m ≡ true → All (Published ps) (map key m)
  unfolding all_done
  Published-keys [] h d = tt
  Published-keys ((k, v) ∷ m) h d =
      let (now, later) = and-split v (all_done m) d in (h.0 now, Published-keys m h.1 later)

  Backed-take_record :
      (r : ℕ) (o : Option Assignment) (b : Batch)
      → All (Backed ps) b.pend
      → All (Backed ps) (take_record r o b).pend
  unfolding take_record
  Backed-take_record r none b h = h
  Backed-take_record r (some a) b h = Backed-put r false b.pend h (λ f. cc)

  Backed-each_record {ℓ} :
      {V : Type ℓ} (decode : V → Option Assignment) (rs : List (ℕ × V)) (b : Batch)
      → All (Backed ps) b.pend
      → All (Backed ps) (each_record decode rs b).pend
  unfolding each_record
  Backed-each_record decode [] b h = h
  Backed-each_record decode ((r, v) ∷ rs) b h =
      Backed-each_record decode rs (take_record r (decode v) b)
        (Backed-take_record r (decode v) b h)

finish_next-IsSafe :
    (w : Worker) (b : Batch)
    → All (Backed w.published) b.pend
    → All (Published w.published) w.committed
    → IsSafe (finish_next w b).0
unfolding finish_next
finish_next-IsSafe w b h c = go b.decode_err b.jobs refl refl
  where
    go :
        (o : Option Error) (js : List Job)
        → b.decode_err ≡ o
        → b.jobs ≡ js
        → IsSafe (finish_next w b).0
    go (some e) js p q = rw p (record { done_published = h; committed_published = c })
    go none [] p q = rw (p, q) (record { done_published = h; committed_published = c })
    go none (j ∷ js) p q = rw (p, q) (record { done_published = h; committed_published = c })

fetched-IsSafe {ℓ} :
    {V : Type ℓ} (decode : V → Option Assignment) (w : Worker) (answer : Fetch V)
    → IsSafe w
    → IsSafe (fetched decode w answer).0
unfolding fetched
fetched-IsSafe decode w (fetch_err cancelled) s = s
fetched-IsSafe decode w (fetch_err deadline) s = s
fetched-IsSafe decode w (fetch_err _) s = s
fetched-IsSafe decode w (records rs) s =
    finish_next-IsSafe w
      (each_record decode rs (record { jobs = []; pend = w.pending; decode_err = none }))
      (Backed-each_record w.published decode rs
        (record { jobs = []; pend = w.pending; decode_err = none }) s.done_published)
      s.committed_published

poll-IsSafe {ℓ} :
    {V : Type ℓ} (decode : V → Option Assignment) (w : Worker) (m : List (ℕ × Bool))
    (answer : Fetch V)
    → IsSafe w
    → IsSafe (poll decode w m answer).0
unfolding poll
poll-IsSafe decode w [] answer s =
    fetched-IsSafe decode (record w { rebalance = false }) answer
      (record { done_published = s.done_published; committed_published = s.committed_published })
poll-IsSafe decode w (p ∷ m) answer s = s

-- `Next` keeps safety, whatever was fetched.
pub next-IsSafe {ℓ} :
    {V : Type ℓ} (decode : V → Option Assignment) (w : Worker) (slots : ℤ) (answer : Fetch V)
    → IsSafe w
    → IsSafe (next decode w slots answer).0
unfolding next
next-IsSafe decode w slots answer s =
    if_intro (λ (r : Worker × Option Error × List Job). IsSafe r.0) (ltb_ℤ slots (pos 1)) _ _
      (λ _. s) (λ _. poll-IsSafe decode w w.pending answer s)

Backed-publish :
    (ps : List (CallResult × Option ℕ)) (p : CallResult × Option ℕ) (kd : ℕ × Bool)
    → Backed ps kd
    → Backed (ps ++ (p ∷ [])) kd
Backed-publish ps p kd h t = Any-append_left _ ps (p ∷ []) (h t)

mark_done-IsSafe :
    (w : Worker) (o : Option ℕ)
    → IsSafe w
    → ((r : ℕ) → o ≡ some r → Published w.published r)
    → IsSafe (mark_done w o).0
unfolding mark_done
mark_done-IsSafe w none s p = s
mark_done-IsSafe w (some r) s p =
    if_intro (λ (x : Worker × Option Error). IsSafe x.0) (is_pending r w.pending) _ _
      (λ _. record {
        done_published = Backed-put w.published r true w.pending s.done_published (λ _. p r refl);
        committed_published = s.committed_published;
      })
      (λ _. s)

-- `Complete` keeps safety, on every branch.
pub complete-IsSafe :
    (w : Worker) (res : CallResult) (job : Job) (encode_ok publish_ok : Bool)
    → IsSafe w
    → IsSafe (complete w res job encode_ok publish_ok).0
unfolding complete
complete-IsSafe w res job false publish_ok s = s
complete-IsSafe w res job true false s = s
complete-IsSafe w res job true true s =
    let sent : CallResult × Option ℕ = (record res { worker = w.name }, job.rec) in
    mark_done-IsSafe (record w { published = w.published ++ (sent ∷ []) }) job.rec
      (record {
        done_published = All-map _ _ (Backed-publish w.published sent) w.pending s.done_published;
        committed_published =
            All-map _ _ (λ r h. Any-append_left _ w.published (sent ∷ []) h) w.committed
              s.committed_published;
      })
      (λ r e. Any-append_right _ w.published (sent ∷ []) (inl e))

commit_records-IsSafe :
    (w : Worker) (m : List (ℕ × Bool)) (ok : Bool)
    → IsSafe w
    → All (Published w.published) (map key m)
    → IsSafe (commit_records w m ok).0
unfolding commit_records
commit_records-IsSafe w [] ok s p = record {
  done_published = tt;
  committed_published = s.committed_published;
}
commit_records-IsSafe w (k ∷ m) false s p = s
commit_records-IsSafe w (k ∷ m) true s p = record {
  done_published = tt;
  committed_published = All-append _ w.committed (map key (k ∷ m)) s.committed_published p;
}

unless_failed-IsSafe :
    (e : Option Error) (w : Worker) (ok : Bool) → IsSafe w → IsSafe (unless_failed e w ok).0
unfolding unless_failed
unless_failed-IsSafe (some e) w ok s = s
unless_failed-IsSafe none w ok s =
    if_intro (λ (x : Worker × Option Error). IsSafe x.0) (all_done w.pending) _ _
      (λ d.
        commit_records-IsSafe w w.pending ok s
          (Published-keys w.published w.pending s.done_published d))
      (λ _. s)

-- `CommitBatch` keeps safety.
pub commit_batch-IsSafe : (w : Worker) (ok : Bool) → IsSafe w → IsSafe (commit_batch w ok).0
unfolding commit_batch
commit_batch-IsSafe w ok s = unless_failed-IsSafe w.batch_err w ok s
