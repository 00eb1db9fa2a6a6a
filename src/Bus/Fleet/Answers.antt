-- ===== src/Bus/Fleet/Answers.antt =====
-- What the loop of cmd/worker/main.go publishes and commits.
use callstorm.Prelude.{ℕ, ℤ, String, true, false, ◌≡◌, ◌⊎◌, Option, some, List, Any}
use callstorm.Bus.Worker.{Assignment, CallResult, Job, Worker}
use callstorm.Bus.Worker.Commit.{IsSafe}
use callstorm.Bus.Worker.Jobs.{Keeps, IsRead}
use callstorm.Bus.Fleet.{is_complete, place, Ending, Fleet, Round}

-- A round runs no goroutine but those of its batch.
abbrev pub RunsOwn {ℓ} : {V : Type ℓ} → Round V → Type 0
RunsOwn r =
    (js : List Job) (j : Job) → Any (λ (x : Job). x ≡ j) (r.order js) → Any (λ (x : Job). x ≡ j) js

module _ {ℓ} {V : Type ℓ} (decode : V → Option Assignment) (slots : ℤ) (name : String) where
  -- A job of a round, with what happened to it.
  abbrev pub IsOf : Job → Ending → Round V → Type 0
  IsOf j e r = IsRead decode r.answer j × (r.ending j ≡ e)

  -- A published result is what was made of the call of a job that a round read; the call had its time,
  -- or ran to its end.
  abbrev pub IsAnswer : List (Round V) → CallResult × Option ℕ → Type 0
  IsAnswer all (res, rec) =
      (j : Job) × (e : Ending) × Any (IsOf j e) all
      × (rec ≡ j.rec)
      × (res ≡ record (place j.assignment e.called) { worker = name })
      × ((e.expired ≡ false) ⊎ (is_complete (place j.assignment e.called) ≡ true))

  -- A worker whose published results are answers, and whose commits have one.
  record Serves (all : List (Round V)) (w : Worker) : Type 0 where
    safe : IsSafe w
    keeps : Keeps name (IsAnswer all) w

  module _ (all : List (Round V)) where
    -- What is of a round is of all.
    abbrev pub IsIn : Round V → Type 0
    IsIn r = (j : Job) (e : Ending) → IsOf j e r → Any (IsOf j e) all

  -- Some published result answers a record.
  abbrev pub Answered : List (Round V) → List (CallResult × Option ℕ) → ℕ → Type 0
  Answered all ps r = Any (λ (p : CallResult × Option ℕ). (p.1 ≡ some r) × IsAnswer all p) ps
