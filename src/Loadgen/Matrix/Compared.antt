-- ===== src/Loadgen/Matrix/Compared.antt =====
-- What a matrix of internal/loadgen/matrix.go, `RunMatrix`, holds.
use callstorm.Prelude.{
  ◌≡◌, refl, sym, ap, ◌∙◌, ℤ, String, Bool, true, false, List, [], ◌∷◌, ◌++◌, map, Result, ok, err,
  Bool-cases, inl, inr, ok-injective,
}
use mathlib.Core.Path.{subst}
use callstorm.Impair.{Profile, is_clean}
use callstorm.Loadgen.StepReport.{Reading}
use callstorm.Loadgen.Score.{baseline_p95}
use callstorm.Loadgen.Score.Verdicts.{Pairwise, Judged, score_against-Judged}
use callstorm.Loadgen.Distributed.{LoggedCall, RunReport}
use callstorm.Loadgen.Matrix.{
  Attempt, Cohort, MatrixError, CohortCall, MatrixReport, mark_calls, cohort_of, attempt, Cohorts,
  put_cohort, unless_cancelled, compare_to_clean, join_cohort, run_impaired, finish, with_control,
  run_matrix,
}

abbrev pub base_of : RunReport → ℤ
base_of clean = baseline_p95 clean.report.baseline clean.report.steps

-- Calls as a cohort of that name has them.
abbrev pub tagged : String → List LoggedCall → List CohortCall
tagged name calls = map (λ (c : LoggedCall). (name, c)) calls

-- The cohorts of some conditions and their calls, in order, up to a cancelled one (`before` says that
-- the one before them was): each ran, its steps are judged against the clean run's baseline, and its
-- calls are those of its run under its name, before the calls of the next ones.
abbrev pub Runs :
    RunReport → Bool → List (Profile × Attempt) → List Cohort → List CohortCall → Type 0
Runs clean before [] [] calls = calls ≡ []
Runs clean before [] (c ∷ cs) calls = ⊥
Runs clean before ((p, a) ∷ more) [] calls = (before ≡ true) × (calls ≡ [])
Runs clean before ((p, a) ∷ more) (c ∷ cs) calls =
    (before ≡ false)
    × (c.impairment ≡ p)
    × ((r : RunReport) × (rest : List CohortCall) × (attempt p a ≡ ok r)
        × Pairwise (Judged (base_of clean)) r.report.steps c.steps
        × (calls ≡ tagged p.name r.calls ++ rest)
        × Runs clean a.cancelled more cs rest)

mark_calls_lem :
    (name : String) (calls : List LoggedCall) → mark_calls name calls ≡ tagged name calls
mark_calls_lem name [] = refl
mark_calls_lem name (c ∷ calls) =
    ap (λ (l : List CohortCall). (name, c) ∷ l) (mark_calls_lem name calls)

put_cohort_inv :
    (c : Cohort) (calls : List CohortCall) (r : Result MatrixError Cohorts) (cs : List Cohort)
    (all : List CohortCall)
    → put_cohort c calls r ≡ ok (cs, all)
    → (ds : List Cohort) × (rest : List CohortCall) × (r ≡ ok (ds, rest))
      × (c ∷ ds ≡ cs)
      × (calls ++ rest ≡ all)
put_cohort_inv c calls (ok (ds, rest)) cs all e =
    let same = ok-injective e in
    (ds, rest, refl, ap (λ (p : Cohorts). p.0) same, ap (λ (p : Cohorts). p.1) same)
put_cohort_inv c calls (err why) cs all e = cc

module _ (reading : Reading) (rate : ℤ) (ids : List String) where
  compared-Judged :
      (clean r : RunReport)
      → Pairwise
          (Judged (base_of clean))
          r.report.steps
          (compare_to_clean reading rate ids clean r).report.steps
  unfolding compare_to_clean
  compared-Judged clean r = score_against-Judged (base_of clean) r.report

  abbrev pub Ran : RunReport → Bool → List (Profile × Attempt) → Cohorts → Type 0
  Ran clean before plan (cs, calls) = Runs clean before plan cs calls

  none_more : (clean : RunReport) (plan : List (Profile × Attempt)) → Ran clean true plan ([], [])
  none_more clean [] = refl
  none_more clean ((p, a) ∷ more) = (refl, refl)

  unless-Ran :
      (clean : RunReport) (before : Bool) (plan : List (Profile × Attempt)) (cs : List Cohort)
      (calls : List CohortCall) (r : Result MatrixError Cohorts)
      → unless_cancelled before r ≡ ok (cs, calls)
      → (r ≡ ok (cs, calls) → Ran clean false plan (cs, calls))
      → Ran clean before plan (cs, calls)
  unless-Ran clean true plan cs calls r e go =
      subst (Ran clean true plan) (ok-injective e) (none_more clean plan)
  unless-Ran clean false plan cs calls r e go = go e

  join-Ran :
      (clean : RunReport) (p : Profile) (a : Attempt) (more : List (Profile × Attempt))
      (cs : List Cohort) (calls : List CohortCall) (r : Result MatrixError RunReport)
      (rest : Result MatrixError Cohorts)
      → attempt p a ≡ r
      → join_cohort reading rate ids p a clean r rest ≡ ok (cs, calls)
      → ((ds : List Cohort) (later : List CohortCall)
          → rest ≡ ok (ds, later)
          → Ran clean false more (ds, later))
      → Ran clean false ((p, a) ∷ more) (cs, calls)
  unfolding cohort_of
  join-Ran clean p a more cs calls (err why) rest t e go = cc
  join-Ran clean p a more cs calls (ok r) rest t e go =
      let c = cohort_of p a clean.report.steps (compare_to_clean reading rate ids clean r) in
      let (ds, later, next, same, all) = put_cohort_inv c _ _ cs calls e in
      let runs = unless-Ran clean a.cancelled more ds later rest next (λ q. go ds later q) in
      subst (λ (l : List Cohort). Ran clean false ((p, a) ∷ more) (l, calls)) same
        (
          refl,
          refl,
          (
            r,
            later,
            t,
            compared-Judged clean r,
            sym all ∙ ap (λ (l : List CohortCall). l ++ later) (mark_calls_lem p.name r.calls),
            runs,
          ),
        )

  run_impaired-Ran :
      (clean : RunReport) (plan : List (Profile × Attempt)) (cs : List Cohort)
      (calls : List CohortCall)
      → run_impaired reading rate ids clean plan ≡ ok (cs, calls)
      → Ran clean false plan (cs, calls)
  unfolding run_impaired
  run_impaired-Ran clean [] cs calls e = subst (Ran clean false []) (ok-injective e) refl
  run_impaired-Ran clean ((p, a) ∷ more) cs calls e =
      join-Ran clean p a more cs calls (attempt p a) (run_impaired reading rate ids clean more) refl
        e (λ ds later q. run_impaired-Ran clean more ds later q)

  -- A matrix that was reported.
  pub record Compared (plan : List (Profile × Attempt)) (m : MatrixReport) : Type 0 where
    pub control : Profile
    pub first : Attempt
    pub others : List (Profile × Attempt)
    pub plan_is : plan ≡ (control, first) ∷ others
    pub named_clean : is_clean control ≡ true
    pub ran_clean : attempt control first ≡ ok m.clean
    pub own : Cohort
    pub impaired : List Cohort
    pub cohorts_are : own ∷ impaired ≡ m.cohorts
    pub own_steps : (own.impairment ≡ control) × (own.steps ≡ m.clean.report.steps)
    pub later : List CohortCall
    pub calls_are : tagged control.name m.clean.calls ++ later ≡ m.calls
    pub runs : Runs m.clean first.cancelled others impaired later

  finish_inv :
      (clean : RunReport) (device : String) (r : Result MatrixError Cohorts) (m : MatrixReport)
      → finish reading rate ids clean device r ≡ ok m
      → (cs : List Cohort) × (calls : List CohortCall) × (r ≡ ok (cs, calls))
        × (record { clean = clean; calls = calls; device = device; cohorts = cs } ≡ m)
  finish_inv clean device (err why) m e = cc
  finish_inv clean device (ok (cs, calls)) m e = (cs, calls, refl, ok-injective e)

  controlled :
      (p : Profile) (a : Attempt) (device : String) (more : List (Profile × Attempt))
      (r : Result MatrixError RunReport) (m : MatrixReport)
      → is_clean p ≡ true
      → attempt p a ≡ r
      → with_control reading rate ids p a device more r ≡ ok m
      → Compared ((p, a) ∷ more) m
  unfolding cohort_of
  controlled p a device more (err why) m named t e = cc
  controlled p a device more (ok clean) m named t e =
      let c = cohort_of p a clean.report.steps clean in
      let (cs, calls, put, same) = finish_inv clean device _ m e in
      let (ds, later, next, split, all) =
        put_cohort_inv c (mark_calls p.name clean.calls) _ cs calls put in
      let runs =
        unless-Ran clean a.cancelled more ds later _ next
          (λ q. run_impaired-Ran clean more ds later q) in
      subst (Compared ((p, a) ∷ more)) same (record {
        control = p;
        first = a;
        others = more;
        plan_is = refl;
        named_clean = named;
        ran_clean = t;
        own = c;
        impaired = ds;
        cohorts_are = split;
        own_steps = (refl, refl);
        later = later;
        calls_are =
            ap (λ (l : List CohortCall). l ++ later) (sym (mark_calls_lem p.name clean.calls))
            ∙ all;
        runs = runs;
      })

  -- A matrix that was reported ran the control first, whose steps are the report's own; its other
  -- cohorts are the next conditions, in order, up to the one that was cancelled or to the end, and each
  -- one's steps are judged against the control's baseline; and its calls are those of the cohorts' runs,
  -- in that order, each under its own cohort's name.
  pub run_matrix-Compared :
      (device : String) (plan : List (Profile × Attempt)) (m : MatrixReport)
      → run_matrix reading rate ids device plan ≡ ok m
      → Compared plan m
  unfolding run_matrix
  run_matrix-Compared device [] m e = cc
  run_matrix-Compared device ((p, a) ∷ more) m e = elim (Bool-cases (is_clean p)) [
    | inl h ↦ controlled p a device more (attempt p a) m h refl (rw (h) at e)
    | inr h ↦ let q = rw (h) at e in cc
  ]
