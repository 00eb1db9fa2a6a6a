-- ===== src/Loadgen/Distributed/Whole.antt =====
-- A distributed run of internal/loadgen/distributed.go accounts for every call of its profile.
use callstorm.Prelude.{
  ℕ, ◌+◌, ◌≡◌, refl, sym, ◌∙◌, ap, ℤ, pos, ltb_ℤ, String, Bool, false, List, [], ◌∷◌, ◌++◌, map,
  length, length-append, All, Bool-cases, inl, inr, if_intro, arith, if◌then◌else◌, ◌==◌,
}
use mathlib.Core.Path.{subst}
use mathlib.Core.List.{append_assoc, append-nil}
use callstorm.Loadgen.Outcome.{CallOutcome, Step}
use callstorm.Loadgen.Dispatch.{
  Status, running, finished, assign_failed, results_failed, Dispatch, start, dispatch_step,
}
use callstorm.Loadgen.Dispatch.Account.{Answers, NoneCancelled, dispatch_step_account}
use callstorm.Loadgen.StepReport.{Reading, StepReport, build_step_report}
use callstorm.Loadgen.StepReport.Counts.{build_step_report-IsConsistent}
use callstorm.Loadgen.Score.{
  score_latency, score_against, grade, judge_recovery, setup_failed, unscorable, baseline_p95,
  baseline_p50_ms,
}
use callstorm.Loadgen.Distributed.{
  call_records, Drive, Draft, Drafted, drafted, RunReport, ran, empty_draft, report_of, add_step,
  after_step, run_steps, score_draft, with_score, run_distributed, add,
}

-- The calls of a profile's steps.
abbrev pub total_calls : List (Step × Drive) → ℕ
total_calls [] = 0
total_calls ((step, e) ∷ more) = step.calls + total_calls more

-- Results come for assigned calls only, and nothing is cancelled.
abbrev pub Undisturbed : Step × Drive → Type 0
Undisturbed (step, e) =
    Answers step e.rounds (running (start step)) × NoneCancelled e.rounds × (e.cancelled ≡ false)

-- Each step of a plan has its report, which is that step's and counts its calls.
abbrev pub IsReportOf : Step → StepReport → Type 0
IsReportOf step r = (r.step ≡ step) × (r.calls_attempted ≡ step.calls)

abbrev pub Matched : List (Step × Drive) → List StepReport → Type 0
Matched [] [] = Unit
Matched [] (r ∷ rs) = ⊥
Matched (p ∷ plan) [] = ⊥
Matched (p ∷ plan) (r ∷ rs) = IsReportOf p.0 r × Matched plan rs

length-call_records : (os : List CallOutcome) → length (call_records os) ≡ length os
unfolding call_records
length-call_records [] = refl
length-call_records (o ∷ os) = omega (arith, length-call_records os)

grade-IsReportOf :
    (base : ℤ) (step : Step) (s : StepReport) → IsReportOf step s → IsReportOf step (grade base s)
unfolding grade
grade-IsReportOf base step s h =
    if_intro (IsReportOf step) (setup_failed s) _ _ (λ e. h)
      (λ e. if_intro (IsReportOf step) (unscorable base s) _ _ (λ f. h) (λ f. h))

judge_recovery-IsReportOf :
    (p50 : ℤ) (step : Step) (s : StepReport)
    → IsReportOf step s
    → IsReportOf step (judge_recovery p50 s)
unfolding judge_recovery
judge_recovery-IsReportOf p50 step s h = if_intro (IsReportOf step) _ _ _ (λ e. h) (λ e. h)

Matched-score :
    (base p50 : ℤ) (plan : List (Step × Drive)) (rs : List StepReport)
    → Matched plan rs
    → Matched plan (map (λ s. judge_recovery p50 (grade base s)) rs)
Matched-score base p50 [] [] m = m
Matched-score base p50 [] (r ∷ rs) m = m
Matched-score base p50 (p ∷ plan) [] m = m
Matched-score base p50 (p ∷ plan) (r ∷ rs) (e, m) = (
  judge_recovery-IsReportOf p50 p.0 (grade base r) (grade-IsReportOf base p.0 r e),
  Matched-score base p50 plan rs m,
)

own_calls : (k a : ℕ) → a ≡ k → (if k == 0 then a else k) ≡ k
own_calls k a e = ground arith

module _ (reading : Reading) (rate : ℤ) (ids : List String) where
  calls-report_of :
      (step : Step) (os : List CallOutcome)
      → (report_of reading rate ids step os).calls_attempted ≡ length os
  unfolding report_of
  calls-report_of step os = (build_step_report-IsConsistent reading step os rate).attempted

  -- The calls of a step's report are the step's, or those attempted where the step names none.
  step-report_of :
      (step : Step) (os : List CallOutcome)
      → length os ≡ step.calls
      → (report_of reading rate ids step os).step ≡ step
  unfolding report_of build_step_report
  step-report_of step os n =
      ap (λ (k : ℕ). record step { calls = k })
        (own_calls step.calls _
          ((build_step_report-IsConsistent reading step os rate).attempted ∙ n))

  report_of-IsReportOf :
      (step : Step) (os : List CallOutcome)
      → length os ≡ step.calls
      → IsReportOf step (report_of reading rate ids step os)
  report_of-IsReportOf step os n = (step-report_of step os n, calls-report_of step os ∙ n)

  -- What a run adds to a report for the steps of a plan.
  record Added (plan : List (Step × Drive)) (d out : Draft) : Type 0 where
    more : List StepReport
    steps_are : out.steps ≡ d.steps ++ more
    matched : Matched plan more
    logged : length out.calls ≡ length d.calls + total_calls plan
    accounted :
        out.dispatch.received + out.dispatch.missing
        ≡ d.dispatch.received + d.dispatch.missing + total_calls plan

  step-Added :
      (step : Step) (e : Drive) (plan : List (Step × Drive)) (o : Dispatch) (d out : Draft)
      → (length o.outcomes ≡ step.calls)
      → (o.sd.received + o.sd.missing ≡ step.calls)
      → Added plan (add_step reading rate ids step (finished o) d) out
      → Added ((step, e) ∷ plan) d out
  unfolding add_step add
  step-Added step e plan o d out n k v = record {
    more = report_of reading rate ids step o.outcomes ∷ v.more;
    steps_are =
        v.steps_are ∙ append_assoc d.steps (report_of reading rate ids step o.outcomes ∷ []) v.more;
    matched = (report_of-IsReportOf step o.outcomes n, v.matched);
    logged = omega (
      arith,
      v.logged,
      n,
      length-append d.calls (call_records o.outcomes),
      length-call_records o.outcomes,
    );
    accounted = omega (arith, v.accounted, k);
  }

  drafted-injective : {d out : Draft} → drafted d ≡ drafted out → d ≡ out
  drafted-injective e = cc

  -- The run went on after a step: it finished, and the rest was drafted.
  went_on :
      (s : Status) (cancelled : Bool) (d out : Draft) (rest : Drafted)
      → cancelled ≡ false
      → after_step reading rate ids s cancelled d rest ≡ drafted out
      → (o : Dispatch) × (s ≡ finished o) × (rest ≡ drafted out)
  went_on (finished o) cancelled d out rest c e = (o, refl, rw (c) at e)
  went_on (running o) cancelled d out rest c e = cc
  went_on (assign_failed n o) cancelled d out rest c e = cc
  went_on (results_failed o) cancelled d out rest c e = cc

  run_steps-Added :
      (plan : List (Step × Drive)) (d out : Draft)
      → All Undisturbed plan
      → run_steps reading rate ids plan d ≡ drafted out
      → Added plan d out
  unfolding run_steps
  run_steps-Added [] d out u e =
      let same = drafted-injective e in
      record {
        more = [];
        steps_are = ap (λ (t : Draft). t.steps) (sym same) ∙ sym (append-nil d.steps);
        matched = tt;
        logged = rw (sym same) (omega arith);
        accounted = rw (sym same) (omega arith);
      }
  run_steps-Added ((step, drive) ∷ plan) d out ((answers, calm, on), u) e =
      elim (Bool-cases (ltb_ℤ (pos 0) step.hold)) [
        | inl h ↦ let q = rw (h) at e in cc
        | inr h ↦
            let (o, ended, more) =
              went_on (dispatch_step step drive.rounds) drive.cancelled _ out _ on (rw (h) at e) in
            let f = dispatch_step_account step drive.rounds o answers ended in
            step-Added step drive plan o d out (f.outcome_count ∙ f.complete calm) (f.complete calm)
              (run_steps-Added plan (add_step reading rate ids step (finished o) d) out u
                (rw (ended) at more))
      ]

  -- What the report of a whole run accounts for.
  pub record Accounted (plan : List (Step × Drive)) (rep : RunReport) : Type 0 where
    pub matched : Matched plan rep.report.steps
    pub logged : length rep.calls ≡ total_calls plan
    pub answered : rep.dispatch.received + rep.dispatch.missing ≡ total_calls plan

  ran-injective : {a b : RunReport} → ran a ≡ ran b → a ≡ b
  ran-injective e = cc

  scored :
      (baseline : String) (plan : List (Step × Drive)) (s : Drafted) (rep : RunReport)
      → with_score reading rate ids baseline s ≡ ran rep
      → ((d : Draft) → s ≡ drafted d → Added plan empty_draft d)
      → Accounted plan rep
  unfolding score_draft score_latency score_against
  scored baseline plan (drafted d) rep e go =
      let v = go d refl in
      let same = ran-injective e in
      record {
        matched =
            subst (λ (r : RunReport). Matched plan r.report.steps) same
              (Matched-score (baseline_p95 baseline d.steps) (baseline_p50_ms baseline d.steps) plan
                d.steps (subst (Matched plan) (sym v.steps_are) v.matched));
        logged = ap (λ (r : RunReport). length r.calls) (sym same) ∙ v.logged ∙ omega arith;
        answered =
            ap (λ (r : RunReport). r.dispatch.received + r.dispatch.missing) (sym same)
            ∙ v.accounted
            ∙ omega arith;
      }
  scored baseline plan Drafted.going rep e go = cc
  scored baseline plan (Drafted.refused why) rep e go = cc

  -- A run over a fleet that made its report, whose results came for assigned calls only and in which
  -- nothing was cancelled, has one report for each step of the profile, in order, that is the step's
  -- and counts all its calls; it logs as many calls as the profile has, and each of them was received or is
  -- reported missing.
  pub run_distributed-Accounted :
      (baseline : String) (plan : List (Step × Drive)) (rep : RunReport)
      → All Undisturbed plan
      → run_distributed reading rate ids baseline plan ≡ ran rep
      → Accounted plan rep
  unfolding run_distributed
  run_distributed-Accounted baseline plan rep u e =
      scored baseline plan (run_steps reading rate ids plan empty_draft) rep e
        (λ d q. run_steps-Added plan empty_draft d u q)
