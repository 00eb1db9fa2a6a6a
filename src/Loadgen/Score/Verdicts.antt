-- ===== src/Loadgen/Score/Verdicts.antt =====
-- What a verdict of internal/loadgen/report.go says of the step's latency.
use callstorm.Prelude.{
  ℕ, ◌+◌, ◌*◌, ◌≤◌, ◌<◌, ◌≡◌, ◌≢◌, ◌⊎◌, inl, inr, refl, ap, ℤ, ltb, str_eq, true, false, Option,
  none, some, List, [], ◌∷◌, ◌++◌, map, if_intro, pos_part, All, arith, ltb→lt, ltb→le,
}
use callstorm.Loadgen.Summary.{round_ℕ}
use callstorm.Loadgen.StepReport.{StepReport, Verdict, pass, warn, fail, not_available, unscored}
use callstorm.Loadgen.Score.{
  Report, setup_failed, unscorable, verdict_of, grade, judge_recovery, is_fail, breakpoint,
  breakpoint_of, baseline_p50_ms, score_against,
}

-- A rounded quotient in hundredths lies above `k` exactly from `k + 1/2` on.
round_above : (k p b : ℕ) → 0 < b → k < round_ℕ (100 * p) b → (2 * k + 1) * b ≤ 200 * p
round_above k p b h r = grind arith

round_up_to : (k p b : ℕ) → 0 < b → round_ℕ (100 * p) b ≤ k → 200 * p < (2 * k + 1) * b
round_up_to k p b h r = grind arith

-- A p95 of `p` against a baseline of `b`: a fail from 2.005 on, a warning from 1.505 on.
abbrev pub Graded : ℕ → ℕ → Verdict → Type 0
Graded b p v =
    ((v ≡ fail) × (401 * b ≤ 200 * p))
    ⊎ (((v ≡ warn) × (301 * b ≤ 200 * p) × (200 * p < 401 * b))
        ⊎ ((v ≡ pass) × (200 * p < 301 * b)))

-- Calls were attempted, and fewer than 97 percent of them connected.
abbrev pub SetupFailed : StepReport → Type 0
SetupFailed s = (0 < s.calls_attempted) × (100 * s.calls_connected < 97 * s.calls_attempted)

abbrev pub SetUp : StepReport → Type 0
SetUp s = (s.calls_attempted ≡ 0) ⊎ (97 * s.calls_attempted ≤ 100 * s.calls_connected)

-- There is no positive baseline, or no wait.
abbrev pub Unscored : ℤ → StepReport → Type 0
Unscored base s = (pos_part base ≡ 0) ⊎ (s.ttfa.n ≡ 0)

-- Why a step has its verdict.
abbrev pub Judged : ℤ → StepReport → StepReport → Type 0
Judged base s s' =
    ((s'.verdict ≡ fail) × SetupFailed s)
    ⊎ (((s'.verdict ≡ not_available) × SetUp s × Unscored base s)
        ⊎ (SetUp s
            × (0 < pos_part base)
            × (0 < s.ttfa.n)
            × Graded (pos_part base) (pos_part s.ttfa.p95_raw) s'.verdict))

verdict_of-Graded : (b p : ℕ) → 0 < b → Graded b p (verdict_of (round_ℕ (100 * p) b))
verdict_of-Graded b p h =
    if_intro (Graded b p) (ltb 200 (round_ℕ (100 * p) b)) _ _
      (λ e. inl (refl, round_above 200 p b h (ltb→lt _ _ e)))
      (λ e.
        let below = round_up_to 200 p b h (ltb→le 200 (round_ℕ (100 * p) b) e) in
        if_intro (Graded b p) (ltb 150 (round_ℕ (100 * p) b)) _ _
          (λ f. inr (inl (refl, round_above 150 p b h (ltb→lt _ _ f), below)))
          (λ f. inr (inr (refl, round_up_to 150 p b h (ltb→le 150 (round_ℕ (100 * p) b) f)))))

scorable_base : (base : ℤ) (s : StepReport) → unscorable base s ≡ false → 0 < pos_part base
scorable_base base s e = ground arith

scorable_waits : (base : ℤ) (s : StepReport) → unscorable base s ≡ false → 0 < s.ttfa.n
scorable_waits base s e = ground arith

unscorable-Unscored : (base : ℤ) (s : StepReport) → unscorable base s ≡ true → Unscored base s
unscorable-Unscored base s e = ground arith

setup_failed-SetupFailed : (s : StepReport) → setup_failed s ≡ true → SetupFailed s
setup_failed-SetupFailed s e = ground arith

setup_failed-SetUp : (s : StepReport) → setup_failed s ≡ false → SetUp s
setup_failed-SetUp s e = ground arith

grade-Judged : (base : ℤ) (s : StepReport) → Judged base s (grade base s)
unfolding grade
grade-Judged base s =
    if_intro (Judged base s) (setup_failed s) _ _ (λ e. inl (refl, setup_failed-SetupFailed s e))
      (λ e.
        if_intro (Judged base s) (unscorable base s) _ _
          (λ f. inr (inl (refl, setup_failed-SetUp s e, unscorable-Unscored base s f)))
          (λ f. inr (
            inr (
              setup_failed-SetUp s e,
              scorable_base base s f,
              scorable_waits base s f,
              verdict_of-Graded (pos_part base) (pos_part s.ttfa.p95_raw) (scorable_base base s f),
            ))))

verdict-judge_recovery : (p50 : ℤ) (s : StepReport) → (judge_recovery p50 s).verdict ≡ s.verdict
unfolding judge_recovery
verdict-judge_recovery p50 s =
    if_intro (λ (t : StepReport). t.verdict ≡ s.verdict) (str_eq s.phase.kind "recovery") _ _
      (λ e. refl) (λ e. refl)

-- A relation between the steps of two lists, one by one.
abbrev pub Pairwise :
    (StepReport → StepReport → Type 0) → List StepReport → List StepReport → Type 0
Pairwise R [] [] = Unit
Pairwise R [] (y ∷ ys) = ⊥
Pairwise R (x ∷ xs) [] = ⊥
Pairwise R (x ∷ xs) (y ∷ ys) = R x y × Pairwise R xs ys

graded_steps :
    (base p50 : ℤ) (ss : List StepReport)
    → Pairwise (Judged base) ss (map (λ s. judge_recovery p50 (grade base s)) ss)
graded_steps base p50 [] = tt
graded_steps base p50 (s ∷ ss) =
    (rw (verdict-judge_recovery p50 (grade base s)) (grade-Judged base s), graded_steps base p50 ss)

-- Each step of a scored report fails if calls were attempted and fewer than 97 percent connected; one
-- that is set up is not scored without a positive baseline or without a wait, and with both it fails
-- from 2.005 times the baseline's p95 on, warns from 1.505 times on, and passes below.
pub score_against-Judged :
    (base : ℤ) (r : Report) → Pairwise (Judged base) r.steps (score_against base r).steps
unfolding score_against
score_against-Judged base r = graded_steps base (baseline_p50_ms r.baseline r.steps) r.steps

-- The step at which a run breaks: it failed, and no step before it did.
pub record IsBreakpoint (ss : List StepReport) (s : StepReport) : Type 0 where
  pub before : List StepReport
  pub after : List StepReport
  pub split : ss ≡ before ++ (s ∷ after)
  pub failed : s.verdict ≡ fail
  pub held : All (λ (t : StepReport). t.verdict ≢ fail) before

fails : (v : Verdict) → is_fail v ≡ true → v ≡ fail
fails fail e = refl
fails unscored e = cc
fails pass e = cc
fails warn e = cc
fails not_available e = cc

holds : (v : Verdict) → is_fail v ≡ false → v ≢ fail
holds v e same = cc (ap is_fail same)

abbrev pub Breaks : List StepReport → Option StepReport → Type 0
Breaks ss none = All (λ (t : StepReport). t.verdict ≢ fail) ss
Breaks ss (some s) = IsBreakpoint ss s

breakpoint_of-Breaks : (ss : List StepReport) → Breaks ss (breakpoint_of ss)
unfolding breakpoint_of
breakpoint_of-Breaks [] = tt
breakpoint_of-Breaks (s ∷ ss) =
    if_intro (Breaks (s ∷ ss)) (is_fail s.verdict) _ _
      (λ e. record { before = []; after = ss; split = refl; failed = fails s.verdict e; held = tt })
      (λ e. later (breakpoint_of ss) (holds s.verdict e) (breakpoint_of-Breaks ss))
  where
    later : (o : Option StepReport) → s.verdict ≢ fail → Breaks ss o → Breaks (s ∷ ss) o
    later none h b = (h, b)
    later (some t) h b = record {
      before = s ∷ b.before;
      after = b.after;
      split = ap (λ l. s ∷ l) b.split;
      failed = b.failed;
      held = (h, b.held);
    }

-- The breakpoint is the first step of the report that failed; without one, no step failed.
pub breakpoint-Breaks : (r : Report) → Breaks r.steps (breakpoint r)
unfolding breakpoint
breakpoint-Breaks r = breakpoint_of-Breaks r.steps
