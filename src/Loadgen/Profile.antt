-- ===== src/Loadgen/Profile.antt =====
-- internal/loadgen/profile.go: the load profile and its validation. An error is a constructor with
-- the values that the source formats into its message; `step_name` is the text of a default name.
pub mod Checked
use callstorm.Prelude.{
  ℕ, suc, ℤ, pos, ltb, ltb_ℤ, String, str_eq, Bool, true, false, not, ◌&&◌, ◌||◌, List, [], ◌∷◌,
  if◌then◌else◌, Result, ok, err, ◌>>=◌, ◌>>◌, refuse,
}
use callstorm.Scenario.Validate.{mem}
use callstorm.Loadgen.Outcome.{Step}

pub record Profile : Type 0 where
  pub name : String
  pub baseline : String
  pub steps : List Step

pub data Error : Type 0 where
  no_steps : Error
  duplicate_step no_concurrency unknown_kind negative_hold both_limits unfilled_slots :
      String → Error
  unknown_baseline : String → Error
  wrong_load : String → ℕ → ℕ → Error
  nothing_to_recover : String → ℕ → Error

abbrev pub kinds : List String
kinds = "smoke" ∷ "ramp" ∷ "stress" ∷ "spike" ∷ "soak" ∷ "recovery" ∷ []

unfoldable pub phase : Step → String
phase s = if str_eq s.kind "" then "ramp" else s.kind

-- The default count of calls, and the test that they fill the slots.
unfoldable pub size_step : Step → Result Error Step
size_step s =
    if ltb_ℤ (pos 0) s.hold
    then ok s
    else (let calls = if ltb s.calls 1 then s.concurrency else s.calls in
        refuse (ltb calls s.concurrency) (unfilled_slots s.name) >> ok (record s { calls = calls }))

unfoldable pub check_step : List String → Step → Result Error Step
unfolding size_step
check_step names s = do
  refuse (mem s.name names) (duplicate_step s.name)
  refuse (ltb s.concurrency 1) (no_concurrency s.name)
  refuse (not (str_eq s.kind "") && not (mem s.kind kinds)) (unknown_kind s.name)
  refuse (ltb_ℤ s.hold (pos 0)) (negative_hold s.name)
  refuse (ltb_ℤ (pos 0) s.hold && ltb 0 s.calls) (both_limits s.name)
  size_step s

-- The first loop of `validate`, from step `i`.
unfoldable pub check_steps : (ℕ → String) → ℕ → List String → List Step → Result Error (List Step)
unfolding check_step
check_steps step_name i names [] = ok []
check_steps step_name i names (s ∷ ss) =
    let name = if str_eq s.name "" then step_name (suc i) else s.name in
    check_step names (record s { name = name }) >>= λ s'.
    (check_steps step_name (suc i) (name ∷ names) ss >>= λ rest. ok (s' ∷ rest))

unfoldable pub step_names : List Step → List String
step_names [] = []
step_names (s ∷ ss) = s.name ∷ step_names ss

-- The first loop of `validateRecovery`.
unfoldable pub base_concurrency : String → ℕ → List Step → ℕ
base_concurrency baseline c [] = c
base_concurrency baseline c (s ∷ ss) =
    base_concurrency baseline (if str_eq s.name baseline then s.concurrency else c) ss

abbrev pub check_recovery : ℕ → ℕ → Bool → Step → Result Error (Unit {0})
check_recovery base i stressed s =
    refuse (ltb s.concurrency base || ltb base s.concurrency) (wrong_load s.name s.concurrency base)
    >> refuse (not stressed) (nothing_to_recover s.name (suc i))

-- Its second loop, from step `i`.
unfoldable pub check_recoveries : ℕ → ℕ → Bool → List Step → Result Error (Unit {0})
unfolding phase
check_recoveries base i stressed [] = ok tt
check_recoveries base i stressed (s ∷ ss) =
    let loaded = stressed || ltb base s.concurrency in
    let skipped = check_recoveries base (suc i) loaded ss in
    let recovered = check_recoveries base (suc i) stressed ss in
    if not (str_eq (phase s) "recovery")
    then skipped
    else (check_recovery base i stressed s >> recovered)

abbrev pub first_name : List Step → String
first_name [] = ""
first_name (s ∷ ss) = s.name

abbrev pub is_none : List Step → Bool
is_none [] = true
is_none (s ∷ ss) = false

unfoldable pub validate : (ℕ → String) → Profile → Result Error Profile
unfolding check_steps base_concurrency check_recoveries
validate step_name p = do
  refuse (is_none p.steps) no_steps
  steps ← check_steps step_name 0 [] p.steps
  let baseline : String = if str_eq p.baseline "" then first_name steps else p.baseline
  refuse (not (mem baseline (step_names steps))) (unknown_baseline baseline)
  check_recoveries (base_concurrency baseline 0 steps) 0 false steps
  ok (record p { baseline = baseline; steps = steps })

unfoldable pub peak_from : ℕ → List Step → ℕ
peak_from peak [] = peak
peak_from peak (s ∷ ss) = peak_from (if ltb peak s.concurrency then s.concurrency else peak) ss

-- `PeakConcurrency`.
unfoldable pub peak_concurrency : Profile → ℕ
unfolding peak_from
peak_concurrency p = peak_from 0 p.steps
