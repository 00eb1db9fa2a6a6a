-- ===== src/Impair/Cohorts.antt =====
-- What the cohorts of a run are, and what a profile that was applied proves
-- (internal/impair/impair.go).
use callstorm.Prelude.{
  ℕ, suc, pos, inl, inr, ◌≡◌, refl, ap, String, str_eq, Bool, true, false, not, Option, none, some,
  List, [], ◌∷◌, if◌then◌else◌, ok, arith, All, Bool-cases, bind_inv, refuse_inv, ok-injective,
  ◌≤ℤ◌, not-false, if_intro, sym, ◌∙◌,
}
use mathlib.Core.Bool.{true≢false}
use callstorm.Scenario.Validate.{mem}
use callstorm.Scenario.Checked.{DistinctIds, fresh_ids}
use callstorm.Impair.{
  Profile, control, is_clean, out_of_bounds, impairs, each_profile, cohorts, Library, Answer,
  Applied, apply, verdict, read_back, after_run, args,
}

-- The profiles that are not the control, in their order.
abbrev pub without_control : List Profile → List Profile
without_control [] = []
without_control (p ∷ ps) = if is_clean p then without_control ps else (p ∷ without_control ps)

abbrev pub names : List Profile → List String
names [] = []
names (p ∷ ps) = p.name ∷ names ps

pub record InRange (p : Profile) : Type 0 where
  pub loss_low : pos 0 ≤ℤ p.loss
  pub loss_high : p.loss ≤ℤ pos 100000
  pub delay_low : pos 0 ≤ℤ p.delay
  pub jitter_low : pos 0 ≤ℤ p.jitter

in_range : (p : Profile) → out_of_bounds p ≡ false → InRange p
in_range p h = record {
  loss_low = ground arith;
  loss_high = ground arith;
  delay_low = ground arith;
  jitter_low = ground arith;
}

each_profile_lem :
    (i : ℕ) (seen : List String) (ps out : List Profile)
    → each_profile i seen ps ≡ ok out
    → (out ≡ without_control ps)
      × DistinctIds (names out)
      × All (λ y. mem y seen ≡ false) (names out)
      × All InRange out
unfolding each_profile
each_profile_lem i seen [] out e = rw (← ok-injective e) (refl, tt, tt, tt)
each_profile_lem i seen (p ∷ ps) out e =
    let (c1, e1) = refuse_inv (str_eq p.name "") _ _ e in
    let (c2, e2) = refuse_inv (out_of_bounds p) _ _ e1 in
    elim (Bool-cases (is_clean p)) [
      | inl c ↦
          let (c3, e3) = refuse_inv (impairs p) _ _ (rw (c) at e2) in
          rw (c) (each_profile_lem (suc i) seen ps out e3)
      | inr c ↦
          let (new, e3) = refuse_inv (mem p.name seen) _ _ (rw (c) at e2) in
          let (rest, e4, e5) = bind_inv (each_profile (suc i) (p.name ∷ seen) ps) _ e3 in
          let (same, d, f, r) = each_profile_lem (suc i) (p.name ∷ seen) ps rest e4 in
          let (here, there) = fresh_ids p.name (names rest) seen f in
          rw (c, ← ok-injective e5)
            (ap (λ l. p ∷ l) same, (here, d), (new, there), (in_range p c2, r))
    ]

pub record IsMatrix (ps out : List Profile) : Type 0 where
  pub control_first : out ≡ control ∷ without_control ps
  pub distinct : DistinctIds (names out)
  pub in_range : All InRange out

control-InRange : InRange control
control-InRange = record {
  loss_low = omega arith;
  loss_high = omega arith;
  delay_low = omega arith;
  jitter_low = omega arith;
}

absent : (ys : List String) → All (λ y. mem y ("clean" ∷ []) ≡ false) ys → mem "clean" ys ≡ false
absent ys f = (fresh_ids "clean" ys [] f).0

-- The cohorts of an accepted list are the control and then every other profile of the list, in
-- order, with distinct names and values in range.
pub cohorts-IsMatrix : (ps out : List Profile) → cohorts ps ≡ ok out → IsMatrix ps out
unfolding cohorts
cohorts-IsMatrix ps out e =
    let (rest, e1, e2) = bind_inv (each_profile 0 ("clean" ∷ []) ps) _ e in
    let (same, d, f, r) = each_profile_lem 0 ("clean" ∷ []) ps rest e1 in
    rw (← ok-injective e2) (record {
      control_first = ap (λ l. control ∷ l) same;
      distinct = (absent (names rest) f, d);
      in_range = (control-InRange, r);
    })

verdict_lem :
    (clean netem : Bool) (qdisc : String) → verdict clean netem qdisc ≡ none → netem ≡ not clean
verdict_lem true true qdisc e = cc
verdict_lem true false qdisc e = refl
verdict_lem false true qdisc e = refl
verdict_lem false false qdisc e = cc

read_back_lem :
    (lib : Library) (command : String) (p : Profile) (shown : Answer) (why : Option String)
    → (read_back lib command p shown why).failed ≡ none
    → (why ≡ none)
      × ((read_back lib command p shown why).qdisc ≡ lib.trim shown.out)
      × (lib.contains (lib.trim shown.out) "netem" ≡ not (is_clean p))
read_back_lem lib command p shown none e =
    let qdisc : String = lib.trim shown.out in
    (refl, refl, verdict_lem (is_clean p) (lib.contains qdisc "netem") qdisc e)
read_back_lem lib command p shown (some why) e = cc

-- The check of the command, for a clean profile and another.
abbrev Proved : Library → Profile → Answer → Option String → Applied → Type 0
Proved lib p shown why a =
    a.failed ≡ none
    → (shown.run_err ≡ none)
      × (a.qdisc ≡ lib.trim shown.out)
      × (lib.contains (lib.trim shown.out) "netem" ≡ not (is_clean p))
      × (is_clean p ≡ false → why ≡ none)

after_run_lem :
    (lib : Library) (command : String) (p : Profile) (ran shown : Answer) (why : Option String)
    → Proved lib p shown why (after_run lib command p ran shown why)
after_run_lem lib command p ran shown none =
    λ e. let (a, q, b) = read_back_lem lib command p shown shown.run_err e in (a, q, b, λ c. refl)
after_run_lem lib command p ran shown (some why) =
    if_intro (Proved lib p shown (some why)) (not (is_clean p)) _ _ (λ c e. cc)
      (λ c e.
        let (a, q, b) = read_back_lem lib command p shown shown.run_err e in
        (a, q, b, λ d. absurd (true≢false (sym (not-false _ c) ∙ d))))

-- A profile that was applied without an error was read back: the answer of `tc qdisc show`, trimmed,
-- is what is returned, netem stands in it exactly if the profile is not the control, and the command
-- of another profile had run.
pub apply_proves :
    (lib : Library) (dev : String) (p : Profile) (exec : List String → Answer)
    → (apply lib dev p exec).failed ≡ none
    → ((exec ("qdisc" ∷ "show" ∷ "dev" ∷ dev ∷ [])).run_err ≡ none)
      × ((apply lib dev p exec).qdisc ≡ lib.trim (exec ("qdisc" ∷ "show" ∷ "dev" ∷ dev ∷ [])).out)
      × (lib.contains (lib.trim (exec ("qdisc" ∷ "show" ∷ "dev" ∷ dev ∷ [])).out) "netem"
          ≡ not (is_clean p))
      × (is_clean p ≡ false → (exec (args lib dev p)).run_err ≡ none)
unfolding apply
apply_proves lib dev p exec =
    after_run_lem lib (lib.joined ("tc" ∷ args lib dev p)) p (exec (args lib dev p))
      (exec ("qdisc" ∷ "show" ∷ "dev" ∷ dev ∷ [])) (exec (args lib dev p)).run_err
