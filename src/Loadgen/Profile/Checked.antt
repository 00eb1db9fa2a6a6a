-- ===== src/Loadgen/Profile/Checked.antt =====
-- What a load profile has once `validate` accepts it (internal/loadgen/profile.go).
use callstorm.Prelude.{
  ℕ, suc, ◌≤◌, ◌<◌, ◌≡◌, ◌≢◌, ◌⊎◌, inl, inr, refl, sym, ◌∙◌, pos, ltb, ltb_ℤ, String, str_eq,
  str_eq_iff, Bool, true, false, not, ◌&&◌, ◌||◌, List, [], ◌∷◌, if◌then◌else◌, ok, Result, refuse,
  arith, All, All-map, Any, Bool-cases, bind_inv, refuse_inv, ok-injective, not-false, ltb→le, ◌≤ℤ◌,
}
use mathlib.Core.Path.{subst}
use mathlib.Core.Bool.{true≢false}
use callstorm.Scenario.Validate.{mem}
use callstorm.Scenario.Checked.{DistinctIds, fresh_ids}
use callstorm.Loadgen.Outcome.{Step}
use callstorm.Loadgen.Profile.{
  Profile, phase, size_step, check_step, check_steps, step_names, base_concurrency, check_recovery,
  check_recoveries, validate, is_none, first_name, kinds, Error,
}

-- A step that can run: a slot at least, and calls for every slot or a time to hold, never both.
pub record IsSized (s : Step) : Type 0 where
  pub slots : 1 ≤ s.concurrency
  pub held : pos 0 ≤ℤ s.hold
  pub limited :
      ((s.hold ≡ pos 0) × (s.concurrency ≤ s.calls))
      ⊎ ((ltb_ℤ (pos 0) s.hold ≡ true) × (s.calls ≡ 0))

-- A recovery stands at the baseline's concurrency, after a step above it.
abbrev pub RecoversAfter : ℕ → List Step → List Step → Type 0
RecoversAfter base before [] = Unit
RecoversAfter base before (s ∷ ss) =
    (phase s ≡ "recovery"
      → (s.concurrency ≡ base) × Any (λ (t : Step). base < t.concurrency) before)
    × RecoversAfter base (s ∷ before) ss

pub record IsRunnable (p : Profile) : Type 0 where
  pub distinct : DistinctIds (step_names p.steps)
  pub sized : All IsSized p.steps
  pub has_baseline : mem p.baseline (step_names p.steps) ≡ true
  pub recovers :
      All (λ (s : Step). s.name ≡ p.baseline → RecoversAfter s.concurrency [] p.steps) p.steps

equal_of : (a b : ℕ) → (ltb a b || ltb b a) ≡ false → a ≡ b
equal_of a b h = ground arith

over_now :
    (base c : ℕ) {Before : Type 0} (stressed : Bool)
    → (stressed ≡ true → Before)
    → (stressed || ltb base c) ≡ true
    → (base < c) ⊎ Before
over_now base c true h e = inr (h refl)
over_now base c false h e = inl (ground arith)

accepted :
    (bad : Bool) (why : Error) {u : Unit {0}}
    → ◌≡◌ {A = Result Error (Unit {0})} (refuse bad why) (ok u)
    → bad ≡ false
accepted false why e = refl
accepted true why e = cc

recovery_seen : (s : Step) → not (str_eq (phase s) "recovery") ≡ true → phase s ≢ "recovery"
recovery_seen s h e = ground (arith, str_eq_iff (phase s) "recovery")

check_recoveries-RecoversAfter :
    (base i : ℕ) (stressed : Bool) (before ss : List Step)
    → (stressed ≡ true → Any (λ (t : Step). base < t.concurrency) before)
    → check_recoveries base i stressed ss ≡ ok tt
    → RecoversAfter base before ss
unfolding check_recoveries
check_recoveries-RecoversAfter base i stressed before [] h e = tt
check_recoveries-RecoversAfter base i stressed before (s ∷ ss) h e =
    elim (Bool-cases (not (str_eq (phase s) "recovery"))) [
      | inl c ↦ (
        (λ r. absurd (recovery_seen s c r)),
        check_recoveries-RecoversAfter base (suc i) (stressed || ltb base s.concurrency)
            (s ∷ before) ss (over_now base s.concurrency stressed h) (rw (c) at e),
      )
      | inr c ↦
          let (u, a, e1) = bind_inv (check_recovery base i stressed s) _ (rw (c) at e) in
          let (same, a1) = refuse_inv _ _ _ a in
          let over = accepted (not stressed) _ a1 in
          (
            (λ r. (equal_of _ _ same, h (not-false stressed over))),
            check_recoveries-RecoversAfter base (suc i) stressed (s ∷ before) ss (λ x. inr (h x))
                e1,
          )
    ]

base_absent :
    (b : String) (c : ℕ) (ss : List Step)
    → mem b (step_names ss) ≡ false
    → (base_concurrency b c ss ≡ c) × All (λ (s : Step). s.name ≢ b) ss
unfolding base_concurrency mem step_names
base_absent b c [] h = (refl, tt)
base_absent b c (s ∷ ss) h = elim (Bool-cases (str_eq s.name b)) [
  | inl e ↦ absurd (true≢false (rw (e) at h))
  | inr e ↦
      let (same, rest) = base_absent b c ss (rw (e) at h) in
      (rw (e) same, (λ q. ground (arith, str_eq_iff s.name b), rest))
]

base_of_name :
    (b : String) (c : ℕ) (ss : List Step) {base : ℕ}
    → base_concurrency b c ss ≡ base
    → DistinctIds (step_names ss)
    → All (λ (s : Step). s.name ≡ b → base ≡ s.concurrency) ss
unfolding base_concurrency mem step_names
base_of_name b c [] h d = tt
base_of_name b c (s ∷ ss) h d = elim (Bool-cases (str_eq s.name b)) [
  | inl e ↦
      let named : s.name ≡ b = (str_eq_iff s.name b).0 e in
      let (same, absent) = base_absent b s.concurrency ss (rw (← named) d.0) in
      (
        (λ q. sym (rw (e) at h) ∙ same),
        All-map (λ (t : Step). t.name ≢ b) _ (λ t n q. absurd (n q)) ss absent,
      )
  | inr e ↦ ((λ q. ground (arith, str_eq_iff s.name b)), base_of_name b c ss (rw (e) at h) d.1)
]

size_step-IsSized :
    (s s' : Step)
    → ltb s.concurrency 1 ≡ false
    → ltb_ℤ s.hold (pos 0) ≡ false
    → (ltb_ℤ (pos 0) s.hold && ltb 0 s.calls) ≡ false
    → size_step s ≡ ok s'
    → IsSized s' × (s'.name ≡ s.name)
unfolding size_step
size_step-IsSized s s' a b c e = elim (Bool-cases (ltb_ℤ (pos 0) s.hold)) [
  | inl h ↦
      rw (← ok-injective {a = s} {b = s'} (rw (h) at e)) (
        record { slots = ground arith; held = ground arith; limited = inr (h, ground arith) },
        refl,
      )
  | inr h ↦
      let calls : ℕ = if ltb s.calls 1 then s.concurrency else s.calls in
      let (filled, e1) = refuse_inv (ltb calls s.concurrency) _ _ (rw (h) at e) in
      let timed : s.hold ≡ pos 0 = ground arith in
      let room : s.concurrency ≤ calls = ltb→le calls s.concurrency filled in
      rw (← ok-injective e1)
        (record { slots = ground arith; held = ground arith; limited = inl (timed, room) }, refl)
]

check_step-IsSized :
    (names : List String) (s s' : Step)
    → check_step names s ≡ ok s'
    → (mem s.name names ≡ false) × IsSized s' × (s'.name ≡ s.name)
unfolding check_step
check_step-IsSized names s s' e =
    let (new, e1) = refuse_inv (mem s.name names) _ _ e in
    let (slots, e2) = refuse_inv (ltb s.concurrency 1) _ _ e1 in
    let (known, e3) = refuse_inv (not (str_eq s.kind "") && not (mem s.kind kinds)) _ _ e2 in
    let (held, e4) = refuse_inv (ltb_ℤ s.hold (pos 0)) _ _ e3 in
    let (both, e5) = refuse_inv (ltb_ℤ (pos 0) s.hold && ltb 0 s.calls) _ _ e4 in
    let (sized, same) = size_step-IsSized s s' slots held both e5 in (new, sized, same)

check_steps-IsSized :
    (step_name : ℕ → String) (i : ℕ) (names : List String) (ss ss' : List Step)
    → check_steps step_name i names ss ≡ ok ss'
    → DistinctIds (step_names ss')
      × All (λ y. mem y names ≡ false) (step_names ss')
      × All IsSized ss'
unfolding check_steps step_names
check_steps-IsSized step_name i names [] ss' e = rw (← ok-injective e) (tt, tt, tt)
check_steps-IsSized step_name i names (s ∷ ss) ss' e =
    let name : String = if str_eq s.name "" then step_name (suc i) else s.name in
    let (s', e1, e2) = bind_inv (check_step names (record s { name = name })) _ e in
    let (rest, e3, e4) = bind_inv (check_steps step_name (suc i) (name ∷ names) ss) _ e2 in
    let (new, sized, same) = check_step-IsSized names (record s { name = name }) s' e1 in
    let (d, f, z) = check_steps-IsSized step_name (suc i) (name ∷ names) ss rest e3 in
    let (here, there) = fresh_ids name (step_names rest) names f in
    rw (← ok-injective e4, same) ((here, d), (new, there), (sized, z))

-- A profile that `validate` accepts has steps with distinct names, one of them the baseline, every
-- step has a slot and either calls for all its slots or a time to hold, and every recovery runs at
-- the concurrency of the baseline after a step above it.
pub validate-IsRunnable :
    (step_name : ℕ → String) (p p' : Profile) → validate step_name p ≡ ok p' → IsRunnable p'
unfolding validate
validate-IsRunnable step_name p p' e =
    let (some_step, e1) = refuse_inv (is_none p.steps) _ _ e in
    let (ss, stepped, e2) = bind_inv (check_steps step_name 0 [] p.steps) _ e1 in
    let base : String = if str_eq p.baseline "" then first_name ss else p.baseline in
    let (there, e3) = refuse_inv (not (mem base (step_names ss))) _ _ e2 in
    let (u, recovered, e4) =
      bind_inv (check_recoveries (base_concurrency base 0 ss) 0 false ss) _ e3 in
    let (d, f, z) = check_steps-IsSized step_name 0 [] p.steps ss stepped in
    let after =
      check_recoveries-RecoversAfter (base_concurrency base 0 ss) 0 false [] ss (λ w. cc)
        recovered in
    let q : Profile = record p { baseline = base; steps = ss } in
    let same : q ≡ p' = ok-injective e4 in
    subst IsRunnable same (record {
      distinct = d;
      sized = z;
      has_baseline = not-false _ there;
      recovers =
          All-map _ _ (λ t h n. subst (λ c. RecoversAfter c [] ss) (h n) after) ss
            (base_of_name base 0 ss refl d);
    })
