-- ===== src/Loadgen/Budget/Spending.antt =====
-- How the budget of a step is spent (internal/loadgen/run.go, `runStep`).
use callstorm.Prelude.{
  ℕ, zero, suc, ◌+◌, ◌≤◌, ◌<◌, ◌≡◌, refl, sym, ◌∙◌, ap, ℤ, pos, negsuc, leb_ℤ, Bool, true, false,
  Option, none, some, List, [], ◌∷◌, if◌then◌else◌, if_intro, get_elem?, set, replicate, length,
  length-set, length-replicate, count_if, All, some-inj, arith,
}
use mathlib.Core.Bool.{true≢false}
use callstorm.Loadgen.Outcome.{Step}
use callstorm.Loadgen.Budget.{
  Slot, asking, calling, stopped, Pool, Tick, is_held, more, decrement, place, act, run_ticks,
  open_pool, run_step,
}

abbrev pub is_calling : Slot → Bool
is_calling calling = true
is_calling asking = false
is_calling stopped = false

abbrev pub is_stopped : Slot → Bool
is_stopped stopped = true
is_stopped asking = false
is_stopped calling = false

-- What is left of `calls` after `started` of them.
abbrev Spent : ℕ → ℤ → ℕ → Type 0
Spent calls (pos r) started = started + r ≡ calls
Spent calls (negsuc r) started = started ≡ calls

abbrev IsNegative : ℤ → Type 0
IsNegative (pos r) = ⊥
IsNegative (negsuc r) = Unit {0}

-- What holds of the slots and the budget at any moment.
record Kept (calls slots : ℕ) (p : Pool) : Type 0 where
  budget : Spent calls p.remaining p.started
  open_calls : p.started ≡ p.outcomes + count_if is_calling p.slots
  wide : length p.slots ≡ slots

-- Without a cancellation a slot only stops once the budget is spent.
abbrev Dry : Pool → Type 0
Dry p = 0 < count_if is_stopped p.slots → IsNegative p.remaining

count_if-set :
    (test : Slot → Bool) (xs : List Slot) (i : ℕ) (x y : Slot)
    → get_elem? xs i ≡ some x
    → count_if test (set xs i y) + (if test x then 1 else 0)
      ≡ count_if test xs + (if test y then 1 else 0)
count_if-set test [] i x y e = cc
count_if-set test (s ∷ xs) zero x y e = ground (arith, ap test (some-inj e))
count_if-set test (s ∷ xs) (suc i) x y e = omega (arith, count_if-set test xs i x y e)

some_left : (n : ℕ) → leb_ℤ (pos 0) (pos n) ≡ true
some_left n = ground arith

none_left : (n : ℕ) → leb_ℤ (pos 0) (negsuc n) ≡ false
none_left n = ground arith

module _ {calls slots : ℕ} (i : ℕ) (p : Pool) (v : Kept calls slots p) where
  stop-Kept :
      (r : ℤ)
      → get_elem? p.slots i ≡ some asking
      → Spent calls r p.started
      → Kept calls slots (place i (false, r) p)
  stop-Kept r at b = record {
    budget = b;
    open_calls = omega (arith, v.open_calls, count_if-set is_calling p.slots i asking stopped at);
    wide = length-set p.slots i stopped ∙ v.wide;
  }

  start-Kept :
      (r : ℤ)
      → get_elem? p.slots i ≡ some asking
      → Spent calls r (suc p.started)
      → Kept calls slots (place i (true, r) p)
  start-Kept r at b = record {
    budget = b;
    open_calls = omega (arith, v.open_calls, count_if-set is_calling p.slots i asking calling at);
    wide = length-set p.slots i calling ∙ v.wide;
  }

  spend-Kept :
      (r : ℤ)
      → Spent calls r p.started
      → get_elem? p.slots i ≡ some asking
      → Kept calls slots (place i (leb_ℤ (pos 0) (decrement r), decrement r) p)
  spend-Kept (pos zero) b at = stop-Kept (negsuc 0) at (omega (arith, b))
  spend-Kept (pos (suc n)) b at = rw (some_left n) (start-Kept (pos n) at (omega (arith, b)))
  spend-Kept (negsuc n) b at = rw (none_left (suc n)) (stop-Kept (negsuc (suc n)) at b)

act-Kept :
    {calls slots : ℕ} (t : Tick) (s : Option Slot) (p : Pool)
    → get_elem? p.slots t.slot ≡ s
    → Kept calls slots p
    → Kept calls slots (act false t s p)
unfolding more
act-Kept t none p at v = v
act-Kept t (some stopped) p at v = v
act-Kept t (some calling) p at v = record {
  budget = v.budget;
  open_calls =
      omega (arith, v.open_calls, count_if-set is_calling p.slots t.slot calling asking at);
  wide = length-set p.slots t.slot asking ∙ v.wide;
}
act-Kept {calls} {slots} t (some asking) p at v =
    if_intro (λ (m : Bool × ℤ). Kept calls slots (place t.slot m p)) t.cancelled _ _
      (λ e. stop-Kept t.slot p v p.remaining at v.budget)
      (λ e. spend-Kept t.slot p v p.remaining v.budget at)

run_ticks-Kept :
    {calls slots : ℕ} (ts : List Tick) (p : Pool)
    → Kept calls slots p
    → Kept calls slots (run_ticks false ts p)
unfolding run_ticks
run_ticks-Kept [] p v = v
run_ticks-Kept (t ∷ ts) p v = run_ticks-Kept ts _ (act-Kept t _ p refl v)

spend-Dry :
    (i : ℕ) (r : ℤ) (p : Pool)
    → get_elem? p.slots i ≡ some asking
    → (0 < count_if is_stopped p.slots → IsNegative r)
    → Dry (place i (leb_ℤ (pos 0) (decrement r), decrement r) p)
spend-Dry i (pos zero) p at d = λ h. tt
spend-Dry i (pos (suc n)) p at d =
    rw (some_left n)
      (λ h. d (omega (arith, h, count_if-set is_stopped p.slots i asking calling at)))
spend-Dry i (negsuc n) p at d = rw (none_left (suc n)) (λ h. tt)

act-Dry :
    (t : Tick) (s : Option Slot) (p : Pool)
    → t.cancelled ≡ false
    → get_elem? p.slots t.slot ≡ s
    → Dry p
    → Dry (act false t s p)
unfolding more
act-Dry t none p quiet at d = d
act-Dry t (some stopped) p quiet at d = d
act-Dry t (some calling) p quiet at d =
    λ h. d (omega (arith, h, count_if-set is_stopped p.slots t.slot calling asking at))
act-Dry t (some asking) p quiet at d =
    if_intro (λ (m : Bool × ℤ). Dry (place t.slot m p)) t.cancelled _ _
      (λ e. absurd (true≢false (sym e ∙ quiet))) (λ e. spend-Dry t.slot p.remaining p at d)

abbrev pub Quiet : Tick → Type 0
Quiet t = t.cancelled ≡ false

run_ticks-Dry : (ts : List Tick) (p : Pool) → All Quiet ts → Dry p → Dry (run_ticks false ts p)
unfolding run_ticks
run_ticks-Dry [] p q d = d
run_ticks-Dry (t ∷ ts) p (q, qs) d = run_ticks-Dry ts _ qs (act-Dry t _ p q refl d)

none_of :
    (test : Slot → Bool) (n : ℕ) → test asking ≡ false → count_if test (replicate n asking) ≡ 0
none_of test zero e = refl
none_of test (suc n) e = ground (arith, none_of test n e)

open_pool-Kept : (step : Step) → Kept step.calls step.concurrency (open_pool step)
open_pool-Kept step = record {
  budget = omega arith;
  open_calls = omega (arith, none_of is_calling step.concurrency refl);
  wide = length-replicate step.concurrency asking;
}

count_if-le : (test : Slot → Bool) (xs : List Slot) → count_if test xs ≤ length xs
count_if-le test [] = omega arith
count_if-le test (x ∷ xs) = ground (arith, count_if-le test xs)

within : (calls : ℕ) (r : ℤ) (n : ℕ) → Spent calls r n → n ≤ calls
within calls (pos r) n b = omega (arith, b)
within calls (negsuc r) n b = omega (arith, b)

-- However the slots of a step that is not held interleave, and whether or not it is cancelled, it
-- never starts more calls than it has, never has more under way than its concurrency, and every call
-- that was started is under way or has its outcome.
pub run_step_bounds :
    (step : Step) (ticks : List Tick)
    → is_held step ≡ false
    → ((run_step step ticks).started ≤ step.calls)
      × (count_if is_calling (run_step step ticks).slots ≤ step.concurrency)
      × ((run_step step ticks).started
          ≡ (run_step step ticks).outcomes + count_if is_calling (run_step step ticks).slots)
unfolding run_step
run_step_bounds step ticks e = rw (e) (
    let p = run_ticks false ticks (open_pool step) in
    let v = run_ticks-Kept ticks (open_pool step) (open_pool-Kept step) in
    (
      within step.calls p.remaining p.started v.budget,
      omega (arith, v.wide, count_if-le is_calling p.slots),
      v.open_calls,
    ))

exhausted : (calls : ℕ) (r : ℤ) (n : ℕ) → IsNegative r → Spent calls r n → n ≡ calls
exhausted calls (pos r) n d b = absurd d
exhausted calls (negsuc r) n d b = b

idle_slots :
    (xs : List Slot)
    → All (λ s. is_stopped s ≡ true) xs
    → (count_if is_calling xs ≡ 0) × (count_if is_stopped xs ≡ length xs)
idle_slots [] h = (refl, refl)
idle_slots (stopped ∷ xs) (h, hs) = omega (arith, idle_slots xs hs)
idle_slots (asking ∷ xs) (h, hs) = cc
idle_slots (calling ∷ xs) (h, hs) = cc

-- A step that is not held nor cancelled, has a slot and whose slots have all stopped placed exactly
-- the calls it has and kept an outcome for each, whatever the interleaving.
pub run_step_complete :
    (step : Step) (ticks : List Tick)
    → is_held step ≡ false
    → 0 < step.concurrency
    → All Quiet ticks
    → All (λ s. is_stopped s ≡ true) (run_step step ticks).slots
    → ((run_step step ticks).started ≡ step.calls) × ((run_step step ticks).outcomes ≡ step.calls)
unfolding run_step
run_step_complete step ticks e wide quiet = rw (e) done
  where
    done :
        All (λ s. is_stopped s ≡ true) (run_ticks false ticks (open_pool step)).slots
        → ((run_ticks false ticks (open_pool step)).started ≡ step.calls)
          × ((run_ticks false ticks (open_pool step)).outcomes ≡ step.calls)
    done stop =
        let p = run_ticks false ticks (open_pool step) in
        let v = run_ticks-Kept ticks (open_pool step) (open_pool-Kept step) in
        let d =
          run_ticks-Dry ticks (open_pool step) quiet
            (λ h. absurd (omega (arith, h, none_of is_stopped step.concurrency refl))) in
        let (idle, all) = idle_slots p.slots stop in
        let n =
          exhausted step.calls p.remaining p.started (d (omega (arith, all, v.wide))) v.budget in
        (n, omega (arith, n, v.open_calls, idle))
