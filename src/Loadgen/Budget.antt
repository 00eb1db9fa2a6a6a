-- ===== src/Loadgen/Budget.antt =====
-- internal/loadgen/run.go, `runStep`: the slots of a step share a budget of calls. Each goroutine is
-- a slot, and a tick is one action of one of them: asking for more, or ending its call. What the
-- clock and the context say at that moment is part of the tick, so any interleaving is a list of
-- ticks. The call itself, its outcome's fields and printing are left out.
pub mod Spending
use callstorm.Prelude.{
  ℕ, zero, suc, ◌+◌, ℤ, pos, negsuc, leb_ℤ, ltb_ℤ, Bool, true, false, not, Option, none, some, List,
  [], ◌∷◌, if◌then◌else◌, get_elem?, set, replicate, length,
}
use callstorm.Loadgen.Outcome.{Step}

pub data Slot : Type 0 where
  asking calling stopped : Slot

pub record Pool : Type 0 where
  pub remaining : ℤ
  pub slots : List Slot
  pub started : ℕ
  pub outcomes : ℕ

pub record Tick : Type 0 where
  pub slot : ℕ
  pub cancelled : Bool
  pub expired : Bool

abbrev pub is_held : Step → Bool
is_held step = ltb_ℤ (pos 0) step.hold

abbrev pub decrement : ℤ → ℤ
decrement (pos zero) = negsuc 0
decrement (pos (suc n)) = pos n
decrement (negsuc n) = negsuc (suc n)

-- Whether the slot places a call, and what remains.
unfoldable pub more : Bool → Tick → ℤ → Bool × ℤ
more held t r =
    if t.cancelled
    then (false, r)
    else (if held then (not t.expired, r) else (leb_ℤ (pos 0) (decrement r), decrement r))

abbrev pub place : ℕ → Bool × ℤ → Pool → Pool
place i (true, r) p = record p {
  remaining = r;
  slots = set p.slots i calling;
  started = suc p.started;
}
place i (false, r) p = record p { remaining = r; slots = set p.slots i stopped }

abbrev pub act : Bool → Tick → Option Slot → Pool → Pool
act held t none p = p
act held t (some stopped) p = p
act held t (some calling) p = record p {
  slots = set p.slots t.slot asking;
  outcomes = suc p.outcomes;
}
act held t (some asking) p = place t.slot (more held t p.remaining) p

unfoldable pub run_ticks : Bool → List Tick → Pool → Pool
unfolding more
run_ticks held [] p = p
run_ticks held (t ∷ ts) p = run_ticks held ts (act held t (get_elem? p.slots t.slot) p)

abbrev pub open_pool : Step → Pool
open_pool step = record {
  remaining = pos step.calls;
  slots = replicate step.concurrency asking;
  started = 0;
  outcomes = 0;
}

-- `runStep`, as far as the ticks go.
unfoldable pub run_step : Step → List Tick → Pool
unfolding run_ticks
run_step step ticks = run_ticks (is_held step) ticks (open_pool step)
