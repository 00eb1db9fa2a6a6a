-- ===== src/Worker/Walk.antt =====
-- internal/worker/worker.go, `Run`: the walk over the scenario graph.
--
-- What the connection does in a turn is the argument `speak`: from the turn's number, the line, the
-- instant to cut the reply short, whether the line barges in and what the agent said last, the
-- measured turn and what the agent has said by then. `Formats` are the texts that the source builds
-- with fmt. An index out of range is a panic.
pub mod Total
pub mod Order
use callstorm.Prelude.{
  ℕ, zero, suc, ◌+◌, ◌-◌, ℤ, pos, ltb_ℤ, String, str_eq, Bool, true, false, not, ◌&&◌, Option, none,
  some, List, [], ◌∷◌, if◌then◌else◌, length, get_elem?,
}
use callstorm.Metrics.Turn.{TurnMetric}
use callstorm.Scenario.{
  Library, Expect, Turn, Scenario, Miss, choose, barge_in, check, index, turn_limit,
}

pub record Formats : Type 0 where
  pub miss_text : Miss → String
  pub no_reply : String → String

pub data Walked : Type 0 where
  walked : List TurnMetric → Walked
  panicked : List TurnMetric → Walked

abbrev pub Speak : Type 0
Speak = ℕ → String → ℤ → Bool → String → TurnMetric × String

unfoldable pub prepend : TurnMetric → Walked → Walked
prepend m (walked ms) = walked (m ∷ ms)
prepend m (panicked ms) = panicked (m ∷ ms)

-- The node after this one: the next in the file, or the one that the branch names.
unfoldable pub next_node : List Turn → ℕ → String → Option ℕ
next_node nodes i jump = if str_eq jump "" then some (suc i) else index nodes jump

-- A failed turn ends the call unless it only timed out.
unfoldable pub ends_call : TurnMetric → Bool
ends_call m = m.failed && not (str_eq m.fail_reason "turn timeout")

-- The turn is over: `rest` goes on at a node, with what the agent has said by then.
unfoldable pub after_turn : (ℕ → String → Walked) → ℕ → TurnMetric → String → Walked
unfolding ends_call prepend
after_turn rest k m last = if ends_call m then walked (m ∷ []) else prepend m (rest k last)

module _ (lib : Library) (formats : Formats) where
  abbrev checked : TurnMetric → Bool × Miss → TurnMetric
  checked m (met, miss) = record m {
    expect_checked = true;
    expect_met = met;
    expect_miss = formats.miss_text miss;
  }

  -- The assertion of a node on the reply.
  unfoldable pub expect_turn : Option Expect → TurnMetric → TurnMetric
  expect_turn none m = m
  expect_turn (some x) m =
      if str_eq m.agent_text ""
      then record m { expect_checked = true; expect_miss = formats.no_reply m.fail_reason }
      else checked m (check lib x m.agent_text)

  unfoldable pub tag_turn : Turn → String → TurnMetric → TurnMetric
  unfolding expect_turn
  tag_turn t matched m = expect_turn t.expect (record m { branch = matched; node = t.id })

  abbrev barge_of : Option Turn → ℤ
  barge_of none = pos 0
  barge_of (some t) = barge_in lib t

  abbrev is_last : ℕ → Bool
  is_last zero = true
  is_last _ = false

  -- `interruptAfter`, with `left` turns allowed after this one.
  unfoldable pub interrupt_after : List Turn → ℕ → ℕ → ℤ
  interrupt_after nodes left next = if is_last left then pos 0 else barge_of (get_elem? nodes next)

  abbrev pub say_turn : Speak → ℕ → Turn → String → String → ℤ → String → TurnMetric × String
  say_turn speak n t say matched cut last =
      let (m, last') = speak (suc n) say cut (ltb_ℤ (pos 0) (barge_in lib t)) last in
      (tag_turn t matched m, last')

  -- A jump to no node is an index of -1, which panics when it is read: at once for the next line's
  -- barge-in if a turn is left, and else never.
  unfoldable pub lost : Speak → ℕ → ℕ → Turn → String → String → String → Walked
  unfolding tag_turn
  lost speak zero n t say matched last =
      walked ((say_turn speak n t say matched (pos 0) last).0 ∷ [])
  lost speak (suc left) n t say matched last = panicked []

  unfoldable pub follow :
      Speak
      → List Turn
      → ℕ
      → ℕ
      → Turn
      → String
      → String
      → String
      → (ℕ → String → Walked)
      → Option ℕ
      → Walked
  unfolding after_turn lost interrupt_after
  follow speak nodes left n t say matched last rest none = lost speak left n t say matched last
  follow speak nodes left n t say matched last rest (some k) =
      let (m, last') = say_turn speak n t say matched (interrupt_after nodes left k) last in
      after_turn rest k m last'

  unfoldable pub visit :
      Speak → List Turn → ℕ → ℕ → ℕ → String → (ℕ → String → Walked) → Option Turn → Walked
  unfolding follow next_node
  visit speak nodes left n i last rest none = walked []
  visit speak nodes left n i last rest (some t) =
      let (say, matched, jump) = choose lib t last in
      follow speak nodes left n t say matched last rest (next_node nodes i jump)

  -- `left` turns are allowed from here: turn_limit - n.
  unfoldable pub walk : Speak → List Turn → ℕ → ℕ → ℕ → String → Walked
  unfolding visit
  walk speak nodes zero n i last = walked []
  walk speak nodes (suc left) n i last =
      visit speak nodes left n i last (walk speak nodes left (suc n)) (get_elem? nodes i)

  -- The turns of a call after the greeting `last`.
  unfoldable pub run : Speak → Scenario → String → Walked
  unfolding walk turn_limit
  run speak s last = walk speak s.turns (turn_limit s) 0 0 last
