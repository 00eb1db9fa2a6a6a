-- ===== src/Scenario.antt =====
-- internal/scenario/scenario.go: the script of a synthetic caller, a graph of nodes.
--
-- `Library` is what the code uses of Go's library: case folding, substring search, trimming, the
-- decimal text of a default id and the parser of durations (nanoseconds).
pub mod Validate
pub mod Checked
use callstorm.Prelude.{
  ℕ, zero, suc, ◌+◌, ℤ, pos, ltb_ℤ, ◌<◌, String, str_eq, Bool, true, false, not, ◌&&◌, Option, none,
  some, List, [], ◌∷◌, ◌++◌, map, if◌then◌else◌, length,
}

pub record Library : Type 0 where
  pub lower : String → String
  pub contains : String → String → Bool
  pub trim : String → String
  pub turn_name : ℕ → String
  pub parse_duration : String → Option ℤ

pub record Branch : Type 0 where
  pub if_agent_said : String
  pub say : String
  pub goto : String

pub record Expect : Type 0 where
  pub said_any : List String
  pub not_said : List String

pub record Turn : Type 0 where
  pub id : String
  pub say : String
  pub expect : Option Expect
  pub barge_in_after : String
  pub branch : List Branch

pub record Target : Type 0 where
  pub prompt : String
  pub greeting : String
  pub voice : String
  pub think_model : String
  pub listen_model : String

pub record Scenario : Type 0 where
  pub name : String
  pub persona : String
  pub caller_voice : String
  pub target : Target
  pub turns : List Turn
  pub sentence_pause : String
  pub success_criteria : List String
  pub max_turns : ℤ

-- Why a reply missed its assertion.
pub data Miss : Type 0 where
  no_miss : Miss
  said : String → Miss
  said_none : List String → Miss

module _ (lib : Library) where
  -- The first of the phrases that a reply contains.
  unfoldable pub first_said : String → List String → Option String
  first_said reply [] = none
  first_said reply (p ∷ ps) =
      if lib.contains reply (lib.lower p) then some p else first_said reply ps

  abbrev any_said : Option String → Expect → Bool × Miss
  any_said none x = (false, said_none x.said_any)
  any_said (some p) x = (true, no_miss)

  abbrev wanted : String → Expect → List String → Bool × Miss
  wanted reply x [] = (true, no_miss)
  wanted reply x (p ∷ ps) = any_said (first_said reply (p ∷ ps)) x

  abbrev unwanted : Option String → String → Expect → Bool × Miss
  unwanted (some p) reply x = (false, said p)
  unwanted none reply x = wanted reply x x.said_any

  -- `Expect.Check`.
  unfoldable pub check : Expect → String → Bool × Miss
  unfolding first_said
  check x reply = let r = lib.lower reply in unwanted (first_said r x.not_said) r x

  -- `positive`.
  abbrev non_negative : Option ℤ → ℤ
  non_negative none = pos 0
  non_negative (some d) = if ltb_ℤ d (pos 0) then pos 0 else d

  unfoldable pub positive : String → ℤ
  positive s = non_negative (lib.parse_duration s)

  -- `Turn.BargeIn` and `Pacing.Pause`.
  unfoldable pub barge_in : Turn → ℤ
  unfolding positive
  barge_in t = positive t.barge_in_after

  unfoldable pub pause : Scenario → ℤ
  unfolding positive
  pause s = positive s.sentence_pause

  -- `Turn.Choose`: the line, the phrase that selected it, the node to jump to.
  unfoldable pub choose_branch : String → String → List Branch → String × String × String
  choose_branch heard say [] = (say, "", "")
  choose_branch heard say (b ∷ bs) =
      if lib.contains heard (lib.lower b.if_agent_said)
      then (b.say, b.if_agent_said, b.goto)
      else choose_branch heard say bs

  unfoldable pub choose : Turn → String → String × String × String
  unfolding choose_branch
  choose t agent_said = choose_branch (lib.lower agent_said) t.say t.branch

-- `Scenario.Lines`.
unfoldable pub branch_lines : List Branch → List String
branch_lines [] = []
branch_lines (b ∷ bs) = b.say ∷ branch_lines bs

unfoldable pub lines : List Turn → List String
unfolding branch_lines
lines [] = []
lines (t ∷ ts) = t.say ∷ (branch_lines t.branch ++ lines ts)

-- `Scenario.NodeIDs`.
unfoldable pub node_ids : List Turn → List String
node_ids [] = []
node_ids (t ∷ ts) = t.id ∷ node_ids ts

-- `Scenario.Index`, with `none` for -1.
unfoldable pub index : List Turn → String → Option ℕ
index [] id = none
index (t ∷ ts) id = if str_eq t.id id then some 0 else next (index ts id)
  where
    next : Option ℕ → Option ℕ
    next none = none
    next (some i) = some (suc i)

abbrev pub to_count : ℤ → ℕ
to_count (pos n) = n
to_count _ = 0

-- `Scenario.TurnLimit`.
unfoldable pub turn_limit : Scenario → ℕ
turn_limit s = if ltb_ℤ (pos 0) s.max_turns then to_count s.max_turns else length s.turns
