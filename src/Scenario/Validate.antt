-- ===== src/Scenario/Validate.antt =====
-- internal/scenario/scenario.go, `validate`: every refusal in the order of the source. An error is
-- a constructor with the values that the source formats into its message.
use callstorm.Prelude.{
  ℕ, suc, ℤ, pos, ltb_ℤ, leb_ℤ, String, str_eq, Bool, true, false, not, ◌&&◌, ◌||◌, Option, none,
  some, List, [], ◌∷◌, ◌++◌, if◌then◌else◌, length, ◌==◌, Result, ok, err, ◌>>=◌, ◌>>◌, refuse,
}
use callstorm.Scenario.{Library, Branch, Expect, Turn, Target, Scenario, node_ids}

pub data Error : Type 0 where
  name_required caller_voice_required no_turns : Error
  duplicate_id : ℕ → String → Error
  empty_say : ℕ → Error
  empty_expect empty_phrase : String → Error
  bad_barge_in barge_in_not_positive : ℕ → Error
  first_barges_in : Error
  branch_condition branch_say : ℕ → ℕ → Error
  unknown_goto : ℕ → ℕ → String → Error
  negative_max_turns needs_max_turns max_turns_too_small bad_pause negative_pause : Error

unfoldable pub mem : String → List String → Bool
mem x [] = false
mem x (y ∷ ys) = if str_eq y x then true else mem x ys

abbrev pub is_empty : String → Bool
is_empty s = str_eq s ""

abbrev pub no_phrase : List String → Bool
no_phrase [] = true
no_phrase _ = false

abbrev pub or_default : String → String → String
or_default s d = if is_empty s then d else s

unfoldable pub defaults : Target → Target
defaults t = record t {
  voice = or_default t.voice "aura-2-apollo-en";
  think_model = or_default t.think_model "gpt-4o-mini";
  listen_model = or_default t.listen_model "nova-3";
}

module _ (lib : Library) where
  -- The first loop: default ids, and none twice.
  unfoldable pub name_turns : ℕ → List String → List Turn → Result Error (List Turn)
  unfolding mem
  name_turns i seen [] = ok []
  name_turns i seen (t ∷ ts) =
      let id = if is_empty t.id then lib.turn_name (suc i) else t.id in
      refuse (mem id seen) (duplicate_id (suc i) id)
      >> (name_turns (suc i) (id ∷ seen) ts >>= λ rest. ok ((record t { id = id }) ∷ rest))

  unfoldable pub check_phrases : String → List String → Result Error (Unit {0})
  check_phrases id [] = ok tt
  check_phrases id (p ∷ ps) =
      refuse (is_empty (lib.trim p)) (empty_phrase id) >> check_phrases id ps

  abbrev pub check_expect : String → Option Expect → Result Error (Unit {0})
  check_expect id none = ok tt
  check_expect id (some x) =
      refuse (no_phrase x.said_any && no_phrase x.not_said) (empty_expect id)
      >> check_phrases id (x.said_any ++ x.not_said)

  abbrev pub check_delay : ℕ → Option ℤ → Result Error (Unit {0})
  check_delay i none = err (bad_barge_in (suc i))
  check_delay i (some d) = do
    refuse (leb_ℤ d (pos 0)) (barge_in_not_positive (suc i))
    refuse (i == 0) first_barges_in
    ok tt

  unfoldable pub check_barge_in : ℕ → String → Result Error (Unit {0})
  check_barge_in i after =
      if is_empty after then ok tt else check_delay i (lib.parse_duration after)

  -- The branches of turn `i`, from branch `j`. The result says whether one jumps.
  unfoldable pub check_branches : ℕ → List String → ℕ → List Branch → Bool → Result Error Bool
  unfolding mem
  check_branches i ids j [] jumps = ok jumps
  check_branches i ids j (b ∷ bs) jumps = do
    refuse (is_empty b.if_agent_said) (branch_condition (suc i) (suc j))
    refuse (is_empty b.say) (branch_say (suc i) (suc j))
    refuse (not (is_empty b.goto) && not (mem b.goto ids)) (unknown_goto (suc i) (suc j) b.goto)
    check_branches i ids (suc j) bs (jumps || not (is_empty b.goto))

  unfoldable pub check_turns : ℕ → List String → List Turn → Bool → Result Error Bool
  unfolding check_phrases check_barge_in check_branches
  check_turns i ids [] jumps = ok jumps
  check_turns i ids (t ∷ ts) jumps = do
    refuse (is_empty t.say) (empty_say (suc i))
    check_expect t.id t.expect
    check_barge_in i t.barge_in_after
    jumps' ← check_branches i ids 0 t.branch jumps
    check_turns (suc i) ids ts jumps'

  abbrev pub check_parsed : Option ℤ → Result Error (Unit {0})
  check_parsed none = err bad_pause
  check_parsed (some d) = refuse (ltb_ℤ d (pos 0)) negative_pause

  unfoldable pub check_pause : String → Result Error (Unit {0})
  check_pause p = if is_empty p then ok tt else check_parsed (lib.parse_duration p)

  unfoldable pub validate : Scenario → Result Error Scenario
  unfolding name_turns check_turns check_pause defaults node_ids
  validate s = do
    refuse (is_empty s.name) name_required
    refuse (is_empty s.caller_voice) caller_voice_required
    refuse (length s.turns == 0) no_turns
    ts ← name_turns 0 [] s.turns
    jumps ← check_turns 0 (node_ids ts) ts false
    refuse (ltb_ℤ s.max_turns (pos 0)) negative_max_turns
    refuse (jumps && (leb_ℤ s.max_turns (pos 0) && leb_ℤ (pos 0) s.max_turns)) needs_max_turns
    refuse (not jumps && (ltb_ℤ (pos 0) s.max_turns && ltb_ℤ s.max_turns (pos (length s.turns))))
        max_turns_too_small
    check_pause s.sentence_pause
    ok (record s { turns = ts; target = defaults s.target })
