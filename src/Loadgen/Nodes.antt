-- ===== src/Loadgen/Nodes.antt =====
-- internal/loadgen/nodes.go: how each node of the scenario fared over one step. The map of the
-- source with its list of new keys is one list, in order of the first visit. A rate is in
-- thousandths.
pub mod Visited
pub mod Counts
use callstorm.Prelude.{
  ℕ, suc, ◌+◌, ◌*◌, ◌/◌, ltb, String, str_eq, Bool, true, false, not, ◌&&◌, Option, none, some,
  List, [], ◌∷◌, ◌++◌, map, if◌then◌else◌,
}
use callstorm.Metrics.Turn.{TurnMetric}
use callstorm.Loadgen.Outcome.{CallOutcome}

pub record NodeStats : Type 0 where
  pub node : String
  pub visits : ℕ
  pub checked : ℕ
  pub passed : ℕ
  pub pass_rate : ℕ
  pub miss : String

abbrev pub fresh : String → NodeStats
fresh id = record { node = id; visits = 0; checked = 0; passed = 0; pass_rate = 0; miss = "" }

-- One visit to a node.
abbrev pub count_visit : TurnMetric → NodeStats → NodeStats
count_visit t n = record n {
  visits = suc n.visits;
  checked = if t.expect_checked then suc n.checked else n.checked;
  passed = if t.expect_checked && t.expect_met then suc n.passed else n.passed;
  miss = if t.expect_checked && not t.expect_met && str_eq n.miss "" then t.expect_miss else n.miss;
}

unfoldable pub put_visit : TurnMetric → List NodeStats → List NodeStats
put_visit t [] = count_visit t (fresh t.node) ∷ []
put_visit t (n ∷ ns) =
    let rest = put_visit t ns in if str_eq n.node t.node then (count_visit t n ∷ ns) else (n ∷ rest)

unfoldable pub tally_turns : List TurnMetric → List NodeStats → List NodeStats
unfolding put_visit
tally_turns [] by = by
tally_turns (t ∷ ts) by = tally_turns ts (if str_eq t.node "" then by else put_visit t by)

abbrev pub tally_call : Option String → List TurnMetric → List NodeStats → List NodeStats
tally_call (some why) ts by = by
tally_call none ts by = tally_turns ts by

unfoldable pub tally : List CallOutcome → List NodeStats → List NodeStats
unfolding tally_turns
tally [] by = by
tally (o ∷ os) by = tally os (tally_call o.err o.turns by)

unfoldable pub entry_of : List NodeStats → String → NodeStats
entry_of [] id = fresh id
entry_of (n ∷ ns) id = if str_eq n.node id then n else entry_of ns id

abbrev pub is_placed : List String → String → Bool
is_placed [] id = false
is_placed (x ∷ xs) id = if str_eq x id then true else is_placed xs id

unfoldable pub unplaced : List String → List NodeStats → List NodeStats
unplaced order [] = []
unplaced order (n ∷ ns) =
    let rest = unplaced order ns in if is_placed order n.node then rest else (n ∷ rest)

-- `round3` of the share that passed.
abbrev pub rated : NodeStats → NodeStats
rated n = record n {
  pass_rate =
      if ltb 0 n.checked then (2000 * n.passed + n.checked) / (2 * n.checked) else n.pass_rate;
}

abbrev pub rows : List String → List NodeStats → List NodeStats
rows order [] = []
rows order (n ∷ ns) = map rated (map (entry_of (n ∷ ns)) order ++ unplaced order (n ∷ ns))

unfoldable pub summarize_nodes : List CallOutcome → List String → List NodeStats
unfolding tally entry_of unplaced
summarize_nodes outcomes order = rows order (tally outcomes [])
