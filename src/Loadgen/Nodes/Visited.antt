-- ===== src/Loadgen/Nodes/Visited.antt =====
-- A step in which a turn stands at a node has an entry in the tally of internal/loadgen/nodes.go.
use callstorm.Prelude.{
  ◌≡◌, ◌≢◌, ◌⊎◌, inl, inr, String, str_eq, str_eq_iff, true, Option, none, some, List, [], ◌∷◌,
  ◌++◌, if◌then◌else◌, if_intro, Any,
}
use callstorm.Metrics.Turn.{TurnMetric}
use callstorm.Loadgen.Outcome.{CallOutcome, turns_of, turns_if}
use callstorm.Loadgen.Nodes.{NodeStats, put_visit, tally_turns, tally_call, tally}

-- A turn that stands at a node.
abbrev pub IsVisit : TurnMetric → Type 0
IsVisit t = t.node ≢ ""

put_visit-ne : (by : List NodeStats) (t : TurnMetric) → put_visit t by ≢ []
unfolding put_visit
put_visit-ne [] t = λ e. cc
put_visit-ne (n ∷ ns) t =
    if_intro (λ (l : List NodeStats). l ≢ []) (str_eq n.node t.node) _ _ (λ q z. cc) (λ q z. cc)

tally_turns-ne :
    (ts : List TurnMetric) (by : List NodeStats)
    → (by ≢ []) ⊎ Any IsVisit ts
    → tally_turns ts by ≢ []
unfolding tally_turns
tally_turns-ne [] by (inl h) = h
tally_turns-ne [] by (inr v) = absurd v
tally_turns-ne (t ∷ ts) by h = tally_turns-ne ts (if str_eq t.node "" then by else put_visit t by) (
    if_intro (λ (l : List NodeStats). (l ≢ []) ⊎ Any IsVisit ts) (str_eq t.node "") _ _
      (λ e. passed e h) (λ e. inl (put_visit-ne by t)))
  where
    passed : str_eq t.node "" ≡ true → (by ≢ []) ⊎ Any IsVisit (t ∷ ts) → (by ≢ []) ⊎ Any IsVisit ts
    passed e (inl full) = inl full
    passed e (inr (inl v)) = absurd (v ((str_eq_iff t.node "").0 e))
    passed e (inr (inr later)) = inr later

Any-split : (ts us : List TurnMetric) → Any IsVisit (ts ++ us) → Any IsVisit ts ⊎ Any IsVisit us
Any-split [] us h = inr h
Any-split (t ∷ ts) us (inl v) = inl (inl v)
Any-split (t ∷ ts) us (inr h) = elim (Any-split ts us h) [ inl a ↦ inl (inr a) | inr b ↦ inr b ]

tally_call-ne :
    (e : Option String) (ts : List TurnMetric) (by : List NodeStats)
    → (by ≢ []) ⊎ Any IsVisit (turns_if e ts)
    → tally_call e ts by ≢ []
tally_call-ne none ts by h = tally_turns-ne ts by h
tally_call-ne (some why) ts by (inl h) = h
tally_call-ne (some why) ts by (inr v) = absurd v

pub tally-ne :
    (os : List CallOutcome) (by : List NodeStats)
    → (by ≢ []) ⊎ Any IsVisit (turns_of os)
    → tally os by ≢ []
unfolding tally turns_of
tally-ne [] by (inl h) = h
tally-ne [] by (inr v) = absurd v
tally-ne (o ∷ os) by (inl h) =
    tally-ne os (tally_call o.err o.turns by) (inl (tally_call-ne o.err o.turns by (inl h)))
tally-ne (o ∷ os) by (inr v) = elim (Any-split (turns_if o.err o.turns) (turns_of os) v) [
  | inl a ↦ tally-ne os (tally_call o.err o.turns by) (inl (tally_call-ne o.err o.turns by (inr a)))
  | inr b ↦ tally-ne os (tally_call o.err o.turns by) (inr b)
]
