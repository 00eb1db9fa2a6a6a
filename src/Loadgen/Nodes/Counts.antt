-- ===== src/Loadgen/Nodes/Counts.antt =====
-- What the rows of internal/loadgen/nodes.go count.
use callstorm.Prelude.{
  ◌+◌, ◌≡◌, refl, ap, ◌≢◌, inl, inr, String, str_eq, str_eq_iff, true, false, ◌&&◌, Option, none,
  some, List, [], ◌∷◌, ◌++◌, map, if◌then◌else◌, if_intro, str_eq_apart, Bool-cases, count_if,
  count_if-append, Any, Any-append_left, arith,
}
use callstorm.Metrics.Turn.{TurnMetric}
use callstorm.Loadgen.Outcome.{CallOutcome, turns_of, turns_if}
use callstorm.Loadgen.Nodes.{
  NodeStats, fresh, count_visit, put_visit, tally_turns, tally_call, tally, entry_of, is_placed,
  rated, rows, summarize_nodes,
}
use callstorm.Loadgen.Nodes.Visited.{IsVisit, tally-ne}

-- What turns say of a node.
pub record IsTallied (id : String) (ts : List TurnMetric) (n : NodeStats) : Type 0 where
  pub named : n.node ≡ id
  pub visited : n.visits ≡ count_if (λ (t : TurnMetric). str_eq t.node id) ts
  pub asserted : n.checked ≡ count_if (λ (t : TurnMetric). str_eq t.node id && t.expect_checked) ts
  pub met :
      n.passed
      ≡ count_if (λ (t : TurnMetric). str_eq t.node id && (t.expect_checked && t.expect_met)) ts

entry_of-put_visit :
    (by : List NodeStats) (t : TurnMetric) (id : String)
    → entry_of (put_visit t by) id
      ≡ (if str_eq t.node id then count_visit t (entry_of by id) else entry_of by id)
unfolding entry_of put_visit
entry_of-put_visit [] t id = elim (Bool-cases (str_eq t.node id)) [
  | inl e ↦ rw (e) (ap (λ i. count_visit t (fresh i)) ((str_eq_iff t.node id).0 e))
  | inr e ↦ rw (e) refl
]
entry_of-put_visit (n ∷ ns) t id =
    if_intro
      (λ (l : List NodeStats).
        entry_of l id
        ≡ (if str_eq t.node id then count_visit t (entry_of (n ∷ ns) id) else entry_of (n ∷ ns) id))
      (str_eq n.node t.node) _ _ (λ e. here ((str_eq_iff n.node t.node).0 e))
      (there (entry_of-put_visit ns t id))
  where
    there :
        entry_of (put_visit t ns) id
          ≡ (if str_eq t.node id then count_visit t (entry_of ns id) else entry_of ns id)
        → str_eq n.node t.node ≡ false
        → entry_of (n ∷ put_visit t ns) id ≡ (
            if str_eq t.node id then count_visit t (entry_of (n ∷ ns) id) else entry_of (n ∷ ns) id)
    there ih e = elim (Bool-cases (str_eq n.node id)) [
      | inl g ↦ let f = str_eq_apart n.node t.node id e g in rw (f, g) refl
      | inr g ↦ rw (g) ih
    ]

    here :
        n.node ≡ t.node
        → entry_of (count_visit t n ∷ ns) id ≡ (
            if str_eq t.node id then count_visit t (entry_of (n ∷ ns) id) else entry_of (n ∷ ns) id)
    here same = elim (Bool-cases (str_eq t.node id)) [
      | inl f ↦ let g : str_eq n.node id ≡ true = rw (same) f in rw (f, g) refl
      | inr f ↦ let g : str_eq n.node id ≡ false = rw (same) f in rw (f, g) refl
    ]

-- What `ts` add to the entry of a node.
record Grew (id : String) (ts : List TurnMetric) (n m : NodeStats) : Type 0 where
  named : n.node ≡ id → m.node ≡ id
  visited : m.visits ≡ n.visits + count_if (λ (t : TurnMetric). str_eq t.node id) ts
  asserted :
      m.checked ≡ n.checked + count_if (λ (t : TurnMetric). str_eq t.node id && t.expect_checked) ts
  met :
      m.passed
      ≡ n.passed
        + count_if (λ (t : TurnMetric). str_eq t.node id && (t.expect_checked && t.expect_met)) ts

unnamed-Grew :
    (t : TurnMetric) (id : String) (n : NodeStats) → str_eq t.node id ≡ false → Grew id (t ∷ []) n n
unnamed-Grew t id n e = record {
  named = λ q. q;
  visited = ground arith;
  asserted = ground arith;
  met = ground arith;
}

count_visit-Grew :
    (t : TurnMetric) (id : String) (n : NodeStats)
    → Grew id (t ∷ []) n (if str_eq t.node id then count_visit t n else n)
count_visit-Grew t id n =
    if_intro (Grew id (t ∷ []) n) (str_eq t.node id) _ _
      (λ e. record {
        named = λ q. q;
        visited = ground arith;
        asserted = ground arith;
        met = ground arith;
      })
      (λ e. unnamed-Grew t id n e)

Grew-cons :
    (id : String) (t : TurnMetric) (ts : List TurnMetric) (n m k : NodeStats)
    → Grew id (t ∷ []) n m
    → Grew id ts m k
    → Grew id (t ∷ ts) n k
Grew-cons id t ts n m k a b = record {
  named = λ q. b.named (a.named q);
  visited = omega (arith, a.visited, b.visited);
  asserted = omega (arith, a.asserted, b.asserted);
  met = omega (arith, a.met, b.met);
}

tally_turns-Grew :
    (id : String)
    → id ≢ ""
    → (ts : List TurnMetric) (by : List NodeStats)
    → Grew id ts (entry_of by id) (entry_of (tally_turns ts by) id)
unfolding tally_turns
tally_turns-Grew id some_id [] by = record {
  named = λ q. q;
  visited = omega arith;
  asserted = omega arith;
  met = omega arith;
}
tally_turns-Grew id some_id (t ∷ ts) by =
    let by' : List NodeStats = if str_eq t.node "" then by else put_visit t by in
    Grew-cons id t ts (entry_of by id) (entry_of by' id) _
      (if_intro (λ (l : List NodeStats). Grew id (t ∷ []) (entry_of by id) (entry_of l id))
        (str_eq t.node "") by (put_visit t by)
        (λ e.
          unnamed-Grew t id (entry_of by id)
            (ground (arith, some_id, str_eq_iff t.node "", str_eq_iff t.node id)))
        (λ e. rw (entry_of-put_visit by t id) (count_visit-Grew t id (entry_of by id))))
      (tally_turns-Grew id some_id ts by')

Grew-append :
    (id : String) (ts us : List TurnMetric) (n m k : NodeStats)
    → Grew id ts n m
    → Grew id us m k
    → Grew id (ts ++ us) n k
Grew-append id ts us n m k a b = record {
  named = λ q. b.named (a.named q);
  visited =
      omega
        (arith, a.visited, b.visited, count_if-append (λ (t : TurnMetric). str_eq t.node id) ts us);
  asserted = omega (
    arith,
    a.asserted,
    b.asserted,
    count_if-append (λ (t : TurnMetric). str_eq t.node id && t.expect_checked) ts us,
  );
  met = omega (
    arith,
    a.met,
    b.met,
    count_if-append (λ (t : TurnMetric). str_eq t.node id && (t.expect_checked && t.expect_met)) ts
        us,
  );
}

tally-Grew :
    (id : String)
    → id ≢ ""
    → (os : List CallOutcome) (by : List NodeStats)
    → Grew id (turns_of os) (entry_of by id) (entry_of (tally os by) id)
unfolding tally turns_of
tally-Grew id some_id [] by = record {
  named = λ q. q;
  visited = omega arith;
  asserted = omega arith;
  met = omega arith;
}
tally-Grew id some_id (o ∷ os) by =
    Grew-append id (turns_if o.err o.turns) (turns_of os) _
      (entry_of (tally_call o.err o.turns by) id) _ (call-Grew o.err)
      (tally-Grew id some_id os (tally_call o.err o.turns by))
  where
    call-Grew :
        (e : Option String)
        → Grew id (turns_if e o.turns) (entry_of by id) (entry_of (tally_call e o.turns by) id)
    call-Grew none = tally_turns-Grew id some_id o.turns by
    call-Grew (some why) = record {
      named = λ q. q;
      visited = omega arith;
      asserted = omega arith;
      met = omega arith;
    }

-- The entry of a node after the tally counts the visits to it.
tally-IsTallied :
    (id : String)
    → id ≢ ""
    → (os : List CallOutcome) → IsTallied id (turns_of os) (entry_of (tally os []) id)
unfolding entry_of
tally-IsTallied id some_id os =
    let g = tally-Grew id some_id os [] in
    record {
      named = g.named refl;
      visited = omega (arith, g.visited);
      asserted = omega (arith, g.asserted);
      met = omega (arith, g.met);
    }

placed_row :
    (id : String) (ts : List TurnMetric) (by : List NodeStats) (order : List String)
    → is_placed order id ≡ true
    → IsTallied id ts (entry_of by id)
    → Any (IsTallied id ts) (map (entry_of by) order)
placed_row id ts by [] h t = cc
placed_row id ts by (x ∷ xs) h t = elim (Bool-cases (str_eq x id)) [
  | inl e ↦ inl (rw ((str_eq_iff x id).0 e) t)
  | inr e ↦ inr (placed_row id ts by xs (rw (e) at h) t)
]

rated-Any :
    (id : String) (ts : List TurnMetric) (ns : List NodeStats)
    → Any (IsTallied id ts) ns
    → Any (IsTallied id ts) (map rated ns)
rated-Any id ts [] h = absurd h
rated-Any id ts (n ∷ ns) (inl t) =
    inl (record { named = t.named; visited = t.visited; asserted = t.asserted; met = t.met })
rated-Any id ts (n ∷ ns) (inr h) = inr (rated-Any id ts ns h)

-- If a turn of a call that connected stands at a node, each node of the scenario has a row that counts
-- its visits over the calls that connected, those with an assertion and those that met it.
pub summarize_nodes-IsTallied :
    (os : List CallOutcome) (order : List String) (id : String)
    → id ≢ ""
    → is_placed order id ≡ true
    → Any IsVisit (turns_of os)
    → Any (IsTallied id (turns_of os)) (summarize_nodes os order)
unfolding summarize_nodes
summarize_nodes-IsTallied os order id some_id placed visited =
    row (tally os []) (tally-IsTallied id some_id os) (tally-ne os [] (inr visited))
  where
    row :
        (by : List NodeStats)
        → IsTallied id (turns_of os) (entry_of by id)
        → by ≢ []
        → Any (IsTallied id (turns_of os)) (rows order by)
    row [] t x = absurd (x refl)
    row (n ∷ ns) t x = rated-Any id (turns_of os) _ (
        Any-append_left (IsTallied id (turns_of os)) (map (entry_of (n ∷ ns)) order) _
          (placed_row id (turns_of os) (n ∷ ns) order placed t))
