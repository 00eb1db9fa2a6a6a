-- ===== src/Worker/Walk/Order.antt =====
-- A script without jumps is spoken in the order of its file (internal/worker/worker.go, `Run`).
use callstorm.Prelude.{◌≡◌, ◌⊎◌, String, true, false, List, [], ◌∷◌}
use callstorm.Metrics.Turn.{TurnMetric}
use callstorm.Scenario.{Turn, Scenario}
use callstorm.Worker.Walk.{Walked, walked, panicked, ends_call}

-- The nodes that a call spoke, in order, and whether it ended early on a failed turn.
abbrev pub nodes_of : List TurnMetric → List String
nodes_of [] = []
nodes_of (m ∷ ms) = m.node ∷ nodes_of ms

-- The walk spoke exactly `ids`, or a prefix of them that ends with a failed turn.
abbrev pub Spoke : List String → List TurnMetric → Type 0
Spoke ids [] = ids ≡ []
Spoke [] (m ∷ ms) = ⊥
Spoke (x ∷ ids) (m ∷ ms) =
    (m.node ≡ x) × (((ends_call m ≡ true) × (ms ≡ [])) ⊎ ((ends_call m ≡ false) × Spoke ids ms))

abbrev pub SpokeIn : List String → Walked → Type 0
SpokeIn ids (walked ms) = Spoke ids ms
SpokeIn ids (panicked ms) = ⊥
