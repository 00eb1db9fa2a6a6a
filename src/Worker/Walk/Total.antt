-- ===== src/Worker/Walk/Total.antt =====
-- The walk of internal/worker/worker.go ends within the turn limit and reads no index out of range.
use callstorm.Prelude.{
  ℕ, zero, suc, ◌≤◌, ◌<◌, ◌≡◌, ◌≢◌, inl, inr, refl, ap, sym, some-inj, pos, ltb_ℤ, String, str_eq,
  str_eq_iff, Option, none, some, List, [], ◌∷◌, length, get_elem?, arith, All, Any, Bool-cases,
  if_intro,
}
use mathlib.Core.Path.{subst}
use callstorm.Metrics.Turn.{TurnMetric}
use callstorm.Scenario.{
  Library, barge_in, Branch, Expect, Turn, Scenario, choose, choose_branch, index, turn_limit,
}
use callstorm.Scenario.Checked.{Lands, IsChecked}
use callstorm.Worker.Walk.{
  Formats, Walked, walked, panicked, Speak, prepend, tag_turn, expect_turn, next_node,
  interrupt_after, ends_call, after_turn, follow, visit, walk, run,
}

-- The turns of a walk that did not panic are at most `n`, and each is on a node of `P`.
abbrev pub Within : (TurnMetric → Type 0) → ℕ → Walked → Type 0
Within P n (walked ms) = (length ms ≤ n) × All P ms
Within P n (panicked ms) = ⊥

prepend-Within :
    (P : TurnMetric → Type 0) (n : ℕ) (m : TurnMetric) (w : Walked)
    → P m
    → Within P n w
    → Within P (suc n) (prepend m w)
unfolding prepend
prepend-Within P n m (walked ms) p (le, all) = (omega (arith, le), (p, all))
prepend-Within P n m (panicked ms) p h = absurd h

module _ (lib : Library) (formats : Formats) where
  node-expect_turn :
      (t : Turn) (m : TurnMetric) → (expect_turn lib formats t.expect m).node ≡ m.node
  unfolding expect_turn
  node-expect_turn t m = go t.expect
    where
      go : (o : Option Expect) → (expect_turn lib formats o m).node ≡ m.node
      go none = refl
      go (some x) =
          if_intro (λ (r : TurnMetric). r.node ≡ m.node) (str_eq m.agent_text "") _ _ (λ _. refl)
            (λ _. refl)

  pub node-tag_turn :
      (t : Turn) (matched : String) (m : TurnMetric)
      → (tag_turn lib formats t matched m).node ≡ t.id
  unfolding tag_turn
  node-tag_turn t matched m = node-expect_turn t (record m { branch = matched; node = t.id })

  -- The jump of the branch that is chosen lands, where every branch does.
  choose_branch-Lands :
      (ts : List Turn) (heard say : String) (bs : List Branch)
      → All (Lands ts) bs
      → (choose_branch lib heard say bs).2 ≢ ""
      → (k : ℕ) × (index ts (choose_branch lib heard say bs).2 ≡ some k) × (k < length ts)
  unfolding choose_branch
  choose_branch-Lands ts heard say [] l = λ ne. absurd (ne refl)
  choose_branch-Lands ts heard say (b ∷ bs) l =
      if_intro
        (λ (c : String × String × String).
          c.2 ≢ "" → (k : ℕ) × (index ts c.2 ≡ some k) × (k < length ts))
        (lib.contains heard (lib.lower b.if_agent_said)) _ _ (λ _. l.0)
        (λ _. choose_branch-Lands ts heard say bs l.1)

  next_node-some :
      (ts : List Turn) (i : ℕ) (jump : String)
      → (jump ≢ "" → (k : ℕ) × (index ts jump ≡ some k) × (k < length ts))
      → (k : ℕ) × (next_node ts i jump ≡ some k)
  unfolding next_node
  next_node-some ts i jump h = elim (Bool-cases (str_eq jump "")) [
    | inl e ↦ (suc i, rw e)
    | inr e ↦ let (k, found, lt) = h (λ q. cc (e, (str_eq_iff jump "").1 q)) in (k, rw (e, found))
  ]

  All-get_elem? :
      (P : Turn → Type 0) (ts : List Turn) (i : ℕ) (t : Turn)
      → All P ts
      → get_elem? ts i ≡ some t
      → P t
  All-get_elem? P [] i t h e = cc
  All-get_elem? P (x ∷ ts) zero t h e = subst P (some-inj e) h.0
  All-get_elem? P (x ∷ ts) (suc i) t h e = All-get_elem? P ts i t h.1 e

  -- The turn is on a node of the scenario.
  abbrev pub OnNode : List Turn → TurnMetric → Type 0
  OnNode ts m = Any (λ (t : Turn). m.node ≡ t.id) ts

  Any-get_elem? :
      (ts : List Turn) (i : ℕ) (t : Turn)
      → get_elem? ts i ≡ some t
      → Any (λ (x : Turn). t.id ≡ x.id) ts
  Any-get_elem? [] i t e = cc
  Any-get_elem? (x ∷ ts) zero t e = inl (ap (λ (y : Turn). y.id) (sym (some-inj e)))
  Any-get_elem? (x ∷ ts) (suc i) t e = inr (Any-get_elem? ts i t e)

  OnNode-tag_turn :
      (ts : List Turn) (i : ℕ) (t : Turn)
      → get_elem? ts i ≡ some t
      → (matched : String) (m : TurnMetric) → OnNode ts (tag_turn lib formats t matched m)
  OnNode-tag_turn ts i t e matched m = rw (node-tag_turn t matched m) (Any-get_elem? ts i t e)

  module _ (speak : Speak) (ts : List Turn) where
    after_turn-Within :
        (left k : ℕ) (rest : ℕ → String → Walked) (m : TurnMetric) (last : String)
        → OnNode ts m
        → Within (OnNode ts) left (rest k last)
        → Within (OnNode ts) (suc left) (after_turn rest k m last)
    unfolding after_turn
    after_turn-Within left k rest m last on h =
        if_intro (Within (OnNode ts) (suc left)) (ends_call m) _ _ (λ _. (omega arith, (on, tt)))
          (λ _. prepend-Within (OnNode ts) left m (rest k last) on h)

    follow-Within :
        (left n i k : ℕ) (last say matched : String) (rest : ℕ → String → Walked) (t : Turn)
        → get_elem? ts i ≡ some t
        → ((l : String) → Within (OnNode ts) left (rest k l))
        → Within
            (OnNode ts)
            (suc left)
            (follow lib formats speak ts left n t say matched last rest (some k))
    unfolding follow
    follow-Within left n i k last say matched rest t e h =
        let cut = interrupt_after lib formats ts left k in
        let spoken = speak (suc n) say cut (ltb_ℤ (pos 0) (barge_in lib t)) last in
        after_turn-Within left k rest (tag_turn lib formats t matched (spoken.0)) (spoken.1)
          (OnNode-tag_turn ts i t e matched (spoken.0)) (h (spoken.1))

    visit-Within :
        (left n i : ℕ) (last : String) (rest : ℕ → String → Walked) (o : Option Turn)
        → get_elem? ts i ≡ o
        → All (λ (t : Turn). All (Lands ts) t.branch) ts
        → ((k : ℕ) (l : String) → Within (OnNode ts) left (rest k l))
        → Within (OnNode ts) (suc left) (visit lib formats speak ts left n i last rest o)
    unfolding visit choose
    visit-Within left n i last rest none e l h = (omega arith, tt)
    visit-Within left n i last rest (some t) e l h =
        let (k, found) = next_node-some ts i (choose lib t last).2 (
          choose_branch-Lands ts (lib.lower last) t.say t.branch
            (All-get_elem? (λ (x : Turn). All (Lands ts) x.branch) ts i t l e)) in
        rw found (follow-Within left n i k last _ _ rest t e (h k))

    walk-Within :
        (left n i : ℕ) (last : String)
        → All (λ (t : Turn). All (Lands ts) t.branch) ts
        → Within (OnNode ts) left (walk lib formats speak ts left n i last)
    unfolding walk
    walk-Within zero n i last l = (omega arith, tt)
    walk-Within (suc left) n i last l =
        visit-Within left n i last _ (get_elem? ts i) refl l (λ k s. walk-Within left (suc n) k s l)

  -- A call over an accepted scenario never reads an index out of range, takes at most as many turns
  -- as the limit allows, and each of its turns is on a node of the scenario, whatever is said.
  pub run-Within :
      (speak : Speak) (s : Scenario) (last : String)
      → IsChecked s
      → Within (OnNode s.turns) (turn_limit s) (run lib formats speak s last)
  unfolding run
  run-Within speak s last c = walk-Within speak s.turns (turn_limit s) 0 0 last c.lands
