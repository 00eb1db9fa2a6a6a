-- ===== src/Scenario/Checked.antt =====
-- What internal/scenario/scenario.go guarantees of a scenario that `validate` accepts.
use callstorm.Prelude.{
  ℕ, suc, ◌≤◌, ◌<◌, ◌≡◌, ◌≢◌, ◌⊎◌, inl, inr, refl, ap, ℤ, pos, ltb_ℤ, leb_ℤ, String, str_eq,
  str_eq_iff, Bool, true, false, not, ◌&&◌, some, List, [], ◌∷◌, if◌then◌else◌, length, ◌==◌, ok,
  arith, All, Bool-cases, bind_inv, refuse_inv, ok-injective,
}
use mathlib.Core.Path.{subst}
use callstorm.Scenario.{Library, Branch, Turn, Scenario, node_ids, index, turn_limit, to_count}
use callstorm.Scenario.Validate.{
  mem, is_empty, name_turns, check_branches, check_turns, check_expect, check_barge_in, check_pause,
  validate, defaults,
}

abbrev pub DistinctIds : List String → Type 0
DistinctIds [] = Unit
DistinctIds (x ∷ xs) = (mem x xs ≡ false) × DistinctIds xs

-- A branch stays, or jumps to a node that is there.
abbrev pub Lands : List Turn → Branch → Type 0
Lands ts b = (b.goto ≢ "") → (k : ℕ) × (index ts b.goto ≡ some k) × (k < length ts)

abbrev pub Stays : Branch → Type 0
Stays b = b.goto ≡ ""

abbrev pub Linear : List Turn → Type 0
Linear ts = All (λ (t : Turn). All Stays t.branch) ts

index-mem :
    (ts : List Turn) (x : String)
    → mem x (node_ids ts) ≡ true
    → (k : ℕ) × (index ts x ≡ some k) × (k < length ts)
unfolding mem node_ids index
index-mem [] x h = cc
index-mem (t ∷ ts) x h = elim (Bool-cases (str_eq t.id x)) [
  | inl e ↦ (0, rw e, omega arith)
  | inr e ↦ let (k, found, lt) = index-mem ts x (rw e at h) in (suc k, rw (e, found), omega arith)
]

pub fresh_ids :
    (x : String) (ids seen : List String)
    → All (λ y. mem y (x ∷ seen) ≡ false) ids
    → (mem x ids ≡ false) × All (λ y. mem y seen ≡ false) ids
unfolding mem
fresh_ids x [] seen h = (refl, tt)
fresh_ids x (y ∷ ids) seen (h, hs) =
    let (here, there) = fresh_ids x ids seen hs in
    (
      ground (arith, h, here, str_eq_iff x y, str_eq_iff y x),
      (ground (arith, h, str_eq_iff x y), there),
    )

module _ (lib : Library) where
  name_turns_fresh :
      (i : ℕ) (seen : List String) (ts ts' : List Turn)
      → name_turns lib i seen ts ≡ ok ts'
      → DistinctIds (node_ids ts')
        × All (λ y. mem y seen ≡ false) (node_ids ts')
        × (length ts' ≡ length ts)
  unfolding name_turns node_ids
  name_turns_fresh i seen [] ts' e = rw (← ok-injective e) (tt, tt, refl)
  name_turns_fresh i seen (t ∷ ts) ts' e =
      let id : String = if is_empty t.id then lib.turn_name (suc i) else t.id in
      let (new, e1) = refuse_inv (mem id seen) _ _ e in
      let (rest, e2, e3) = bind_inv (name_turns lib (suc i) (id ∷ seen) ts) _ e1 in
      let (d, f, n) = name_turns_fresh (suc i) (id ∷ seen) ts rest e2 in
      let (here, there) = fresh_ids id (node_ids rest) seen f in
      rw (← ok-injective e3) ((here, d), (new, there), ap suc n)

  check_branches-Lands :
      (ts : List Turn) (i j : ℕ) (bs : List Branch) (jumps jumps' : Bool)
      → check_branches lib i (node_ids ts) j bs jumps ≡ ok jumps'
      → All (Lands ts) bs
        × (All Stays bs → jumps ≡ false → jumps' ≡ false)
        × (jumps' ≡ false → (jumps ≡ false) × All Stays bs)
  unfolding check_branches
  check_branches-Lands ts i j [] jumps jumps' e =
      let same : jumps ≡ jumps' = ok-injective e in (tt, λ _ j. cc, λ j. (cc, tt))
  check_branches-Lands ts i j (b ∷ bs) jumps jumps' e =
      let (c1, e1) = refuse_inv (is_empty b.if_agent_said) _ _ e in
      let (c2, e2) = refuse_inv (is_empty b.say) _ _ e1 in
      let (c3, e3) = refuse_inv (not (is_empty b.goto) && not (mem b.goto (node_ids ts))) _ _ e2 in
      let (l, stay, back) = check_branches-Lands ts i (suc j) bs _ jumps' e3 in
      (
        (λ ne. index-mem ts b.goto (ground (arith, c3, str_eq_iff b.goto "", ne)), l),
        (λ st j. stay st.1 (ground (arith, str_eq_iff b.goto "", st.0, j))),
        (λ j.
            let (none_yet, rest) = back j in
            (ground (arith, none_yet), (ground (arith, none_yet, str_eq_iff b.goto ""), rest))),
      )

  check_turns-Lands :
      (all : List Turn) (i : ℕ) (ts : List Turn) (jumps jumps' : Bool)
      → check_turns lib i (node_ids all) ts jumps ≡ ok jumps'
      → All (λ (t : Turn). All (Lands all) t.branch) ts
        × (Linear ts → jumps ≡ false → jumps' ≡ false)
        × (jumps' ≡ false → (jumps ≡ false) × Linear ts)
  unfolding check_turns
  check_turns-Lands all i [] jumps jumps' e =
      let same : jumps ≡ jumps' = ok-injective e in (tt, λ _ j. cc, λ j. (cc, tt))
  check_turns-Lands all i (t ∷ ts) jumps jumps' e =
      let (c1, e1) = refuse_inv (is_empty t.say) _ _ e in
      let (u, q, e2) = bind_inv (check_expect lib t.id t.expect) _ e1 in
      let (v, q', e3) = bind_inv (check_barge_in lib i t.barge_in_after) _ e2 in
      let (j, found, e4) = bind_inv (check_branches lib i (node_ids all) 0 t.branch jumps) _ e3 in
      let (l, stay, back) = check_branches-Lands all i 0 t.branch jumps j found in
      let (ls, stays, backs) = check_turns-Lands all (suc i) ts j jumps' e4 in
      (
        (l, ls),
        (λ st z. stays st.1 (stay st.0 z)),
        (λ z. let (a, b) = backs z in let (c, d) = back a in (c, (d, b))),
      )

-- What holds of a scenario that was accepted.
pub record IsChecked (s : Scenario) : Type 0 where
  pub distinct : DistinctIds (node_ids s.turns)
  pub nonempty : 0 < length s.turns
  pub lands : All (λ (t : Turn). All (Lands s.turns) t.branch) s.turns
  pub bounded : Linear s.turns ⊎ (ltb_ℤ (pos 0) s.max_turns ≡ true)
  pub room : Linear s.turns → length s.turns ≤ turn_limit s

bound_of :
    (z : ℤ) (jumps : Bool)
    → ltb_ℤ z (pos 0) ≡ false
    → (jumps && (leb_ℤ z (pos 0) && leb_ℤ (pos 0) z)) ≡ false
    → (jumps ≡ false) ⊎ (ltb_ℤ (pos 0) z ≡ true)
bound_of z jumps a b = ground arith

room_of :
    (z : ℤ) (n : ℕ)
    → (ltb_ℤ (pos 0) z && ltb_ℤ z (pos n)) ≡ false
    → n ≤ (if ltb_ℤ (pos 0) z then to_count z else n)
room_of z n a = ground arith

-- A scenario that `validate` accepts has turns with distinct ids, every jump of a branch lands on a
-- node of the scenario, a scenario with jumps has a positive turn limit, and one without has room
-- for all its turns.
pub validate-IsChecked : (lib : Library) (s s' : Scenario) → validate lib s ≡ ok s' → IsChecked s'
unfolding validate turn_limit
validate-IsChecked lib s s' e =
    let (c1, e1) = refuse_inv (is_empty s.name) _ _ e in
    let (c2, e2) = refuse_inv (is_empty s.caller_voice) _ _ e1 in
    let (c3, e3) = refuse_inv (length s.turns == 0) _ _ e2 in
    let (ts, named, e4) = bind_inv (name_turns lib 0 [] s.turns) _ e3 in
    let (jumps, checked, e5) = bind_inv (check_turns lib 0 (node_ids ts) ts false) _ e4 in
    let (c6, e6) = refuse_inv (ltb_ℤ s.max_turns (pos 0)) _ _ e5 in
    let (c7, e7) = refuse_inv _ _ _ e6 in
    let (c8, e8) = refuse_inv _ _ _ e7 in
    let (u, paused, e9) = bind_inv (check_pause lib s.sentence_pause) _ e8 in
    let (d, f, n) = name_turns_fresh lib 0 [] s.turns ts named in
    let (l, stay, back) = check_turns-Lands lib ts 0 ts false jumps checked in
    let positive : 0 < length s.turns = ground (arith, c3) in
    let done : Scenario = record s { turns = ts; target = defaults s.target } in
    let same : done ≡ s' = ok-injective e9 in
    subst IsChecked same (record {
      distinct = d;
      nonempty = omega (arith, n, positive);
      lands = l;
      bounded = elim (bound_of s.max_turns jumps c6 c7) [ inl j ↦ inl (back j).1 | inr p ↦ inr p ];
      room = λ lin. room_of s.max_turns (length ts) (rw (stay lin refl, ← n) at c8);
    })
