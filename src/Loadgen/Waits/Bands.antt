-- ===== src/Loadgen/Waits/Bands.antt =====
-- The bands of internal/loadgen/callshape.go count every timed turn once.
use callstorm.Prelude.{
  ℕ, suc, ltb, ◌+◌, ◌≡◌, ℤ, String, Option, none, some, List, [], ◌∷◌, ◌++◌, if◌then◌else◌,
  if_intro, count_if, count_if_yes, count_if_no, count_if-append, arith,
}
use callstorm.Metrics.Turn.{TurnMetric}
use callstorm.Loadgen.Outcome.{CallOutcome, turns_of, turns_if}
use callstorm.Loadgen.Waits.{
  WaitBands, Shape, Texts, add_wait, put_turn, is_timed, shape_turns, shape_calls, repeated_replies,
  connected_turns, turns_when,
}

-- The bands of `w` have `n` turns more than those of `v`, each in one band.
pub record Banded (v w : WaitBands) (n : ℕ) : Type 0 where
  pub counted : w.turns ≡ v.turns + n
  pub sorted_out :
      v.turns + (w.up_to_800 + w.to_1200 + w.to_2000 + w.over_2000)
      ≡ w.turns + (v.up_to_800 + v.to_1200 + v.to_2000 + v.over_2000)

add_wait-Banded : (d : ℤ) (w : WaitBands) → Banded w (add_wait d w) 1
unfolding add_wait
add_wait-Banded d w = record { counted = ground arith; sorted_out = ground arith }

Banded-trans :
    (u v w : WaitBands) (n m k : ℕ) → k ≡ n + m → Banded u v n → Banded v w m → Banded u w k
Banded-trans u v w n m k e a b = record {
  counted = omega (arith, a.counted, b.counted);
  sorted_out = omega (arith, a.counted, b.counted, a.sorted_out, b.sorted_out);
}

no_turns-Banded : (w : WaitBands) → Banded w w 0
no_turns-Banded w = record { counted = omega arith; sorted_out = omega arith }

shape_turns-Banded :
    (ts : List TurnMetric) (s : Shape)
    → Banded s.bands (shape_turns ts s).bands (count_if is_timed ts)
unfolding shape_turns
shape_turns-Banded [] s = no_turns-Banded s.bands
shape_turns-Banded (t ∷ ts) s =
    let timed : Shape = record s {
      by_turn = put_turn t s.by_turn;
      bands = add_wait t.ttfa s.bands;
    } in
    if_intro (λ (b : Shape). Banded s.bands (shape_turns ts b).bands (count_if is_timed (t ∷ ts)))
      (is_timed t) timed s
      (λ e.
        Banded-trans s.bands timed.bands (shape_turns ts timed).bands 1 (count_if is_timed ts) _
          (omega (arith, count_if_yes is_timed t ts e)) (add_wait-Banded t.ttfa s.bands)
          (shape_turns-Banded ts timed))
      (λ e. rw (count_if_no is_timed t ts e) (shape_turns-Banded ts s))

module _ (texts : Texts) where
  abbrev repeats : List TurnMetric → Shape → Shape
  repeats ts s = record s {
    repeated = s.repeated + repeated_replies texts ts;
    calls_with = if ltb 0 (repeated_replies texts ts) then suc s.calls_with else s.calls_with;
  }

  -- The bands of a step count its timed turns, each in one band.
  pub shape_calls-Banded :
      (os : List CallOutcome) (s : Shape)
      → Banded s.bands
          (shape_calls texts (connected_turns os) s).bands
          (count_if is_timed (turns_of os))
  unfolding shape_calls connected_turns turns_of
  shape_calls-Banded [] s = no_turns-Banded s.bands
  shape_calls-Banded (o ∷ os) s = call (λ s'. shape_calls-Banded os s') o.err
    where
      call :
          ((s' : Shape)
            → Banded s'.bands
                (shape_calls texts (connected_turns os) s').bands
                (count_if is_timed (turns_of os)))
          → (e : Option String)
          → Banded s.bands
              (shape_calls texts (turns_when e o.turns ++ connected_turns os) s).bands
              (count_if is_timed (turns_if e o.turns ++ turns_of os))
      call rest (some why) = rest s
      call rest none =
          let s' : Shape = shape_turns o.turns (repeats o.turns s) in
          Banded-trans s.bands s'.bands (shape_calls texts (connected_turns os) s').bands
            (count_if is_timed o.turns) (count_if is_timed (turns_of os)) _
            (count_if-append is_timed o.turns (turns_of os))
            (shape_turns-Banded o.turns (repeats o.turns s)) (rest s')
