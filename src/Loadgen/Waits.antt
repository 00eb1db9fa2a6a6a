-- ===== src/Loadgen/Waits.antt =====
-- internal/loadgen/callshape.go: how long callers waited, at each turn of the conversation, and
-- replies that the agent repeated. `Texts` is what the code uses of Go's library: the words of a
-- reply, and joining them.
pub mod Bands
use callstorm.Prelude.{
  ℕ, suc, ◌+◌, ◌*◌, ℤ, pos, ltb, leb, ltb_ℤ, leb_ℤ, String, str_eq, str_ltb, Bool, true, false, not,
  ◌&&◌, ◌||◌, ◌==◌, Option, none, some, List, [], ◌∷◌, ◌++◌, map, if◌then◌else◌, length, sort_on,
}
use callstorm.Metrics.Turn.{TurnMetric}
use callstorm.Loadgen.Outcome.{CallOutcome}
use callstorm.Loadgen.Summary.{Summary, summarize}
use callstorm.Loadgen.Conversation.{dead_air_threshold}

pub record WaitBands : Type 0 where
  pub turns : ℕ
  pub up_to_800 : ℕ
  pub to_1200 : ℕ
  pub to_2000 : ℕ
  pub over_2000 : ℕ

abbrev pub wait_target : ℤ
wait_target = pos 800000000

abbrev pub wait_repeat : ℤ
wait_repeat = pos 1200000000

abbrev pub no_waits : WaitBands
no_waits = record { turns = 0; up_to_800 = 0; to_1200 = 0; to_2000 = 0; over_2000 = 0 }

unfoldable pub add_wait : ℤ → WaitBands → WaitBands
add_wait ttfa w =
    let w' : WaitBands = record w { turns = suc w.turns } in
    if leb_ℤ ttfa wait_target
    then record w' { up_to_800 = suc w.up_to_800 }
    else (if leb_ℤ ttfa wait_repeat
        then record w' { to_1200 = suc w.to_1200 }
        else (if leb_ℤ ttfa dead_air_threshold
            then record w' { to_2000 = suc w.to_2000 }
            else record w' { over_2000 = suc w.over_2000 }))

-- What is gathered of one turn number.
pub record TurnAcc : Type 0 where
  pub turn : ℕ
  pub ttfa : List ℤ
  pub endpointing : List ℤ
  pub think : List ℤ
  pub lines : List (String × ℕ)

pub record TurnWait : Type 0 where
  pub turn : ℕ
  pub caller_line : String
  pub ttfa : Summary
  pub endpointing_p50_ms : ℤ
  pub think_speak_p50_ms : ℤ

unfoldable pub bump_line : String → List (String × ℕ) → List (String × ℕ)
bump_line s [] = (s, 1) ∷ []
bump_line s ((s', n) ∷ m) =
    let rest = bump_line s m in if str_eq s' s then ((s', suc n) ∷ m) else ((s', n) ∷ rest)

unfoldable pub commonest_from : String → ℕ → List (String × ℕ) → String
commonest_from best n [] = best
commonest_from best n ((s, c) ∷ m) =
    let better = ltb n c || ((c == n) && str_ltb s best) in
    commonest_from (if better then s else best) (if better then c else n) m

unfoldable pub commonest : List (String × ℕ) → String
unfolding commonest_from
commonest counts = commonest_from "" 0 counts

abbrev pub when_positive : ℤ → List ℤ → List ℤ
when_positive d ds = if ltb_ℤ (pos 0) d then (ds ++ (d ∷ [])) else ds

unfoldable pub add_turn : TurnMetric → TurnAcc → TurnAcc
unfolding bump_line
add_turn t a = record a {
  ttfa = a.ttfa ++ (t.ttfa ∷ []);
  endpointing = when_positive t.endpointing a.endpointing;
  think = when_positive t.think_speak a.think;
  lines = bump_line t.caller_text a.lines;
}

unfoldable pub put_turn : TurnMetric → List TurnAcc → List TurnAcc
unfolding add_turn
put_turn t [] =
    add_turn t (record { turn = t.turn; ttfa = []; endpointing = []; think = []; lines = [] }) ∷ []
put_turn t (a ∷ as') =
    let rest = put_turn t as' in if a.turn == t.turn then (add_turn t a ∷ as') else (a ∷ rest)

-- A turn that has a wait: the caller finished, and the agent answered.
abbrev pub is_timed : TurnMetric → Bool
is_timed t = not (t.caller_yielded || leb_ℤ t.ttfa (pos 0))

pub record Shape : Type 0 where
  pub by_turn : List TurnAcc
  pub bands : WaitBands
  pub repeated : ℕ
  pub calls_with : ℕ

unfoldable pub shape_turns : List TurnMetric → Shape → Shape
unfolding add_wait put_turn
shape_turns [] s = s
shape_turns (t ∷ ts) s = shape_turns ts (
    if is_timed t
    then record s { by_turn = put_turn t s.by_turn; bands = add_wait t.ttfa s.bands }
    else s)

abbrev pub turn_wait : TurnAcc → TurnWait
turn_wait a = record {
  turn = a.turn;
  caller_line = commonest a.lines;
  ttfa = summarize a.ttfa;
  endpointing_p50_ms = (summarize a.endpointing).p50_ms;
  think_speak_p50_ms = (summarize a.think).p50_ms;
}

unfoldable pub has_word : List String → String → Bool
has_word [] w = false
has_word (x ∷ xs) w = if str_eq x w then true else has_word xs w

-- The distinct words, and how many of them stand in both replies.
unfoldable pub distinct_words : List String → List String
unfolding has_word
distinct_words [] = []
distinct_words (w ∷ ws) = let rest = distinct_words ws in if has_word ws w then rest else (w ∷ rest)

unfoldable pub count_both : List String → List String → List String → ℕ
unfolding has_word
count_both a b [] = 0
count_both a b (w ∷ ws) = (if has_word a w && has_word b w then 1 else 0) + count_both a b ws

pub record Texts : Type 0 where
  pub words : String → List String
  pub join : List String → String

abbrev pub is_wordless : List String → Bool
is_wordless [] = true
is_wordless (w ∷ ws) = false

abbrev pub no_shape : Shape
no_shape = record { by_turn = []; bands = no_waits; repeated = 0; calls_with = 0 }

abbrev pub by_number : TurnAcc → ℤ
by_number a = pos a.turn

unfoldable pub turn_waits : Shape → List TurnWait
unfolding sort_on summarize commonest
turn_waits s = map turn_wait (sort_on by_number s.by_turn)

module _ (texts : Texts) where
  unfoldable pub same_reply : List String → List String → Bool
  unfolding distinct_words count_both
  same_reply a b =
      if str_eq (texts.join a) (texts.join b)
      then true
      else (if ltb (length a) 4 || ltb (length b) 4
          then false
          else (leb (8 * length (distinct_words (a ++ b)))
              (10 * count_both a b (distinct_words (a ++ b)))))

  unfoldable pub some_same : List (List String) → List String → Bool
  unfolding same_reply
  some_same [] w = false
  some_same (p ∷ seen) w = if same_reply p w then true else some_same seen w

  unfoldable pub repeated_from : List (List String) → List TurnMetric → ℕ
  unfolding some_same
  repeated_from seen [] = 0
  repeated_from seen (t ∷ ts) =
      let w = texts.words t.agent_text in
      (if not (is_wordless w) && some_same seen w then 1 else 0)
      + repeated_from (if is_wordless w then seen else (seen ++ (w ∷ []))) ts

  unfoldable pub repeated_replies : List TurnMetric → ℕ
  unfolding repeated_from
  repeated_replies ts = repeated_from [] ts

  unfoldable pub shape_calls : List (List TurnMetric) → Shape → Shape
  unfolding shape_turns repeated_replies
  shape_calls [] s = s
  shape_calls (ts ∷ calls) s =
      let n = repeated_replies ts in
      shape_calls calls (
        shape_turns ts (record s {
          repeated = s.repeated + n;
          calls_with = if ltb 0 n then suc s.calls_with else s.calls_with;
        }))

-- `connectedTurns`.
abbrev pub turns_when : Option String → List TurnMetric → List (List TurnMetric)
turns_when (some why) ts = []
turns_when none ts = ts ∷ []

unfoldable pub connected_turns : List CallOutcome → List (List TurnMetric)
connected_turns [] = []
connected_turns (o ∷ os) = turns_when o.err o.turns ++ connected_turns os
