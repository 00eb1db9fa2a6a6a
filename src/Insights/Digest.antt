-- ===== src/Insights/Digest.antt =====
-- internal/insights/digest.go, `callStats`: the calls log of a run, turn by turn. A line is a call as
-- it is decoded; a millisecond value of two decimal places is an integer of hundredths, and of one an
-- integer of tenths. `fields` counts the words of a text.
pub mod Alone
use callstorm.Prelude.{
  ℕ, suc, ◌*◌, ltb, ◌==◌, ℤ, pos, ltb_ℤ, String, str_eq, str_ltb, Bool, true, false, not, ◌&&◌,
  ◌||◌, List, [], ◌∷◌, ◌++◌, map, if◌then◌else◌, length, sort_on,
}
use callstorm.Scenario.Validate.{mem}
use callstorm.Metrics.Percentile.{Percent, percentile, fifty, ninety_five}
use callstorm.Loadgen.Summary.{round_div}
use callstorm.Loadgen.Waits.{bump_line}

pub record TurnLine : Type 0 where
  pub turn : ℕ
  pub failed : Bool
  pub caller_text : String
  pub agent_text : String
  pub heard_text : String
  pub ttfa_ms : ℤ
  pub endpointing_ms : ℤ
  pub think_speak_ms : ℤ

pub record CallLine : Type 0 where
  pub error : String
  pub turns : List TurnLine

pub record TurnStats : Type 0 where
  pub turn : ℕ
  pub count : ℕ
  pub failed : ℕ
  pub ttfa_p50_ms : ℤ
  pub ttfa_p95_ms : ℤ
  pub endpointing_p50_ms : ℤ
  pub think_speak_p50_ms : ℤ
  pub caller_line : String
  pub common_reply : String
  pub common_reply_count : ℕ
  pub heard_cut_short : ℕ
  pub ttfa_p50_ms_cut_short : ℤ
  pub ttfa_p50_ms_heard_in_full : ℤ

pub record CallStats : Type 0 where
  pub calls : ℕ
  pub failed : ℕ
  pub errors : List String
  pub by_turn : List TurnStats

-- `acc`, under its number.
pub record Acc : Type 0 where
  pub turn : ℕ
  pub count : ℕ
  pub failed : ℕ
  pub ttfa : List ℤ
  pub ep : List ℤ
  pub ts : List ℤ
  pub callers : List (String × ℕ)
  pub replies : List (String × ℕ)
  pub cut : ℕ
  pub cut_ttfa : List ℤ
  pub full_ttfa : List ℤ

abbrev pub empty_acc : ℕ → Acc
empty_acc turn = record {
  turn = turn;
  count = 0;
  failed = 0;
  ttfa = [];
  ep = [];
  ts = [];
  callers = [];
  replies = [];
  cut = 0;
  cut_ttfa = [];
  full_ttfa = [];
}

abbrev pub if_measured : ℤ → List ℤ → List ℤ
if_measured v vs = if ltb_ℤ (pos 0) v then (vs ++ (v ∷ [])) else vs

-- `nearestRank`, in tenths.
unfoldable pub nearest_rank : List ℤ → Percent → ℤ
unfolding percentile round_div
nearest_rank vs p = round_div (percentile p vs) 10

-- `commonest`.
unfoldable pub commonest_from : String × ℕ → List (String × ℕ) → String × ℕ
commonest_from best [] = best
commonest_from (best, n) ((s, c) ∷ counts) =
    commonest_from (if ltb n c || ((c == n) && str_ltb s best) then (s, c) else (best, n)) counts

abbrev pub commonest : List (String × ℕ) → String × ℕ
commonest counts = commonest_from ("", 0) counts

module _ (fields : String → ℕ) where
  -- What was heard of the caller, where there is a transcript.
  abbrev pub hear : TurnLine → Acc → Acc
  hear t a =
      let heard = fields t.heard_text in
      let short = ltb (2 * heard) (fields t.caller_text) in
      if ltb 0 heard
      then record a {
        cut = if short then suc a.cut else a.cut;
        cut_ttfa = if short then if_measured t.ttfa_ms a.cut_ttfa else a.cut_ttfa;
        full_ttfa = if short then a.full_ttfa else if_measured t.ttfa_ms a.full_ttfa;
      }
      else a

  unfoldable pub add_turn : TurnLine → Acc → Acc
  unfolding bump_line
  add_turn t a = hear t (record a {
    count = suc a.count;
    failed = if t.failed then suc a.failed else a.failed;
    ttfa = if_measured t.ttfa_ms a.ttfa;
    ep = if_measured t.endpointing_ms a.ep;
    ts = if_measured t.think_speak_ms a.ts;
    callers = bump_line t.caller_text a.callers;
    replies = bump_line t.agent_text a.replies;
  })

  -- In `byTurn`.
  unfoldable pub put_turn : TurnLine → List Acc → List Acc
  unfolding add_turn
  put_turn t [] = add_turn t (empty_acc t.turn) ∷ []
  put_turn t (a ∷ xs) =
      let rest = put_turn t xs in if a.turn == t.turn then (add_turn t a ∷ xs) else (a ∷ rest)

  unfoldable pub put_turns : List TurnLine → List Acc → List Acc
  unfolding put_turn
  put_turns [] xs = xs
  put_turns (t ∷ ts) xs = put_turns ts (put_turn t xs)

unfoldable pub row_of : Acc → TurnStats
unfolding nearest_rank commonest_from
row_of a = record {
  turn = a.turn;
  count = a.count;
  failed = a.failed;
  ttfa_p50_ms = nearest_rank a.ttfa fifty;
  ttfa_p95_ms = nearest_rank a.ttfa ninety_five;
  endpointing_p50_ms = nearest_rank a.ep fifty;
  think_speak_p50_ms = nearest_rank a.ts fifty;
  caller_line = (commonest a.callers).0;
  common_reply = (commonest a.replies).0;
  common_reply_count = (commonest a.replies).1;
  heard_cut_short = a.cut;
  ttfa_p50_ms_cut_short = nearest_rank a.cut_ttfa fifty;
  ttfa_p50_ms_heard_in_full = nearest_rank a.full_ttfa fifty;
}

abbrev pub number : Acc → ℤ
number a = pos a.turn

-- The rows, by the number of the turn.
unfoldable pub rows_of : List Acc → List TurnStats
unfolding sort_on row_of
rows_of xs = map row_of (sort_on number xs)

unfoldable pub all_turns : List CallLine → List TurnLine
all_turns [] = []
all_turns (c ∷ cs) = c.turns ++ all_turns cs

unfoldable pub count_failed : List CallLine → ℕ
count_failed [] = 0
count_failed (c ∷ cs) = let n = count_failed cs in if str_eq c.error "" then n else suc n

-- `cs.Errors`, of which `errs` is the set.
abbrev pub take_error : String → List String → List String
take_error why errors =
    if not (str_eq why "") && (not (mem why errors) && ltb (length errors) 3)
    then (errors ++ (why ∷ []))
    else errors

unfoldable pub sample_errors : List CallLine → List String → List String
unfolding mem
sample_errors [] errors = errors
sample_errors (c ∷ cs) errors = sample_errors cs (take_error c.error errors)

-- `callStats`.
unfoldable pub call_stats : (String → ℕ) → List CallLine → CallStats
unfolding put_turns rows_of all_turns count_failed sample_errors
call_stats fields cs = record {
  calls = length cs;
  failed = count_failed cs;
  errors = sample_errors cs [];
  by_turn = rows_of (put_turns fields (all_turns cs) []);
}
