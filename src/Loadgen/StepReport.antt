-- ===== src/Loadgen/StepReport.antt =====
-- internal/loadgen/report.go, `buildStepReportAt`: the report of one step, folded from its calls.
--
-- `Reading` is what the fold calls of Go's library or of a float step: the texts of Waits, the word
-- count of Conversation, the rounding of Timeline, the first sixty bytes of an error, and the words
-- that `Score` compares. A share is a pair of numerator and denominator; the drift is in tenths.
pub mod Counts
use callstorm.Prelude.{
  ℕ, suc, ◌+◌, ◌*◌, ◌/◌, ℤ, pos, negsuc, ◌+ℤ◌, ◌-ℤ◌, ltb, ltb_ℤ, leb_ℤ, String, str_eq, Bool, true,
  false, not, ◌&&◌, ◌||◌, ◌==◌, Option, none, some, List, [], ◌∷◌, ◌++◌, if◌then◌else◌, length,
  pos_part, neg_part,
}
use callstorm.Metrics.Turn.{TurnMetric}
use callstorm.Judge.Wer.{Wer, score}
use callstorm.Loadgen.Outcome.{CallOutcome, Step}
use callstorm.Loadgen.Summary.{Summary, summarize, tenths}
use callstorm.Loadgen.Conversation.{Conversation, Cost, summarize_conversation, summarize_cost}
use callstorm.Loadgen.Waits.{
  Texts, WaitBands, TurnWait, Shape, shape_calls, no_shape, turn_waits, connected_turns,
  when_positive,
}
use callstorm.Loadgen.Phase.{Phase, summarize_phase}
use callstorm.Loadgen.Nodes.{NodeStats}
use callstorm.Loadgen.Timeline.{Timeline, CallPoint, summarize_timeline}

pub record BargeInStats : Type 0 where
  pub turns : ℕ
  pub yielded : ℕ
  pub yield_p50_ms : ℤ
  pub yield_p95_ms : ℤ
  pub worst_ms : ℤ

pub record WerStats : Type 0 where
  pub turns : ℕ
  pub mean_num : ℕ
  pub mean_den : ℕ
  pub worst : ℕ × ℕ
  pub substitutions : ℕ
  pub deletions : ℕ
  pub insertions : ℕ
  pub ref_words : ℕ

pub data Verdict : Type 0 where
  unscored pass warn fail not_available : Verdict

pub record StepReport : Type 0 where
  pub step : Step
  pub calls_attempted : ℕ
  pub calls_connected : ℕ
  pub turns_total : ℕ
  pub turns_failed : ℕ
  pub turns_yielded : ℕ
  pub ttfa : Summary
  pub endpointing : Summary
  pub think_speak : Summary
  pub turn_latency : Summary
  pub transport_rtt : Summary
  pub agent_ttfa : Summary
  pub agent_endpointing : Summary
  pub worst_drift_ms : ℤ
  pub timeline : Timeline
  pub conversation : Conversation
  pub cost : Cost
  pub barge_in : BargeInStats
  pub wer : WerStats
  pub leading_silence : Summary
  pub audible_ttfa : Summary
  pub turns : List TurnWait
  pub waits : WaitBands
  pub phase : Phase
  pub harness_degraded : Bool
  pub p95_ratio : ℕ
  pub verdict : Verdict
  pub nodes : List NodeStats
  pub errors : List (String × ℕ)

-- The variables of the loop.
pub record Acc : Type 0 where
  pub calls_attempted : ℕ
  pub calls_connected : ℕ
  pub turns_total : ℕ
  pub turns_failed : ℕ
  pub turns_yielded : ℕ
  pub errors : List (String × ℕ)
  pub ttfa : List ℤ
  pub endpointing : List ℤ
  pub think_speak : List ℤ
  pub turn_latency : List ℤ
  pub agent_ttfa : List ℤ
  pub agent_endpointing : List ℤ
  pub rtts : List ℤ
  pub silences : List ℤ
  pub audible : List ℤ
  pub worst_drift : ℤ
  pub wer_turns : ℕ
  pub wer_subs : ℕ
  pub wer_dels : ℕ
  pub wer_ins : ℕ
  pub wer_ref_words : ℕ
  pub wer_worst : ℕ × ℕ
  pub barge_turns : ℕ
  pub yields : List ℤ

abbrev pub empty_acc : Acc
empty_acc = record {
  calls_attempted = 0;
  calls_connected = 0;
  turns_total = 0;
  turns_failed = 0;
  turns_yielded = 0;
  errors = [];
  ttfa = [];
  endpointing = [];
  think_speak = [];
  turn_latency = [];
  agent_ttfa = [];
  agent_endpointing = [];
  rtts = [];
  silences = [];
  audible = [];
  worst_drift = pos 0;
  wer_turns = 0;
  wer_subs = 0;
  wer_dels = 0;
  wer_ins = 0;
  wer_ref_words = 0;
  wer_worst = (0, 1);
  barge_turns = 0;
  yields = [];
}

unfoldable pub bump_error : String → List (String × ℕ) → List (String × ℕ)
bump_error s [] = (s, 1) ∷ []
bump_error s ((s', n) ∷ m) =
    let rest = bump_error s m in if str_eq s' s then ((s', suc n) ∷ m) else ((s', n) ∷ rest)

-- `abs`.
abbrev pub size : ℤ → ℕ
size d = pos_part d + neg_part d

abbrev pub is_positive : ℤ → Bool
is_positive d = ltb_ℤ (pos 0) d

-- What is counted of every turn.
unfoldable pub count_turn : TurnMetric → Acc → Acc
unfolding bump_error
count_turn t a = record a {
  turns_total = suc a.turns_total;
  turns_failed = if t.failed then suc a.turns_failed else a.turns_failed;
  errors =
      if t.failed && not (str_eq t.fail_reason "")
      then bump_error t.fail_reason a.errors
      else a.errors;
  turns_yielded = if t.caller_yielded then suc a.turns_yielded else a.turns_yielded;
  barge_turns = if t.barged_in then suc a.barge_turns else a.barge_turns;
  yields = if t.barged_in then when_positive t.barge_in_yield a.yields else a.yields;
  worst_drift =
      if ltb (size a.worst_drift) (size t.pacing_drift) then t.pacing_drift else a.worst_drift;
}

-- The latencies of a turn that the caller finished.
unfoldable pub time_turn : TurnMetric → Acc → Acc
time_turn t a = record a {
  ttfa = when_positive t.ttfa a.ttfa;
  endpointing = when_positive t.endpointing a.endpointing;
  think_speak = when_positive t.think_speak a.think_speak;
  turn_latency = when_positive t.turn_latency a.turn_latency;
  rtts = if t.transport_rtt_measured then (a.rtts ++ (t.transport_rtt ∷ [])) else a.rtts;
  agent_ttfa =
      if t.transport_rtt_measured && is_positive t.ttfa
      then (a.agent_ttfa ++ ((t.ttfa -ℤ t.transport_rtt) ∷ []))
      else a.agent_ttfa;
  agent_endpointing =
      if t.transport_rtt_measured && is_positive t.endpointing
      then (a.agent_endpointing ++ ((t.endpointing -ℤ t.transport_rtt) ∷ []))
      else a.agent_endpointing;
  silences =
      if t.leading_silence_measured then (a.silences ++ (t.leading_silence ∷ [])) else a.silences;
  audible =
      if t.leading_silence_measured && is_positive t.ttfa
      then (a.audible ++ ((t.ttfa +ℤ t.leading_silence) ∷ []))
      else a.audible;
}

abbrev pub higher_rate : ℕ × ℕ → ℕ × ℕ → ℕ × ℕ
higher_rate a b = if ltb (b.0 * a.1) (a.0 * b.1) then a else b

pub record Reading : Type 0 where
  pub texts : Texts
  pub fields : String → ℕ
  pub hundredths : ℤ → ℤ
  pub cut : String → String
  pub normalize : String → List String

abbrev pub wer_stats : Acc → WerStats
wer_stats a = record {
  turns = a.wer_turns;
  mean_num = if ltb 0 a.wer_ref_words then a.wer_subs + a.wer_dels + a.wer_ins else 0;
  mean_den = if ltb 0 a.wer_ref_words then a.wer_ref_words else 1;
  worst = a.wer_worst;
  substitutions = a.wer_subs;
  deletions = a.wer_dels;
  insertions = a.wer_ins;
  ref_words = a.wer_ref_words;
}

abbrev pub barge_stats : ℕ → List ℤ → BargeInStats
barge_stats turns yields =
    let s = summarize yields in
    record {
      turns = turns;
      yielded = length yields;
      yield_p50_ms = s.p50_ms;
      yield_p95_ms = s.p95_ms;
      worst_ms = s.max_ms;
    }

module _ (reading : Reading) where
  unfoldable pub hear_turn : TurnMetric → Acc → Acc
  unfolding score
  hear_turn t a =
      let w = score reading.normalize t.caller_text t.heard_text in
      if str_eq t.heard_text "" then a else record a {
        wer_turns = suc a.wer_turns;
        wer_subs = a.wer_subs + w.counts.subs;
        wer_dels = a.wer_dels + w.counts.dels;
        wer_ins = a.wer_ins + w.counts.ins;
        wer_ref_words = a.wer_ref_words + w.ref_words;
        wer_worst = higher_rate (w.rate_num, w.rate_den) a.wer_worst;
      }

  unfoldable pub fold_turns : List TurnMetric → Acc → Acc
  unfolding count_turn time_turn hear_turn
  fold_turns [] a = a
  fold_turns (t ∷ ts) a =
      let counted = count_turn t a in
      fold_turns ts (if t.caller_yielded then counted else time_turn t (hear_turn t counted))

  abbrev pub fold_call : Option String → List TurnMetric → Acc → Acc
  fold_call (some why) ts a = record a { errors = bump_error (reading.cut why) a.errors }
  fold_call none ts a = fold_turns ts (record a { calls_connected = suc a.calls_connected })

  unfoldable pub fold_calls : List CallOutcome → Acc → Acc
  unfolding fold_turns
  fold_calls [] a = a
  fold_calls (o ∷ os) a =
      fold_calls os (fold_call o.err o.turns (record a { calls_attempted = suc a.calls_attempted }))

  -- `buildStepReportAt`, with the rate per minute.
  unfoldable pub build_step_report : Step → List CallOutcome → ℤ → StepReport
  unfolding fold_calls summarize summarize_conversation summarize_cost shape_calls turn_waits
      connected_turns summarize_phase summarize_timeline tenths
  build_step_report step outcomes rate =
      let a = fold_calls outcomes empty_acc in
      let shape = shape_calls reading.texts (connected_turns outcomes) no_shape in
      let talk = summarize_conversation reading.fields outcomes in
      record {
        step = record step { calls = if step.calls == 0 then a.calls_attempted else step.calls };
        calls_attempted = a.calls_attempted;
        calls_connected = a.calls_connected;
        turns_total = a.turns_total;
        turns_failed = a.turns_failed;
        turns_yielded = a.turns_yielded;
        ttfa = summarize a.ttfa;
        endpointing = summarize a.endpointing;
        think_speak = summarize a.think_speak;
        turn_latency = summarize a.turn_latency;
        transport_rtt = summarize a.rtts;
        agent_ttfa = summarize a.agent_ttfa;
        agent_endpointing = summarize a.agent_endpointing;
        worst_drift_ms = tenths a.worst_drift;
        timeline = summarize_timeline reading.hundredths outcomes;
        conversation = record talk {
          repeated_replies = shape.repeated;
          calls_with_repeats = shape.calls_with;
        };
        cost = summarize_cost outcomes rate;
        barge_in = barge_stats a.barge_turns a.yields;
        wer = wer_stats a;
        leading_silence = summarize a.silences;
        audible_ttfa = summarize a.audible;
        turns = turn_waits shape;
        waits = shape.bands;
        phase = summarize_phase step outcomes;
        harness_degraded = ltb 1000 (size (tenths a.worst_drift));
        p95_ratio = 0;
        verdict = unscored;
        nodes = [];
        errors = a.errors;
      }
