-- ===== src/Loadgen/Conversation.antt =====
-- internal/loadgen/conversation.go: how the calls of a step sounded, and what they cost.
--
-- `fields` counts the words of a text as Go's library splits it. Seconds and words per minute are
-- in tenths, shares, scores' parts and minutes in thousandths, a score in hundredths, and money in
-- ten-thousandths; sums of `float64` seconds are exact sums of nanoseconds.
use callstorm.Prelude.{
  ℕ, suc, ◌+◌, ◌-◌, ◌*◌, ℤ, pos, ◌+ℤ◌, ltb, ltb_ℤ, leb_ℤ, String, not, ◌&&◌, ◌||◌, ◌==◌, Option,
  none, some, List, [], ◌∷◌, if◌then◌else◌, pos_part,
}
use callstorm.Metrics.Turn.{TurnMetric}
use callstorm.Metrics.Mirror.{scale}
use callstorm.Loadgen.Outcome.{CallOutcome}
use callstorm.Loadgen.Summary.{round_ℕ, round_div}

pub record Conversation : Type 0 where
  pub agent_wpm : ℤ
  pub caller_wpm : ℤ
  pub talk_ratio : ℤ
  pub interruptions : ℕ
  pub interruption_rate : ℕ
  pub interruption_score : ℕ
  pub dead_air_turns : ℕ
  pub dead_air_seconds : ℤ
  pub repeated_replies : ℕ
  pub calls_with_repeats : ℕ
  pub agent_speech_seconds : ℤ
  pub caller_speech_seconds : ℤ
  pub turns : ℕ

pub record Cost : Type 0 where
  pub agent_minutes : ℤ
  pub rate_per_minute : ℤ
  pub usd : ℤ
  pub usd_per_call : ℤ
  pub usd_per_turn : ℤ

abbrev pub dead_air_threshold : ℤ
dead_air_threshold = pos 2000000000

-- The running totals of `summarizeConversation`.
pub record Talk : Type 0 where
  pub turns : ℕ
  pub interruptions : ℕ
  pub agent_speech : ℤ
  pub caller_speech : ℤ
  pub agent_words : ℕ
  pub caller_words : ℕ
  pub dead_air_turns : ℕ
  pub dead_air : ℤ

unfoldable pub wpm : ℕ → ℤ → ℤ
unfolding round_div
wpm words speech =
    if leb_ℤ speech (pos 0) || (words == 0)
    then pos 0
    else round_div (pos (words * 600000000000)) (pos_part speech)

abbrev pub nothing_heard : Talk
nothing_heard = record {
  turns = 0;
  interruptions = 0;
  agent_speech = pos 0;
  caller_speech = pos 0;
  agent_words = 0;
  caller_words = 0;
  dead_air_turns = 0;
  dead_air = pos 0;
}

module _ (fields : String → ℕ) where
  abbrev pub hear_turn : TurnMetric → Talk → Talk
  hear_turn t k =
      let dead = not t.caller_yielded && ltb_ℤ dead_air_threshold t.ttfa in
      record {
        turns = suc k.turns;
        interruptions = if t.caller_yielded then suc k.interruptions else k.interruptions;
        agent_speech = k.agent_speech +ℤ t.agent_speech;
        caller_speech = k.caller_speech +ℤ t.caller_speech;
        agent_words = k.agent_words + fields t.agent_text;
        caller_words = k.caller_words + fields t.caller_text;
        dead_air_turns = if dead then suc k.dead_air_turns else k.dead_air_turns;
        dead_air = if dead then k.dead_air +ℤ t.ttfa else k.dead_air;
      }

  unfoldable pub hear_turns : List TurnMetric → Talk → Talk
  hear_turns [] k = k
  hear_turns (t ∷ ts) k = hear_turns ts (hear_turn t k)

  abbrev pub hear_call : Option String → List TurnMetric → Talk → Talk
  hear_call (some why) ts k = k
  hear_call none ts k = hear_turns ts k

  unfoldable pub hear_calls : List CallOutcome → Talk → Talk
  unfolding hear_turns
  hear_calls [] k = k
  hear_calls (o ∷ os) k = hear_calls os (hear_call o.err o.turns k)

  unfoldable pub summarize_conversation : List CallOutcome → Conversation
  unfolding hear_calls wpm round_div
  summarize_conversation outcomes =
      let k = hear_calls outcomes nothing_heard in
      let total = k.agent_speech +ℤ k.caller_speech in
      record {
        agent_wpm = wpm k.agent_words k.agent_speech;
        caller_wpm = wpm k.caller_words k.caller_speech;
        talk_ratio =
            if ltb_ℤ (pos 0) total
            then round_div (scale 1000 k.agent_speech) (pos_part total)
            else pos 0;
        interruptions = k.interruptions;
        interruption_rate = if ltb 0 k.turns then round_ℕ (1000 * k.interruptions) k.turns else 0;
        interruption_score =
            if ltb 0 k.turns then round_ℕ (500 * (k.turns - k.interruptions)) k.turns else 0;
        dead_air_turns = k.dead_air_turns;
        dead_air_seconds = round_div k.dead_air 100000000;
        repeated_replies = 0;
        calls_with_repeats = 0;
        agent_speech_seconds = round_div k.agent_speech 100000000;
        caller_speech_seconds = round_div k.caller_speech 100000000;
        turns = k.turns;
      }

-- Billed time, connected calls and turns.
pub record Billed : Type 0 where
  pub time : ℤ
  pub calls : ℕ
  pub turns : ℕ

unfoldable pub bill_turns : List TurnMetric → Billed → Billed
bill_turns [] b = b
bill_turns (t ∷ ts) b =
    bill_turns ts
      (record b { time = b.time +ℤ (t.caller_speech +ℤ t.turn_latency); turns = suc b.turns })

abbrev pub bill_call : Option String → List TurnMetric → Billed → Billed
bill_call (some why) ts b = b
bill_call none ts b = bill_turns ts (record b { calls = suc b.calls })

unfoldable pub bill_calls : List CallOutcome → Billed → Billed
unfolding bill_turns
bill_calls [] b = b
bill_calls (o ∷ os) b = bill_calls os (bill_call o.err o.turns b)

unfoldable pub summarize_cost : List CallOutcome → ℤ → Cost
unfolding bill_calls round_div
summarize_cost outcomes rate =
    let b = bill_calls outcomes (record { time = pos 0; calls = 0; turns = 0 }) in
    let minutes = round_div b.time 60000000 in
    let usd = round_div (scale (pos_part rate) minutes) 1000 in
    let c : Cost = record {
      agent_minutes = minutes;
      rate_per_minute = rate;
      usd = pos 0;
      usd_per_call = pos 0;
      usd_per_turn = pos 0;
    } in
    if leb_ℤ rate (pos 0) then c else record c {
      usd = usd;
      usd_per_call = if ltb 0 b.calls then round_div usd b.calls else pos 0;
      usd_per_turn = if ltb 0 b.turns then round_div usd b.turns else pos 0;
    }
