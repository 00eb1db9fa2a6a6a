-- ===== src/Metrics/Turn.antt =====
-- internal/metrics/metrics.go, `TurnMetric`: the report card of one caller turn. Durations and
-- instants are nanoseconds in ℤ, as in `time.Duration`. The wall-clock `StartedAt` and the
-- millisecond mirrors, which are floating-point copies of the durations, are left out.
use callstorm.Prelude.{ℕ, ℤ, pos, String, Bool, false}

pub record TurnMetric : Type 0 where
  pub turn : ℕ
  pub caller_text : String
  pub agent_text : String
  pub heard_text : String
  pub ttfa : ℤ
  pub endpointing : ℤ
  pub think_speak : ℤ
  pub caller_speech : ℤ
  pub agent_speech : ℤ
  pub turn_latency : ℤ
  pub pacing_drift : ℤ
  pub transport_rtt : ℤ
  pub transport_rtt_measured : Bool
  pub leading_silence : ℤ
  pub leading_silence_measured : Bool
  pub caller_start : ℤ
  pub caller_end : ℤ
  pub heard : ℤ
  pub first_audio : ℤ
  pub playout_end : ℤ
  pub caller_yielded : Bool
  pub barge_in_yield : ℤ
  pub branch : String
  pub barged_in : Bool
  pub node : String
  pub expect_checked : Bool
  pub expect_met : Bool
  pub expect_miss : String
  pub failed : Bool
  pub fail_reason : String

-- Go's zero value.
abbrev pub zero_metric : TurnMetric
zero_metric = record {
  turn = 0;
  caller_text = "";
  agent_text = "";
  heard_text = "";
  ttfa = pos 0;
  endpointing = pos 0;
  think_speak = pos 0;
  caller_speech = pos 0;
  agent_speech = pos 0;
  turn_latency = pos 0;
  pacing_drift = pos 0;
  transport_rtt = pos 0;
  transport_rtt_measured = false;
  leading_silence = pos 0;
  leading_silence_measured = false;
  caller_start = pos 0;
  caller_end = pos 0;
  heard = pos 0;
  first_audio = pos 0;
  playout_end = pos 0;
  caller_yielded = false;
  barge_in_yield = pos 0;
  branch = "";
  barged_in = false;
  node = "";
  expect_checked = false;
  expect_met = false;
  expect_miss = "";
  failed = false;
  fail_reason = "";
}
