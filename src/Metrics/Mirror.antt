-- ===== src/Metrics/Mirror.antt =====
-- internal/metrics/metrics.go: the millisecond mirrors of a turn, `Millis`, `Finalize` and
-- `Rehydrate`. A millisecond value of two decimal places is an integer of hundredths. Go's
-- floating-point steps are parameters: `hundredths` rounds microseconds, `from_millis` reads a
-- mirror back as nanoseconds.
use callstorm.Prelude.{
  ℕ, suc, ◌-◌, ◌*◌, ◌/◌, ◌≡◌, ℤ, pos, negsuc, ◌+ℤ◌, ◌≤ℤ◌, arith, ltb, if◌then◌else◌,
}
use callstorm.Metrics.Turn.{TurnMetric}

abbrev pub neg : ℕ → ℤ
neg n = if ltb 0 n then negsuc (n - 1) else pos 0

abbrev pub scale : ℕ → ℤ → ℤ
scale k (pos n) = pos (k * n)
scale k (negsuc n) = neg (k * suc n)

-- `Duration.Microseconds`, which truncates.
unfoldable pub microseconds : ℤ → ℤ
microseconds (pos n) = pos (n / 1000)
microseconds (negsuc n) = neg (suc n / 1000)

pub record Mirrors : Type 0 where
  pub ttfa_ms : ℤ
  pub endpointing_ms : ℤ
  pub think_speak_ms : ℤ
  pub caller_speech_ms : ℤ
  pub agent_speech_ms : ℤ
  pub turn_latency_ms : ℤ
  pub pacing_drift_ms : ℤ
  pub barge_in_yield_ms : ℤ
  pub transport_rtt_ms : ℤ
  pub leading_silence_ms : ℤ

-- The integer is the nearest one to a tenth of the microseconds.
abbrev pub Rounds : (ℤ → ℤ) → Type 0
Rounds hundredths =
    (us : ℤ) → (scale 10 (hundredths us) ≤ℤ us +ℤ pos 5) × (us ≤ℤ scale 10 (hundredths us) +ℤ pos 5)

-- Reading a mirror back is off by a nanosecond at most.
abbrev pub ReadsBack : (ℤ → ℤ) → Type 0
ReadsBack from_millis =
    (c : ℤ) → (from_millis c ≤ℤ scale 10000 c +ℤ pos 1) × (scale 10000 c ≤ℤ from_millis c +ℤ pos 1)

module _ (hundredths : ℤ → ℤ) where
  unfoldable pub millis : ℤ → ℤ
  unfolding microseconds
  millis d = hundredths (microseconds d)

  unfoldable pub finalize : TurnMetric → Mirrors
  unfolding millis
  finalize t = record {
    ttfa_ms = millis t.ttfa;
    endpointing_ms = millis t.endpointing;
    think_speak_ms = millis t.think_speak;
    caller_speech_ms = millis t.caller_speech;
    agent_speech_ms = millis t.agent_speech;
    turn_latency_ms = millis t.turn_latency;
    pacing_drift_ms = millis t.pacing_drift;
    barge_in_yield_ms = millis t.barge_in_yield;
    transport_rtt_ms = millis t.transport_rtt;
    leading_silence_ms = millis t.leading_silence;
  }

unfoldable pub rehydrate : (ℤ → ℤ) → Mirrors → TurnMetric → TurnMetric
rehydrate from_millis m t = record t {
  ttfa = from_millis m.ttfa_ms;
  endpointing = from_millis m.endpointing_ms;
  think_speak = from_millis m.think_speak_ms;
  caller_speech = from_millis m.caller_speech_ms;
  agent_speech = from_millis m.agent_speech_ms;
  turn_latency = from_millis m.turn_latency_ms;
  pacing_drift = from_millis m.pacing_drift_ms;
  barge_in_yield = from_millis m.barge_in_yield_ms;
  transport_rtt = from_millis m.transport_rtt_ms;
  leading_silence = from_millis m.leading_silence_ms;
}

nearest_back :
    (c d h : ℤ)
    → d ≤ℤ scale 10000 c +ℤ pos 1
    → scale 10000 c ≤ℤ d +ℤ pos 1
    → scale 10 h ≤ℤ microseconds d +ℤ pos 5
    → microseconds d ≤ℤ scale 10 h +ℤ pos 5
    → h ≡ c
unfolding microseconds ◌+ℤ◌
nearest_back (pos c) (pos d) (pos h) p q r s = ground arith
nearest_back (pos c) (pos d) (negsuc h) p q r s = ground arith
nearest_back (pos c) (negsuc d) (pos h) p q r s = ground arith
nearest_back (pos c) (negsuc d) (negsuc h) p q r s = ground arith
nearest_back (negsuc c) (pos d) (pos h) p q r s = ground arith
nearest_back (negsuc c) (pos d) (negsuc h) p q r s = ground arith
nearest_back (negsuc c) (negsuc d) (pos h) p q r s = ground arith
nearest_back (negsuc c) (negsuc d) (negsuc h) p q r s = ground arith

module _ (hundredths from_millis : ℤ → ℤ) (rounds : Rounds hundredths)
    (reads : ReadsBack from_millis) where
  millis-from_millis : (c : ℤ) → millis hundredths (from_millis c) ≡ c
  unfolding millis
  millis-from_millis c =
      let (a, b) = reads c in
      let (p, q) = rounds (microseconds (from_millis c)) in nearest_back c (from_millis c) _ a b p q

  -- A turn that is read back from its mirrors has the same mirrors again.
  pub finalize-rehydrate :
      (m : Mirrors) (t : TurnMetric) → finalize hundredths (rehydrate from_millis m t) ≡ m
  unfolding finalize rehydrate
  finalize-rehydrate m t = λ i. record {
    ttfa_ms = millis-from_millis m.ttfa_ms i;
    endpointing_ms = millis-from_millis m.endpointing_ms i;
    think_speak_ms = millis-from_millis m.think_speak_ms i;
    caller_speech_ms = millis-from_millis m.caller_speech_ms i;
    agent_speech_ms = millis-from_millis m.agent_speech_ms i;
    turn_latency_ms = millis-from_millis m.turn_latency_ms i;
    pacing_drift_ms = millis-from_millis m.pacing_drift_ms i;
    barge_in_yield_ms = millis-from_millis m.barge_in_yield_ms i;
    transport_rtt_ms = millis-from_millis m.transport_rtt_ms i;
    leading_silence_ms = millis-from_millis m.leading_silence_ms i;
  }
