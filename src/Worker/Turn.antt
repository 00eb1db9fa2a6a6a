-- ===== src/Worker/Turn.antt =====
-- internal/worker/turn.go, `runTurn`: one caller line and the agent's response.
--
-- What the `select` of the loop receives, one after another, is a list of `Input`; `cleared` is the
-- instant that `pump.clear` would return then. Instants count from the call's start. `spaced` joins
-- two texts with a space between, `median` is the round-trip log and `now` the clock after the loop.
-- Printing and the wait for the playout to end are left out.
pub mod Instants
use callstorm.Prelude.{
  ℕ, ℤ, pos, negsuc, ◌-ℤ◌, ltb_ℤ, ◌==◌, String, str_eq, Bool, true, false, not, ◌&&◌, List, [], ◌∷◌,
  ◌++◌, if◌then◌else◌,
}
use callstorm.Metrics.Turn.{TurnMetric, zero_metric}

pub data Kind : Type 0 where
  user_transcript agent_first_audio agent_audible agent_transcript agent_audio_done : Kind
  server_error other_kind : Kind

-- `srvEvent`.
pub record SrvEvent : Type 0 where
  pub kind : Kind
  pub at : ℤ
  pub text : String
  pub playout : ℤ

pub data Received : Type 0 where
  speak_done : ℤ → Received
  closed : Received
  event : SrvEvent → Received
  interrupt : Received
  pump_failed : String → Received
  timed_out : Received
  cancelled : Received

pub record Input : Type 0 where
  pub received : Received
  pub cleared : ℤ
  pub now : ℤ

-- What the loop writes to the event log.
pub data Mark : Type 0 where
  caller_speech_end : ℤ → Mark
  caller_yielded_mark : ℤ → Mark
  agent_yielded : ℤ → Mark
  turn_timeout : ℤ → Mark

-- The variables of the loop, with the fields of the metric that it sets.
pub record Turn : Type 0 where
  pub m : TurnMetric
  pub caller_end : ℤ
  pub first_audio : ℤ
  pub user_heard : ℤ
  pub playout_end : ℤ
  pub audible : ℤ
  pub speaking : Bool
  pub armed : Bool
  pub marks : List Mark

pub data Status : Type 0 where
  collecting : Turn → Status
  left : Turn → Status

abbrev pub is_zero : ℤ → Bool
is_zero (pos n) = n == 0
is_zero (negsuc n) = false

-- What `runTurn` was called with, and what it read at the start.
pub record Setup : Type 0 where
  pub idx : ℕ
  pub say : String
  pub utterance : ℤ
  pub interrupt_after : ℤ
  pub barging : Bool
  pub caller_start : ℤ

unfoldable pub begin : Setup → Turn
begin s = record {
  m = record zero_metric {
    turn = s.idx;
    caller_text = s.say;
    barged_in = s.barging;
    caller_speech = s.utterance;
  };
  caller_end = pos 0;
  first_audio = pos 0;
  user_heard = pos 0;
  playout_end = pos 0;
  audible = pos 0;
  speaking = true;
  armed = false;
  marks = [];
}

unfoldable pub fell_silent : Setup → ℤ → Bool → Turn → Turn
fell_silent s at natural t = if not t.speaking then t else record t {
  speaking = false;
  caller_end = at;
  marks = t.marks ++ (caller_speech_end at ∷ []);
  m = record (t.m) {
    pacing_drift = if natural then at -ℤ s.caller_start -ℤ s.utterance else t.m.pacing_drift;
  };
}

-- `fellSilent(w.pump.clear(), false)` after the agent talked over the caller.
unfoldable pub yield_floor : Setup → Input → Turn → Turn
unfolding fell_silent
yield_floor s i t =
    if t.speaking
    then fell_silent s i.cleared false (record t {
      marks = t.marks ++ (caller_yielded_mark i.now ∷ []);
      m = record (t.m) { caller_yielded = true; fail_reason = "agent talked over the caller" };
    })
    else t

unfoldable pub first_sound : Setup → ℤ → Turn → Turn
first_sound s at t =
    if is_zero t.first_audio
    then record t {
      first_audio = at;
      armed = if ltb_ℤ (pos 0) s.interrupt_after && not t.armed then true else t.armed;
    }
    else t

unfoldable pub barge_yield : Setup → ℤ → Turn → Turn
barge_yield s at t =
    if s.barging && is_zero t.m.barge_in_yield
    then record t {
      m = record (t.m) { barge_in_yield = at -ℤ s.caller_start };
      marks = t.marks ++ (agent_yielded at ∷ []);
    }
    else t

unfoldable pub fail : String → Turn → Turn
fail reason t = record t { m = record (t.m) { failed = true; fail_reason = reason } }

module _ (spaced : String → String → String) where
  -- `joinText`.
  unfoldable pub join_text : String → String → String
  join_text a b = if str_eq b "" then a else (if str_eq a "" then b else spaced a b)

  unfoldable pub on_event : Setup → Input → Kind → SrvEvent → Turn → Status
  unfolding yield_floor first_sound barge_yield fail join_text
  on_event s i user_transcript ev t = collecting (record t {
    user_heard = if is_zero t.first_audio then ev.at else t.user_heard;
    m = record (t.m) { heard_text = join_text t.m.heard_text ev.text };
  })
  on_event s i agent_first_audio ev t = collecting (yield_floor s i (first_sound s ev.at t))
  on_event s i agent_audible ev t =
      collecting (
        if not (is_zero t.first_audio) && is_zero t.audible
        then record t { audible = ev.at }
        else t)
  on_event s i agent_transcript ev t =
      collecting (record t { m = record (t.m) { agent_text = join_text t.m.agent_text ev.text } })
  on_event s i agent_audio_done ev t =
      if not (is_zero t.first_audio)
      then left (record t { playout_end = ev.playout })
      else collecting (barge_yield s ev.at t)
  on_event s i server_error ev t = left (fail ev.text t)
  on_event s i other_kind ev t = collecting t

  -- One round of the `select`.
  unfoldable pub on_input : Setup → Input → Received → Turn → Status
  unfolding on_event
  on_input s i (speak_done at) t = collecting (fell_silent s at true t)
  on_input s i closed t = left (fail "connection closed mid-turn" t)
  on_input s i (event ev) t = on_event s i ev.kind ev t
  on_input s i interrupt t = left t
  on_input s i (pump_failed why) t = left (fail why t)
  on_input s i timed_out t =
      left (record (fail "turn timeout" t) { marks = t.marks ++ (turn_timeout i.now ∷ []) })
  on_input s i cancelled t = left (fail "cancelled" t)

  unfoldable pub collect : Setup → List Input → Status → Status
  unfolding on_input
  collect s [] st = st
  collect s (i ∷ is) (left t) = left t
  collect s (i ∷ is) (collecting t) = collect s is (on_input s i i.received t)

-- After the loop: the caller falls silent if it still speaks.
unfoldable pub hush : Setup → ℤ → Turn → Turn
unfolding fell_silent
hush s cleared t = if t.speaking then fell_silent s cleared false t else t

unfoldable pub with_audio : Turn → TurnMetric → TurnMetric
with_audio t m =
    if is_zero t.first_audio
    then m
    else (if is_zero t.user_heard
        then record m { ttfa = t.first_audio -ℤ t.caller_end }
        else record m {
          ttfa = t.first_audio -ℤ t.caller_end;
          endpointing = t.user_heard -ℤ t.caller_end;
          think_speak = t.first_audio -ℤ t.user_heard;
        })

unfoldable pub with_silence : Turn → TurnMetric → TurnMetric
with_silence t m =
    if is_zero t.audible
    then m
    else record m { leading_silence = t.audible -ℤ t.first_audio; leading_silence_measured = true }

unfoldable pub with_playout : Turn → TurnMetric → TurnMetric
with_playout t m = if is_zero t.playout_end then m else record m {
  agent_speech = t.playout_end -ℤ t.first_audio;
  turn_latency = t.playout_end -ℤ t.caller_end;
}

-- The raw instants, and the round trip over the turn.
unfoldable pub with_instants : (ℤ → ℤ → ℤ × Bool) → Setup → ℤ → Turn → TurnMetric → TurnMetric
with_instants median s now t m =
    let (rtt, measured) =
      median s.caller_start (if is_zero t.first_audio then now else t.first_audio) in
    record m {
      transport_rtt = rtt;
      transport_rtt_measured = measured;
      caller_start = s.caller_start;
      caller_end = t.caller_end;
      heard = t.user_heard;
      first_audio = t.first_audio;
      playout_end = t.playout_end;
    }

-- The metric of a turn whose loop was left with the caller silent.
unfoldable pub measure : (ℤ → ℤ → ℤ × Bool) → Setup → ℤ → Turn → TurnMetric
unfolding with_audio with_silence with_playout with_instants
measure median s now t =
    with_instants median s now t (with_playout t (with_silence t (with_audio t t.m)))
