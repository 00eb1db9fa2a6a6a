-- ===== src/Worker/Turn/Instants.antt =====
-- The durations of a turn (internal/worker/turn.go) add up.
use callstorm.Prelude.{
  ℤ, ◌+ℤ◌, ◌-ℤ◌, int_laws, ◌≡◌, refl, sym, ◌∙◌, String, Bool, true, false, List, [], ◌∷◌, ◌++◌,
  if_intro, not, ◌&&◌,
}
use mathlib.Core.Bool.{true≢false}
use callstorm.Metrics.Turn.{TurnMetric}
use callstorm.Worker.Turn.{
  Setup, Turn, Input, Received, Kind, SrvEvent, Status, collecting, left, caller_yielded_mark,
  is_zero, begin, speak_done, closed, event, interrupt, pump_failed, timed_out, cancelled,
  user_transcript, agent_first_audio, agent_audible, agent_transcript, agent_audio_done,
  server_error, other_kind, fell_silent, yield_floor, first_sound, barge_yield, fail, on_event,
  on_input, collect, hush, measure, with_audio, with_silence, with_playout, with_instants,
}

-- A playout end is only taken once the agent's audio was seen.
abbrev pub Heard : Turn → Type 0
Heard t = is_zero t.first_audio ≡ true → is_zero t.playout_end ≡ true

abbrev pub Holds : (Turn → Type 0) → Status → Type 0
Holds P (collecting t) = P t
Holds P (left t) = P t

-- The turn that the loop was left with, or is at.
abbrev pub turn_of : Status → Turn
turn_of (collecting t) = t
turn_of (left t) = t

Holds-turn_of : (P : Turn → Type 0) (st : Status) → Holds P st → P (turn_of st)
Holds-turn_of P (collecting t) h = h
Holds-turn_of P (left t) h = h

seen : (b : Bool) {c : Bool} → (b ≡ true → c ≡ true) → c ≡ false → b ≡ false
seen true h e = absurd (true≢false (sym (h refl) ∙ e))
seen false h e = refl

diff_split : (a b c : ℤ) → a -ℤ b ≡ (c -ℤ b) +ℤ (a -ℤ c)
diff_split a b c = omega int_laws

fell_silent-Heard :
    (s : Setup) (at : ℤ) (n : Bool) (t : Turn) → Heard t → Heard (fell_silent s at n t)
unfolding fell_silent
fell_silent-Heard s at n t h = if_intro Heard (not t.speaking) _ _ (λ e. h) (λ e. h)

yield_floor-Heard : (s : Setup) (i : Input) (t : Turn) → Heard t → Heard (yield_floor s i t)
unfolding yield_floor
yield_floor-Heard s i t h =
    if_intro Heard t.speaking _ _ (λ e. fell_silent-Heard s i.cleared false spoken h) (λ e. h)
  where
    spoken : Turn
    spoken = record t {
      marks = t.marks ++ (caller_yielded_mark i.now ∷ []);
      m = record (t.m) { caller_yielded = true; fail_reason = "agent talked over the caller" };
    }

-- An agent's first audio at an instant other than zero.
first_sound-Heard : (s : Setup) (at : ℤ) (t : Turn) → Heard t → Heard (first_sound s at t)
unfolding first_sound
first_sound-Heard s at t h = if_intro Heard (is_zero t.first_audio) _ _ (λ e e'. h e) (λ e. h)

barge_yield-Heard : (s : Setup) (at : ℤ) (t : Turn) → Heard t → Heard (barge_yield s at t)
unfolding barge_yield
barge_yield-Heard s at t h =
    if_intro Heard (s.barging && is_zero t.m.barge_in_yield) _ _ (λ e. h) (λ e. h)

fail-Heard : (why : String) (t : Turn) → Heard t → Heard (fail why t)
unfolding fail
fail-Heard why t h = h

hush-Heard : (s : Setup) (at : ℤ) (t : Turn) → Heard t → Heard (hush s at t)
unfolding hush
hush-Heard s at t h = if_intro Heard t.speaking _ _ (λ e. fell_silent-Heard s at false t h) (λ e. h)

-- Endpointing and thinking make up the time to the first audio.
abbrev pub IsSplit : TurnMetric → Type 0
IsSplit m = m.ttfa ≡ m.endpointing +ℤ m.think_speak

abbrev pub IsSummed : TurnMetric → Type 0
IsSummed m = m.turn_latency ≡ m.ttfa +ℤ m.agent_speech

with_audio-IsSplit :
    (t : Turn) (m : TurnMetric)
    → is_zero t.first_audio ≡ false
    → is_zero t.user_heard ≡ false
    → IsSplit (with_audio t m)
unfolding with_audio
with_audio-IsSplit t m e f =
    if_intro IsSplit (is_zero t.first_audio) _ _ (λ g. cc)
      (λ g. if_intro IsSplit (is_zero t.user_heard) _ _ (λ g'. cc) (λ g'. diff_split _ _ _))

with_audio-ttfa :
    (t : Turn) (m : TurnMetric)
    → is_zero t.first_audio ≡ false
    → (with_audio t m).ttfa ≡ t.first_audio -ℤ t.caller_end
unfolding with_audio
with_audio-ttfa t m e =
    if_intro (λ (n : TurnMetric). n.ttfa ≡ t.first_audio -ℤ t.caller_end) (is_zero t.first_audio) _
      _ (λ g. cc)
      (λ g.
        if_intro (λ (n : TurnMetric). n.ttfa ≡ t.first_audio -ℤ t.caller_end) (is_zero t.user_heard)
          _ _ (λ g'. refl) (λ g'. refl))

measure-IsSplit :
    (median : ℤ → ℤ → ℤ × Bool) (s : Setup) (now : ℤ) (t : Turn)
    → is_zero t.first_audio ≡ false
    → is_zero t.user_heard ≡ false
    → IsSplit (measure median s now t)
unfolding measure with_silence with_playout with_instants
measure-IsSplit median s now t e f =
    if_intro IsSplit (is_zero t.playout_end) _ _ (λ g. silent) (λ g. silent)
  where
    silent : IsSplit (with_silence t (with_audio t t.m))
    silent =
        let h = with_audio-IsSplit t t.m e f in
        if_intro IsSplit (is_zero t.audible) _ _ (λ g. h) (λ g. h)

measure-IsSummed :
    (median : ℤ → ℤ → ℤ × Bool) (s : Setup) (now : ℤ) (t : Turn)
    → is_zero t.first_audio ≡ false
    → is_zero t.playout_end ≡ false
    → IsSummed (measure median s now t)
unfolding measure with_silence with_playout with_instants
measure-IsSummed median s now t e f =
    if_intro IsSummed (is_zero t.playout_end) _ _ (λ g. cc) (λ g. rw (silent) (diff_split _ _ _))
  where
    silent : (with_silence t (with_audio t t.m)).ttfa ≡ t.first_audio -ℤ t.caller_end
    silent =
        let h = with_audio-ttfa t t.m e in
        if_intro (λ (n : TurnMetric). n.ttfa ≡ t.first_audio -ℤ t.caller_end) (is_zero t.audible) _
          _ (λ g. h) (λ g. h)

module _ (spaced : String → String → String) where
  on_event-Heard :
      (s : Setup) (i : Input) (k : Kind) (ev : SrvEvent) (t : Turn)
      → Heard t
      → Holds Heard (on_event spaced s i k ev t)
  unfolding on_event
  on_event-Heard s i user_transcript ev t h = h
  on_event-Heard s i agent_first_audio ev t h =
      yield_floor-Heard s i (first_sound s ev.at t) (first_sound-Heard s ev.at t h)
  on_event-Heard s i agent_audible ev t h =
      if_intro Heard (not (is_zero t.first_audio) && is_zero t.audible) _ _ (λ e. h) (λ e. h)
  on_event-Heard s i agent_transcript ev t h = h
  on_event-Heard s i agent_audio_done ev t h =
      if_intro (Holds Heard) (not (is_zero t.first_audio)) _ _ (λ e f. cc)
        (λ e. barge_yield-Heard s ev.at t h)
  on_event-Heard s i server_error ev t h = fail-Heard ev.text t h
  on_event-Heard s i other_kind ev t h = h

  on_input-Heard :
      (s : Setup) (i : Input) (r : Received) (t : Turn)
      → Heard t
      → Holds Heard (on_input spaced s i r t)
  unfolding on_input
  on_input-Heard s i (speak_done at) t h = fell_silent-Heard s at true t h
  on_input-Heard s i closed t h = fail-Heard "" t h
  on_input-Heard s i (event ev) t h = on_event-Heard s i ev.kind ev t h
  on_input-Heard s i interrupt t h = h
  on_input-Heard s i (pump_failed why) t h = fail-Heard why t h
  on_input-Heard s i timed_out t h = fail-Heard "" t h
  on_input-Heard s i cancelled t h = fail-Heard "" t h

  collect-Heard :
      (s : Setup) (is : List Input) (st : Status)
      → Holds Heard st
      → Holds Heard (collect spaced s is st)
  unfolding collect
  collect-Heard s [] st h = h
  collect-Heard s (i ∷ is) (left t) h = h
  collect-Heard s (i ∷ is) (collecting t) h =
      collect-Heard s is _ (on_input-Heard s i i.received t h)

  -- The turn from `begin` when the caller is silent after the loop.
  abbrev pub settled : Setup → List Input → ℤ → Turn
  settled s is cleared = hush s cleared (turn_of (collect spaced s is (collecting (begin s))))

  settled-Heard : (s : Setup) (is : List Input) (cleared : ℤ) → Heard (settled s is cleared)
  unfolding begin
  settled-Heard s is cleared =
      let st = collect spaced s is (collecting (begin s)) in
      hush-Heard s cleared (turn_of st) (Holds-turn_of Heard st (collect-Heard s is _ (λ e. refl)))

  -- Whatever the loop received, a turn whose reply played to its end after a transcript of the
  -- caller was seen has a time to first audio that is endpointing and thinking together, and a
  -- latency that is the time to first audio and the agent's speech together.
  pub measure-sums :
      (median : ℤ → ℤ → ℤ × Bool) (s : Setup) (is : List Input) (cleared now : ℤ)
      → is_zero (settled s is cleared).user_heard ≡ false
      → is_zero (settled s is cleared).playout_end ≡ false
      → ((measure median s now (settled s is cleared)).ttfa
          ≡ (measure median s now (settled s is cleared)).endpointing
            +ℤ (measure median s now (settled s is cleared)).think_speak)
        × ((measure median s now (settled s is cleared)).turn_latency
            ≡ (measure median s now (settled s is cleared)).ttfa
              +ℤ (measure median s now (settled s is cleared)).agent_speech)
  measure-sums median s is cleared now u p =
      let t = settled s is cleared in
      let f = seen (is_zero t.first_audio) (settled-Heard s is cleared) p in
      (measure-IsSplit median s now t f u, measure-IsSummed median s now t f p)
