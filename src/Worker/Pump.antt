-- ===== src/Worker/Pump.antt =====
-- internal/worker/pump.go: the caller's audio, one frame for each frame of time. Bytes are numbers,
-- instants are nanoseconds. The queue's channel is an optional number that names the utterance whose
-- end it waits for. The instants of a round, and whether its write failed, are arguments; a done
-- context ends the loop before a frame, as an empty rest of rounds does. The commands of a round are
-- what `speak` and `clear` did since the last frame, in the order of the lock.
pub mod Frames
use callstorm.Prelude.{
  ℕ, zero, suc, ◌+◌, ◌-◌, ◌*◌, ℤ, pos, ◌-ℤ◌, ltb, ltb_ℤ, Bool, true, false, Option, none, some,
  List, [], ◌∷◌, ◌++◌, if◌then◌else◌, length, take, drop, replicate,
}

pub record Pump : Type 0 where
  pub frame_bytes : ℕ
  pub queue : List ℕ
  pub waiting : Option ℕ

-- An instant handed to the channel of an utterance.
pub record Told : Type 0 where
  pub utterance : ℕ
  pub at : ℕ

unfoldable pub new_pump : ℕ → Pump
new_pump frame_bytes = record { frame_bytes = frame_bytes; queue = []; waiting = none }

unfoldable pub speak : ℕ → List ℕ → Pump → Pump
speak utterance pcm p = record p { queue = pcm; waiting = some utterance }

abbrev pub tell : Option ℕ → ℕ → List Told
tell none at = []
tell (some u) at = record { utterance = u; at = at } ∷ []

-- `clear`, at the instant that it reads.
unfoldable pub clear : ℕ → Pump → Pump × List Told
clear at p = (record p { queue = []; waiting = none }, tell p.waiting at)

pub record Frame : Type 0 where
  pub bytes : List ℕ
  pub is_caller : Bool
  pub finished : Option ℕ

abbrev pub is_empty : List ℕ → Bool
is_empty [] = true
is_empty (b ∷ bs) = false

-- One frame off the queue, a short last one padded with silence.
unfoldable pub next_frame : Pump → Pump × Frame
next_frame p =
    let rest = drop p.frame_bytes p.queue in
    let sent = take p.frame_bytes p.queue in
    if is_empty p.queue
    then (p, record { bytes = replicate p.frame_bytes 0; is_caller = false; finished = none })
    else (
      record p { queue = rest; waiting = if is_empty rest then none else p.waiting },
      record {
        bytes = sent ++ replicate (p.frame_bytes - length sent) 0;
        is_caller = true;
        finished = if is_empty rest then p.waiting else none;
      },
    )

abbrev pub frame_duration : ℕ
frame_duration = 20000000

-- The anchor of the schedule before frame `i`, at `now`: it moves to now once the pump is more than
-- a frame late.
unfoldable pub anchor : ℕ → ℕ → ℕ → ℕ
anchor start i now =
    if ltb (start + i * frame_duration + frame_duration) now
    then start + (now - (start + i * frame_duration))
    else start

-- When frame `i` goes out: at its deadline, or at once if that has passed.
abbrev pub due : ℕ → ℕ → ℕ → ℕ
due start i now = if ltb now (start + i * frame_duration) then start + i * frame_duration else now

-- What the turn asks of the pump between two frames.
pub data Command : Type 0 where
  say : ℕ → List ℕ → Command
  cut : ℕ → Command

unfoldable pub obey : List Command → Pump → Pump × List Told
unfolding speak clear
obey [] p = (p, [])
obey (say u pcm ∷ cs) p = obey cs (speak u pcm p)
obey (cut at ∷ cs) p =
    let (p', told) = clear at p in let (p'', more) = obey cs p' in (p'', told ++ more)

pub record Round : Type 0 where
  pub commands : List Command
  pub now : ℕ
  pub at : ℕ
  pub write_failed : Bool

pub record Sent : Type 0 where
  pub frames : List (ℕ × Frame)
  pub told : List Told
  pub pump : Pump
  pub failed : Bool

abbrev pub told_end : Option ℕ → ℕ → List Told
told_end finished at = tell finished (at + frame_duration)

-- The loop of `run` from frame `i`: each frame with the instant at which it is due.
unfoldable pub run : ℕ → ℕ → List Round → Pump → Sent
unfolding obey next_frame anchor
run start i [] p = record { frames = []; told = []; pump = p; failed = false }
run start i (r ∷ rs) p =
    let start' = anchor start i r.now in
    let (spoken, cut_off) = obey r.commands p in
    let (p', f) = next_frame spoken in
    let rest = run start' (suc i) rs p' in
    if r.write_failed
    then record { frames = []; told = cut_off; pump = p'; failed = true }
    else record rest {
      frames = (due start' i r.now, f) ∷ rest.frames;
      told = cut_off ++ told_end f.finished r.at ++ rest.told;
    }
