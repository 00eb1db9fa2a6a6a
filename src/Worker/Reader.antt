-- ===== src/Worker/Reader.antt =====
-- internal/worker/worker.go, `readLoop`: what arrives from the agent is stamped, recorded and handed
-- to the turn loop. An `Arrival` is one read of the socket: the instant of the read, the instant of
-- the mark that it leads to, whether the channel has room for an event, and the turn under way.
-- `offset` is the sample that the recorder truncates to, `limit_of` the detector's limit,
-- `spoken` the text of a duration. The quotient of a duration is exact. The detector reports a start
-- of 0 unless it found one, and is read only then.
pub mod Playout
use callstorm.Prelude.{
  ℕ, ◌+◌, ◌-◌, ◌*◌, ◌/◌, ℤ, pos, ◌+ℤ◌, ◌-ℤ◌, ltb_ℤ, leb, String, str_eq, Bool, true, false, not,
  ◌&&◌, Option, none, some, List, [], ◌∷◌, ◌++◌, if◌then◌else◌, length,
}
use callstorm.Metrics.Log.{Event, mark_at, mark_bytes}
use callstorm.Metrics.Log as Log
use callstorm.Audio.Onset.{Onset, new_onset, write}
use callstorm.Audio.Recorder.{add}
use callstorm.Worker.Turn.{
  SrvEvent, Kind, user_transcript, agent_first_audio, agent_audible, agent_transcript,
  agent_audio_done, server_error, other_kind,
}

-- `serverMessage`.
pub record ServerMessage : Type 0 where
  pub msg_type : String
  pub request_id : String
  pub role : String
  pub content : String
  pub description : String
  pub message : String
  pub code : String

pub data Frame : Type 0 where
  binary : List ℕ → Frame
  unreadable : Frame
  message : ServerMessage → Frame

pub record Arrival : Type 0 where
  pub at : ℤ
  pub marked : ℤ
  pub room : Bool
  pub turn : ℕ
  pub frame : Frame

pub record ChunkMark : Type 0 where
  pub sample : ℕ
  pub plays : ℤ

-- The variables of the loop, with the parts of the worker that it writes.
pub record Reading : Type 0 where
  pub speaking : Bool
  pub playout_end : ℤ
  pub onset : Option Onset
  pub marks : List ChunkMark
  pub samples : ℕ
  pub log : List Event
  pub emitted : List SrvEvent
  pub track : Option (List ℤ)
  pub agent_bytes : ℕ

-- What the switch on a message's type does with it.
pub data Meaning : Type 0 where
  user_started conversation thinking started audio_done failed warning unknown : Meaning

unfoldable pub meaning : String → Meaning
meaning t =
    if str_eq t "UserStartedSpeaking"
    then user_started
    else (if str_eq t "ConversationText"
        then conversation
        else (if str_eq t "AgentThinking"
            then thinking
            else (if str_eq t "AgentStartedSpeaking"
                then started
                else (if str_eq t "AgentAudioDone"
                    then audio_done
                    else (if str_eq t "Error"
                        then failed
                        else (if str_eq t "Warning" then warning else unknown))))))

unfoldable pub first_non_empty : List String → String
first_non_empty [] = ""
first_non_empty (v ∷ vs) = if str_eq v "" then first_non_empty vs else v

-- An event that the channel has no room for is dropped.
abbrev pub emit : Bool → SrvEvent → Reading → Reading
emit room ev r = record r { emitted = if room then r.emitted ++ (ev ∷ []) else r.emitted }

abbrev pub event_at : Kind → ℤ → SrvEvent
event_at k at = record { kind = k; at = at; text = ""; playout = pos 0 }

abbrev pub event_of : Kind → ℤ → String → SrvEvent
event_of k at text = record { kind = k; at = at; text = text; playout = pos 0 }

-- The chunk that holds a sample: the last one that starts up to it.
unfoldable pub chunk_of : ℕ → ChunkMark → List ChunkMark → ChunkMark
chunk_of start m [] = m
chunk_of start m (c ∷ cs) = chunk_of start (if leb c.sample start then c else m) cs

-- `audio.Duration`.
unfoldable pub duration : ℕ → List ℕ → ℤ
duration rate pcm = pos (length pcm / 2 * 1000000000 / rate)

abbrev pub audible_at : ℕ → ℕ → ChunkMark → ℤ
audible_at rate start m = m.plays +ℤ pos ((start - m.sample) * 1000000000 / rate)

module _ (rate : ℕ) (limit_of : ℕ → ℕ) (hundredths : ℤ → ℤ) (offset : ℤ → ℤ)
    (spoken : ℤ → String) where
  abbrev pub mark : Arrival → Log.Kind → String → Reading → Reading
  mark a k text r = record r { log = mark_at hundredths a.marked k a.turn text r.log }

  -- A recorder that is nil records nothing.
  abbrev pub record_audio : ℤ → List ℕ → Option (List ℤ) → Option (List ℤ)
  record_audio at pcm none = none
  record_audio at pcm (some samples) = some (add (offset at) pcm samples)

  -- The first chunk of a reply.
  unfoldable pub begin_reply : Arrival → List ℕ → Reading → Reading
  unfolding mark_bytes new_onset
  begin_reply a pcm r =
      if r.speaking
      then r
      else emit a.room (event_at agent_first_audio a.at) (record r {
        speaking = true;
        playout_end = a.at;
        onset = some (new_onset limit_of rate);
        marks = [];
        samples = 0;
        log = mark_bytes hundredths a.marked Log.agent_first_audio a.turn (length pcm) r.log;
      })

  -- Sound was found at sample `start`, in one of the chunks from `first` on.
  abbrev pub hear_sound : Arrival → ℕ → ChunkMark → List ChunkMark → Reading → Reading
  hear_sound a start first more r =
      let audible = audible_at rate start (chunk_of start first (first ∷ more)) in
      emit a.room (event_at agent_audible audible) (record r {
        onset = none;
        log =
            mark_at hundredths audible Log.agent_audible a.turn (spoken (audible -ℤ first.plays))
              r.log;
      })

  abbrev pub hear_found : Arrival → Onset → List ChunkMark → Reading → Reading
  hear_found a o [] r = r
  hear_found a o (first ∷ more) r = if o.found then hear_sound a o.start first more r else r

  unfoldable pub seek_sound : Arrival → List ℕ → Option Onset → Reading → Reading
  unfolding write chunk_of mark_at
  seek_sound a pcm none r = r
  seek_sound a pcm (some o) r =
      let marks = r.marks ++ (record { sample = r.samples; plays = r.playout_end } ∷ []) in
      let heard = write o pcm in
      hear_found a heard marks
        (record r { onset = some heard; marks = marks; samples = r.samples + length pcm / 2 })

  abbrev pub count_audio : Arrival → List ℕ → Reading → Reading
  count_audio a pcm r = record r {
    track = record_audio a.at pcm r.track;
    agent_bytes = r.agent_bytes + length pcm;
  }

  abbrev pub reach : ℤ → Reading → Reading
  reach at r = record r { playout_end = if ltb_ℤ r.playout_end at then at else r.playout_end }

  unfoldable pub play : List ℕ → Reading → Reading
  unfolding duration
  play pcm r = record r { playout_end = r.playout_end +ℤ duration rate pcm }

  unfoldable pub read_audio : Arrival → List ℕ → Reading → Reading
  unfolding begin_reply seek_sound play
  read_audio a pcm r =
      let b = reach a.at (begin_reply a pcm (count_audio a pcm r)) in
      play pcm (seek_sound a pcm b.onset b)

  unfoldable pub read_message : Arrival → ServerMessage → Meaning → Reading → Reading
  unfolding first_non_empty mark_at
  read_message a m user_started r =
      emit a.room (event_at other_kind a.marked) (mark a Log.user_started_speak "" r)
  read_message a m conversation r =
      if str_eq m.role "user"
      then emit a.room (event_of user_transcript a.marked m.content)
          (mark a Log.user_transcript m.content r)
      else emit a.room (event_of agent_transcript a.marked m.content)
          (mark a Log.agent_transcript m.content r)
  read_message a m thinking r =
      emit a.room (event_at other_kind a.marked) (mark a Log.agent_thinking m.content r)
  read_message a m started r =
      emit a.room (event_at other_kind a.marked) (mark a Log.agent_started_speak "" r)
  read_message a m audio_done r =
      emit a.room
        (record { kind = agent_audio_done; at = a.marked; text = ""; playout = r.playout_end })
        (mark a Log.agent_audio_done "" (record r { speaking = false }))
  read_message a m failed r =
      let text = first_non_empty (m.description ∷ m.message ∷ m.code ∷ []) in
      emit a.room (event_of server_error a.marked text) (mark a Log.server_error text r)
  read_message a m warning r =
      mark a Log.server_warning (first_non_empty (m.description ∷ m.message ∷ [])) r
  read_message a m unknown r = r

  abbrev pub read_frame : Arrival → Frame → Reading → Reading
  read_frame a (binary pcm) r = read_audio a pcm r
  read_frame a unreadable r = r
  read_frame a (message m) r = read_message a m (meaning m.msg_type) r

  unfoldable pub read_all : List Arrival → Reading → Reading
  unfolding read_audio read_message meaning
  read_all [] r = r
  read_all (a ∷ more) r = read_all more (read_frame a a.frame r)

  -- The read that ends the loop: a fault of the agent's side is marked.
  unfoldable pub end_reading : Bool → Arrival → String → Reading → Reading
  unfolding mark_at
  end_reading fault a why r = if fault then mark a Log.server_error why r else r
