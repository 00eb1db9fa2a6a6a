-- ===== src/Tests/Sockets.antt =====
-- The start of a call, and what its socket reads.
use callstorm.Prelude.{
  ℕ, ◌≡◌, refl, ℤ, pos, suc, true, false, String, none, List, [], ◌∷◌, ◌++◌, count_if,
}
use callstorm.Scenario.{Target}
use callstorm.Worker.Reader.{ServerMessage, unreadable, Arrival, Reading, read_all, meaning}
use callstorm.Worker.Reader.Playout.{
  is_first_audio, with_audio, with_message, done_event, drained, reply-Playout,
}
use callstorm.Worker.Handshake.{Answers, connect, connected, build_settings, text}
use callstorm.Worker.Handshake.Shaken.{Ends, connect-Shaken}
use callstorm.Worker.Handshake as Handshake

abbrev silent : Reading
silent = record {
  speaking = false;
  playout_end = pos 0;
  onset = none;
  marks = [];
  samples = 0;
  log = [];
  emitted = [];
  track = none;
  agent_bytes = 0;
}

abbrev arrival : ℤ → Arrival
arrival at = record { at = at; marked = at; room = true; turn = 1; frame = unreadable }

abbrev say : String → ServerMessage
say kind = record {
  msg_type = kind;
  request_id = "id";
  role = "";
  content = "";
  description = "";
  message = "";
  code = "";
}

abbrev more : List Arrival
more = with_audio (arrival (pos 9000000000)) (0 ∷ 1 ∷ []) ∷ []

abbrev no_limit : ℕ → ℕ
no_limit n = n

abbrev same : ℤ → ℤ
same n = n

abbrev shown : ℤ → String
shown n = ""

abbrev read : List Arrival → Reading
read arrivals = read_all 4 no_limit same same shown arrivals silent

reply-Playout_example :
    (count_if is_first_audio (read (with_audio (arrival (pos 5)) (0 ∷ 0 ∷ []) ∷ more)).log
      ≡ suc (count_if is_first_audio silent.log))
    × ((read (
          with_audio (arrival (pos 5)) (0 ∷ 0 ∷ [])
          ∷ (more ++ (with_message (arrival (pos 7)) (say "AgentAudioDone") ∷ [])))).emitted
        ≡ (read (with_audio (arrival (pos 5)) (0 ∷ 0 ∷ []) ∷ more)).emitted
          ++ (done_event
                (arrival (pos 7))
                (drained 4 (with_audio (arrival (pos 5)) (0 ∷ 0 ∷ [])) more)
              ∷ []))
unfolding meaning
reply-Playout_example =
    reply-Playout 4 no_limit same same shown (arrival (pos 5)) (0 ∷ 0 ∷ []) more (arrival (pos 7))
      (say "AgentAudioDone") silent refl (refl, tt) refl refl

abbrev target : Target
target = record { prompt = "p"; greeting = ""; voice = "v"; think_model = "m"; listen_model = "n" }

abbrev all_well : Answers
all_well = record { dialled = none; encoded = none; sent = none }

abbrev reads : List Handshake.Incoming
reads =
    Handshake.binary
    ∷ text (say "Welcome")
    ∷ text (say "History")
    ∷ text (say "SettingsApplied")
    ∷ Handshake.binary
    ∷ []

connect-Shaken_example :
    Ends (build_settings target 24000) all_well reads (connect target 24000 "" all_well reads)
connect-Shaken_example = connect-Shaken target 24000 "" all_well reads

handshake_done : (connect target 24000 "" all_well reads).0 ≡ connected "id" (Handshake.binary ∷ [])
unfolding connect
handshake_done = refl
