-- ===== src/Worker/Handshake.antt =====
-- internal/worker/worker.go, `connect` and `readJSON`, and internal/worker/protocol.go: the handshake
-- of a call. What the socket's reads return, one after another, is a list; at its end the call waits
-- for another. The log of what happened on the socket has each read and the settings, once they are
-- sent. An `Answers` is what dialling, writing and the encoder return. The call's own event
-- log, printing and the dial's timeout are left out.
pub mod Reads
pub mod Shaken
use callstorm.Prelude.{
  ℕ, String, str_eq, not, Option, none, some, List, [], ◌∷◌, ◌++◌, if◌then◌else◌,
}
use callstorm.Scenario.{Target}
use callstorm.Worker.Reader.{ServerMessage, first_non_empty}

pub data Incoming : Type 0 where
  read_failed : String → Incoming
  binary : Incoming
  unreadable : String → Incoming
  text : ServerMessage → Incoming

pub data Error : Type 0 where
  dial : String → String → Error
  no_welcome : String → Error
  not_welcome : String → Error
  no_json : String → Error
  not_sent : String → Error
  not_applied : String → Error
  rejected : String → String → Error

-- The provider and its model.
pub record Provider : Type 0 where
  pub provider : String
  pub model : String

-- `settings`, with its nested structs as fields; a temperature is in tenths.
pub record Settings : Type 0 where
  pub kind : String
  pub encoding : String
  pub input_rate : ℕ
  pub output_rate : ℕ
  pub container : String
  pub language : String
  pub listen : Provider
  pub think : Provider
  pub temperature : ℕ
  pub prompt : String
  pub speak : Provider
  pub greeting : String

unfoldable pub build_settings : Target → ℕ → Settings
build_settings t rate = record {
  kind = "Settings";
  encoding = "linear16";
  input_rate = rate;
  output_rate = rate;
  container = "none";
  language = "en";
  listen = record { provider = "deepgram"; model = t.listen_model };
  think = record { provider = "open_ai"; model = t.think_model };
  temperature = 7;
  prompt = t.prompt;
  speak = record { provider = "deepgram"; model = t.voice };
  greeting = t.greeting;
}

pub data Read : Type 0 where
  got : ServerMessage → List Incoming → Read
  failed : String → Read
  waiting : Read

-- What happened on the socket.
pub data Exchange : Type 0 where
  heard : Incoming → Exchange
  told : Settings → Exchange

abbrev pub put_exchange {ℓ} : {A : Type ℓ} → Exchange → A × List Exchange → A × List Exchange
put_exchange e p = (p.0, e ∷ p.1)

-- `readJSON`, the next text frame.
unfoldable pub read_json : List Incoming → Read × List Exchange
read_json [] = (waiting, [])
read_json (read_failed why ∷ more) = (failed why, heard (read_failed why) ∷ [])
read_json (binary ∷ more) = put_exchange (heard binary) (read_json more)
read_json (unreadable why ∷ more) = (failed why, heard (unreadable why) ∷ [])
read_json (text m ∷ more) = (got m more, heard (text m) ∷ [])

pub data Connected : Type 0 where
  pending : Connected
  refused : Error → Connected
  -- The request that the agent named, and the reads that follow.
  connected : String → List Incoming → Connected

-- The loop that waits for the settings to be applied.
unfoldable pub await_applied : List Incoming → Connected × List Exchange
unfolding first_non_empty
await_applied [] = (pending, [])
await_applied (read_failed why ∷ more) = (refused (not_applied why), heard (read_failed why) ∷ [])
await_applied (binary ∷ more) = put_exchange (heard binary) (await_applied more)
await_applied (unreadable why ∷ more) = (refused (not_applied why), heard (unreadable why) ∷ [])
await_applied (text m ∷ more) =
    let rest = put_exchange (heard (text m)) (await_applied more) in
    if str_eq m.msg_type "SettingsApplied"
    then (connected "" more, heard (text m) ∷ [])
    else (if str_eq m.msg_type "Error"
        then (
          refused (rejected m.code (first_non_empty (m.description ∷ m.message ∷ []))),
          heard (text m) ∷ [],
        )
        else rest)

abbrev pub named : String → Connected → Connected
named id pending = pending
named id (refused why) = refused why
named id (connected nobody more) = connected id more

pub record Answers : Type 0 where
  pub dialled : Option String
  pub encoded : Option String
  pub sent : Option String

-- How connecting ended and its log, which begins with what was read before.
abbrev pub after_send :
    Option String → Settings → String → List Incoming → List Exchange → Connected × List Exchange
after_send (some why) s id more log = (refused (not_sent why), log)
after_send none s id more log =
    let end = await_applied more in (named id end.0, log ++ (told s ∷ end.1))

abbrev pub after_json :
    Option String
    → Option String
    → Settings
    → String
    → List Incoming
    → List Exchange
    → Connected × List Exchange
after_json (some why) sent s id more log = (refused (no_json why), log)
after_json none sent s id more log = after_send sent s id more log

abbrev pub after_welcome : Answers → Settings → Read → List Exchange → Connected × List Exchange
after_welcome ans s waiting log = (pending, log)
after_welcome ans s (failed why) log = (refused (no_welcome why), log)
after_welcome ans s (got m more) log =
    if not (str_eq m.msg_type "Welcome")
    then (refused (not_welcome m.msg_type), log)
    else after_json ans.encoded ans.sent s m.request_id more log

abbrev pub default_url : String
default_url = "wss://agent.deepgram.com/v1/agent/converse"

abbrev pub after_dial :
    String → Option String → Connected × List Exchange → Connected × List Exchange
after_dial url (some why) rest = (refused (dial url why), [])
after_dial url none rest = rest

unfoldable pub connect : Target → ℕ → String → Answers → List Incoming → Connected × List Exchange
unfolding build_settings read_json await_applied
connect target rate url ans reads =
    after_dial (if str_eq url "" then default_url else url) ans.dialled
      (after_welcome ans (build_settings target rate) (read_json reads).0 (read_json reads).1)
