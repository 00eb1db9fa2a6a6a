-- ===== src/Tests/Calls.antt =====
-- A script of two turns, validated and walked.
use callstorm.Prelude.{◌≡◌, refl, pos, false, none, List, [], ◌∷◌, String, ok}
use callstorm.Metrics.Turn.{zero_metric}
use callstorm.Scenario.{Library, Turn, Scenario, turn_limit}
use callstorm.Scenario.Validate.{validate}
use callstorm.Scenario.Checked.{IsChecked, validate-IsChecked}
use callstorm.Worker.Walk.{Formats, Speak, run}
use callstorm.Worker.Walk.Total.{Within, OnNode, run-Within}

-- Go's library, on texts that need none of it.
abbrev plain : Library
plain = record {
  lower = λ s. s;
  contains = λ s p. false;
  trim = λ s. s;
  turn_name = λ n. "turn";
  parse_duration = λ s. none;
}

abbrev texts : Formats
texts = record { miss_text = λ m. "miss"; no_reply = λ r. "no reply" }

abbrev line : String → String → Turn
line id say = record { id = id; say = say; expect = none; barge_in_after = ""; branch = [] }

abbrev refund : List Turn → Scenario
refund ts = record {
  name = "refund";
  persona = "";
  caller_voice = "aura";
  turns = ts;
  sentence_pause = "";
  target = record {
    prompt = "";
    greeting = "hi";
    voice = "v";
    think_model = "t";
    listen_model = "l";
  };
  success_criteria = [];
  max_turns = pos 0;
}

abbrev script : Scenario
script = refund (line "a" "hello" ∷ line "" "a refund" ∷ [])

abbrev named : Scenario
named = refund (line "a" "hello" ∷ line "turn" "a refund" ∷ [])

script_validates : validate plain script ≡ ok named
unfolding validate
script_validates = refl

validate-IsChecked_example : IsChecked named
validate-IsChecked_example = validate-IsChecked plain script named script_validates

abbrev silent : Speak
silent n say cut barging last = (zero_metric, last)

run-Within_example :
    Within (OnNode plain texts named.turns) (turn_limit named) (run plain texts silent named "hi")
run-Within_example = run-Within plain texts silent named "hi" validate-IsChecked_example
