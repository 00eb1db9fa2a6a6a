-- ===== src/Tests/Runs.antt =====
-- A profile with a recovery, an impairment matrix, and a turn that plays to its end.
use callstorm.Prelude.{
  ◌≡◌, refl, ◌+ℤ◌, pos, ℤ, false, not, Bool, none, List, [], ◌∷◌, String, str_eq,
}
use callstorm.Scenario.Validate.{mem}
use callstorm.Loadgen.Profile.{Profile, validate, step_names}
use callstorm.Loadgen.Profile.Checked.{IsRunnable, validate-IsRunnable}
use callstorm.Impair.{control, profile, cohorts, is_clean, Library, Answer, args, apply}
use callstorm.Impair.Cohorts.{IsMatrix, cohorts-IsMatrix, apply_proves}
use callstorm.Worker.Turn.{
  Setup, Input, Kind, speak_done, event, user_transcript, agent_first_audio, agent_audio_done,
  measure, hush, collect, begin,
}
use callstorm.Worker.Turn.Instants.{settled, measure-sums}

abbrev ramp : Profile
ramp = record {
  name = "p";
  baseline = "";
  steps =
      record { name = "one"; concurrency = 1; calls = 0; kind = ""; hold = pos 0 }
      ∷ record { name = "two"; concurrency = 2; calls = 5; kind = "stress"; hold = pos 0 }
      ∷ record { name = "back"; concurrency = 1; calls = 2; kind = "recovery"; hold = pos 0 }
      ∷ [];
}

abbrev accepted : Profile
accepted = record {
  name = "p";
  baseline = "one";
  steps =
      record { name = "one"; concurrency = 1; calls = 1; kind = ""; hold = pos 0 }
      ∷ record { name = "two"; concurrency = 2; calls = 5; kind = "stress"; hold = pos 0 }
      ∷ record { name = "back"; concurrency = 1; calls = 2; kind = "recovery"; hold = pos 0 }
      ∷ [];
}

validate-IsRunnable_example : IsRunnable accepted
unfolding validate mem step_names
validate-IsRunnable_example = validate-IsRunnable (λ n. "step") ramp accepted refl

cohorts-IsMatrix_example :
    IsMatrix (profile "light" 10 0 20 ∷ control ∷ []) (control ∷ profile "light" 10 0 20 ∷ [])
unfolding cohorts
cohorts-IsMatrix_example = cohorts-IsMatrix _ _ refl

abbrev tc : Library
tc = record {
  ms = λ z. "5ms";
  percent = λ z. "1%";
  joined = λ ws. "tc";
  trim = λ s. s;
  contains = λ s p. str_eq s p;
}

abbrev netem : List String → Answer
netem command = record { out = "netem"; run_err = none }

apply_proves_example :
    ((netem ("qdisc" ∷ "show" ∷ "dev" ∷ "eth0" ∷ [])).run_err ≡ none)
    × ((apply tc "eth0" (profile "light" 10 0 20) netem).qdisc
        ≡ tc.trim (netem ("qdisc" ∷ "show" ∷ "dev" ∷ "eth0" ∷ [])).out)
    × (tc.contains (tc.trim (netem ("qdisc" ∷ "show" ∷ "dev" ∷ "eth0" ∷ [])).out) "netem"
        ≡ not (is_clean (profile "light" 10 0 20)))
    × (is_clean (profile "light" 10 0 20) ≡ false
        → (netem (args tc "eth0" (profile "light" 10 0 20))).run_err ≡ none)
unfolding apply
apply_proves_example = apply_proves tc "eth0" (profile "light" 10 0 20) netem refl

abbrev seen : Kind → ℤ → Input
seen kind at = record {
  received = event (record { kind = kind; at = at; text = "hi"; playout = pos 9 });
  cleared = pos 0;
  now = at;
}

abbrev setup : Setup
setup = record {
  idx = 0;
  say = "hello";
  utterance = pos 2;
  interrupt_after = pos 0;
  barging = false;
  caller_start = pos 1;
}

abbrev heard : List Input
heard =
    record { received = speak_done (pos 3); cleared = pos 0; now = pos 3 }
    ∷ seen user_transcript (pos 4)
    ∷ seen agent_first_audio (pos 6)
    ∷ seen agent_audio_done (pos 8)
    ∷ []

abbrev median : ℤ → ℤ → ℤ × Bool
median a b = (pos 0, false)

abbrev first_of : String → String → String
first_of a b = a

measure-sums_example :
    ((measure median setup (pos 9) (settled first_of setup heard (pos 9))).ttfa
      ≡ (measure median setup (pos 9) (settled first_of setup heard (pos 9))).endpointing
        +ℤ (measure median setup (pos 9) (settled first_of setup heard (pos 9))).think_speak)
    × ((measure median setup (pos 9) (settled first_of setup heard (pos 9))).turn_latency
        ≡ (measure median setup (pos 9) (settled first_of setup heard (pos 9))).ttfa
          +ℤ (measure median setup (pos 9) (settled first_of setup heard (pos 9))).agent_speech)
unfolding hush collect begin
measure-sums_example = measure-sums first_of median setup heard (pos 9) (pos 9) refl refl
