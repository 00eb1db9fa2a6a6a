-- ===== src/Impair.antt =====
-- internal/impair/impair.go: the network conditions of a run, applied by `tc`.
--
-- A `float64` is a count of thousandths of its unit. What `exec` answers to a command is an
-- argument; `Library` is what the code uses of Go's library and the texts of a number with its unit.
pub mod Cohorts
use callstorm.Prelude.{
  ℕ, suc, ℤ, pos, ltb_ℤ, String, str_eq, Bool, true, false, not, ◌&&◌, ◌||◌, Option, none, some,
  List, [], ◌∷◌, ◌++◌, if◌then◌else◌, Result, ok, ◌>>=◌, ◌>>◌, refuse,
}
use callstorm.Scenario.Validate.{mem}

pub record Profile : Type 0 where
  pub name : String
  pub loss : ℤ
  pub delay : ℤ
  pub jitter : ℤ

abbrev pub profile : String → ℕ → ℕ → ℕ → Profile
profile name loss jitter delay = record {
  name = name;
  loss = pos loss;
  delay = pos delay;
  jitter = pos jitter;
}

abbrev pub control : Profile
control = profile "clean" 0 0 0

unfoldable pub default_profiles : List Profile
default_profiles =
    control
    ∷ profile "light" 1000 20000 100000
    ∷ profile "moderate" 3000 50000 100000
    ∷ profile "severe" 5000 100000 200000
    ∷ []

pub data Error : Type 0 where
  no_name : ℕ → Error
  out_of_range duplicate_profile : String → Error
  impaired_control : Error

abbrev pub is_clean : Profile → Bool
is_clean p = str_eq p.name "clean"

abbrev pub out_of_bounds : Profile → Bool
out_of_bounds p =
    ltb_ℤ p.loss (pos 0)
    || ltb_ℤ (pos 100000) p.loss
    || ltb_ℤ p.delay (pos 0)
    || ltb_ℤ p.jitter (pos 0)

abbrev pub nonzero : ℤ → Bool
nonzero z = ltb_ℤ z (pos 0) || ltb_ℤ (pos 0) z

abbrev pub impairs : Profile → Bool
impairs p = nonzero p.loss || nonzero p.delay || nonzero p.jitter

-- The loop of `Cohorts` from profile `i`, with what it appends.
unfoldable pub each_profile : ℕ → List String → List Profile → Result Error (List Profile)
unfolding mem
each_profile i names [] = ok []
each_profile i names (p ∷ ps) =
    let skipped = each_profile (suc i) names ps in
    let more = each_profile (suc i) (p.name ∷ names) ps in
    refuse (str_eq p.name "") (no_name (suc i))
    >> (refuse (out_of_bounds p) (out_of_range p.name)
        >> (if is_clean p
            then (refuse (impairs p) impaired_control >> skipped)
            else (refuse (mem p.name names) (duplicate_profile p.name)
                >> (more >>= λ rest. ok (p ∷ rest)))))

unfoldable pub cohorts : List Profile → Result Error (List Profile)
unfolding each_profile
cohorts ps = each_profile 0 ("clean" ∷ []) ps >>= λ rest. ok (control ∷ rest)

pub record Library : Type 0 where
  pub ms : ℤ → String
  pub percent : ℤ → String
  pub joined : List String → String
  pub trim : String → String
  pub contains : String → String → Bool

-- What a command printed, and the text of its error.
pub record Answer : Type 0 where
  pub out : String
  pub run_err : Option String

pub data Failed : Type 0 where
  not_run not_shown : String → String → Failed
  not_cleared not_applied : String → Failed

pub record Applied : Type 0 where
  pub command : String
  pub qdisc : String
  pub failed : Option Failed

-- The verdict on the queue discipline that was read back.
abbrev pub verdict : Bool → Bool → String → Option Failed
verdict true true qdisc = some (not_cleared qdisc)
verdict false false qdisc = some (not_applied qdisc)
verdict true false qdisc = none
verdict false true qdisc = none

module _ (lib : Library) where
  abbrev pub delay_args : Profile → List String
  delay_args p =
      if ltb_ℤ (pos 0) p.delay || ltb_ℤ (pos 0) p.jitter
      then "delay" ∷ lib.ms p.delay ∷ (if ltb_ℤ (pos 0) p.jitter then lib.ms p.jitter ∷ [] else [])
      else []

  abbrev pub loss_args : Profile → List String
  loss_args p = if ltb_ℤ (pos 0) p.loss then "loss" ∷ lib.percent p.loss ∷ [] else []

  unfoldable pub args : String → Profile → List String
  args dev p =
      if is_clean p
      then "qdisc" ∷ "del" ∷ "dev" ∷ dev ∷ "root" ∷ []
      else ("qdisc" ∷ "replace" ∷ "dev" ∷ dev ∷ "root" ∷ "netem" ∷ [])
        ++ delay_args p
        ++ loss_args p

  abbrev pub read_back : String → Profile → Answer → Option String → Applied
  read_back command p shown (some why) = record {
    command = command;
    qdisc = "";
    failed = some (not_shown why (lib.trim shown.out));
  }
  read_back command p shown none = record {
    command = command;
    qdisc = lib.trim shown.out;
    failed = verdict (is_clean p) (lib.contains (lib.trim shown.out) "netem") (lib.trim shown.out);
  }

  abbrev pub after_run : String → Profile → Answer → Answer → Option String → Applied
  after_run command p ran shown none = read_back command p shown shown.run_err
  after_run command p ran shown (some why) =
      if not (is_clean p)
      then record { command = command; qdisc = ""; failed = some (not_run why (lib.trim ran.out)) }
      else read_back command p shown shown.run_err

  -- `Apply`, with what `exec` answers to the command and to `qdisc show`.
  unfoldable pub apply : String → Profile → (List String → Answer) → Applied
  unfolding args
  apply dev p exec =
      let ran = exec (args dev p) in
      after_run (lib.joined ("tc" ∷ args dev p)) p ran (exec ("qdisc" ∷ "show" ∷ "dev" ∷ dev ∷ []))
        ran.run_err
