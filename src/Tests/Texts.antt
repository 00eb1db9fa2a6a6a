-- ===== src/Tests/Texts.antt =====
-- An environment file, a line of two sentences, and an analysis of one insight.
use callstorm.Prelude.{
  ◌≡◌, refl, true, false, String, Option, none, some, List, [], ◌∷◌, map, All, Runes, is_space,
  trim_space, strip_prefix, sort_runes,
}
use callstorm.Config.DotEnv.{load_dot_env}
use callstorm.Config.DotEnv.Written.{
  Line, note, entry, print, IsLine, put_all, names_of, loaded, load_dot_env-print,
}
use callstorm.Worker.Speech.{split_sentences}
use callstorm.Worker.Speech.Kept.{Splits, split_sentences-Splits}
use callstorm.Insights.Verify.{Quotient, Value, str, facts_of}
use callstorm.Insights.Generate.{Insight, Parsed, generate}
use callstorm.Insights.Generate.Kept.{Checked, Distinct, Reported, generate-Sound}

-- The documented refusals of a name that is empty.
abbrev set_env : Runes → Runes → Option String
set_env [] val = some "invalid argument"
set_env (c ∷ cs) val = none

-- `K` is set twice, in quotes, with a comment between.
abbrev file : List Line
file = entry true (75 ∷ []) (32 ∷ 34 ∷ []) ∷ note (32 ∷ []) ∷ entry false (75 ∷ []) (49 ∷ []) ∷ []

file-IsLine : All IsLine file
unfolding is_space trim_space strip_prefix
file-IsLine = (k, (tt, (k, tt)))
  where
    k : IsLine (entry true (75 ∷ []) [])
    k = record {
      no_space = refl;
      no_hash = refl;
      trimmed = refl;
      no_equals = (refl, tt);
      no_export = refl;
    }

load_dot_env-print_example :
    load_dot_env set_env (map print file) none []
    ≡ loaded (put_all file []) (sort_runes (names_of file))
load_dot_env-print_example = load_dot_env-print set_env file [] file-IsLine (refl, (tt, (refl, tt)))

-- Two letters, each with a full stop.
abbrev line : Runes
line = 65 ∷ 46 ∷ 32 ∷ 66 ∷ 46 ∷ []

split_sentences-Splits_example : Splits line (split_sentences line)
split_sentences-Splits_example = split_sentences-Splits line

-- 95ms, against 95.
abbrev measured : Runes
measured = 57 ∷ 53 ∷ 109 ∷ 115 ∷ []

abbrev facts : List Quotient
facts = (95, 1) ∷ []

abbrev insight : Insight
insight = record {
  title = 65 ∷ [];
  category = [];
  severity = [];
  evidence = measured ∷ [];
  finding = [];
  why_it_matters = [];
  next_step = [];
}

abbrev answer : Parsed
answer = record { headline = []; insights = insight ∷ insight ∷ [] }

abbrev plain : Runes → Runes
plain s = s

abbrev known : Option Value
known = some (str measured)

generate-Sound_example :
    All (Checked (facts_of known)) (generate plain known answer).insights
    × Distinct plain (generate plain known answer).insights
    × Reported plain (facts_of known) answer (generate plain known answer)
generate-Sound_example = generate-Sound plain known answer ((λ e. cc), ((λ e. cc), tt))
