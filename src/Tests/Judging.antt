-- ===== src/Tests/Judging.antt =====
-- A judgement of one criterion, and a prompt that is sent twice.
use callstorm.Prelude.{
  ℕ, zero, suc, ◌≡◌, refl, pos, true, false, none, some, Option, List, [], ◌∷◌, String, Result, ok,
  Runes, arith,
}
use callstorm.Judge.Grade.{Answer, score}
use callstorm.Judge.Grade.Once.{Graded, score-Graded}
use callstorm.Judge.Retry.{Sent, Completed, complete, Ends, complete-Ends}

-- The verdict on the first criterion, with spaces around its number.
abbrev offered : Answer
offered = record {
  id = 32 ∷ 67 ∷ 49 ∷ 32 ∷ [];
  evidence = "turn 1 assistant: \"Sure.\"";
  reasoning = "It agrees.";
  met = true;
}

abbrev one_answer : Runes → Result String (List Answer)
one_answer s = ok (offered ∷ [])

abbrev reply : Option (Result String Runes)
reply = some (ok (123 ∷ 125 ∷ []))

score-Graded_example :
    Graded one_answer ("agrees" ∷ []) reply (score one_answer ("agrees" ∷ []) reply)
unfolding score
score-Graded_example = score-Graded one_answer "agrees" [] reply refl

abbrev refused : Sent
refused = record {
  reply = "";
  failed = some "groq rate limit";
  wait = pos 3_880_000_000;
  expired = false;
  cut_short = false;
}

abbrev replied : Sent
replied = record { reply = "{}"; failed = none; wait = pos 0; expired = false; cut_short = false }

-- The first request is refused.
abbrev sent : ℕ → Sent
sent zero = refused
sent (suc zero) = refused
sent (suc (suc n)) = replied

complete-Ends_example : (out : Completed × ℕ) × (complete "key" sent 6 ≡ some out) × Ends sent 1 out
complete-Ends_example = complete-Ends "key" sent 6 refl (omega arith)
