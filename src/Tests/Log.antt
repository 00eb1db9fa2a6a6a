-- ===== src/Tests/Log.antt =====
-- The calls log of two calls, one of them refused.
use callstorm.Prelude.{
  ℕ, ◌≤◌, ◌≡◌, pos, false, List, [], ◌∷◌, map, length, String, Sorted, filter, of_key,
}
use callstorm.Insights.Digest.{TurnLine, CallLine, call_stats, put_turns, all_turns, row_of}
use callstorm.Insights.Digest.Alone.{of_row, numbered, call_stats-Alone}

abbrev line : ℕ → TurnLine
line turn = record {
  turn = turn;
  failed = false;
  caller_text = "Hello there.";
  agent_text = "Hi.";
  heard_text = "Hello";
  ttfa_ms = pos 81000;
  endpointing_ms = pos 20000;
  think_speak_ms = pos 0;
}

abbrev log : List CallLine
log =
    record { error = ""; turns = line 2 ∷ line 1 ∷ [] }
    ∷ record { error = "refused"; turns = [] }
    ∷ record { error = ""; turns = line 1 ∷ [] }
    ∷ []

abbrev two_words : String → ℕ
two_words s = 2

call_stats-Alone_example :
    Sorted of_row (call_stats two_words log).by_turn
    × (filter (of_key of_row (pos 1)) (call_stats two_words log).by_turn
        ≡ map row_of (put_turns two_words (numbered 1 (all_turns log)) []))
    × (length (filter (of_key of_row (pos 1)) (call_stats two_words log).by_turn) ≤ 1)
    × (length (call_stats two_words log).errors ≤ 3)
call_stats-Alone_example = call_stats-Alone two_words log 1
