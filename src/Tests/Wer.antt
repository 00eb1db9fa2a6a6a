-- ===== src/Tests/Wer.antt =====
-- Alignments of short lines.
use callstorm.Prelude.{◌≡◌, ◌+◌, ◌≤◌, refl, String, List, [], ◌∷◌, length, ℕ, arith}
use callstorm.Judge.Wer.{align, at, min3, table, word}
use callstorm.Judge.Wer.Walk.{Script, align_optimal, IsDistance, at-table-IsDistance}

abbrev spoken : List String
spoken = "four" ∷ "four" ∷ "eight" ∷ "one" ∷ "two" ∷ []

abbrev misheard : List String
misheard = "four" ∷ "four" ∷ "eight" ∷ "two" ∷ []

align_deletion : align spoken misheard ≡ record { subs = 0; dels = 1; ins = 0 }
unfolding align min3
align_deletion = refl

align_optimal_example :
    Script
      (word spoken)
      (word misheard)
      (length spoken)
      (length misheard)
      (align spoken misheard).subs
      (align spoken misheard).dels
      (align spoken misheard).ins
    × ((s d n : ℕ)
        → Script (word spoken) (word misheard) (length spoken) (length misheard) s d n
        → (align spoken misheard).subs + (align spoken misheard).dels + (align spoken misheard).ins
          ≤ s + d + n)
align_optimal_example = align_optimal spoken misheard

at-table-IsDistance_example :
    IsDistance (word spoken) (word misheard) 5 4 (at (table spoken misheard) 5 4)
at-table-IsDistance_example = at-table-IsDistance spoken misheard 5 4 (omega arith) (omega arith)
