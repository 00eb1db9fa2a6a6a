-- ===== src/Judge/Grade.antt =====
-- internal/judge/judge.go, `Score`: one conversation judged by a model that answers by number. What
-- the model replied is an argument, and `decode` is JSON's decoder. A text that is read is a list of
-- code points. The prompt and the clock are left out.
pub mod Once
use callstorm.Prelude.{
  ℕ, zero, suc, ◌-◌, ◌+◌, ◌*◌, ltb, leb, ◌==◌, ℤ, pos, negsuc, String, Bool, true, false, not, ◌&&◌,
  ◌||◌, Option, none, some, List, [], ◌∷◌, ◌++◌, if◌then◌else◌, length, Result, ok, err, Runes,
  is_nil, trim_space, strip_prefix, trim_prefix,
}

-- One verdict of the model's.
pub record Answer : Type 0 where
  pub id : Runes
  pub evidence : String
  pub reasoning : String
  pub met : Bool

pub record Outcome : Type 0 where
  pub criterion : String
  pub met : Bool
  pub evidence : String
  pub reasoning : String

pub data Fault : Type 0 where
  no_model no_verdicts : Fault
  model_failed unparseable : String → Fault
  never_asked answered_twice : Runes → Fault
  answered_of : ℕ → ℕ → Fault

pub record Judgement : Type 0 where
  pub outcomes : List Outcome
  pub fault : Option Fault

-- The number that digits write, if they are all digits.
unfoldable pub digits : Runes → ℕ → Option ℕ
digits [] n = some n
digits (c ∷ cs) n =
    let rest = digits cs (10 * n + (c - 48)) in if leb 48 c && leb c 57 then rest else none

abbrev pub signed : Bool → Option ℕ → Option ℤ
signed minus none = none
signed false (some n) = if ltb n 9_223_372_036_854_775_808 then some (pos n) else none
signed true (some n) =
    if n == 0
    then some (pos 0)
    else (if leb n 9_223_372_036_854_775_808 then some (negsuc (n - 1)) else none)

abbrev pub some_digits : Runes → Option ℕ
some_digits [] = none
some_digits (c ∷ cs) = digits (c ∷ cs) 0

-- `strconv.Atoi`.
unfoldable pub atoi : Runes → Option ℤ
unfolding digits
atoi [] = none
atoi (c ∷ cs) =
    if c == 45
    then signed true (some_digits cs)
    else (if c == 43 then signed false (some_digits cs) else signed false (some_digits (c ∷ cs)))

-- The number that an answer names.
unfoldable pub number_of : Answer → Option ℤ
unfolding trim_space strip_prefix trim_prefix atoi
number_of a = atoi (trim_prefix (67 ∷ []) (trim_space a.id))

-- What is written of an answer, under the criterion that was asked.
abbrev pub outcome_of : String → Answer → Outcome
outcome_of c a = record {
  criterion = c;
  met = a.met;
  evidence = a.evidence;
  reasoning = a.reasoning;
}

-- `outcomes` and `answered` at once: an outcome where one was given.
abbrev pub Slots : Type 0
Slots = List (Option Outcome)

abbrev pub empty_slots : List String → Slots
empty_slots [] = []
empty_slots (c ∷ cs) = none ∷ empty_slots cs

abbrev pub front : Option Outcome → Result Fault Slots → Result Fault Slots
front s (ok ss) = ok (s ∷ ss)
front s (err why) = err why

-- The answer to criterion `i` from zero, which must be there and open.
unfoldable pub fill : ℕ → List String → Answer → Slots → Result Fault Slots
fill i [] a ss = err (never_asked a.id)
fill i (c ∷ cs) a [] = err (never_asked a.id)
fill zero (c ∷ cs) a (none ∷ ss) = ok (some (outcome_of c a) ∷ ss)
fill zero (c ∷ cs) a (some o ∷ ss) = err (answered_twice a.id)
fill (suc i) (c ∷ cs) a (s ∷ ss) = front s (fill i cs a ss)

abbrev pub fill_number : Option ℤ → List String → Answer → Slots → Result Fault Slots
fill_number none cs a ss = err (never_asked a.id)
fill_number (some (negsuc n)) cs a ss = err (never_asked a.id)
fill_number (some (pos zero)) cs a ss = err (never_asked a.id)
fill_number (some (pos (suc i))) cs a ss = fill i cs a ss

abbrev pub then_fill : Result Fault Slots → (Slots → Result Fault Slots) → Result Fault Slots
then_fill (ok ss) next = next ss
then_fill (err why) next = err why

-- The loop over the answers.
unfoldable pub fill_all : List String → List Answer → Slots → Result Fault Slots
unfolding fill number_of
fill_all cs [] ss = ok ss
fill_all cs (a ∷ more) ss =
    then_fill (fill_number (number_of a) cs a ss) (λ (t : Slots). fill_all cs more t)

abbrev pub no_outcome : Outcome
no_outcome = record { criterion = ""; met = false; evidence = ""; reasoning = "" }

abbrev pub or_empty : Option Outcome → Outcome
or_empty none = no_outcome
or_empty (some o) = o

abbrev pub written : Slots → List Outcome
written [] = []
written (s ∷ ss) = or_empty s ∷ written ss

abbrev pub faulty : Fault → Judgement
faulty why = record { outcomes = []; fault = some why }

abbrev pub graded : ℕ → ℕ → Result Fault Slots → Judgement
graded n m (err why) = faulty why
graded n m (ok ss) =
    if n == m then record { outcomes = written ss; fault = none } else faulty (answered_of n m)

abbrev pub grade_parsed : List String → Result String (List Answer) → Judgement
grade_parsed cs (err why) = faulty (unparseable why)
grade_parsed cs (ok []) = faulty no_verdicts
grade_parsed cs (ok (a ∷ more)) =
    graded (length (a ∷ more)) (length cs) (fill_all cs (a ∷ more) (empty_slots cs))

-- The rest of a text after its first line break, if it has one.
unfoldable pub after_line : Runes → Option Runes
after_line [] = none
after_line (c ∷ cs) = let rest = after_line cs in if c == 10 then some cs else rest

abbrev pub fence : Runes
fence = 96 ∷ 96 ∷ 96 ∷ []

abbrev pub put_first : ℕ → Option Runes → Bool → Option Runes
put_first c (some s) here = some (c ∷ s)
put_first c none true = some []
put_first c none false = none

-- The text up to the last fence, if it has one.
unfoldable pub before_fence : Runes → Option Runes
unfolding strip_prefix
before_fence [] = none
before_fence (c ∷ cs) = put_first c (before_fence cs) (strip_prefix fence (c ∷ cs)).0

abbrev pub or_all : Runes → Option Runes → Runes
or_all s none = s
or_all s (some t) = t

-- `stripFences`.
unfoldable pub strip_fences : Runes → Runes
unfolding trim_space strip_prefix after_line before_fence
strip_fences s =
    let trimmed = trim_space s in
    let inner = or_all trimmed (after_line trimmed) in
    if (strip_prefix fence trimmed).0
    then trim_space (or_all inner (before_fence inner))
    else trimmed

module _ (decode : Runes → Result String (List Answer)) where
  abbrev pub grade_reply : List String → Option (Result String Runes) → Judgement
  grade_reply cs none = faulty no_model
  grade_reply cs (some (err why)) = faulty (model_failed why)
  grade_reply cs (some (ok out)) = grade_parsed cs (decode (strip_fences out))

  -- `Score`, of what the model replied, or of no model.
  unfoldable pub score : List String → Option (Result String Runes) → Judgement
  unfolding fill_all strip_fences
  score [] reply = record { outcomes = []; fault = none }
  score (c ∷ cs) reply = grade_reply (c ∷ cs) reply
