-- ===== src/Insights/Verify.antt =====
-- internal/insights/verify.go: the numbers in a text, and whether the data holds them. A text is a
-- list of code points, a number a quotient of naturals; comparisons are exact, where the source's
-- round, and a fact times a hundred is taken to stay a finite `float64`. The leftmost match of
-- the source's regular expression is found by hand; at a run of digits, its first alternative wants
-- the run to be at most three long and groups of three to follow. Decoding JSON is left out.
pub mod Held
use Prim.Native.Nat.{◌^◌}
use callstorm.Prelude.{
  ℕ, zero, suc, ◌+◌, ◌-◌, ◌*◌, ◌%◌, ltb, leb, ◌==◌, Bool, true, false, not, ◌&&◌, ◌||◌, Option,
  none, some, List, [], ◌∷◌, ◌++◌, if◌then◌else◌, length, Runes, is_nil, strip_prefix, equal,
}

abbrev pub is_digit : ℕ → Bool
is_digit c = leb 48 c && leb c 57

-- `partOfName`, of the character before a number.
abbrev pub part_of_name : ℕ → Bool
part_of_name c = (c == 95) || ((leb 65 c && leb c 90) || (leb 97 c && leb c 122))

unfoldable pub run_of_digits : Runes → Runes × Runes
run_of_digits [] = ([], [])
run_of_digits (c ∷ cs) =
    let (ds, rest) = run_of_digits cs in if is_digit c then (c ∷ ds, rest) else ([], c ∷ cs)

-- The groups of a comma and three digits: their digits, and the rest.
unfoldable pub groups : Runes → Runes × Runes
groups (c ∷ x ∷ y ∷ z ∷ cs) =
    let (ds, rest) = groups cs in
    if (c == 44) && (is_digit x && (is_digit y && is_digit z))
    then (x ∷ y ∷ z ∷ ds, rest)
    else ([], c ∷ x ∷ y ∷ z ∷ cs)
groups [] = ([], [])
groups (c ∷ []) = ([], c ∷ [])
groups (c ∷ x ∷ []) = ([], c ∷ x ∷ [])
groups (c ∷ x ∷ y ∷ []) = ([], c ∷ x ∷ y ∷ [])

abbrev pub or_whole : Runes → Runes × Runes → Runes × Runes
or_whole whole ([], rest) = ([], whole)
or_whole whole (d ∷ ds, rest) = (d ∷ ds, rest)

-- A point and digits.
unfoldable pub fraction : Runes → Runes × Runes
unfolding run_of_digits
fraction [] = ([], [])
fraction (c ∷ cs) = if c == 46 then or_whole (c ∷ cs) (run_of_digits cs) else ([], c ∷ cs)

abbrev pub Quotient : Type 0
Quotient = ℕ × ℕ

-- The value of digits, and ten to the power of their number.
unfoldable pub value_of : Runes → ℕ → ℕ → Quotient
value_of [] n d = (n, d)
value_of (c ∷ cs) n d = value_of cs (10 * n + (c - 48)) (10 * d)

-- A number in a text: its digits before and after the point, and what follows it.
pub record Match : Type 0 where
  pub whole : Runes
  pub part : Runes
  pub after : Runes

abbrev pub with_fraction : Runes → Runes × Runes → Match
with_fraction ds (fs, rest) = record { whole = ds; part = fs; after = rest }

abbrev pub with_groups : Runes → Runes → Runes × Runes → Match
with_groups ds rest ([], more) = with_fraction ds (fraction rest)
with_groups ds rest (g ∷ gs, more) =
    if leb (length ds) 3
    then with_fraction (ds ++ (g ∷ gs)) (fraction more)
    else with_fraction ds (fraction rest)

-- The match at a text that begins with a digit.
unfoldable pub match_number : Runes → Match
unfolding run_of_digits groups fraction
match_number s = let (ds, rest) = run_of_digits s in with_groups ds rest (groups rest)

-- `ParseFloat` of a match without its commas.
unfoldable pub number : Match → Quotient
unfolding value_of
number m = let (n, d) = value_of m.whole 0 1 in value_of m.part n 1

-- The error of `ParseFloat`: the number rounds to one past the largest `float64`.
unfoldable pub is_out_of_range : Quotient → Bool
is_out_of_range (n, d) = leb ((2 ^ 1024 - 2 ^ 970) * d) n

abbrev pub keep_match : Bool → Match → List Match → List Match
keep_match named m ms = if named then ms else (m ∷ ms)

-- The matches that are no part of a name. `prev` is the character before the text; a match uses up
-- a character of the fuel at least.
unfoldable pub scan : ℕ → ℕ → Runes → List Match
unfolding match_number
scan zero prev s = []
scan (suc fuel) prev [] = []
scan (suc fuel) prev (c ∷ cs) =
    let m = match_number (c ∷ cs) in
    let rest = scan fuel (if is_digit c then 48 else c) (if is_digit c then m.after else cs) in
    if is_digit c then keep_match (part_of_name prev) m rest else rest

-- What `FindAllStringIndex` and `partOfName` leave of a text.
unfoldable pub matches : Runes → List Match
unfolding scan
matches s = scan (length s) 0 s

unfoldable pub values : List Match → List Quotient
unfolding number is_out_of_range
values [] = []
values (m ∷ ms) =
    let rest = values ms in if is_out_of_range (number m) then rest else (number m ∷ rest)

unfoldable pub numbers_in : Runes → List Quotient
unfolding matches values
numbers_in s = values (matches s)

-- What `json.Unmarshal` makes of the data; a number is its absolute value.
mutual
  pub data Value : Type 0 where
    num : Quotient → Value
    str : Runes → Value
    array : Values → Value
    object : Values → Value
    other : Value

  pub data Values : Type 0 where
    no_values : Values
    value : Value → Values → Values

-- `walk`, with what it has appended; of an object, the values alone, in some order.
unfoldable mutual
  unfolding numbers_in

  pub walk : Value → List Quotient → List Quotient
  walk (num q) out = out ++ (q ∷ [])
  walk (str s) out = out ++ numbers_in s
  walk (array vs) out = walk_values vs out
  walk (object vs) out = walk_values vs out
  walk other out = out

  pub walk_values : Values → List Quotient → List Quotient
  walk_values no_values out = out
  walk_values (value v vs) out = walk_values vs (walk v out)

-- `factsOf`, of the data if it could be decoded.
unfoldable pub facts_of : Option Value → List Quotient
unfolding walk
facts_of none = []
facts_of (some v) = walk v []

-- `unit`.
pub data Measure : Type 0 where
  bare percent millis seconds times : Measure

unfoldable pub trim_spaces : Runes → Runes
trim_spaces [] = []
trim_spaces (c ∷ cs) = let rest = trim_spaces cs in if c == 32 then rest else (c ∷ cs)

-- The word of small letters that a text begins with.
unfoldable pub word_of : Runes → Runes
word_of [] = []
word_of (c ∷ cs) = let rest = word_of cs in if leb 97 c && leb c 122 then (c ∷ rest) else []

unfoldable pub is_seconds : Runes → Bool
unfolding equal
is_seconds w =
    equal w (115 ∷ [])
    || (equal w (115 ∷ 101 ∷ 99 ∷ [])
        || (equal w (115 ∷ 101 ∷ 99 ∷ 115 ∷ [])
            || (equal w (115 ∷ 101 ∷ 99 ∷ 111 ∷ 110 ∷ 100 ∷ [])
                || equal w (115 ∷ 101 ∷ 99 ∷ 111 ∷ 110 ∷ 100 ∷ 115 ∷ []))))

abbrev pub measure_of_word : Runes → Measure
measure_of_word w = if is_seconds w then seconds else (if equal w (120 ∷ []) then times else bare)

-- `unitAfter`.
unfoldable pub unit_after : Runes → Measure
unfolding trim_spaces strip_prefix word_of is_seconds equal
unit_after text =
    let rest = trim_spaces text in
    if (strip_prefix (37 ∷ []) rest).0
    then percent
    else (if (strip_prefix (109 ∷ 115 ∷ []) rest).0
        then millis
        else (if (strip_prefix (215 ∷ []) rest).0 then times else measure_of_word (word_of rest)))

-- A fact as stored or in the units that the text gives it in.
unfoldable pub forms : Measure → Quotient → List Quotient
forms percent (a, b) = (a * 100, b) ∷ (a, b) ∷ []
forms millis (a, b) = (a, b) ∷ []
forms times (a, b) = (a, b) ∷ []
forms seconds (a, b) = (a, b * 1000) ∷ (a, b) ∷ []
forms bare (a, b) = (a, b) ∷ (a * 100, b) ∷ (a, b * 1000) ∷ []

-- The difference of two quotients is two percent of the second and a twentieth at most.
abbrev pub near : Quotient → Quotient → Bool
near (p, q) (a, b) =
    leb (100 * (p * b)) (100 * (a * q) + (2 * (a * q) + 5 * (b * q)))
    && leb (100 * (a * q)) (100 * (p * b) + (2 * (a * q) + 5 * (b * q)))

unfoldable pub some_near : Quotient → List Quotient → Bool
some_near n [] = false
some_near n (c ∷ cs) = near n c || some_near n cs

unfoldable pub some_held : Quotient → Measure → List Quotient → Bool
unfolding forms some_near
some_held n u [] = false
some_held n u (f ∷ fs) = some_near n (forms u f) || some_held n u fs

abbrev pub is_bare : Measure → Bool
is_bare bare = true
is_bare percent = false
is_bare millis = false
is_bare seconds = false
is_bare times = false

-- A small whole number.
abbrev pub is_count : Quotient → Bool
is_count (p, q) = ((p % q) == 0) && leb p (12 * q)

unfoldable pub held : Quotient → Measure → List Quotient → Bool
unfolding some_held
held n u facts = (is_bare u && is_count n) || some_held n u facts

unfoldable pub not_held : List Match → List Quotient → List Match
unfolding number is_out_of_range held unit_after
not_held [] facts = []
not_held (m ∷ ms) facts =
    let rest = not_held ms facts in
    if is_out_of_range (number m) || held (number m) (unit_after m.after) facts
    then rest
    else (m ∷ rest)

-- The numbers in a text that the data does not hold.
unfoldable pub unchecked : Runes → List Quotient → List Match
unfolding matches not_held
unchecked text facts = not_held (matches text) facts
