-- ===== src/Config/DotEnv.antt =====
-- internal/config/dotenv.go: environment files. A text is a list of code points, and a line that of
-- a scanner's; `set_env` is the error that `os.Setenv` returns for a name and a value, if any.
-- Opening and scanning the file are left out.
pub mod Written
use callstorm.Prelude.{
  ℕ, zero, suc, ◌+◌, ◌/◌, ◌%◌, String, Bool, true, false, not, ◌&&◌, ◌||◌, ◌==◌, leb, Option, none,
  some, List, [], ◌∷◌, ◌++◌, if◌then◌else◌, length, take, drop, Runes, is_nil, trim_space,
  strip_prefix, trim_prefix, sort_runes,
}

abbrev pub hash : ℕ
hash = 35

abbrev pub equals : ℕ
equals = 61

abbrev pub quote : ℕ
quote = 34

abbrev pub apostrophe : ℕ
apostrophe = 39

abbrev pub export : Runes
export = 101 ∷ 120 ∷ 112 ∷ 111 ∷ 114 ∷ 116 ∷ 32 ∷ []

abbrev pub put_front : ℕ → Option (Runes × Runes) → Option (Runes × Runes)
put_front c none = none
put_front c (some (front, back)) = some (c ∷ front, back)

-- `strings.Cut`, around the first separator.
unfoldable pub cut : Runes → ℕ → Option (Runes × Runes)
cut [] sep = none
cut (c ∷ cs) sep = let rest = cut cs sep in if c == sep then some ([], cs) else put_front c rest

-- A text without its last character, and that character.
unfoldable pub split_last : ℕ → Runes → Runes × ℕ
split_last c [] = ([], c)
split_last c (d ∷ ds) = let (front, last) = split_last d ds in (c ∷ front, last)

abbrev pub strip : ℕ → Runes → Runes × ℕ → Runes
strip c rest (inner, last) =
    if ((c == quote) && (last == quote)) || ((c == apostrophe) && (last == apostrophe))
    then inner
    else (c ∷ rest)

-- One matching pair of quotes around a value is taken off.
unfoldable pub unquote : Runes → Runes
unfolding split_last
unquote [] = []
unquote (c ∷ []) = c ∷ []
unquote (c ∷ d ∷ rest) = strip c (d ∷ rest) (split_last d rest)

abbrev pub with_key : Runes → Runes → Option (Runes × Runes)
with_key key val = if is_nil key then none else some (key, unquote (trim_space val))

abbrev pub from_cut : Option (Runes × Runes) → Option (Runes × Runes)
from_cut none = none
from_cut (some (key, val)) = with_key (trim_space key) val

unfoldable pub parse_line : Runes → Option (Runes × Runes)
unfolding unquote trim_space strip_prefix trim_prefix cut
parse_line line =
    let trimmed = trim_space line in
    if is_nil trimmed || (strip_prefix (hash ∷ []) trimmed).0
    then none
    else from_cut (cut (trim_prefix export trimmed) equals)

abbrev pub Env : Type 0
Env = List (Runes × Runes)

-- The environment, the names that were set, and the error that ended the loop.
pub record Loaded : Type 0 where
  pub env : Env
  pub names : List Runes
  pub failed : Option String

module _ (set_env : Runes → Runes → Option String) where
  abbrev pub after_set : Option String → Runes → Runes → Loaded → Loaded
  after_set none key val l = record l { env = (key, val) ∷ l.env; names = l.names ++ (key ∷ []) }
  after_set (some why) key val l = record l { failed = some why }

  abbrev pub set_parsed : Option (Runes × Runes) → Loaded → Loaded
  set_parsed none l = l
  set_parsed (some (key, val)) l = after_set (set_env key val) key val l

  abbrev pub is_failed : Option String → Bool
  is_failed none = false
  is_failed (some why) = true

  -- The loop over the lines, which an error of `os.Setenv` ends.
  unfoldable pub load_lines : List Runes → Loaded → Loaded
  unfolding parse_line
  load_lines [] l = l
  load_lines (line ∷ lines) l =
      let next = set_parsed (parse_line line) l in
      let rest = load_lines lines next in if is_failed next.failed then next else rest

  abbrev pub sort_unless : Option String → Loaded → Loaded
  sort_unless none l = record l { names = sort_runes l.names }
  sort_unless (some why) l = l

  -- `LoadDotEnv`, of the lines of the file and the error that the scanner ends with.
  unfoldable pub load_dot_env : List Runes → Option String → Env → Loaded
  unfolding load_lines sort_runes
  load_dot_env lines scan_err env =
      let l = load_lines lines (record { env = env; names = []; failed = none }) in
      if is_failed l.failed then l else sort_unless scan_err (record l { failed = scan_err })

-- `itoa`, digits from the end into a buffer of twenty.
unfoldable pub digits : ℕ → ℕ → Runes → Runes
digits zero n out = out
digits (suc room) n out =
    let rest = digits room (n / 10) ((48 + (n % 10)) ∷ out) in if n == 0 then out else rest

unfoldable pub itoa : ℕ → Runes
unfolding digits
itoa n = if n == 0 then (48 ∷ []) else digits 20 n []

-- `Fingerprint`, of the bytes of a secret.
pub data Fingerprint : Type 0 where
  unset too_short : Fingerprint
  shown : Runes → Runes → Fingerprint

unfoldable pub fingerprint : Runes → Fingerprint
unfolding itoa
fingerprint secret =
    if is_nil secret
    then unset
    else (if leb (length secret) 6 then too_short else shown (take 6 secret) (itoa (length secret)))
