-- ===== src/Config/DotEnv/Written.antt =====
-- What internal/config/dotenv.go reads back from a file that is written in its format.
use callstorm.Prelude.{
  ℕ, ◌≡◌, refl, sym, ◌∙◌, ap, Bool, true, false, ◌==◌, Option, none, some, List, [], ◌∷◌, ◌++◌, map,
  All, Bool-cases, inl, inr, arith, Runes, is_space, trim_left, trim_right, trim_space,
  strip_prefix, trim_prefix, trim_right-snoc, trim_left-start, sort_runes, String,
}
use mathlib.Core.List.{append_assoc, append-nil}
use callstorm.Config.DotEnv.{
  hash, equals, quote, export, cut, split_last, unquote, parse_line, from_cut, Env, Loaded,
  load_lines, load_dot_env,
}

abbrev pub exported : Bool → Runes
exported true = export
exported false = []

-- A line that sets a name, to a value in quotes.
abbrev pub written : Bool → Runes → Runes → Runes
written e key val = exported e ++ (key ++ (equals ∷ (quote ∷ (val ++ (quote ∷ [])))))

-- A name that a line can set: not blank at its ends, with no `=`, and not taken for a comment or for
-- the word `export`.
pub record Named (first : ℕ) (rest : Runes) : Type 0 where
  pub no_space : is_space first ≡ false
  pub no_hash : (hash == first) ≡ false
  pub trimmed : trim_space (first ∷ rest) ≡ first ∷ rest
  pub no_equals : All (λ (c : ℕ). (c == equals) ≡ false) (first ∷ rest)
  pub no_export : (strip_prefix export (first ∷ rest)).0 ≡ false

abbrev pub IsName : Runes → Type 0
IsName [] = ⊥
IsName (c ∷ cs) = Named c cs

quote_lem : is_space quote ≡ false
unfolding is_space
quote_lem = refl

e_lem : is_space 101 ≡ false
unfolding is_space
e_lem = refl

-- A text between two characters that are no spaces is trimmed already.
trim-between :
    (c : ℕ) (s : Runes)
    → is_space c ≡ false
    → trim_space ((c ∷ s) ++ (quote ∷ [])) ≡ (c ∷ s) ++ (quote ∷ [])
unfolding trim_space
trim-between c s e =
    rw (trim_left-start c (s ++ (quote ∷ [])) e) (trim_right-snoc (c ∷ s) quote quote_lem)

split_last-snoc : (c : ℕ) (s : Runes) (q : ℕ) → split_last c (s ++ (q ∷ [])) ≡ (c ∷ s, q)
unfolding split_last
split_last-snoc c [] q = refl
split_last-snoc c (d ∷ s) q = rw (split_last-snoc d s q) refl

unquote-quoted : (val : Runes) → unquote (quote ∷ (val ++ (quote ∷ []))) ≡ val
unfolding unquote split_last
unquote-quoted [] = refl
unquote-quoted (c ∷ cs) = rw (split_last-snoc c cs quote) refl

cut-first :
    (key val : Runes)
    → All (λ (c : ℕ). (c == equals) ≡ false) key
    → cut (key ++ (equals ∷ val)) equals ≡ some (key, val)
unfolding cut
cut-first [] val h = refl
cut-first (c ∷ cs) val (e, h) = rw (e, cut-first cs val h) refl

no_prefix :
    (ps key val : Runes)
    → All (λ (p : ℕ). (p == equals) ≡ false) ps
    → (strip_prefix ps key).0 ≡ false
    → (strip_prefix ps (key ++ (equals ∷ val))).0 ≡ false
unfolding strip_prefix
no_prefix [] key val h e = cc
no_prefix (p ∷ ps) [] val h e = rw (h.0) refl
no_prefix (p ∷ ps) (c ∷ cs) val (h, hs) e = elim (Bool-cases (p == c)) [
  | inl q ↦ rw (q) (no_prefix ps cs val hs (rw (q) at e))
  | inr q ↦ rw (q) refl
]

whole_prefix : (ps s : Runes) → strip_prefix ps (ps ++ s) ≡ (true, s)
unfolding strip_prefix
whole_prefix [] s = refl
whole_prefix (p ∷ ps) s = rw (same p, whole_prefix ps s) refl
  where
    same : (n : ℕ) → (n == n) ≡ true
    same n = ground arith

trim_prefix-whole : (ps s : Runes) → trim_prefix ps (ps ++ s) ≡ s
unfolding trim_prefix
trim_prefix-whole ps s = rw (whole_prefix ps s) refl

trim_prefix-none : (ps s : Runes) → (strip_prefix ps s).0 ≡ false → trim_prefix ps s ≡ s
unfolding trim_prefix
trim_prefix-none ps s e = rw (e) refl

-- What is left of the line once `export` is taken off.
entry-parsed :
    (key val : Runes)
    → IsName key
    → from_cut (cut (key ++ (equals ∷ (quote ∷ (val ++ (quote ∷ []))))) equals) ≡ some (key, val)
entry-parsed [] val n = absurd n
entry-parsed (c ∷ cs) val n =
    rw
      (
        cut-first (c ∷ cs) (quote ∷ (val ++ (quote ∷ []))) n.no_equals,
        n.trimmed,
        trim-between quote val quote_lem,
        unquote-quoted val,
      )
      refl

parse_trimmed :
    (line : Runes) (first : ℕ) (rest : Runes)
    → trim_space line ≡ first ∷ rest
    → (hash == first) ≡ false
    → parse_line line ≡ from_cut (cut (trim_prefix export (first ∷ rest)) equals)
unfolding parse_line strip_prefix
parse_trimmed line first rest e h = rw (e, h) refl

-- A line in the format is read back, whatever the value.
parse-written :
    (e : Bool) (key val : Runes) → IsName key → parse_line (written e key val) ≡ some (key, val)
parse-written true key val n =
    parse_trimmed (written true key val) 101 _ trimmed refl ∙ stripped ∙ entry-parsed key val n
  where
    body : Runes
    body = key ++ (equals ∷ (quote ∷ (val ++ (quote ∷ []))))

    trimmed : trim_space (written true key val) ≡ written true key val
    trimmed = rw (sym (append_assoc key (equals ∷ quote ∷ val) (quote ∷ []))) (
        trim-between 101 (120 ∷ 112 ∷ 111 ∷ 114 ∷ 116 ∷ 32 ∷ (key ++ (equals ∷ quote ∷ val))) e_lem)

    stripped :
        from_cut (cut (trim_prefix export (export ++ body)) equals) ≡ from_cut (cut body equals)
    stripped = ap (λ (t : Runes). from_cut (cut t equals)) (trim_prefix-whole export body)
parse-written false [] val n = absurd n
parse-written false (c ∷ cs) val n =
    parse_trimmed (written false (c ∷ cs) val) c _ trimmed n.no_hash
    ∙ kept
    ∙ entry-parsed (c ∷ cs) val n
  where
    body : Runes
    body = (c ∷ cs) ++ (equals ∷ (quote ∷ (val ++ (quote ∷ []))))

    trimmed : trim_space (written false (c ∷ cs) val) ≡ written false (c ∷ cs) val
    trimmed =
        rw (sym (append_assoc (c ∷ cs) (equals ∷ quote ∷ val) (quote ∷ [])))
          (trim-between c (cs ++ (equals ∷ quote ∷ val)) n.no_space)

    kept : from_cut (cut (trim_prefix export body) equals) ≡ from_cut (cut body equals)
    kept =
        ap (λ (t : Runes). from_cut (cut t equals))
          (trim_prefix-none export body (
            no_prefix export (c ∷ cs) (quote ∷ (val ++ (quote ∷ [])))
              (refl, (refl, (refl, (refl, (refl, (refl, (refl, tt))))))) n.no_export))

-- A comment sets nothing.
parse-note : (t : Runes) → parse_line (hash ∷ t) ≡ none
unfolding parse_line trim_space trim_left trim_right is_space strip_prefix
parse-note t = refl

-- A line of a file: a comment, or one that sets a name.
pub data Line : Type 0 where
  note : Runes → Line
  entry : Bool → Runes → Runes → Line

abbrev pub print : Line → Runes
print (note t) = hash ∷ t
print (entry e key val) = written e key val

abbrev pub IsLine : Line → Type 0
IsLine (note t) = Unit
IsLine (entry e key val) = IsName key

abbrev pub put : Line → Env → Env
put (note t) env = env
put (entry e key val) env = (key, val) ∷ env

-- The environment after some lines, a later one over an earlier one.
abbrev pub put_all : List Line → Env → Env
put_all [] env = env
put_all (l ∷ ls) env = put_all ls (put l env)

abbrev pub named : Line → List Runes → List Runes
named (note t) names = names
named (entry e key val) names = key ∷ names

abbrev pub names_of : List Line → List Runes
names_of [] = []
names_of (l ∷ ls) = named l (names_of ls)

abbrev pub loaded : Env → List Runes → Loaded
loaded env names = record { env = env; names = names; failed = none }

module _ (set_env : Runes → Runes → Option String) where
  -- What a line sets can be set.
  abbrev pub CanSet : Line → Type 0
  CanSet (note t) = Unit
  CanSet (entry e key val) = set_env key val ≡ none

  skip_line :
      (line : Runes) (lines : List Runes) (env : Env) (names : List Runes)
      → parse_line line ≡ none
      → load_lines set_env (line ∷ lines) (loaded env names)
        ≡ load_lines set_env lines (loaded env names)
  unfolding load_lines
  skip_line line lines env names e = rw (e) refl

  set_line :
      (line : Runes) (lines : List Runes) (env : Env) (names : List Runes) (key val : Runes)
      → parse_line line ≡ some (key, val)
      → set_env key val ≡ none
      → load_lines set_env (line ∷ lines) (loaded env names)
        ≡ load_lines set_env lines (loaded ((key, val) ∷ env) (names ++ (key ∷ [])))
  unfolding load_lines
  set_line line lines env names key val e sets = rw (e, sets) refl

  load-print :
      (ls : List Line) (env : Env) (names : List Runes)
      → All IsLine ls
      → All CanSet ls
      → load_lines set_env (map print ls) (loaded env names)
        ≡ loaded (put_all ls env) (names ++ names_of ls)
  load-print [] env names h s = unfold load_lines in ap (loaded env) (sym (append-nil names))
  load-print (note t ∷ ls) env names h s =
      skip_line (hash ∷ t) (map print ls) env names (parse-note t) ∙ load-print ls env names h.1 s.1
  load-print (entry e key val ∷ ls) env names h s =
      set_line (written e key val) (map print ls) env names key val (parse-written e key val h.0)
        s.0
      ∙ load-print ls ((key, val) ∷ env) (names ++ (key ∷ [])) h.1 s.1
      ∙ ap (loaded (put_all ls ((key, val) ∷ env))) (append_assoc names (key ∷ []) (names_of ls))

  -- If what its lines set can be set, loading a file of comments and of lines that set a name to a
  -- quoted value sets exactly those, a later one over an earlier one, and returns their names in order.
  pub load_dot_env-print :
      (ls : List Line) (env : Env)
      → All IsLine ls
      → All CanSet ls
      → load_dot_env set_env (map print ls) none env
        ≡ loaded (put_all ls env) (sort_runes (names_of ls))
  unfolding load_dot_env
  load_dot_env-print ls env h s = rw (load-print ls env [] h s) refl
