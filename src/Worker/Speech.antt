-- ===== src/Worker/Speech.antt =====
-- internal/worker/speech.go: a caller's line, split into its sentences with pauses between them. A
-- text is a list of code points. `synthesize` of the client is an argument: the audio of a text and
-- whether it was cached, or an error. `silence_of` is the length of `audio.Silence` in samples.
pub mod Kept
use callstorm.Prelude.{
  ℕ, ◌*◌, ℤ, pos, leb_ℤ, String, Bool, true, false, not, ◌&&◌, ◌||◌, ◌==◌, ltb, Option, none, some,
  List, [], ◌∷◌, ◌++◌, if◌then◌else◌, length, replicate, Runes, is_nil, trim_space, Result, ok, err,
  ◌>>=◌,
}

abbrev pub is_stop : ℕ → Bool
is_stop r = (r == 46) || ((r == 33) || (r == 63))

-- The text ends, or goes on with a space.
abbrev pub is_open : Runes → Bool
is_open [] = true
is_open (c ∷ cs) = c == 32

-- A part that is blank is not kept.
abbrev pub keep : Runes → List Runes → List Runes
keep p parts = if is_nil p then parts else (p ∷ parts)

-- The loop, with the runes since the last sentence ended.
unfoldable pub split_from : Runes → Runes → List Runes
unfolding trim_space
split_from since [] = keep (trim_space since) []
split_from since (r ∷ rs) =
    let ends = is_stop r && is_open rs in
    let rest = split_from (if ends then [] else (since ++ (r ∷ []))) rs in
    if ends then keep (trim_space (since ++ (r ∷ []))) rest else rest

unfoldable pub split_sentences : Runes → List Runes
unfolding split_from
split_sentences s = split_from [] s

-- Two bytes for each sample, `audio.Silence`.
abbrev pub silence : ℕ → List ℕ
silence samples = replicate (samples * 2) 0

module _ {E : Type 0} (synthesize_text : Runes → Result E (List ℕ × Bool)) where
  -- The loop over the parts, with what it has rendered and whether all of it was cached.
  unfoldable pub render : List ℕ → List Runes → Bool → List ℕ → Bool → Result E (List ℕ × Bool)
  render gap [] later out cached = ok (out, cached)
  render gap (p ∷ ps) later out cached = synthesize_text p >>= λ (a : List ℕ × Bool).
      render gap ps true (out ++ ((if later then gap else []) ++ a.0)) (a.1 && cached)

  unfoldable pub synthesize : (ℤ → ℕ) → ℤ → Runes → Result E (List ℕ × Bool)
  unfolding split_sentences render
  synthesize silence_of pause say =
      let parts = split_sentences say in
      if leb_ℤ pause (pos 0) || ltb (length parts) 2
      then synthesize_text say
      else render (silence (silence_of pause)) parts false [] true
