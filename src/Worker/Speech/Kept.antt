-- ===== src/Worker/Speech/Kept.antt =====
-- Where internal/worker/speech.go, `splitSentences`, cuts a line, and what it keeps.
use callstorm.Prelude.{
  ℕ, ◌≡◌, refl, sym, ◌∙◌, ap, ◌⊎◌, inl, inr, true, false, ◌&&◌, ◌==◌, ==_iff, List, [], ◌∷◌, ◌++◌,
  map, and-split, Runes, trim_space, arith, Bool-cases,
}
use mathlib.Core.Path.{subst}
use mathlib.Core.List.{append_assoc, append-nil}
use callstorm.Worker.Speech.{is_stop, is_open, keep, split_from, split_sentences}

-- A full stop, an exclamation mark or a question mark.
abbrev pub Stop : ℕ → Type 0
Stop c = (c ≡ 46) ⊎ ((c ≡ 33) ⊎ (c ≡ 63))

-- A text that ends or goes on with a space.
abbrev pub Open : Runes → Type 0
Open [] = Unit
Open (c ∷ cs) = c ≡ 32

-- After the character `prev`, no stop of a text is followed by a space in it.
abbrev pub WholeFrom : ℕ → Runes → Type 0
WholeFrom prev [] = Unit
WholeFrom prev (c ∷ cs) = ¬ (Stop prev × (c ≡ 32)) × WholeFrom c cs

-- No sentence ends within the text.
abbrev pub Whole : Runes → Type 0
Whole s = WholeFrom 0 s

abbrev pub EndsInStop : Runes → Type 0
EndsInStop [] = ⊥
EndsInStop (c ∷ []) = Stop c
EndsInStop (c ∷ d ∷ cs) = EndsInStop (d ∷ cs)

abbrev pub joined : List Runes → Runes
joined [] = []
joined (p ∷ ps) = p ++ joined ps

-- Pieces in which no sentence ends, each but the last ended by a stop that stands at the end of the
-- line or before a space.
abbrev pub Cut : List Runes → Type 0
Cut [] = Unit
Cut (p ∷ []) = Whole p
Cut (p ∷ q ∷ ps) = Whole p × EndsInStop p × Open (joined (q ∷ ps)) × Cut (q ∷ ps)

-- The texts that are not empty.
abbrev pub present : List Runes → List Runes
present [] = []
present ([] ∷ ps) = present ps
present ((c ∷ cs) ∷ ps) = (c ∷ cs) ∷ present ps

-- The parts of a line are its pieces, trimmed, without those that are blank.
pub record Splits (s : Runes) (parts : List Runes) : Type 0 where
  pub pieces : List Runes
  pub whole : joined pieces ≡ s
  pub cut : Cut pieces
  pub parts_are : parts ≡ present (map trim_space pieces)

is_stop-Stop : (c : ℕ) → is_stop c ≡ true → Stop c
is_stop-Stop c e = ground arith

Stop-is_stop : (c : ℕ) → Stop c → is_stop c ≡ true
Stop-is_stop c (inl e) = ground arith
Stop-is_stop c (inr (inl e)) = ground arith
Stop-is_stop c (inr (inr e)) = ground arith

is_open-Open : (s : Runes) → is_open s ≡ true → Open s
is_open-Open [] e = tt
is_open-Open (c ∷ cs) e = (==_iff c 32).0 e

-- A character that does not end a sentence is not a stop before a space.
goes_on :
    (prev r : ℕ) (rs : Runes)
    → (is_stop prev && is_open (r ∷ rs)) ≡ false
    → ¬ (Stop prev × (r ≡ 32))
goes_on prev r rs e (stop, space) =
    let f : is_stop prev ≡ true = Stop-is_stop prev stop in
    let g : (r == 32) ≡ true = (==_iff r 32).1 space in let q = rw (f, g) at e in cc

keep-present : (p : Runes) (ps : List Runes) → keep p (present ps) ≡ present (p ∷ ps)
keep-present [] ps = refl
keep-present (c ∷ cs) ps = refl

-- A piece and the pieces after it.
abbrev Followed : Runes → List Runes → Type 0
Followed first [] = Unit
Followed first (q ∷ ps) = EndsInStop first × Open (joined (q ∷ ps)) × Cut (q ∷ ps)

Followed-cons :
    (c : ℕ) (first : Runes) (more : List Runes) → Followed first more → Followed (c ∷ first) more
Followed-cons c first [] h = tt
Followed-cons c [] (q ∷ ps) (stop, rest, cut) = absurd stop
Followed-cons c (d ∷ ds) (q ∷ ps) h = h

-- How the text `s` is cut where `since` stands before it in the first piece and ends in `prev`.
record Rest (prev : ℕ) (since s : Runes) (parts : List Runes) : Type 0 where
  first : Runes
  more : List Runes
  whole : first ++ joined more ≡ s
  unbroken : WholeFrom prev first
  followed : Followed first more
  parts_are : parts ≡ present (map trim_space ((since ++ first) ∷ more))

Cut-Rest :
    (first : Runes) (more : List Runes) → Whole first → Followed first more → Cut (first ∷ more)
Cut-Rest first [] w h = w
Cut-Rest first (q ∷ ps) w (stop, next, cut) = (w, stop, next, cut)

-- The sentence ends at `r`, and a new piece begins.
ended :
    (prev : ℕ) (since : Runes) (r : ℕ) (rs : Runes) (parts : List Runes)
    → ¬ (Stop prev × (r ≡ 32))
    → Stop r
    → Open rs
    → Rest 0 [] rs parts
    → Rest prev since (r ∷ rs) (keep (trim_space (since ++ (r ∷ []))) parts)
ended prev since r rs parts on stop next v = record {
  first = r ∷ [];
  more = v.first ∷ v.more;
  whole = ap (λ (l : Runes). r ∷ l) v.whole;
  unbroken = (on, tt);
  followed = (stop, subst Open (sym v.whole) next, Cut-Rest v.first v.more v.unbroken v.followed);
  parts_are =
      ap (keep (trim_space (since ++ (r ∷ [])))) v.parts_are
      ∙ keep-present (trim_space (since ++ (r ∷ []))) (map trim_space (v.first ∷ v.more));
}

-- The sentence goes on after `r`.
continued :
    (prev : ℕ) (since : Runes) (r : ℕ) (rs : Runes) (parts : List Runes)
    → ¬ (Stop prev × (r ≡ 32))
    → Rest r (since ++ (r ∷ [])) rs parts
    → Rest prev since (r ∷ rs) parts
continued prev since r rs parts on v = record {
  first = r ∷ v.first;
  more = v.more;
  whole = ap (λ (l : Runes). r ∷ l) v.whole;
  unbroken = (on, v.unbroken);
  followed = Followed-cons r v.first v.more v.followed;
  parts_are =
      v.parts_are
      ∙ ap (λ (l : Runes). present (map trim_space (l ∷ v.more)))
          (append_assoc since (r ∷ []) v.first);
}

split_from-Rest :
    (s since : Runes) (prev : ℕ)
    → (is_stop prev && is_open s) ≡ false
    → Rest prev since s (split_from since s)
unfolding split_from
split_from-Rest [] since prev h = record {
  first = [];
  more = [];
  whole = refl;
  unbroken = tt;
  followed = tt;
  parts_are =
      keep-present (trim_space since) []
      ∙ ap (λ (l : Runes). present (trim_space l ∷ [])) (sym (append-nil since));
}
split_from-Rest (r ∷ rs) since prev h = elim (Bool-cases (is_stop r && is_open rs)) [
  | inl e ↦
      let (stop, next) = and-split (is_stop r) (is_open rs) e in
      rw (e) (
        ended prev since r rs (split_from [] rs) (goes_on prev r rs h) (is_stop-Stop r stop)
          (is_open-Open rs next) (split_from-Rest rs [] 0 refl))
  | inr e ↦ rw (e) (
      continued prev since r rs (split_from (since ++ (r ∷ [])) rs) (goes_on prev r rs h)
        (split_from-Rest rs (since ++ (r ∷ [])) r e))
]

-- A line is cut after each full stop, exclamation or question mark that ends it or stands before a
-- space, and nowhere else; the sentences are the pieces in their order, trimmed of white space, without
-- those that are blank.
pub split_sentences-Splits : (s : Runes) → Splits s (split_sentences s)
unfolding split_sentences
split_sentences-Splits s =
    let v = split_from-Rest s [] 0 refl in
    record {
      pieces = v.first ∷ v.more;
      whole = v.whole;
      cut = Cut-Rest v.first v.more v.unbroken v.followed;
      parts_are = v.parts_are;
    }
