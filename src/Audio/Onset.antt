-- ===== src/Audio/Onset.antt =====
-- internal/audio/onset.go: the detector of perceived onset, fed with chunks of bytes.
--
-- A window and a hop are counts of samples; `limit_of` is the float product that `NewOnset` truncates.
-- The sum is exact: the source's int64 holds a window of squares.
use callstorm.Prelude.{
  ℕ, suc, ◌+◌, ◌-◌, ◌*◌, ◌/◌, ◌%◌, ℤ, pos, ◌+ℤ◌, ◌-ℤ◌, ltb, leb, ltb_ℤ, ◌==◌, ◌≡◌, refl, sym, ap,
  ◌∙◌, Bool-cases, Bool, true, false, ◌&&◌, Option, none, some, List, [], ◌∷◌, ◌++◌, if◌then◌else◌,
  get_or, set, replicate, if_intro, inl, inr,
}

pub record Onset : Type 0 where
  pub win : ℕ
  pub hop : ℕ
  pub limit : ℕ
  pub squares : List ℕ
  pub sum : ℤ
  pub n : ℕ
  pub odd : Option ℕ
  pub start : ℕ
  pub found : Bool

abbrev pub at_least_one : ℕ → ℕ
at_least_one n = if ltb n 1 then 1 else n

unfoldable pub new_onset : (ℕ → ℕ) → ℕ → Onset
new_onset limit_of rate = record {
  win = at_least_one (rate * 10 / 1000);
  hop = at_least_one (rate * 1 / 1000);
  limit = limit_of (at_least_one (rate * 10 / 1000));
  squares = replicate (at_least_one (rate * 10 / 1000)) 0;
  sum = pos 0;
  n = 0;
  odd = none;
  start = 0;
  found = false;
}

-- The absolute value of a little-endian int16.
abbrev pub magnitude : ℕ → ℕ → ℕ
magnitude low high = let u = low + 256 * high in if ltb u 32768 then u else (65536 - u)

-- One sample.
unfoldable pub sample : ℕ → Onset → Onset
sample v o =
    let k = o.n % o.win in
    let total = o.sum +ℤ pos (v * v) -ℤ pos (get_or o.squares k 0) in
    let next = record o { sum = total; squares = set o.squares k (v * v); n = suc o.n } in
    if leb o.win (suc o.n) && (((suc o.n - o.win) % o.hop) == 0) && ltb_ℤ (pos o.limit) total
    then record next { start = suc o.n - o.win; found = true }
    else next

-- The loop of `Write`, which returns once sound has started; a last single byte is kept.
unfoldable pub feed : Onset → List ℕ → Onset
unfolding sample
feed o [] = o
feed o (low ∷ []) = if o.found then o else record o { odd = some low }
feed o (low ∷ high ∷ pcm) =
    let rest = feed (sample (magnitude low high) o) pcm in if o.found then o else rest

abbrev pub with_odd : Option ℕ → List ℕ → List ℕ
with_odd none pcm = pcm
with_odd (some b) pcm = b ∷ pcm

unfoldable pub write : Onset → List ℕ → Onset
unfolding feed
write o pcm = if o.found then o else feed (record o { odd = none }) (with_odd o.odd pcm)

-- The state with no byte kept.
abbrev pub clear : Onset → Onset
clear o = record o { odd = none }

clear_eq : (o : Onset) → o.odd ≡ none → clear o ≡ o
clear_eq o e = ap (λ (x : Option ℕ). record o { odd = x }) (sym e)

feed_found : (o : Onset) (pcm : List ℕ) → o.found ≡ true → feed o pcm ≡ o
unfolding feed
feed_found o [] e = refl
feed_found o (low ∷ []) e = rw (e) refl
feed_found o (low ∷ high ∷ pcm) e = rw (e) refl

write_found : (o : Onset) (pcm : List ℕ) → o.found ≡ true → write o pcm ≡ o
unfolding write
write_found o pcm e = rw (e) refl

write_sought :
    (o : Onset) (pcm : List ℕ) → o.found ≡ false → write o pcm ≡ feed (clear o) (with_odd o.odd pcm)
unfolding write
write_sought o pcm e = rw (e) refl

else_of : {A : Type 0} (b : Bool) (x y : A) → b ≡ false → (if b then x else y) ≡ y
else_of b x y e = rw (e) refl

sample-odd : (v : ℕ) (o : Onset) → (sample v o).odd ≡ o.odd
unfolding sample
sample-odd v o = if_intro (λ (p : Onset). p.odd ≡ o.odd) _ _ _ (λ e. refl) (λ e. refl)

-- Feeding more than a first part is writing the rest after it.
write-feed : (o : Onset) (xs ys : List ℕ) → o.odd ≡ none → write (feed o xs) ys ≡ feed o (xs ++ ys)
unfolding feed
write-feed o [] ys c = elim (Bool-cases o.found) [
  | inl e ↦ write_found o ys e ∙ sym (feed_found o ys e)
  | inr e ↦ write_sought o ys e ∙ rw (c, clear_eq o c) refl
]
write-feed o (b ∷ []) ys c =
    if_intro (λ p. write p ys ≡ feed o (b ∷ ys)) o.found o (record o { odd = some b })
      (λ e. write_found o ys e ∙ sym (feed_found o (b ∷ ys) e))
      (λ e.
        write_sought (record o { odd = some b }) ys e ∙ ap (λ p. feed p (b ∷ ys)) (clear_eq o c))
write-feed o (low ∷ high ∷ xs) ys c =
    let next = sample (magnitude low high) o in
    if_intro (λ p. write p ys ≡ feed o (low ∷ high ∷ (xs ++ ys))) o.found o (feed next xs)
      (λ e. write_found o ys e ∙ sym (feed_found o (low ∷ high ∷ (xs ++ ys)) e))
      (λ e.
        write-feed next xs ys (sample-odd (magnitude low high) o ∙ c)
        ∙ sym (else_of o.found o (feed next (xs ++ ys)) e))

with_odd-append :
    (odd : Option ℕ) (xs ys : List ℕ) → with_odd odd xs ++ ys ≡ with_odd odd (xs ++ ys)
with_odd-append none xs ys = refl
with_odd-append (some b) xs ys = refl

-- The detector's state does not depend on where the stream is cut into chunks, within a sample or
-- between samples.
pub write-append : (o : Onset) (xs ys : List ℕ) → write (write o xs) ys ≡ write o (xs ++ ys)
write-append o xs ys = elim (Bool-cases o.found) [
  | inl e ↦
      ap (λ p. write p ys) (write_found o xs e)
      ∙ write_found o ys e
      ∙ sym (write_found o (xs ++ ys) e)
  | inr e ↦
      ap (λ p. write p ys) (write_sought o xs e)
      ∙ write-feed (clear o) (with_odd o.odd xs) ys refl
      ∙ ap (feed (clear o)) (with_odd-append o.odd xs ys)
      ∙ sym (write_sought o (xs ++ ys) e)
]
