-- ===== src/Audio/Recorder/Mixed.antt =====
-- The track of internal/audio/recorder.go after `Add`, sample by sample.
use Prim.Native.Nat.{max}
use callstorm.Prelude.{
  ℕ, zero, suc, ◌+◌, ◌-◌, ◌*◌, ◌/◌, ◌≤◌, ◌<◌, ◌≡◌, refl, ◌∙◌, ap, ◌⊎◌, inl, inr, ℤ, pos, negsuc,
  pos_part, sub_ℕ, ◌+ℤ◌, ◌≤ℤ◌, ltb, ltb_ℤ, Bool-cases, if◌then◌else◌, List, [], ◌∷◌, ◌++◌, length,
  length-append, length-replicate, replicate, get_or, All, if_intro, arith, ltb→lt,
}
use callstorm.Audio.Recorder.{int16, clamp, mix, mix_at, start_of, grow, add}

pub record InRange (v : ℤ) : Type 0 where
  pub low : negsuc 32767 ≤ℤ v
  pub high : v ≤ℤ pos 32767

-- `w` is `v`, or the end of the range of 16 bits that `v` is past.
abbrev pub Saturates : ℤ → ℤ → Type 0
Saturates v w =
    (InRange v × (w ≡ v))
    ⊎ (((pos 32768 ≤ℤ v) × (w ≡ pos 32767)) ⊎ ((v ≤ℤ negsuc 32768) × (w ≡ negsuc 32767)))

-- Two bytes, the low one first, as a number of two's complement.
abbrev pub sample : ℕ → ℕ → ℤ
sample low high = sub_ℕ (low + 256 * high) (if ltb high 128 then 0 else 65536)

-- The `k`th sample of some bytes, silence past their end.
abbrev pub sample_at : List ℕ → ℕ → ℤ
sample_at [] k = pos 0
sample_at (low ∷ []) k = pos 0
sample_at (low ∷ high ∷ pcm) zero = sample low high
sample_at (low ∷ high ∷ pcm) (suc k) = sample_at pcm k

-- The same, heard from sample `start` on.
abbrev pub heard : ℕ → List ℕ → ℕ → ℤ
heard zero pcm k = sample_at pcm k
heard (suc start) pcm zero = pos 0
heard (suc start) pcm (suc k) = heard start pcm k

abbrev pub IsByte : ℕ → Type 0
IsByte b = b < 256

int16_lem : (low high : ℕ) → IsByte low → IsByte high → int16 low high ≡ sample low high
int16_lem low high l h = ground arith

clamp-Saturates : (v : ℤ) → Saturates v (clamp v)
unfolding clamp
clamp-Saturates v =
    if_intro (Saturates v) (ltb_ℤ (pos 32767) v) _ _ (λ e. inr (inl (ground arith, refl)))
      (λ e.
        if_intro (Saturates v) (ltb_ℤ v (negsuc 32767)) _ _ (λ f. inr (inr (ground arith, refl)))
          (λ f. inl (record { low = ground arith; high = ground arith }, refl)))

add_zero : (v : ℤ) → v +ℤ pos 0 ≡ v
unfolding ◌+ℤ◌
add_zero v = ground arith

-- A sample in range is itself with silence.
same-Saturates : (v : ℤ) → InRange v → Saturates (v +ℤ pos 0) v
same-Saturates v r = rw (add_zero v) (inl (r, refl))

silence-InRange : InRange (pos 0)
silence-InRange = record { low = omega arith; high = omega arith }

get_or-InRange :
    (samples : List ℤ) (k : ℕ) → All InRange samples → InRange (get_or samples k (pos 0))
get_or-InRange [] k h = silence-InRange
get_or-InRange (s ∷ samples) zero h = h.0
get_or-InRange (s ∷ samples) (suc k) h = get_or-InRange samples k h.1

kept-Saturates :
    (samples : List ℤ) (k : ℕ)
    → All InRange samples
    → Saturates (get_or samples k (pos 0) +ℤ pos 0) (get_or samples k (pos 0))
kept-Saturates samples k h = same-Saturates _ (get_or-InRange samples k h)

mix-Saturates :
    (samples : List ℤ) (pcm : List ℕ) (k : ℕ)
    → All InRange samples
    → All IsByte pcm
    → length pcm / 2 ≤ length samples
    → Saturates (get_or samples k (pos 0) +ℤ sample_at pcm k) (get_or (mix samples pcm) k (pos 0))
unfolding mix
mix-Saturates samples [] k h b l = kept-Saturates samples k h
mix-Saturates samples (low ∷ []) k h b l = kept-Saturates samples k h
mix-Saturates [] (low ∷ high ∷ pcm) k h b l = absurd (omega arith)
mix-Saturates (s ∷ samples) (low ∷ high ∷ pcm) zero h b l =
    rw (int16_lem low high b.0 b.1.0) (clamp-Saturates (s +ℤ sample low high))
mix-Saturates (s ∷ samples) (low ∷ high ∷ pcm) (suc k) h b l =
    mix-Saturates samples pcm k h.1 b.1.1 (omega arith)

mix_at-Saturates :
    (start : ℕ) (samples : List ℤ) (pcm : List ℕ) (k : ℕ)
    → All InRange samples
    → All IsByte pcm
    → start + length pcm / 2 ≤ length samples
    → Saturates
        (get_or samples k (pos 0) +ℤ heard start pcm k)
        (get_or (mix_at start samples pcm) k (pos 0))
unfolding mix_at
mix_at-Saturates zero samples pcm k h b l = mix-Saturates samples pcm k h b (omega arith)
mix_at-Saturates (suc start) [] pcm k h b l = absurd (omega arith)
mix_at-Saturates (suc start) (s ∷ samples) pcm zero h b l = same-Saturates s h.0
mix_at-Saturates (suc start) (s ∷ samples) pcm (suc k) h b l =
    mix_at-Saturates start samples pcm k h.1 b (omega arith)

grow-InRange :
    (samples : List ℤ) (n : ℕ) → All InRange samples → All InRange (samples ++ replicate n (pos 0))
grow-InRange [] zero h = tt
grow-InRange [] (suc n) h = (silence-InRange, grow-InRange [] n tt)
grow-InRange (s ∷ samples) n h = (h.0, grow-InRange samples n h.1)

-- Zeros at the end change no sample.
get_or-grow :
    (samples : List ℤ) (n k : ℕ)
    → get_or (samples ++ replicate n (pos 0)) k (pos 0) ≡ get_or samples k (pos 0)
get_or-grow [] zero k = refl
get_or-grow [] (suc n) zero = refl
get_or-grow [] (suc n) (suc k) = get_or-grow [] n k
get_or-grow (s ∷ samples) n zero = refl
get_or-grow (s ∷ samples) n (suc k) = get_or-grow samples n k

length-mix : (samples : List ℤ) (pcm : List ℕ) → length (mix samples pcm) ≡ length samples
unfolding mix
length-mix samples [] = refl
length-mix samples (low ∷ []) = refl
length-mix [] (low ∷ high ∷ pcm) = refl
length-mix (s ∷ samples) (low ∷ high ∷ pcm) = ap suc (length-mix samples pcm)

length-mix_at :
    (start : ℕ) (samples : List ℤ) (pcm : List ℕ)
    → length (mix_at start samples pcm) ≡ length samples
unfolding mix_at
length-mix_at zero samples pcm = length-mix samples pcm
length-mix_at (suc start) [] pcm = refl
length-mix_at (suc start) (s ∷ samples) pcm = ap suc (length-mix_at start samples pcm)

length-grow : (need : ℕ) (samples : List ℤ) → length (grow need samples) ≡ max need (length samples)
length-grow need samples = omega (
  arith,
  length-append samples (replicate (need - length samples) (pos 0)),
  length-replicate (need - length samples) (pos 0),
)

-- What a track is after some bytes are added from sample `start` on.
pub record Mixed (start : ℕ) (pcm : List ℕ) (samples out : List ℤ) : Type 0 where
  pub mixed :
      (k : ℕ) → Saturates (get_or samples k (pos 0) +ℤ heard start pcm k) (get_or out k (pos 0))
  pub long : length out ≡ (
      if ltb (length pcm) 2
      then length samples
      else (max (start + length pcm / 2) (length samples)))

heard_nothing : (start : ℕ) (pcm : List ℕ) (k : ℕ) → length pcm < 2 → heard start pcm k ≡ pos 0
heard_nothing zero [] k l = refl
heard_nothing zero (low ∷ []) k l = refl
heard_nothing zero (low ∷ high ∷ pcm) k l = absurd (omega arith)
heard_nothing (suc start) pcm zero l = refl
heard_nothing (suc start) pcm (suc k) l = heard_nothing start pcm k l

add-Mixed_start :
    (offset : ℤ) (pcm : List ℕ) (samples : List ℤ)
    → All InRange samples
    → All IsByte pcm
    → Mixed (start_of offset) pcm samples (add offset pcm samples)
unfolding add
add-Mixed_start offset pcm samples h b = record { mixed = at; long = whole }
  where
    start : ℕ
    start = start_of offset

    need : ℕ
    need = start + length pcm / 2

    grown : (k : ℕ) → get_or (grow need samples) k (pos 0) ≡ get_or samples k (pos 0)
    grown k = get_or-grow samples (need - length samples) k

    at :
        (k : ℕ)
        → Saturates
            (get_or samples k (pos 0) +ℤ heard (start_of offset) pcm k)
            (get_or (add offset pcm samples) k (pos 0))
    at k =
        if_intro
          (λ (out : List ℤ).
            Saturates (get_or samples k (pos 0) +ℤ heard (start_of offset) pcm k)
              (get_or out k (pos 0)))
          (ltb (length pcm) 2) _ _
          (λ e. rw (heard_nothing start pcm k (ltb→lt _ _ e)) (kept-Saturates samples k h))
          (λ e. rw (← grown k) (
            mix_at-Saturates start (grow need samples) pcm k
              (grow-InRange samples (need - length samples) h) b
              (omega (arith, length-grow need samples))))

    whole : length (add offset pcm samples) ≡ (
        if ltb (length pcm) 2
        then length samples
        else (max (start_of offset + length pcm / 2) (length samples)))
    whole = elim (Bool-cases (ltb (length pcm) 2)) [
      | inl e ↦ rw (e) refl
      | inr e ↦ rw (e) (length-mix_at start (grow need samples) pcm ∙ length-grow need samples)
    ]

-- Each sample of a track of 16-bit samples is, after bytes are added to it, the sum of what it was
-- and of what is heard at its place from the offset on (from the start if that is negative), or the
-- end of the range that the sum is past; places that a track does not have are silent. The track
-- reaches to its own end or to that of the bytes, the later of the two, and less than one sample
-- changes nothing.
pub add-Mixed :
    (offset : ℤ) (pcm : List ℕ) (samples : List ℤ)
    → All InRange samples
    → All IsByte pcm
    → Mixed (pos_part offset) pcm samples (add offset pcm samples)
add-Mixed (pos n) pcm samples h b = add-Mixed_start (pos n) pcm samples h b
add-Mixed (negsuc n) pcm samples h b = add-Mixed_start (negsuc n) pcm samples h b
