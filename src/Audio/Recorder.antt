-- ===== src/Audio/Recorder.antt =====
-- internal/audio/recorder.go: both sides of a call mixed into one track. `offset` is the sample
-- that the float product of `Add` truncates to; a nil recorder is left out.
pub mod Mixed
use callstorm.Prelude.{
  ℕ, suc, zero, ◌+◌, ◌-◌, ◌*◌, ◌/◌, ℤ, pos, negsuc, ◌+ℤ◌, ltb, ltb_ℤ, if◌then◌else◌, List, [], ◌∷◌,
  ◌++◌, length, replicate,
}

-- A little-endian int16.
abbrev pub int16 : ℕ → ℕ → ℤ
int16 low high = let u = low + 256 * high in if ltb u 32768 then pos u else negsuc (65535 - u)

unfoldable pub clamp : ℤ → ℤ
clamp v =
    if ltb_ℤ (pos 32767) v then pos 32767 else (if ltb_ℤ v (negsuc 32767) then negsuc 32767 else v)

-- The loop of `Add`, with the samples from its start.
unfoldable pub mix : List ℤ → List ℕ → List ℤ
unfolding clamp
mix samples [] = samples
mix samples (low ∷ []) = samples
mix [] (low ∷ high ∷ pcm) = []
mix (s ∷ samples) (low ∷ high ∷ pcm) = clamp (s +ℤ int16 low high) ∷ mix samples pcm

unfoldable pub mix_at : ℕ → List ℤ → List ℕ → List ℤ
unfolding mix
mix_at zero samples pcm = mix samples pcm
mix_at (suc start) [] pcm = []
mix_at (suc start) (s ∷ samples) pcm = s ∷ mix_at start samples pcm

abbrev pub start_of : ℤ → ℕ
start_of (pos n) = n
start_of (negsuc n) = 0

-- `append` of the zeros that are missing.
abbrev pub grow : ℕ → List ℤ → List ℤ
grow need samples = samples ++ replicate (need - length samples) (pos 0)

unfoldable pub add : ℤ → List ℕ → List ℤ → List ℤ
unfolding mix_at
add offset pcm samples =
    if ltb (length pcm) 2
    then samples
    else mix_at (start_of offset) (grow (start_of offset + length pcm / 2) samples) pcm
