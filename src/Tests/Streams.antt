-- ===== src/Tests/Streams.antt =====
-- A stream cut inside a sample, and sound added to a track.
use callstorm.Prelude.{List, ℤ, pos, arith, ◌≡◌, ◌++◌, ◌*◌, [], ◌∷◌}
use callstorm.Audio.Onset.{new_onset, write, write-append}
use callstorm.Audio.Recorder.{add}
use callstorm.Audio.Recorder.Mixed.{Mixed, add-Mixed}

write-append_example :
    write (write (new_onset (λ w. w * 3) 1000) (0 ∷ 1 ∷ 2 ∷ [])) (9 ∷ 0 ∷ [])
    ≡ write (new_onset (λ w. w * 3) 1000) ((0 ∷ 1 ∷ 2 ∷ []) ++ (9 ∷ 0 ∷ []))
write-append_example = write-append (new_onset (λ w. w * 3) 1000) (0 ∷ 1 ∷ 2 ∷ []) (9 ∷ 0 ∷ [])

abbrev loud : List ℤ
loud = pos 5 ∷ pos 32767 ∷ []

add-Mixed_example :
    Mixed 1 (255 ∷ 127 ∷ 1 ∷ 0 ∷ []) loud (add (pos 1) (255 ∷ 127 ∷ 1 ∷ 0 ∷ []) loud)
add-Mixed_example =
    add-Mixed (pos 1) (255 ∷ 127 ∷ 1 ∷ 0 ∷ []) loud
      (
        record { low = omega arith; high = omega arith },
        (record { low = omega arith; high = omega arith }, tt),
      )
      (omega arith, (omega arith, (omega arith, (omega arith, tt))))
