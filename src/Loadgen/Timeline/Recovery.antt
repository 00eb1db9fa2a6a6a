-- ===== src/Loadgen/Timeline/Recovery.antt =====
-- What `backToNormal` (internal/loadgen/timeline.go) finds.
use callstorm.Prelude.{ℤ, ◌≡◌, ◌⊎◌, true, false, Option, none, some, List, [], ◌∷◌, ◌++◌, All}
use callstorm.Loadgen.Timeline.{CallPoint, is_normal}

-- A list that is empty or ends with a call that is not normal.
abbrev pub EndsSlow : ℤ → List CallPoint → Type 0
EndsSlow base ps =
    (ps ≡ [])
    ⊎ ((front : List CallPoint) × (p : CallPoint) × (ps ≡ front ++ (p ∷ []))
        × (is_normal base p ≡ false))

-- `p` begins the unbroken run of normal calls that finishes the timeline.
pub record BeginsRun (base : ℤ) (timeline : List CallPoint) (p : CallPoint) : Type 0 where
  pub before : List CallPoint
  pub after : List CallPoint
  pub split : timeline ≡ before ++ (p ∷ after)
  pub normal : All (λ q. is_normal base q ≡ true) (p ∷ after)
  pub slow_before : EndsSlow base before

-- What the walk over a reversed timeline finds.
abbrev Found : ℤ → List CallPoint → Option CallPoint → Type 0
Found base timeline none = EndsSlow base timeline
Found base timeline (some p) = BeginsRun base timeline p
