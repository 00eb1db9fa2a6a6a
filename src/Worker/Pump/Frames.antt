-- ===== src/Worker/Pump/Frames.antt =====
-- What the pump (internal/worker/pump.go) sends, and when.
use callstorm.Prelude.{
  ℕ, suc, ◌+◌, ◌-◌, ◌*◌, ◌≤◌, ◌<◌, ◌≡◌, refl, sym, ◌∙◌, ap, ltb, true, false, Option, none, some,
  List, [], ◌∷◌, ◌++◌, if◌then◌else◌, if_intro, length, take, drop, replicate, length-take,
  length-drop, take-append-drop, ltb→le, arith,
}
use mathlib.Core.List.{append_assoc, append-nil}
use callstorm.Worker.Pump.{
  Pump, Frame, Round, Sent, frame_duration, anchor, due, is_empty, next_frame, obey, run,
}

-- The frames from the `i`th on, each due no earlier than its place after `start`.
abbrev pub OnTime : ℕ → ℕ → List (ℕ × Frame) → Type 0
OnTime start i [] = Unit
OnTime start i ((at, f) ∷ fs) = (start + i * frame_duration ≤ at) × OnTime start (suc i) fs

le-anchor : (start i now : ℕ) → start ≤ anchor start i now
unfolding anchor
le-anchor start i now = ground arith

le-due : (start i now : ℕ) → start + i * frame_duration ≤ due start i now
le-due start i now =
    if_intro (λ s. start + i * frame_duration ≤ s) (ltb now (start + i * frame_duration)) _ _
      (λ e. omega arith) (λ e. ltb→le now _ e)

OnTime-mono : (a b i : ℕ) (fs : List (ℕ × Frame)) → a ≤ b → OnTime b i fs → OnTime a i fs
OnTime-mono a b i [] h t = tt
OnTime-mono a b i ((at, f) ∷ fs) h (t, ts) = (omega arith, OnTime-mono a b (suc i) fs h ts)

-- However late its rounds are and whatever is said or cut meanwhile, the pump never sends a frame
-- before its place in a schedule of one frame for each frame duration from the start.
pub run-OnTime :
    (start i : ℕ) (rs : List Round) (p : Pump) → OnTime start i (run start i rs p).frames
unfolding run
run-OnTime start i [] p = tt
run-OnTime start i (r ∷ rs) p =
    let start' = anchor start i r.now in
    let p' = next_frame (obey r.commands p).0 in
    let a = le-anchor start i r.now in
    let rest = run start' (suc i) rs p'.0 in
    if_intro (λ (s : Sent). OnTime start i s.frames) r.write_failed _ _ (λ e. tt)
      (λ e. (
        omega (arith, a, le-due start' i r.now),
        OnTime-mono start start' (suc i) rest.frames a (run-OnTime start' (suc i) rs p'.0),
      ))

-- The audio of the caller's frames, one after another.
abbrev pub said : List (ℕ × Frame) → List ℕ
said [] = []
said ((at, f) ∷ fs) = (if f.is_caller then f.bytes else []) ++ said fs

-- A round in which nobody speaks or cuts, and whose write succeeds, with its two instants.
abbrev pub quiet : ℕ × ℕ → Round
quiet (now, at) = record { commands = []; now = now; at = at; write_failed = false }

abbrev pub rounds : List (ℕ × ℕ) → List Round
rounds [] = []
rounds (t ∷ ts) = quiet t ∷ rounds ts

abbrev pub pumping : ℕ → List ℕ → Option ℕ → Pump
pumping fb queue waiting = record { frame_bytes = fb; queue = queue; waiting = waiting }

run_silent :
    (start i fb : ℕ) (w : Option ℕ) (ts : List (ℕ × ℕ))
    → (said (run start i (rounds ts) (pumping fb [] w)).frames ≡ [])
      × ((run start i (rounds ts) (pumping fb [] w)).told ≡ [])
unfolding run
run_silent start i fb w [] = (refl, refl)
run_silent start i fb w ((now, at) ∷ ts) = run_silent (anchor start i now) (suc i) fb w ts

-- The audio said is `queue` with less than a frame of silence after it, and the end of utterance
-- `u` is told once.
pub record Spoken (fb : ℕ) (queue : List ℕ) (u : ℕ) (s : Sent) : Type 0 where
  pub pad : ℕ
  pub padded : said s.frames ≡ queue ++ replicate pad 0
  pub short : pad < fb
  pub end_at : ℕ
  pub told_once : s.told ≡ record { utterance = u; at = end_at } ∷ []

empty_of : (xs : List ℕ) → is_empty xs ≡ true → xs ≡ []
empty_of [] e = refl
empty_of (x ∷ xs) e = cc

whole_frame : (fb : ℕ) (xs : List ℕ) → is_empty (drop fb xs) ≡ false → fb - length (take fb xs) ≡ 0
whole_frame fb xs e = omega (arith, length-take fb xs, length-drop fb xs, some_rest (drop fb xs) e)
  where
    some_rest : (ys : List ℕ) → is_empty ys ≡ false → 0 < length ys
    some_rest [] e = cc
    some_rest (y ∷ ys) e = omega arith

-- While nobody speaks or clears and no write fails, an utterance that is not empty is sent whole and
-- in order once there are rounds enough, padded to a frame that is not empty, and the turn is told of
-- its end exactly once.
pub run-Spoken :
    (start i fb u b : ℕ) (bs : List ℕ) (ts : List (ℕ × ℕ))
    → 0 < fb
    → length (b ∷ bs) ≤ length ts * fb
    → Spoken fb (b ∷ bs) u (run start i (rounds ts) (pumping fb (b ∷ bs) (some u)))
unfolding run
run-Spoken start i fb u b bs [] some_fb enough = absurd (omega arith)
run-Spoken start i fb u b bs ((now, at) ∷ ts) some_fb enough =
    after (drop fb (b ∷ bs)) refl
      (λ c cs l. run-Spoken (anchor start i now) (suc i) fb u c cs ts some_fb l)
  where
    joined :
        (rest : List ℕ)
        → drop fb (b ∷ bs) ≡ rest
        → (pad : ℕ) → take fb (b ∷ bs) ++ (rest ++ replicate pad 0) ≡ (b ∷ bs) ++ replicate pad 0
    joined rest e pad =
        sym (append_assoc (take fb (b ∷ bs)) rest (replicate pad 0))
        ∙ ap (λ (l : List ℕ). (take fb (b ∷ bs) ++ l) ++ replicate pad 0) (sym e)
        ∙ ap (λ (l : List ℕ). l ++ replicate pad 0) (take-append-drop fb (b ∷ bs))

    after :
        (rest : List ℕ)
        → drop fb (b ∷ bs) ≡ rest
        → ((c : ℕ) (cs : List ℕ)
            → length (c ∷ cs) ≤ length ts * fb
            → Spoken fb
                (c ∷ cs)
                u
                (run (anchor start i now) (suc i) (rounds ts) (pumping fb (c ∷ cs) (some u))))
        → Spoken fb
            (b ∷ bs)
            u
            (run start i (quiet (now, at) ∷ rounds ts) (pumping fb (b ∷ bs) (some u)))
    after [] e ih =
        let (nothing, no_more) = run_silent (anchor start i now) (suc i) fb none ts in
        let whole : take fb (b ∷ bs) ≡ b ∷ bs =
          sym (append-nil (take fb (b ∷ bs)))
          ∙ ap (λ (l : List ℕ). take fb (b ∷ bs) ++ l) (sym e)
          ∙ take-append-drop fb (b ∷ bs) in
        rw (e) (record {
          pad = fb - length (take fb (b ∷ bs));
          padded = rw (nothing, whole) (append-nil _);
          short = omega (arith, length-take fb (b ∷ bs));
          end_at = at + frame_duration;
          told_once = rw (no_more) refl;
        })
    after (c ∷ cs) e ih =
        let long : length (c ∷ cs) ≤ length ts * fb =
          grind (arith, ap (λ (l : List ℕ). length l) e, length-drop fb (b ∷ bs)) in
        let h = ih c cs long in
        let no_pad = whole_frame fb (b ∷ bs) (rw (e) refl) in
        rw (e) (record {
          pad = h.pad;
          padded = rw (no_pad, append-nil (take fb (b ∷ bs)), h.padded) (joined (c ∷ cs) e h.pad);
          short = h.short;
          end_at = h.end_at;
          told_once = h.told_once;
        })
