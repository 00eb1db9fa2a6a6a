-- ===== src/Worker/Rtt.antt =====
-- internal/worker/rtt.go: the round trips of one call, and their median over a turn. Instants are
-- nanoseconds of the call's clock. The ping itself is a call of the socket.
use callstorm.Prelude.{
  ℕ, zero, suc, ◌-◌, ◌/◌, ◌<◌, ◌≡◌, refl, ℤ, pos, leb_ℤ, ltb_ℤ, Bool, true, false, Option, none,
  some, List, [], ◌∷◌, ◌++◌, if◌then◌else◌, if_intro, length, get_or, sort_on, sort_on-All,
  length-sort_on, All, All-map, Any, ◌⊎◌, inl, inr, arith, Bool-cases,
}

pub record RttSample : Type 0 where
  pub sent : ℤ
  pub rtt : ℤ

unfoldable pub add : ℤ → ℤ → List RttSample → List RttSample
add sent rtt samples = samples ++ (record { sent = sent; rtt = rtt } ∷ [])

-- The latest round trip of a ping sent up to `to`.
unfoldable pub latest : ℤ → List RttSample → Option ℤ → Option ℤ
latest to [] last = last
latest to (s ∷ ss) last = latest to ss (if ltb_ℤ to s.sent then last else some s.rtt)

-- The round trips of the pings sent from `from` to `to`.
unfoldable pub window : ℤ → ℤ → List RttSample → List ℤ
window from to [] = []
window from to (s ∷ ss) =
    let rest = window from to ss in
    if ltb_ℤ to s.sent then rest else (if leb_ℤ from s.sent then (s.rtt ∷ rest) else rest)

abbrev pub itself : ℤ → ℤ
itself d = d

abbrev pub read : Option ℤ → ℤ × Bool
read none = (pos 0, false)
read (some d) = (d, true)

abbrev pub median_or : List ℤ → Option ℤ → ℤ × Bool
median_or [] last = read last
median_or (d ∷ ds) last =
    (get_or (sort_on itself (d ∷ ds)) ((length (d ∷ ds) - 1) / 2) (pos 0), true)

unfoldable pub median : List RttSample → ℤ → ℤ → ℤ × Bool
unfolding latest window
median samples from to = median_or (window from to samples) (latest to samples none)

-- A round trip of a ping that was sent up to `to`.
abbrev pub IsReading : ℤ → List RttSample → ℤ → Type 0
IsReading to samples d = Any (λ (s : RttSample). (ltb_ℤ to s.sent ≡ false) × (s.rtt ≡ d)) samples

window-IsReading : (from to : ℤ) (ss : List RttSample) → All (IsReading to ss) (window from to ss)
unfolding window
window-IsReading from to [] = tt
window-IsReading from to (s ∷ ss) =
    let rest =
      All-map (IsReading to ss) (IsReading to (s ∷ ss)) (λ d r. inr r) _
        (window-IsReading from to ss) in
    if_intro (All (IsReading to (s ∷ ss))) (ltb_ℤ to s.sent) _ _ (λ e. rest)
      (λ e.
        if_intro (All (IsReading to (s ∷ ss))) (leb_ℤ from s.sent) _ _ (λ f. (inl (e, refl), rest))
          (λ f. rest))

-- No reading, and none that the samples could give; or a reading.
abbrev pub Latest : ℤ → List RttSample → Option ℤ → Type 0
Latest to samples none = All (λ (s : RttSample). ltb_ℤ to s.sent ≡ true) samples
Latest to samples (some d) = IsReading to samples d

latest_continues :
    (to : ℤ) (ss : List RttSample) (d : ℤ)
    → (e : ℤ) × (latest to ss (some d) ≡ some e) × ((d ≡ e) ⊎ IsReading to ss e)
unfolding latest
latest_continues to [] d = (d, refl, inl refl)
latest_continues to (s ∷ ss) d = elim (Bool-cases (ltb_ℤ to s.sent)) [
  | inl h ↦
      let (e, found, r) = latest_continues to ss d in
      (e, rw (h) found, elim r [ inl q ↦ inl q | inr q ↦ inr (inr q) ])
  | inr h ↦
      let (e, found, r) = latest_continues to ss s.rtt in
      (e, rw (h) found, elim r [ inl q ↦ inr (inl (h, q)) | inr q ↦ inr (inr q) ])
]

latest-Latest : (to : ℤ) (ss : List RttSample) → Latest to ss (latest to ss none)
unfolding latest
latest-Latest to [] = tt
latest-Latest to (s ∷ ss) = elim (Bool-cases (ltb_ℤ to s.sent)) [
  | inl h ↦ rw (h) (later (latest to ss none) h (latest-Latest to ss))
  | inr h ↦
      let (e, found, r) = latest_continues to ss s.rtt in
      rw (h, found) (elim r [ inl q ↦ inl (h, q) | inr q ↦ inr q ])
]
  where
    later : (o : Option ℤ) → ltb_ℤ to s.sent ≡ true → Latest to ss o → Latest to (s ∷ ss) o
    later none h l = (h, l)
    later (some d) h l = inr l

get_or-All :
    (P : ℤ → Type 0) (ds : List ℤ) (k : ℕ) (e : ℤ) → k < length ds → All P ds → P (get_or ds k e)
get_or-All P [] k e h a = absurd (omega arith)
get_or-All P (d ∷ ds) zero e h a = a.0
get_or-All P (d ∷ ds) (suc k) e h a = get_or-All P ds k e (omega arith) a.1

-- What the median reports: a round trip of a ping that was sent by then, or that none was.
abbrev pub Reports : ℤ → List RttSample → ℤ × Bool → Type 0
Reports to samples (d, true) = IsReading to samples d
Reports to samples (d, false) = All (λ (s : RttSample). ltb_ℤ to s.sent ≡ true) samples

-- The round trip of a turn is said to be measured exactly if a pong to a ping sent by the turn's end
-- had come back, and is then one of those round trips.
pub median-Reports :
    (samples : List RttSample) (from to : ℤ) → Reports to samples (median samples from to)
unfolding median
median-Reports samples from to =
    pick (window from to samples) (latest to samples none) (window-IsReading from to samples)
      (latest-Latest to samples)
  where
    pick :
        (ds : List ℤ) (last : Option ℤ)
        → All (IsReading to samples) ds
        → Latest to samples last
        → Reports to samples (median_or ds last)
    pick [] none a l = l
    pick [] (some d) a l = l
    pick (d ∷ ds) last a l =
        get_or-All (IsReading to samples) (sort_on itself (d ∷ ds)) ((length (d ∷ ds) - 1) / 2)
          (pos 0) (omega (arith, length-sort_on itself (d ∷ ds)))
          (sort_on-All (IsReading to samples) itself (d ∷ ds) a)
