-- ===== src/Metrics/Percentile.antt =====
-- internal/metrics/metrics.go, `Percentile`: the nearest-rank percentile, at the percents that the
-- program asks for. At these the ceiling of the source's float product is the exact one: the error of
-- the `float64` for p/100 is less than half of its last place, so that a product which should be whole
-- is rounded to it, and another stays far nearer than a hundredth to its value, for any number of
-- values below 10^13. At other percents, such as 7, the source's rank may be one higher.
use callstorm.Prelude.{
  ℕ, zero, suc, ◌+◌, ◌-◌, ◌*◌, ◌/◌, ◌≤◌, ◌<◌, ℤ, pos, ltb, ltb_ℤ, leb_ℤ, ◌≤ℤ◌, ◌≡◌, refl, List, [],
  ◌∷◌, if◌then◌else◌, length, get_or, All, arith, sort_on, count_if, Sorted, sort_on-Sorted,
  count_if-sort_on, length-sort_on,
}

pub data Percent : Type 0 where
  fifty ninety ninety_five ninety_nine hundred : Percent

abbrev pub percent : Percent → ℕ
percent fifty = 50
percent ninety = 90
percent ninety_five = 95
percent ninety_nine = 99
percent hundred = 100

-- The place of the `p`th percentile in `n` sorted values.
abbrev pub rank : ℕ → ℕ → ℕ
rank p n = let r = (p * n + 99) / 100 - 1 in if ltb r n then r else (n - 1)

abbrev itself : ℤ → ℤ
itself d = d

unfoldable pub percentile : Percent → List ℤ → ℤ
percentile p [] = pos 0
percentile p (d ∷ ds) =
    get_or (sort_on itself (d ∷ ds)) (rank (percent p) (length (d ∷ ds))) (pos 0)

-- How many values lie below `v`, and how many do not lie above it.
abbrev pub count_below : ℤ → List ℤ → ℕ
count_below v ds = count_if (λ d. ltb_ℤ d v) ds

abbrev pub count_up_to : ℤ → List ℤ → ℕ
count_up_to v ds = count_if (λ d. leb_ℤ d v) ds

none_below : (v : ℤ) (ds : List ℤ) → All (λ d. v ≤ℤ d) ds → count_below v ds ≡ 0
none_below v [] h = refl
none_below v (d ∷ ds) (low, h) = ground (arith, none_below v ds h)

All-get_or :
    (v : ℤ) (ds : List ℤ) (k : ℕ) (e : ℤ)
    → k < length ds
    → All (λ d. v ≤ℤ d) ds
    → v ≤ℤ get_or ds k e
All-get_or v [] k e h a = absurd (omega arith)
All-get_or v (d ∷ ds) zero e h a = a.0
All-get_or v (d ∷ ds) (suc k) e h a = All-get_or v ds k e (omega arith) a.1

-- The element at `k` of a sorted list has at most `k` elements below it and more than `k` up to it.
at_rank :
    (ds : List ℤ) (k : ℕ) (e : ℤ)
    → k < length ds
    → Sorted itself ds
    → (count_below (get_or ds k e) ds ≤ k) × (k < count_up_to (get_or ds k e) ds)
at_rank [] k e h s = absurd (omega arith)
at_rank (d ∷ ds) zero e h s = ground (arith, none_below d ds s.0)
at_rank (d ∷ ds) (suc k) e h s =
    let up = All-get_or d ds k e (omega arith) s.0 in
    let (below, above) = at_rank ds k e (omega arith) s.1 in ground arith

rank_bounds :
    (m n : ℕ)
    → 0 < m
    → m ≤ 100 * n
    → ((m + 99) / 100 - 1 < n)
      × (m ≤ 100 * suc ((m + 99) / 100 - 1))
      × (100 * ((m + 99) / 100 - 1) < m)
rank_bounds m n a b = omega arith

scaled : (p n : ℕ) → 0 < p → p ≤ 100 → 0 < n → (0 < p * n) × (p * n ≤ 100 * n)
scaled p n a b c = grind arith

rank_of : (p n : ℕ) → (p * n + 99) / 100 - 1 < n → rank p n ≡ (p * n + 99) / 100 - 1
rank_of p n h = ground arith

percent_bounds : (p : Percent) → (0 < percent p) × (percent p ≤ 100)
percent_bounds fifty = omega arith
percent_bounds ninety = omega arith
percent_bounds ninety_five = omega arith
percent_bounds ninety_nine = omega arith
percent_bounds hundred = omega arith

-- The pth percentile of values that are not empty, for a p of 50, 90, 95, 99 or 100: at least p
-- percent of them do not lie above it, and fewer than p percent lie below it.
pub percentile-IsNearestRank :
    (p : Percent) (d : ℤ) (ds : List ℤ)
    → (percent p * length (d ∷ ds) ≤ 100 * count_up_to (percentile p (d ∷ ds)) (d ∷ ds))
      × (100 * count_below (percentile p (d ∷ ds)) (d ∷ ds) < percent p * length (d ∷ ds))
unfolding percentile
percentile-IsNearestRank p d ds =
    let n : ℕ = length (d ∷ ds) in
    let k : ℕ = percent p in
    let s = sort_on itself (d ∷ ds) in
    let v = get_or s (rank k n) (pos 0) in
    let (pos_p, le) = percent_bounds p in
    let (some_m, few_m) = scaled k n pos_p le (omega arith) in
    let (within, high, low) = rank_bounds (k * n) n some_m few_m in
    let at = rank_of k n within in
    let long = length-sort_on itself (d ∷ ds) in
    let (below, above) =
      at_rank s (rank k n) (pos 0) (omega (arith, at, long, within))
        (sort_on-Sorted itself (d ∷ ds)) in
    (
      omega (arith, high, at, above, count_if-sort_on (λ (x : ℤ). leb_ℤ x v) itself (d ∷ ds)),
      omega (arith, low, at, below, count_if-sort_on (λ (x : ℤ). ltb_ℤ x v) itself (d ∷ ds)),
    )
