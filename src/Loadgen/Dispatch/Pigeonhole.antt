-- ===== src/Loadgen/Dispatch/Pigeonhole.antt =====
-- Distinct numbers below n are at most n: the sequence numbers that a step has answered for.
use callstorm.Prelude.{
  ℕ, zero, suc, ◌≤◌, ◌<◌, ◌==◌, ◌≡◌, refl, false, List, [], ◌∷◌, if◌then◌else◌, length, arith, All,
  Bool-cases, inl, inr,
}
use callstorm.Loadgen.Dispatch.{contains}

abbrev pub Distinct : List ℕ → Type 0
Distinct [] = Unit
Distinct (k ∷ ks) = (contains k ks ≡ false) × Distinct ks

without : ℕ → List ℕ → List ℕ
without n [] = []
without n (k ∷ ks) = let rest = without n ks in if k == n then rest else k ∷ rest

contains-without :
    (m n : ℕ) (ks : List ℕ) → contains m ks ≡ false → contains m (without n ks) ≡ false
unfolding contains without
contains-without m n [] h = refl
contains-without m n (k ∷ ks) h = ground (arith, contains-without m n ks)

Distinct-without : (n : ℕ) (ks : List ℕ) → Distinct ks → Distinct (without n ks)
unfolding without
Distinct-without n [] h = tt
Distinct-without n (k ∷ ks) h = elim (Bool-cases (k == n)) [
  | inl e ↦ rw e (Distinct-without n ks h.1)
  | inr e ↦ rw e (contains-without k n ks h.0, Distinct-without n ks h.1)
]

without_absent : (n : ℕ) (ks : List ℕ) → contains n ks ≡ false → length (without n ks) ≡ length ks
unfolding contains without
without_absent n [] h = refl
without_absent n (k ∷ ks) h = ground (arith, without_absent n ks)

length-without : (n : ℕ) (ks : List ℕ) → Distinct ks → length ks ≤ suc (length (without n ks))
unfolding without
length-without n [] h = omega arith
length-without n (k ∷ ks) h = elim (Bool-cases (k == n)) [
  | inl e ↦
      let k≡n : k ≡ n = ground arith in
      let same = without_absent n ks (rw k≡n at (h.0)) in rw e (omega (arith, same))
  | inr e ↦ rw e (omega (arith, length-without n ks h.1))
]

without_below : (n : ℕ) (ks : List ℕ) → All (λ k. k < suc n) ks → All (λ k. k < n) (without n ks)
unfolding without
without_below n [] h = tt
without_below n (k ∷ ks) h = elim (Bool-cases (k == n)) [
  | inl e ↦ rw e (without_below n ks h.1)
  | inr e ↦ rw e (ground arith, without_below n ks h.1)
]

-- Distinct numbers below `n` are at most `n`.
pub pigeonhole : (n : ℕ) (ks : List ℕ) → Distinct ks → All (λ k. k < n) ks → length ks ≤ n
pigeonhole n [] d h = omega arith
pigeonhole zero (k ∷ ks) d h = absurd (omega arith)
pigeonhole (suc n) (k ∷ ks) d h = omega (
  arith,
  length-without n (k ∷ ks) d,
  pigeonhole n (without n (k ∷ ks)) (Distinct-without n (k ∷ ks) d) (without_below n (k ∷ ks) h),
)
