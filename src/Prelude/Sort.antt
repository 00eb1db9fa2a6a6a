-- ===== src/Prelude/Sort.antt =====
-- Stable sorting by an integer key, as `sort.SliceStable` does it, and counting by a test.
use Prim.Native.Nat.{ℕ, suc, ◌+◌}
use mathlib.Core.Path.{◌≡◌, refl, ap, ◌∙◌}
use mathlib.Core.Bool.{Bool, true, false, not, ◌&&◌}
use mathlib.Core.Logic.{◌⊎◌, inl, inr}
use mathlib.Core.List.{List, [], ◌∷◌, ◌++◌}
use native.Mathlib.Omega.{arith}
use callstorm.Prelude.Tests.{if◌then◌else◌, if_intro}
use callstorm.Prelude.Int.{ℤ, ltb_ℤ, ◌≤ℤ◌}
use callstorm.Prelude.Lists.{length, All, All-map}

module _ {A : Type 0} where
  -- After the elements that are strictly smaller.
  unfoldable pub insert_on : (A → ℤ) → A → List A → List A
  insert_on key x [] = x ∷ []
  insert_on key x (y ∷ ys) =
      let rest = insert_on key x ys in if ltb_ℤ (key y) (key x) then (y ∷ rest) else (x ∷ y ∷ ys)

  unfoldable pub sort_on : (A → ℤ) → List A → List A
  unfolding insert_on
  sort_on key [] = []
  sort_on key (x ∷ xs) = insert_on key x (sort_on key xs)

  abbrev pub count_if : (A → Bool) → List A → ℕ
  count_if test [] = 0
  count_if test (x ∷ xs) = (if test x then 1 else 0) + count_if test xs

  abbrev pub Sorted : (A → ℤ) → List A → Type 0
  Sorted key [] = Unit
  Sorted key (x ∷ xs) = All (λ y. key x ≤ℤ key y) xs × Sorted key xs

  pub count_if_yes :
      (test : A → Bool) (x : A) (xs : List A)
      → test x ≡ true
      → count_if test (x ∷ xs) ≡ suc (count_if test xs)
  count_if_yes test x xs e = rw (e) (omega arith)

  pub count_if_no :
      (test : A → Bool) (x : A) (xs : List A)
      → test x ≡ false
      → count_if test (x ∷ xs) ≡ count_if test xs
  count_if_no test x xs e = rw (e) (omega arith)

  pub count_if-append :
      (test : A → Bool) (xs ys : List A)
      → count_if test (xs ++ ys) ≡ count_if test xs + count_if test ys
  count_if-append test [] ys = omega arith
  count_if-append test (x ∷ xs) ys = omega (arith, count_if-append test xs ys)

  insert_on-All :
      (P : A → Type 0) (key : A → ℤ) (x : A) (xs : List A)
      → P x
      → All P xs
      → All P (insert_on key x xs)
  unfolding insert_on
  insert_on-All P key x [] p h = (p, tt)
  insert_on-All P key x (y ∷ ys) p (q, h) =
      if_intro (All P) (ltb_ℤ (key y) (key x)) _ _ (λ e. (q, insert_on-All P key x ys p h))
        (λ e. (p, (q, h)))

  pub sort_on-All : (P : A → Type 0) (key : A → ℤ) (xs : List A) → All P xs → All P (sort_on key xs)
  unfolding sort_on
  sort_on-All P key [] h = tt
  sort_on-All P key (x ∷ xs) (p, h) = insert_on-All P key x _ p (sort_on-All P key xs h)

  insert_on-Sorted :
      (key : A → ℤ) (x : A) (xs : List A) → Sorted key xs → Sorted key (insert_on key x xs)
  unfolding insert_on
  insert_on-Sorted key x [] h = (tt, tt)
  insert_on-Sorted key x (y ∷ ys) (low, h) =
      if_intro (Sorted key) (ltb_ℤ (key y) (key x)) _ _
        (λ e. (
          insert_on-All (λ z. key y ≤ℤ key z) key x ys (ground arith) low,
          insert_on-Sorted key x ys h,
        ))
        (λ e.
          ((ground arith, All-map (λ z. key y ≤ℤ key z) _ (λ z q. ground arith) ys low), (low, h)))

  pub sort_on-Sorted : (key : A → ℤ) (xs : List A) → Sorted key (sort_on key xs)
  unfolding sort_on
  sort_on-Sorted key [] = tt
  sort_on-Sorted key (x ∷ xs) = insert_on-Sorted key x _ (sort_on-Sorted key xs)

  count_if-insert_on :
      (test : A → Bool) (key : A → ℤ) (x : A) (xs : List A)
      → count_if test (insert_on key x xs) ≡ count_if test (x ∷ xs)
  unfolding insert_on
  count_if-insert_on test key x [] = refl
  count_if-insert_on test key x (y ∷ ys) =
      if_intro (λ (l : List A). count_if test l ≡ count_if test (x ∷ y ∷ ys))
        (ltb_ℤ (key y) (key x)) _ _ (λ e. omega (arith, count_if-insert_on test key x ys))
        (λ e. refl)

  -- Sorting keeps the elements: as many of them pass any test.
  pub count_if-sort_on :
      (test : A → Bool) (key : A → ℤ) (xs : List A)
      → count_if test (sort_on key xs) ≡ count_if test xs
  unfolding sort_on
  count_if-sort_on test key [] = refl
  count_if-sort_on test key (x ∷ xs) =
      omega (arith, count_if-insert_on test key x (sort_on key xs), count_if-sort_on test key xs)

  length-insert_on :
      (key : A → ℤ) (x : A) (xs : List A) → length (insert_on key x xs) ≡ suc (length xs)
  unfolding insert_on
  length-insert_on key x [] = refl
  length-insert_on key x (y ∷ ys) =
      if_intro (λ (l : List A). length l ≡ suc (suc (length ys))) (ltb_ℤ (key y) (key x)) _ _
        (λ e. ap suc (length-insert_on key x ys)) (λ e. refl)

  pub length-sort_on : (key : A → ℤ) (xs : List A) → length (sort_on key xs) ≡ length xs
  unfolding sort_on
  length-sort_on key [] = refl
  length-sort_on key (x ∷ xs) =
      length-insert_on key x (sort_on key xs) ∙ ap suc (length-sort_on key xs)

  abbrev pub filter : (A → Bool) → List A → List A
  filter test [] = []
  filter test (x ∷ xs) = if test x then (x ∷ filter test xs) else filter test xs

  -- The elements of one key.
  abbrev pub of_key : (A → ℤ) → ℤ → A → Bool
  of_key key k x = not (ltb_ℤ (key x) k) && not (ltb_ℤ k (key x))

  filter-skip :
      (test : A → Bool) (x y : A) (xs : List A)
      → (test x ≡ false) ⊎ (test y ≡ false)
      → filter test (y ∷ x ∷ xs) ≡ filter test (x ∷ y ∷ xs)
  filter-skip test x y xs (inl e) = rw (e) refl
  filter-skip test x y xs (inr e) = rw (e) refl

  filter_cong :
      (test : A → Bool) (y : A) (xs ys : List A)
      → filter test xs ≡ filter test ys
      → filter test (y ∷ xs) ≡ filter test (y ∷ ys)
  filter_cong test y xs ys e = ap (λ (l : List A). if test y then (y ∷ l) else l) e

  apart :
      (key : A → ℤ) (k : ℤ) (x y : A)
      → ltb_ℤ (key y) (key x) ≡ true
      → (of_key key k x ≡ false) ⊎ (of_key key k y ≡ false)
  apart key k x y h = ground arith

  filter-insert_on :
      (key : A → ℤ) (k : ℤ) (x : A) (xs : List A)
      → filter (of_key key k) (insert_on key x xs) ≡ filter (of_key key k) (x ∷ xs)
  unfolding insert_on
  filter-insert_on key k x [] = refl
  filter-insert_on key k x (y ∷ ys) =
      if_intro (λ (l : List A). filter (of_key key k) l ≡ filter (of_key key k) (x ∷ y ∷ ys))
        (ltb_ℤ (key y) (key x)) _ _
        (λ e.
          filter_cong (of_key key k) y _ (x ∷ ys) (filter-insert_on key k x ys)
          ∙ filter-skip (of_key key k) x y ys (apart key k x y e))
        (λ e. refl)

  -- Sorting is stable: elements of one key keep their order.
  pub filter-sort_on :
      (key : A → ℤ) (k : ℤ) (xs : List A)
      → filter (of_key key k) (sort_on key xs) ≡ filter (of_key key k) xs
  unfolding sort_on
  filter-sort_on key k [] = refl
  filter-sort_on key k (x ∷ xs) =
      filter-insert_on key k x (sort_on key xs)
      ∙ filter_cong (of_key key k) x _ xs (filter-sort_on key k xs)
