-- ===== src/Insights/Digest/Alone.antt =====
-- A row of internal/insights/digest.go, `callStats`, depends on its own turns only.
use callstorm.Prelude.{
  ℕ, ◌≤◌, ◌≡◌, refl, sym, ◌∙◌, ap, ltb, ◌==◌, ==_iff, ℤ, pos, ◌≤ℤ◌, String, true, false, not, ◌&&◌,
  List, [], ◌∷◌, ◌++◌, map, if◌then◌else◌, if_intro, length, All, sort_on, Sorted, sort_on-Sorted,
  filter, of_key, filter-sort_on, Bool-cases, inl, inr, arith, and-split, str_eq, length-append,
}
use callstorm.Scenario.Validate.{mem}
use mathlib.Core.Path.{subst}
use callstorm.Insights.Digest.{
  TurnLine, CallLine, TurnStats, Acc, empty_acc, add_turn, put_turn, put_turns, row_of, number,
  rows_of, all_turns, sample_errors, take_error, call_stats,
}

abbrev pub of_row : TurnStats → ℤ
of_row r = pos r.turn

-- The turns of a number.
abbrev pub numbered : ℕ → List TurnLine → List TurnLine
numbered k [] = []
numbered k (t ∷ ts) = if t.turn == k then (t ∷ numbered k ts) else numbered k ts

abbrev pub accs : ℕ → List Acc → List Acc
accs k xs = filter (of_key number (pos k)) xs

same_number : (a k : ℕ) → of_key (λ (n : ℕ). pos n) (pos k) a ≡ (a == k)
same_number a k = elim (Bool-cases (a == k)) [
  | inl q ↦ ground (arith, q)
  | inr q ↦ ground (arith, q)
]

module _ (fields : String → ℕ) where
  add_turn-turn : (t : TurnLine) (a : Acc) → (add_turn fields t a).turn ≡ a.turn
  unfolding add_turn
  add_turn-turn t a =
      if_intro (λ (x : Acc). x.turn ≡ a.turn) (ltb 0 (fields t.heard_text)) _ _ (λ _. refl)
        (λ _. refl)

  -- An element of a number comes to the front, and another one goes.
  keep_acc :
      (k : ℕ) (a : Acc) (xs : List Acc) → (a.turn == k) ≡ true → accs k (a ∷ xs) ≡ a ∷ accs k xs
  keep_acc k a xs e = rw (same_number a.turn k, e) refl

  drop_acc : (k : ℕ) (a : Acc) (xs : List Acc) → (a.turn == k) ≡ false → accs k (a ∷ xs) ≡ accs k xs
  drop_acc k a xs e = rw (same_number a.turn k, e) refl

  put_here :
      (t : TurnLine) (a : Acc) (xs : List Acc)
      → (a.turn == t.turn) ≡ true
      → put_turn fields t (a ∷ xs) ≡ add_turn fields t a ∷ xs
  unfolding put_turn
  put_here t a xs e = rw (e) refl

  put_later :
      (t : TurnLine) (a : Acc) (xs : List Acc)
      → (a.turn == t.turn) ≡ false
      → put_turn fields t (a ∷ xs) ≡ a ∷ put_turn fields t xs
  unfolding put_turn
  put_later t a xs e = rw (e) refl

  added_at : (t : TurnLine) (a : Acc) (k : ℕ) → ((add_turn fields t a).turn == k) ≡ (a.turn == k)
  added_at t a k = ap (λ (n : ℕ). n == k) (add_turn-turn t a)

  accs-other :
      (k : ℕ) (t : TurnLine) (xs : List Acc)
      → (t.turn == k) ≡ false
      → accs k (put_turn fields t xs) ≡ accs k xs
  unfolding put_turn
  accs-other k t [] e = drop_acc k _ [] (added_at t (empty_acc t.turn) k ∙ e)
  accs-other k t (a ∷ xs) e = elim (Bool-cases (a.turn == t.turn)) [
    | inl q ↦
        let f : (a.turn == k) ≡ false = ap (λ (n : ℕ). n == k) ((==_iff a.turn t.turn).0 q) ∙ e in
        ap (accs k) (put_here t a xs q)
        ∙ (drop_acc k (add_turn fields t a) xs (added_at t a k ∙ f) ∙ sym (drop_acc k a xs f))
    | inr q ↦
        ap (accs k) (put_later t a xs q)
        ∙ ap (λ (l : List Acc). if of_key number (pos k) a then (a ∷ l) else l)
            (accs-other k t xs e)
  ]

  accs-own :
      (k : ℕ) (t : TurnLine) (xs : List Acc)
      → (t.turn == k) ≡ true
      → accs k (put_turn fields t xs) ≡ put_turn fields t (accs k xs)
  unfolding put_turn
  accs-own k t [] e = keep_acc k _ [] (added_at t (empty_acc t.turn) k ∙ e)
  accs-own k t (a ∷ xs) e = elim (Bool-cases (a.turn == t.turn)) [
    | inl q ↦
        let f : (a.turn == k) ≡ true = ap (λ (n : ℕ). n == k) ((==_iff a.turn t.turn).0 q) ∙ e in
        ap (accs k) (put_here t a xs q)
        ∙ (keep_acc k (add_turn fields t a) xs (added_at t a k ∙ f)
            ∙ (sym (put_here t a (accs k xs) q) ∙ ap (put_turn fields t) (sym (keep_acc k a xs f))))
    | inr q ↦
        let f : (a.turn == k) ≡ false =
          ap (λ (n : ℕ). a.turn == n) (sym ((==_iff t.turn k).0 e)) ∙ q in
        ap (accs k) (put_later t a xs q)
        ∙ (drop_acc k a (put_turn fields t xs) f
            ∙ (accs-own k t xs e ∙ ap (put_turn fields t) (sym (drop_acc k a xs f))))
  ]

  numbered_yes :
      (k : ℕ) (t : TurnLine) (ts : List TurnLine)
      → (t.turn == k) ≡ true
      → numbered k (t ∷ ts) ≡ t ∷ numbered k ts
  numbered_yes k t ts e = rw (e) refl

  numbered_no :
      (k : ℕ) (t : TurnLine) (ts : List TurnLine)
      → (t.turn == k) ≡ false
      → numbered k (t ∷ ts) ≡ numbered k ts
  numbered_no k t ts e = rw (e) refl

  -- What is gathered under a number comes of the turns of that number.
  accs-put_turns :
      (k : ℕ) (ts : List TurnLine) (xs : List Acc)
      → accs k (put_turns fields ts xs) ≡ put_turns fields (numbered k ts) (accs k xs)
  unfolding put_turns
  accs-put_turns k [] xs = refl
  accs-put_turns k (t ∷ ts) xs = elim (Bool-cases (t.turn == k)) [
    | inl q ↦
        accs-put_turns k ts (put_turn fields t xs)
        ∙ (ap (put_turns fields (numbered k ts)) (accs-own k t xs q)
            ∙ ap (λ (l : List TurnLine). put_turns fields l (accs k xs))
                (sym (numbered_yes k t ts q)))
    | inr q ↦
        accs-put_turns k ts (put_turn fields t xs)
        ∙ (ap (put_turns fields (numbered k ts)) (accs-other k t xs q)
            ∙ ap (λ (l : List TurnLine). put_turns fields l (accs k xs))
                (sym (numbered_no k t ts q)))
  ]

  -- At most one is gathered, under a number.
  abbrev IsOne : ℕ → List Acc → Type 0
  IsOne k [] = Unit
  IsOne k (a ∷ []) = a.turn ≡ k
  IsOne k (a ∷ b ∷ xs) = ⊥

  put_turn-IsOne :
      (k : ℕ) (t : TurnLine) (xs : List Acc)
      → (t.turn == k) ≡ true
      → IsOne k xs
      → IsOne k (put_turn fields t xs)
  unfolding put_turn
  put_turn-IsOne k t [] e h = add_turn-turn t (empty_acc t.turn) ∙ (==_iff t.turn k).0 e
  put_turn-IsOne k t (a ∷ []) e h =
      subst (IsOne k)
        (sym (put_here t a [] ((==_iff a.turn t.turn).1 (h ∙ sym ((==_iff t.turn k).0 e)))))
        (add_turn-turn t a ∙ h)
  put_turn-IsOne k t (a ∷ b ∷ xs) e h = absurd h

  put_turns-IsOne :
      (k : ℕ) (ts : List TurnLine) (xs : List Acc)
      → IsOne k xs
      → IsOne k (put_turns fields (numbered k ts) xs)
  unfolding put_turns
  put_turns-IsOne k [] xs h = h
  put_turns-IsOne k (t ∷ ts) xs h = elim (Bool-cases (t.turn == k)) [
    | inl q ↦
        subst (λ (l : List TurnLine). IsOne k (put_turns fields l xs)) (sym (numbered_yes k t ts q))
          (put_turns-IsOne k ts (put_turn fields t xs) (put_turn-IsOne k t xs q h))
    | inr q ↦
        subst (λ (l : List TurnLine). IsOne k (put_turns fields l xs)) (sym (numbered_no k t ts q))
          (put_turns-IsOne k ts xs h)
  ]

  one_row : (k : ℕ) (xs : List Acc) → IsOne k xs → length (map row_of xs) ≤ 1
  one_row k [] h = omega arith
  one_row k (a ∷ []) h = omega arith
  one_row k (a ∷ b ∷ xs) h = absurd h

  filter-rows :
      (k : ℕ) (xs : List Acc)
      → filter (of_key of_row (pos k)) (map row_of xs) ≡ map row_of (accs k xs)
  unfolding row_of
  filter-rows k [] = refl
  filter-rows k (a ∷ xs) = elim (Bool-cases (of_key number (pos k) a)) [
    | inl q ↦ rw (q) (ap (λ (l : List TurnStats). row_of a ∷ l) (filter-rows k xs))
    | inr q ↦ rw (q) (filter-rows k xs)
  ]

  rows-All :
      (n : ℤ) (xs : List Acc)
      → All (λ (a : Acc). n ≤ℤ number a) xs
      → All (λ (r : TurnStats). n ≤ℤ of_row r) (map row_of xs)
  unfolding row_of
  rows-All n [] h = tt
  rows-All n (a ∷ xs) (low, h) = (low, rows-All n xs h)

  rows-Sorted : (xs : List Acc) → Sorted number xs → Sorted of_row (map row_of xs)
  unfolding row_of
  rows-Sorted [] h = tt
  rows-Sorted (a ∷ xs) (low, h) = (rows-All (number a) xs low, rows-Sorted xs h)

  take_error_few :
      (why : String) (errors : List String) → length errors ≤ 3 → length (take_error why errors) ≤ 3
  take_error_few why errors h =
      let fresh = not (mem why errors) && ltb (length errors) 3 in
      if_intro (λ (l : List String). length l ≤ 3) (not (str_eq why "") && fresh)
        (errors ++ (why ∷ [])) errors
        (λ e.
          let room =
            (and-split (not (mem why errors)) (ltb (length errors) 3)
              (and-split (not (str_eq why "")) fresh e).1).1 in
          ground (arith, room, length-append errors (why ∷ [])))
        (λ _. h)

  sample_errors_few :
      (cs : List CallLine) (errors : List String)
      → length errors ≤ 3
      → length (sample_errors cs errors) ≤ 3
  unfolding sample_errors
  sample_errors_few [] errors h = h
  sample_errors_few (c ∷ cs) errors h =
      sample_errors_few cs (take_error c.error errors) (take_error_few c.error errors h)

  -- The digest of a calls log has its rows in the order of the turns' numbers; for each number at most
  -- one, which is what the turns of that number alone make, and none if there are none; and it quotes
  -- three errors at most.
  pub call_stats-Alone :
      (cs : List CallLine) (k : ℕ)
      → Sorted of_row (call_stats fields cs).by_turn
        × (filter (of_key of_row (pos k)) (call_stats fields cs).by_turn
            ≡ map row_of (put_turns fields (numbered k (all_turns cs)) []))
        × (length (filter (of_key of_row (pos k)) (call_stats fields cs).by_turn) ≤ 1)
        × (length (call_stats fields cs).errors ≤ 3)
  unfolding call_stats rows_of
  call_stats-Alone cs k =
      let xs = put_turns fields (all_turns cs) [] in
      let same =
        filter-rows k (sort_on number xs)
        ∙ ap (map row_of) (filter-sort_on number (pos k) xs ∙ accs-put_turns k (all_turns cs) []) in
      (
        rows-Sorted (sort_on number xs) (sort_on-Sorted number xs),
        same,
        subst (λ (l : List TurnStats). length l ≤ 1) (sym same)
            (one_row k _ (put_turns-IsOne k (all_turns cs) [] tt)),
        sample_errors_few cs [] (omega arith),
      )
