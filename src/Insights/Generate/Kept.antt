-- ===== src/Insights/Generate/Kept.antt =====
-- What internal/insights/insights.go, `Generate`, keeps.
use callstorm.Prelude.{
  suc, ◌+◌, ◌≡◌, ◌≢◌, ◌⊎◌, refl, false, Option, none, some, List, [], ◌∷◌, length, All, Bool-cases,
  inl, inr, Runes, equal, arith,
}
use callstorm.Insights.Verify.{Match, Quotient, Value, matches, facts_of, unchecked}
use callstorm.Insights.Verify.Held.{Supported, unchecked-Supported}
use callstorm.Insights.Generate.{
  Insight, Reason, Rejected, Report, Parsed, text_of, Seen, title_at, or_next, repeat_of, put_keys,
  Judged, kept, dropped, unless_repeated, if_checked, if_cited, put_kept, keys_of, judge,
  seen_after, sift, with_headline, generate,
}

-- A key that no seen one equals.
abbrev pub Absent : Seen → Runes → Type 0
Absent seen k = All (λ (s : Runes × Runes). equal s.0 k ≡ false) seen

-- Two lists of keys with none in common.
abbrev pub Apart : List Runes → List Runes → Type 0
Apart earlier later = All (λ (k : Runes). All (λ (e : Runes). equal e k ≡ false) earlier) later

abbrev pub IsTitled : Insight → Type 0
IsTitled i = i.title ≢ []

abbrev pub Titled : Seen → Type 0
Titled seen = All (λ (s : Runes × Runes). s.1 ≢ []) seen

title_at-none : (seen : Seen) (k : Runes) → title_at seen k ≡ none → Absent seen k
unfolding title_at
title_at-none [] k e = tt
title_at-none ((key, title) ∷ seen) k e = elim (Bool-cases (equal key k)) [
  | inl h ↦ let q = rw (h) at e in cc
  | inr h ↦ (h, title_at-none seen k (rw (h) at e))
]

title_at-some :
    (seen : Seen) (k title : Runes) → Titled seen → title_at seen k ≡ some title → title ≢ []
unfolding title_at
title_at-some [] k title h e = cc
title_at-some ((key, t) ∷ seen) k title (h, hs) e = elim (Bool-cases (equal key k)) [
  | inl q ↦ let f = rw (q) at e in λ z. h (cc)
  | inr q ↦ title_at-some seen k title hs (rw (q) at e)
]

first-none :
    (ks : List Runes) (seen : Seen) (k : Runes) (o : Option Runes)
    → Titled seen
    → title_at seen k ≡ o
    → or_next o (repeat_of ks seen) ≡ []
    → Absent seen k × (repeat_of ks seen ≡ [])
first-none ks seen k none h f e = (title_at-none seen k f, e)
first-none ks seen k (some t) h f e = absurd (title_at-some seen k t h f e)

repeat_of-none :
    (ks : List Runes) (seen : Seen) → Titled seen → repeat_of ks seen ≡ [] → All (Absent seen) ks
unfolding repeat_of
repeat_of-none [] seen h e = tt
repeat_of-none (k ∷ ks) seen h e =
    let (here, more) = first-none ks seen k (title_at seen k) h refl e in
    (here, repeat_of-none ks seen h more)

put_keys-Titled :
    (ks : List Runes) (t : Runes) (seen : Seen) → t ≢ [] → Titled seen → Titled (put_keys ks t seen)
put_keys-Titled [] t seen n h = h
put_keys-Titled (k ∷ ks) t seen n h = put_keys-Titled ks t ((k, t) ∷ seen) n (n, h)

-- A key absent from the seen ones after more are put is absent before, and differs from those.
put_keys-Absent :
    (ks : List Runes) (t : Runes) (seen : Seen) (k : Runes)
    → Absent (put_keys ks t seen) k
    → All (λ (e : Runes). equal e k ≡ false) ks × Absent seen k
put_keys-Absent [] t seen k h = (tt, h)
put_keys-Absent (c ∷ ks) t seen k h =
    let (among, more) = put_keys-Absent ks t ((c, t) ∷ seen) k h in ((more.0, among), more.1)

put_keys-Apart :
    (ks : List Runes) (t : Runes) (seen : Seen) (later : List Runes)
    → All (Absent (put_keys ks t seen)) later
    → Apart ks later × All (Absent seen) later
put_keys-Apart ks t seen [] h = (tt, tt)
put_keys-Apart ks t seen (k ∷ later) h =
    let (a, b) = put_keys-Absent ks t seen k h.0 in
    let (c, d) = put_keys-Apart ks t seen later h.1 in ((a, c), (b, d))

-- An insight that cites evidence, and whose numbers the data supports.
abbrev pub Checked : List Quotient → Insight → Type 0
Checked facts i = (i.evidence ≢ []) × All (Supported facts) (matches (text_of i))

module _ (plain_key : Runes → Runes) where
  -- No two of the insights share a key.
  abbrev pub Distinct : List Insight → Type 0
  Distinct [] = Unit
  Distinct (i ∷ is) =
      All (λ (j : Insight). Apart (keys_of plain_key i) (keys_of plain_key j)) is × Distinct is

  record Sound (facts : List Quotient) (seen : Seen) (is : List Insight)
      (out : List Insight × List Rejected) : Type 0 where
    checked : All (Checked facts) out.0
    unseen : All (λ (j : Insight). All (Absent seen) (keys_of plain_key j)) out.0
    apart : Distinct out.0
    all : length out.0 + length out.1 ≡ length is

  kept_inv :
      (facts : List Quotient) (seen : Seen) (i : Insight)
      → Titled seen
      → judge plain_key facts seen i ≡ kept
      → Checked facts i × All (Absent seen) (keys_of plain_key i)
  unfolding judge
  kept_inv facts seen i h e =
      cited i.evidence (unchecked (text_of i) facts) (repeat_of (keys_of plain_key i) seen) refl
        refl refl e
    where
      cited :
          (es : List Runes) (ms : List Match) (first : Runes)
          → i.evidence ≡ es
          → unchecked (text_of i) facts ≡ ms
          → repeat_of (keys_of plain_key i) seen ≡ first
          → if_cited es (if_checked ms (unless_repeated first)) ≡ kept
          → Checked facts i × All (Absent seen) (keys_of plain_key i)
      cited [] ms first a b c f = cc
      cited (x ∷ es) (m ∷ ms) first a b c f = cc
      cited (x ∷ es) [] (d ∷ ds) a b c f = cc
      cited (x ∷ es) [] [] a b c f = (
        ((λ z. cc), unchecked-Supported (text_of i) facts b),
        repeat_of-none (keys_of plain_key i) seen h c,
      )

  keep-Sound :
      (facts : List Quotient) (seen : Seen) (i : Insight) (is : List Insight)
      (out : List Insight × List Rejected)
      → Checked facts i
      → All (Absent seen) (keys_of plain_key i)
      → Sound facts (put_keys (keys_of plain_key i) i.title seen) is out
      → Sound facts seen (i ∷ is) (put_kept i kept out)
  keep-Sound facts seen i is (ks, rs) c a v =
      let (away, unseen) = divide ks v.unseen in
      record {
        checked = (c, v.checked);
        unseen = (a, unseen);
        apart = (away, v.apart);
        all = omega (arith, v.all);
      }
    where
      divide :
          (js : List Insight)
          → All
              (λ (j : Insight).
                All (Absent (put_keys (keys_of plain_key i) i.title seen)) (keys_of plain_key j))
              js
          → All (λ (j : Insight). Apart (keys_of plain_key i) (keys_of plain_key j)) js
            × All (λ (j : Insight). All (Absent seen) (keys_of plain_key j)) js
      divide [] h = (tt, tt)
      divide (j ∷ js) h =
          let (x, y) =
            put_keys-Apart (keys_of plain_key i) i.title seen (keys_of plain_key j) h.0 in
          let (xs, ys) = divide js h.1 in ((x, xs), (y, ys))

  drop-Sound :
      (facts : List Quotient) (seen : Seen) (i : Insight) (is : List Insight) (why : Reason)
      (out : List Insight × List Rejected)
      → Sound facts seen is out
      → Sound facts seen (i ∷ is) (put_kept i (dropped why) out)
  drop-Sound facts seen i is why (ks, rs) v = record {
    checked = v.checked;
    unseen = v.unseen;
    apart = v.apart;
    all = omega (arith, v.all);
  }

  step-Sound :
      (facts : List Quotient) (seen : Seen) (i : Insight) (is : List Insight) (j : Judged)
      → Titled seen
      → judge plain_key facts seen i ≡ j
      → Sound facts
          (seen_after plain_key j i seen)
          is
          (sift plain_key facts (seen_after plain_key j i seen) is)
      → Sound facts seen
          (i ∷ is)
          (put_kept i j (sift plain_key facts (seen_after plain_key j i seen) is))
  step-Sound facts seen i is kept h e v =
      let (c, a) = kept_inv facts seen i h e in keep-Sound facts seen i is _ c a v
  step-Sound facts seen i is (dropped why) h e v = drop-Sound facts seen i is why _ v

  seen_after-Titled :
      (j : Judged) (i : Insight) (seen : Seen)
      → IsTitled i
      → Titled seen
      → Titled (seen_after plain_key j i seen)
  seen_after-Titled kept i seen n h = put_keys-Titled (keys_of plain_key i) i.title seen n h
  seen_after-Titled (dropped why) i seen n h = h

  sift-Sound :
      (facts : List Quotient) (seen : Seen) (is : List Insight)
      → Titled seen
      → All IsTitled is
      → Sound facts seen is (sift plain_key facts seen is)
  unfolding sift
  sift-Sound facts seen [] h n = record { checked = tt; unseen = tt; apart = tt; all = refl }
  sift-Sound facts seen (i ∷ is) h n =
      step-Sound facts seen i is (judge plain_key facts seen i) h refl (
        sift-Sound facts (seen_after plain_key (judge plain_key facts seen i) i seen) is
          (seen_after-Titled (judge plain_key facts seen i) i seen n.0 h) n.1)

  -- The headline is the answer's and every number in it is supported, or it is dropped and one more
  -- rejection says so; every insight is kept or rejected.
  abbrev pub Reported : List Quotient → Parsed → Report → Type 0
  Reported facts p r =
      ((r.headline ≡ p.headline)
        × All (Supported facts) (matches p.headline)
        × (length r.insights + length r.rejected ≡ length p.insights))
      ⊎ ((r.headline ≡ []) × (length r.insights + length r.rejected ≡ suc (length p.insights)))

  -- Where every insight has a title, each one that is kept cites evidence, has no number but small
  -- counts, what the data holds and what is too large for a `float64`, and shares no key, its title's
  -- or one of its evidence, with another one kept. Every insight of the answer is kept or rejected, and
  -- the headline is kept, with its numbers supported in the same way, or is dropped with one more
  -- rejection.
  pub generate-Sound :
      (data_of : Option Value) (p : Parsed)
      → All IsTitled p.insights
      → All (Checked (facts_of data_of)) (generate plain_key data_of p).insights
        × Distinct (generate plain_key data_of p).insights
        × Reported (facts_of data_of) p (generate plain_key data_of p)
  unfolding generate
  generate-Sound data_of p n =
      report (unchecked p.headline (facts_of data_of))
        (sift plain_key (facts_of data_of) [] p.insights) refl
        (sift-Sound (facts_of data_of) [] p.insights tt n)
    where
      report :
          (ms : List Match) (out : List Insight × List Rejected)
          → unchecked p.headline (facts_of data_of) ≡ ms
          → Sound (facts_of data_of) [] p.insights out
          → All (Checked (facts_of data_of)) (with_headline plain_key p.headline ms out).insights
            × Distinct (with_headline plain_key p.headline ms out).insights
            × Reported (facts_of data_of) p (with_headline plain_key p.headline ms out)
      report [] (ks, rs) e v = (
        v.checked,
        v.apart,
        inl (refl, unchecked-Supported p.headline (facts_of data_of) e, omega (arith, v.all)),
      )
      report (m ∷ ms) (ks, rs) e v = (v.checked, v.apart, inr (refl, omega (arith, v.all)))
