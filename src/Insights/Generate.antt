-- ===== src/Insights/Generate.antt =====
-- internal/insights/insights.go: `Generate`, which keeps of a model's analysis what checks out. A
-- text is a list of code points. What the model answered is an argument, decoded; `plain_key` is the
-- source's function of that name, which runs tables of Go's regular expressions and of Unicode.
-- Hashes, the clock and the files are left out.
pub mod Kept
use callstorm.Prelude.{
  ℕ, Bool, true, false, ◌&&◌, Option, none, some, List, [], ◌∷◌, ◌++◌, if◌then◌else◌, map, Runes,
  is_nil, equal, String, Result, ok, err,
}
use callstorm.Insights.Verify.{Match, Quotient, Value, facts_of, unchecked}

pub record Insight : Type 0 where
  pub title : Runes
  pub category : Runes
  pub severity : Runes
  pub evidence : List Runes
  pub finding : Runes
  pub why_it_matters : Runes
  pub next_step : Runes

pub data Reason : Type 0 where
  no_evidence : Reason
  not_in_data : List Match → Reason
  repeats : Runes → Reason

-- Rejected with its title, `none` for the headline.
pub record Rejected : Type 0 where
  pub subject : Option Runes
  pub reason : Reason

pub record Report : Type 0 where
  pub headline : Runes
  pub insights : List Insight
  pub rejected : List Rejected

-- The model's answer.
pub record Parsed : Type 0 where
  pub headline : Runes
  pub insights : List Insight

-- `strings.Join` with a line break.
unfoldable pub joined : Runes → List Runes → Runes
joined t [] = t
joined t (u ∷ us) = t ++ (10 ∷ joined u us)

unfoldable pub text_of : Insight → Runes
unfolding joined
text_of i = joined i.title (i.finding ∷ i.why_it_matters ∷ i.next_step ∷ i.evidence)

abbrev pub Seen : Type 0
Seen = List (Runes × Runes)

unfoldable pub title_at : Seen → Runes → Option Runes
unfolding equal
title_at [] k = none
title_at ((key, title) ∷ seen) k =
    let rest = title_at seen k in if equal key k then some title else rest

abbrev pub or_next : Option Runes → Runes → Runes
or_next none next = next
or_next (some title) next = title

-- `repeatOf`.
unfoldable pub repeat_of : List Runes → Seen → Runes
unfolding title_at
repeat_of [] seen = []
repeat_of (k ∷ ks) seen = or_next (title_at seen k) (repeat_of ks seen)

abbrev pub put_keys : List Runes → Runes → Seen → Seen
put_keys [] title seen = seen
put_keys (k ∷ ks) title seen = put_keys ks title ((k, title) ∷ seen)

abbrev pub title_word : Runes
title_word = 116 ∷ 105 ∷ 116 ∷ 108 ∷ 101 ∷ 32 ∷ []

abbrev pub reject : Runes → Reason → Rejected
reject title why = record { subject = some title; reason = why }

-- Why an insight is not kept, by its checks in turn.
pub data Judged : Type 0 where
  kept : Judged
  dropped : Reason → Judged

abbrev pub unless_repeated : Runes → Judged
unless_repeated [] = kept
unless_repeated (c ∷ cs) = dropped (repeats (c ∷ cs))

abbrev pub if_checked : List Match → Judged → Judged
if_checked [] next = next
if_checked (m ∷ ms) next = dropped (not_in_data (m ∷ ms))

abbrev pub if_cited : List Runes → Judged → Judged
if_cited [] next = dropped no_evidence
if_cited (e ∷ es) next = next

abbrev pub put_kept : Insight → Judged → List Insight × List Rejected → List Insight × List Rejected
put_kept i kept (ks, rs) = (i ∷ ks, rs)
put_kept i (dropped why) (ks, rs) = (ks, reject i.title why ∷ rs)

module _ (plain_key : Runes → Runes) where
  unfoldable pub keys_of : Insight → List Runes
  keys_of i = (title_word ++ plain_key i.title) ∷ map plain_key i.evidence

  unfoldable pub judge : List Quotient → Seen → Insight → Judged
  unfolding keys_of repeat_of text_of unchecked
  judge facts seen i =
      if_cited i.evidence
        (if_checked (unchecked (text_of i) facts) (unless_repeated (repeat_of (keys_of i) seen)))

  abbrev pub seen_after : Judged → Insight → Seen → Seen
  seen_after kept i seen = put_keys (keys_of i) i.title seen
  seen_after (dropped why) i seen = seen

  -- The loop over the insights.
  unfoldable pub sift : List Quotient → Seen → List Insight → List Insight × List Rejected
  unfolding judge keys_of
  sift facts seen [] = ([], [])
  sift facts seen (i ∷ is) =
      put_kept i (judge facts seen i) (sift facts (seen_after (judge facts seen i) i seen) is)

  abbrev pub with_headline : Runes → List Match → List Insight × List Rejected → Report
  with_headline h [] (ks, rs) = record { headline = h; insights = ks; rejected = rs }
  with_headline h (m ∷ ms) (ks, rs) = record {
    headline = [];
    insights = ks;
    rejected = record { subject = none; reason = not_in_data (m ∷ ms) } ∷ rs;
  }

  -- `Generate`, after the model answered.
  unfoldable pub generate : Option Value → Parsed → Report
  unfolding facts_of sift unchecked
  generate data_of p =
      with_headline p.headline (unchecked p.headline (facts_of data_of))
        (sift (facts_of data_of) [] p.insights)
