-- ===== src/Judge/Agreement.antt =====
-- internal/judge/agreement.go: how often the judge agrees with a person. `label_key` is the text
-- that joins a step, a request and a criterion. A score within a range or other fields that the
-- comparison does not read are left out of a judgement.
use callstorm.Prelude.{
  ℕ, suc, ◌+◌, ◌≡◌, refl, ap, String, str_eq, Bool, true, false, not, ◌&&◌, ◌||◌, Option, none,
  some, List, [], ◌∷◌, ◌++◌, if◌then◌else◌, length, arith, if_intro, length-append,
}

pub record Outcome : Type 0 where
  pub criterion : String
  pub met : Bool
  pub evidence : String

pub record Judgement : Type 0 where
  pub step : String
  pub request_id : String
  pub err : String
  pub outcomes : List Outcome

pub record Disagreement : Type 0 where
  pub step : String
  pub request_id : String
  pub criterion : String
  pub judge : Bool
  pub human : Bool
  pub evidence : String

pub record CriterionAgreement : Type 0 where
  pub criterion : String
  pub compared : ℕ
  pub agreed : ℕ

pub record Agreement : Type 0 where
  pub compared : ℕ
  pub agreed : ℕ
  pub criteria : List CriterionAgreement
  pub disagreements : List Disagreement

abbrev same_verdict : Bool → Bool → Bool
same_verdict a b = (a && b) || (not a && not b)

-- The entry of a label; a later one comes first.
unfoldable pub lookup : List (String × Bool) → String → Option Bool
lookup [] k = none
lookup ((k', v) ∷ m) k = if str_eq k' k then some v else lookup m k

abbrev pub bump : Bool → CriterionAgreement → CriterionAgreement
bump same c = record c {
  compared = suc c.compared;
  agreed = if same then suc c.agreed else c.agreed;
}

-- The entry of a criterion is made at its first comparison.
unfoldable pub count_criterion : String → Bool → List CriterionAgreement → List CriterionAgreement
count_criterion name same [] =
    bump same (record { criterion = name; compared = 0; agreed = 0 }) ∷ []
count_criterion name same (c ∷ cs) =
    let rest = count_criterion name same cs in
    if str_eq c.criterion name then bump same c ∷ cs else (c ∷ rest)

abbrev pub missed : Judgement → Outcome → Bool → Disagreement
missed j o h = record {
  step = j.step;
  request_id = j.request_id;
  criterion = o.criterion;
  judge = o.met;
  human = h;
  evidence = o.evidence;
}

unfoldable pub compare_outcome : Judgement → Outcome → Option Bool → Agreement → Agreement
unfolding count_criterion
compare_outcome j o none a = a
compare_outcome j o (some h) a =
    let same = same_verdict h o.met in
    let counted = record a {
      compared = suc a.compared;
      criteria = count_criterion o.criterion same a.criteria;
    } in
    if same
    then record counted { agreed = suc a.agreed }
    else record counted { disagreements = a.disagreements ++ (missed j o h ∷ []) }

abbrev pub nothing_compared : Agreement
nothing_compared = record { compared = 0; agreed = 0; criteria = []; disagreements = [] }

module _ (label_key : String → String → String → String) where
  unfoldable pub add_labels : Judgement → List Outcome → List (String × Bool) → List (String × Bool)
  add_labels l [] m = m
  add_labels l (o ∷ os) m = add_labels l os ((label_key l.step l.request_id o.criterion, o.met) ∷ m)

  unfoldable pub labels_of : List Judgement → List (String × Bool) → List (String × Bool)
  unfolding add_labels
  labels_of [] m = m
  labels_of (l ∷ ls) m =
      labels_of ls (if not (str_eq l.err "") then m else add_labels l l.outcomes m)

  unfoldable pub compare_outcomes :
      List (String × Bool) → Judgement → List Outcome → Agreement → Agreement
  unfolding lookup compare_outcome
  compare_outcomes human j [] a = a
  compare_outcomes human j (o ∷ os) a =
      compare_outcomes human j os
        (compare_outcome j o (lookup human (label_key j.step j.request_id o.criterion)) a)

  unfoldable pub compare_all : List (String × Bool) → List Judgement → Agreement → Agreement
  unfolding compare_outcomes
  compare_all human [] a = a
  compare_all human (j ∷ js) a =
      compare_all human js
        (if not (str_eq j.err "") then a else compare_outcomes human j j.outcomes a)

  unfoldable pub agree : List Judgement → List Judgement → Agreement
  unfolding labels_of compare_all
  agree judged labels = compare_all (labels_of labels []) judged nothing_compared

-- Every comparison is counted once, overall and for its criterion.
abbrev pub compared_by : List CriterionAgreement → ℕ
compared_by [] = 0
compared_by (c ∷ cs) = c.compared + compared_by cs

abbrev pub agreed_by : List CriterionAgreement → ℕ
agreed_by [] = 0
agreed_by (c ∷ cs) = c.agreed + agreed_by cs

pub record IsTally (a : Agreement) : Type 0 where
  pub split : a.compared ≡ a.agreed + length a.disagreements
  pub by_criterion : a.compared ≡ compared_by a.criteria
  pub agreed_by_criterion : a.agreed ≡ agreed_by a.criteria

abbrev one_if : Bool → ℕ
one_if true = 1
one_if false = 0

bump_counts : (same : Bool) (c : CriterionAgreement) → (bump same c).agreed ≡ c.agreed + one_if same
bump_counts true c = omega arith
bump_counts false c = omega arith

abbrev Counted : List CriterionAgreement → Bool → List CriterionAgreement → Type 0
Counted cs same out =
    (compared_by out ≡ suc (compared_by cs)) × (agreed_by out ≡ agreed_by cs + one_if same)

count_criterion_lem :
    (name : String) (same : Bool) (cs : List CriterionAgreement)
    → Counted cs same (count_criterion name same cs)
unfolding count_criterion
count_criterion_lem name same [] = (
  omega arith,
  omega (arith, bump_counts same (record { criterion = name; compared = 0; agreed = 0 })),
)
count_criterion_lem name same (c ∷ cs) =
    let (p, q) = count_criterion_lem name same cs in
    if_intro (Counted (c ∷ cs) same) (str_eq c.criterion name) (bump same c ∷ cs)
      (c ∷ count_criterion name same cs) (λ e. (omega arith, omega (arith, bump_counts same c)))
      (λ e. (omega (arith, p), omega (arith, q)))

compare_outcome-IsTally :
    (j : Judgement) (o : Outcome) (v : Option Bool) (a : Agreement)
    → IsTally a
    → IsTally (compare_outcome j o v a)
unfolding compare_outcome
compare_outcome-IsTally j o none a t = t
compare_outcome-IsTally j o (some h) a t =
    let same = same_verdict h o.met in
    let (p, q) = count_criterion_lem o.criterion same a.criteria in
    if_intro IsTally same _ _
      (λ e. record {
        split = omega (arith, t.split);
        by_criterion = omega (arith, p, t.by_criterion);
        agreed_by_criterion = omega (arith, q, ap one_if e, t.agreed_by_criterion);
      })
      (λ e. record {
        split = omega (arith, t.split, length-append a.disagreements (missed j o h ∷ []));
        by_criterion = omega (arith, p, t.by_criterion);
        agreed_by_criterion = omega (arith, q, ap one_if e, t.agreed_by_criterion);
      })

module _ (label_key : String → String → String → String) where
  compare_outcomes-IsTally :
      (human : List (String × Bool)) (j : Judgement) (os : List Outcome) (a : Agreement)
      → IsTally a
      → IsTally (compare_outcomes label_key human j os a)
  unfolding compare_outcomes
  compare_outcomes-IsTally human j [] a t = t
  compare_outcomes-IsTally human j (o ∷ os) a t =
      compare_outcomes-IsTally human j os _ (compare_outcome-IsTally j o _ a t)

  compare_all-IsTally :
      (human : List (String × Bool)) (js : List Judgement) (a : Agreement)
      → IsTally a
      → IsTally (compare_all label_key human js a)
  unfolding compare_all
  compare_all-IsTally human [] a t = t
  compare_all-IsTally human (j ∷ js) a t = compare_all-IsTally human js _ (
      if_intro IsTally (not (str_eq j.err "")) _ _ (λ e. t)
        (λ e. compare_outcomes-IsTally human j j.outcomes a t))

  -- Every comparison is an agreement or a listed disagreement, and the counts of the criteria add
  -- up to the overall counts.
  pub agree-IsTally : (judged labels : List Judgement) → IsTally (agree label_key judged labels)
  unfolding agree
  agree-IsTally judged labels =
      compare_all-IsTally _ judged nothing_compared
        (record { split = refl; by_criterion = refl; agreed_by_criterion = refl })
