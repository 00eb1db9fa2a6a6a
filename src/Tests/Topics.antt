-- ===== src/Tests/Topics.antt =====
-- A cluster whose assignment topic was created with one partition.
use callstorm.Prelude.{
  ℕ, ◌+◌, ◌≤◌, ◌≡◌, refl, ltb, String, str_eq, str_eq_iff, true, none, some, List, [], ◌∷◌,
  if◌then◌else◌, ok, Bool-cases, inl, inr, arith, ok-injective,
}
use mathlib.Core.Path.{subst}
use callstorm.Bus.Dispatcher.{
  Admin, already_exists, assignment_topic, assignment_partitions, partitions_of, ensure_topics,
}
use callstorm.Bus.Dispatcher.Wide.{IsAdmin, ensure_topics-Wide}

-- How many partitions each topic has, or none.
abbrev Cluster : Type 0
Cluster = String → ℕ

abbrev at_topic : String → ℕ → Cluster → Cluster
at_topic topic n s = λ u. if str_eq u topic then n else s u

abbrev admin : Admin Cluster
admin = record {
  create_topics = λ s n topic.
      if ltb 0 (s topic)
      then (s, ok (some already_exists ∷ []))
      else (at_topic topic n s, ok (none ∷ []));
  list_topics = λ s topic. (s, ok ((topic, s topic) ∷ []));
  create_partitions = λ s k topic. (at_topic topic (s topic + k) s, ok (none ∷ []));
}

abbrev width : Cluster → String → ℕ
width s t = s t

grown :
    (topic : String) (n : ℕ) (s : Cluster) (t : String) → s topic ≤ n → s t ≤ at_topic topic n s t
grown topic n s t h = elim (Bool-cases (str_eq t topic)) [
  | inl q ↦ rw (q, (str_eq_iff t topic).0 q) h
  | inr q ↦ rw (q) (omega arith)
]

itself : (t : String) → str_eq t t ≡ true
itself t = (str_eq_iff t t).1 refl

admin-IsAdmin : IsAdmin admin width
unfolding partitions_of
admin-IsAdmin = record {
  create_keeps = λ s n topic t. elim (Bool-cases (ltb 0 (s topic))) [
    | inl q ↦ rw (q) (omega arith)
    | inr q ↦ rw (q) (grown topic n s t (ground (arith, q)))
  ];
  list_keeps = λ s topic t. omega arith;
  listed = λ s topic ts e.
      subst (λ (l : List (String × ℕ)). partitions_of l topic ≡ s topic) (ok-injective e)
        (rw (itself topic) refl);
  add_keeps = λ s k topic t. grown topic (s topic + k) s t (omega arith);
  added = λ s k topic rs e f. rw (itself topic) (omega arith);
}

abbrev narrow : Cluster
narrow = at_topic assignment_topic 1 (λ u. 0)

ensure_topics-Wide_example :
    (assignment_partitions ≤ width (ensure_topics admin narrow).0 assignment_topic)
    × ((u : String) → width narrow u ≤ width (ensure_topics admin narrow).0 u)
unfolding ensure_topics
ensure_topics-Wide_example = ensure_topics-Wide admin width admin-IsAdmin narrow refl
